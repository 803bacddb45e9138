-- ===== src/Datetime/Resolve/Errors.antt =====
-- `parse` of util/datetime/lexer.go, and the errors that the calls of the parser's have recorded.
use sp0rkle.Prelude.{ℕ, Bytes, List, Bool, ◌≡◌, refl, arith, Option, none, some}
use sp0rkle.Datetime.Time.{TimeLib}
use sp0rkle.Datetime.State.{DateLexer, date_lexer}
use sp0rkle.Datetime.Resolve.{
  parse, resolve, resolve_first, resolve_time, resolve_date, resolve_day, resolve_offset, dmy_case,
  day_offset, month_offset, resolve_month_day,
}

module _ (T : TimeLib) where
  resolve_first-errors :
      (l : DateLexer T) (es : List Bytes)
      → resolve_first T (record l { errors = es }) ≡ record (resolve_first T l) { errors = es }
  unfolding resolve_first resolve_time resolve_date resolve_day resolve_offset
  resolve_first-errors l es = ground arith

  abbrev with_errors : List Bytes → DateLexer T → DateLexer T
  with_errors es l = record l { errors = es }

  abbrev rel_of : Option (DateLexer T) → Option T.Time
  rel_of none = none
  rel_of (some l) = some l.rel

  dmy_case-errors :
      (a b c d : Bool) (l : DateLexer T) (es : List Bytes)
      → rel_of (dmy_case T a b c d (with_errors es l)) ≡ rel_of (dmy_case T a b c d l)
  unfolding dmy_case day_offset month_offset resolve_month_day
  dmy_case-errors a b c d l es = ground arith

  resolve-errors : (l : DateLexer T) (es : List Bytes) → resolve T (with_errors es l) ≡ resolve T l
  unfolding resolve
  resolve-errors l es =
      let r = resolve_first T l in
      let same =
        dmy_case-errors r.states.have_days r.states.have_months r.states.have_dyear
          r.states.have_myear r es in
      rw (resolve_first-errors l es) ground (arith, same)

  -- If the generated parser accepts its input, what parse returns does not depend on the errors
  -- that the date lexer has recorded.
  pub parse-errors :
      (yy_parse : DateLexer T → ℕ × DateLexer T) (input : Bytes) (rel : T.Time) (es : List Bytes)
      → (yy_parse (date_lexer T input rel)).0 ≡ 0
      → parse T (λ l. let (ret, l') = yy_parse l in (ret, with_errors es l')) input rel
        ≡ parse T yy_parse input rel
  unfolding parse
  parse-errors yy_parse input rel es accepted =
      let l = (yy_parse (date_lexer T input rel)).1 in rw (accepted, resolve-errors l es) refl
