-- ===== src/Datetime/Resolve/Panics.antt =====
-- `resolve` of util/datetime/lexer.go: for which states its last switch panics.
use sp0rkle.Prelude.{Bool, true, false, not, ◌&&◌, ◌||◌, none, Bytes, List, ◌≡◌, ◌↔◌, arith}
use sp0rkle.Datetime.Time.{TimeLib}
use sp0rkle.Datetime.State.{States, DateLexer, date_lexer}
use sp0rkle.Datetime.Calls.{Call, calls, HasMonth, calls-HasMonth}
use sp0rkle.Datetime.Resolve.{
  panicked, dmy_case, resolve_first, resolve, resolve_time, resolve_date, resolve_day,
  resolve_offset,
}

-- A month, and a year that a day has come with or that stands alone, with nothing in conflict.
abbrev pub too_complicated : States → Bool
too_complicated s = s.have_months && s.have_dyear && not s.have_date && not s.have_myear

module _ (T : TimeLib) where
  resolve_first_states : (l : DateLexer T) → (resolve_first T l).states ≡ l.states
  unfolding resolve_first resolve_time resolve_date resolve_day resolve_offset
  resolve_first_states l = ground arith

  dmy_case-none :
      (days months dyear myear : Bool) (l : DateLexer T)
      → (myear ≡ true → months ≡ true)
      → dyear && myear ≡ false
      → days || months || dyear || myear ≡ true
      → (dmy_case T days months dyear myear l ≡ none) ↔ (months && dyear ≡ true)
  unfolding dmy_case
  dmy_case-none days months dyear myear l h c d = ground arith

  panics_iff :
      (l : DateLexer T)
      → HasMonth T l.states
      → (resolve T l ≡ panicked) ↔ (too_complicated l.states ≡ true)
  unfolding resolve
  panics_iff l h =
      let s = l.states in
      let r = resolve_first T l in
      let same = resolve_first_states l in
      let case = dmy_case-none s.have_days s.have_months s.have_dyear s.have_myear r h in
      rw (same) ground (arith, case)

  -- After any calls of the parser on a new date lexer, resolve panics just when the lexer has a
  -- month and a year that is not of the months, and no date and no year of the months.
  pub resolve_panics :
      (cs : List (Call T)) (input : Bytes) (rel : T.Time)
      → (resolve T (calls T cs (date_lexer T input rel)) ≡ panicked)
        ↔ (too_complicated (calls T cs (date_lexer T input rel)).states ≡ true)
  resolve_panics cs input rel =
      panics_iff _ (calls-HasMonth T cs (date_lexer T input rel) (λ e. absurd (ground arith)))
