-- ===== src/Datetime/State.antt =====
-- util/datetime/lexer.go: what the date lexer knows of a date. The debug output, and the `String`
-- methods for it, are left out.
use sp0rkle.Prelude.{Bool, false, ℤ, pos, negsuc, add_int, mul_int, Bytes, List, [], ◌∷◌, ◌++◌}
use sp0rkle.Util.Lexer.{Lexer, lexer}
use sp0rkle.Datetime.Time.{TimeLib}

-- `relTime`, with the field of an `offset` for its place.
pub record RelTime : Type 0 where
  pub sec : ℤ
  pub min : ℤ
  pub hour : ℤ
  pub day : ℤ
  pub month : ℤ
  pub year : ℤ

pub data Offset : Type 0 where
  o_sec : Offset
  o_min : Offset
  o_hour : Offset
  o_day : Offset
  o_month : Offset
  o_year : Offset

pub record RelDays : Type 0 where
  pub day : ℤ
  pub num : ℤ
  pub year : ℤ

pub record RelMonths : Type 0 where
  pub month : ℤ
  pub num : ℤ
  pub year : ℤ

-- `lexerState`, a Boolean for each bit.
pub record States : Type 0 where
  pub have_time : Bool
  pub have_date : Bool
  pub have_day : Bool
  pub have_days : Bool
  pub have_dyear : Bool
  pub have_months : Bool
  pub have_myear : Bool
  pub have_offset : Bool
  pub have_ago : Bool

abbrev pub no_states : States
no_states = record {
  have_time = false;
  have_date = false;
  have_day = false;
  have_days = false;
  have_dyear = false;
  have_months = false;
  have_myear = false;
  have_offset = false;
  have_ago = false;
}

abbrev pub no_offsets : RelTime
no_offsets = record {
  sec = pos 0;
  min = pos 0;
  hour = pos 0;
  day = pos 0;
  month = pos 0;
  year = pos 0;
}

-- `l.offsets[off] += rel`
unfoldable pub add_to : Offset → ℤ → RelTime → RelTime
add_to o_sec n r = record r { sec = add_int r.sec n }
add_to o_min n r = record r { min = add_int r.min n }
add_to o_hour n r = record r { hour = add_int r.hour n }
add_to o_day n r = record r { day = add_int r.day n }
add_to o_month n r = record r { month = add_int r.month n }
add_to o_year n r = record r { year = add_int r.year n }

-- `l.offsets[i] *= -1`, for each of them.
unfoldable pub negated : RelTime → RelTime
negated r = record {
  sec = mul_int r.sec (negsuc 0);
  min = mul_int r.min (negsuc 0);
  hour = mul_int r.hour (negsuc 0);
  day = mul_int r.day (negsuc 0);
  month = mul_int r.month (negsuc 0);
  year = mul_int r.year (negsuc 0);
}

module _ (T : TimeLib) where
  pub record DateLexer : Type 0 where
    pub lex : Lexer
    pub rel : T.Time
    pub time : T.Time
    pub date : T.Time
    pub day : ℤ
    pub offsets : RelTime
    pub days : RelDays
    pub months : RelMonths
    pub states : States
    pub errors : List Bytes

  -- `&dateLexer{Lexer: &util.Lexer{Input: input}, rel: rel}`
  abbrev pub date_lexer : Bytes → T.Time → DateLexer
  date_lexer input rel = record {
    lex = lexer input;
    rel = rel;
    time = T.zero_time;
    date = T.zero_time;
    day = pos 0;
    offsets = no_offsets;
    days = record { day = pos 0; num = pos 0; year = pos 0 };
    months = record { month = pos 0; num = pos 0; year = pos 0 };
    states = no_states;
    errors = [];
  }

  -- `l.Error(e)`
  abbrev pub add_error : Bytes → DateLexer → DateLexer
  add_error e l = record l { errors = l.errors ++ (e ∷ []) }
