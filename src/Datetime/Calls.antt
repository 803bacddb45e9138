-- ===== src/Datetime/Calls.antt =====
-- util/datetime: the calls by which the parser fills the date lexer, in any order.
use sp0rkle.Prelude.{arith, Option, ℤ, true, ◌≡◌, List, [], ◌∷◌}
use sp0rkle.Datetime.Time.{TimeLib}
use sp0rkle.Datetime.State.{Offset, States, DateLexer}
use sp0rkle.Datetime.Setters.{
  set_unix, set_time, set_hms, set_date, set_day, set_days, set_week, set_months, set_year, set_ymd,
  add_offset, set_ago,
}

-- A method and its arguments.
pub data Call (T : TimeLib) : Type 0 where
  call_unix : ℤ → Call T
  call_time : ℤ → ℤ → ℤ → Option T.Location → Call T
  call_hms : ℤ → ℤ → Option T.Location → Call T
  call_date : ℤ → ℤ → ℤ → Call T
  call_day : ℤ → Call T
  call_days : ℤ → ℤ → Option ℤ → Call T
  call_week : ℤ → ℤ → ℤ → Call T
  call_months : ℤ → ℤ → Option ℤ → Call T
  call_year : ℤ → Call T
  call_ymd : ℤ → ℤ → Call T
  call_offset : Offset → ℤ → Call T
  call_ago : Call T

module _ (T : TimeLib) where
  abbrev pub call : Call T → DateLexer T → DateLexer T
  call (call_unix e) = set_unix T e
  call (call_time h m s loc) = set_time T h m s loc
  call (call_hms hms ln loc) = set_hms T hms ln loc
  call (call_date y m d) = set_date T y m d
  call (call_day d) = set_day T d
  call (call_days d n y) = set_days T d n y
  call (call_week y week wday) = set_week T y week wday
  call (call_months m n y) = set_months T m n y
  call (call_year y) = set_year T y
  call (call_ymd ymd ln) = set_ymd T ymd ln
  call (call_offset off n) = add_offset T off n
  call call_ago = set_ago T

  abbrev pub calls : List (Call T) → DateLexer T → DateLexer T
  calls [] l = l
  calls (c ∷ cs) l = calls cs (call c l)

  -- A year of the months has come with a month.
  abbrev pub HasMonth : States → Type 0
  HasMonth s = s.have_myear ≡ true → s.have_months ≡ true

  call-HasMonth : (c : Call T) (l : DateLexer T) → HasMonth l.states → HasMonth (call c l).states
  unfolding set_unix set_time set_hms set_date set_day set_days set_week set_months set_year set_ymd
      add_offset set_ago
  call-HasMonth c l h = ground arith

  pub calls-HasMonth :
      (cs : List (Call T)) (l : DateLexer T) → HasMonth l.states → HasMonth (calls cs l).states
  calls-HasMonth [] l h = h
  calls-HasMonth (c ∷ cs) l h = calls-HasMonth cs (call c l) (call-HasMonth c l h)
