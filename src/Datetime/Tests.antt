-- ===== src/Datetime/Tests.antt =====
-- The theorems on util/datetime at concrete inputs, over a calendar of one endless month.
use sp0rkle.Prelude.{
  ◌↔◌, ℕ, ◌/◌, ◌≡◌, refl, ap, ◌∙◌, true, none, List, [], ◌∷◌, ℤ, pos, negsuc, ◌+ℤ◌, ◌-ℤ◌, ◌*ℤ◌,
  ◌≤ℤ◌, arith, int_laws,
}
use sp0rkle.Datetime.Time.{TimeLib, IsCalendar, week_mod}
use sp0rkle.Datetime.State.{DateLexer, date_lexer}
use sp0rkle.Datetime.Setters.{set_time, set_year, set_months, set_week, midnight}
use sp0rkle.Datetime.Calls.{Call, calls, call_time, call_year, call_months}
use sp0rkle.Datetime.Resolve.{
  panicked, resolve, resolve_first, resolve_time, dmy_case, day_offset, month_offset,
}
use sp0rkle.Datetime.Resolve.Panics.{too_complicated, resolve_panics}
use sp0rkle.Datetime.Resolve.Weekday.{Within, week_mod-weeks, day_offset-Within}
use sp0rkle.Datetime.Resolve.Month.{Folds, month_offset-Folds}
use sp0rkle.Datetime.Week.{set_week-Weekday}

-- A time is the number of its day, of which day 0 is a Sunday.
abbrev days_only : TimeLib
days_only = record {
  Time = ℤ;
  Location = ℕ;
  date = λ _ _ d _ _ _ _. d;
  unix = λ s. s;
  zero_time = pos 0;
  local = 0;
  utc = 0;
  date_of = λ t. (pos 1, pos 1, t);
  clock_of = λ _. (pos 0, pos 0, pos 0);
  weekday = week_mod;
  location = λ _. 0;
  add_date = λ t _ _ n. t +ℤ n;
  add = λ t _. t;
}

week_mod_bounds : (t : ℤ) → (pos 0 ≤ℤ week_mod t) × (week_mod t ≤ℤ pos 6)
unfolding week_mod
week_mod_bounds t = ground arith

week_mod_quot : (t : ℤ) → (k : ℤ) × (t ≡ k *ℤ pos 7 +ℤ week_mod t)
unfolding week_mod ◌+ℤ◌ ◌*ℤ◌
week_mod_quot (pos t) = (pos (t / 7), ground arith)
week_mod_quot (negsuc t) = (negsuc (t / 7), ground arith)

week_mod-add : (t n : ℤ) → week_mod (t +ℤ n) ≡ week_mod (week_mod t +ℤ n)
week_mod-add t n =
    let (k, e) = week_mod_quot t in
    let regroup : k *ℤ pos 7 +ℤ week_mod t +ℤ n ≡ k *ℤ pos 7 +ℤ (week_mod t +ℤ n) =
      omega int_laws in
    week_mod-weeks (t +ℤ n) (week_mod t +ℤ n) k (ap (λ z. z +ℤ n) e ∙ regroup)

days_only-IsCalendar : IsCalendar days_only
days_only-IsCalendar = record {
  weekday_bounds = week_mod_bounds;
  month_bounds = λ _. (omega arith, omega arith);
  add_date_weekday = week_mod-add;
  date_weekday = λ _ _ d n _. week_mod-add d n;
}

-- "10:10:10 2012 march": the year goes to the days, as there is no month so far.
abbrev year_then_month : List (Call days_only)
year_then_month =
    call_time (pos 10) (pos 10) (pos 10) none
    ∷ call_year (pos 2012)
    ∷ call_months (pos 3) (pos 0) none
    ∷ []

abbrev told : DateLexer days_only
told = calls days_only year_then_month (date_lexer days_only [] (pos 10))

resolve_panics_example : (resolve days_only told ≡ panicked) ↔ (too_complicated told.states ≡ true)
resolve_panics_example = resolve_panics days_only year_then_month [] (pos 10)

year_then_month-panics : resolve days_only told ≡ panicked
unfolding resolve resolve_first resolve_time dmy_case set_time set_year set_months
year_then_month-panics = refl

-- "next Monday" on a Wednesday.
abbrev next_monday : DateLexer days_only
next_monday = record (date_lexer days_only [] (pos 10)) {
  days = record { day = pos 1; num = pos 1; year = pos 0 };
}

day_offset-Within_example :
    (k : ℤ) × ((day_offset days_only next_monday).rel ≡ pos 10 +ℤ k)
    × (week_mod (day_offset days_only next_monday).rel ≡ pos 1)
    × Within (pos 1) k
day_offset-Within_example =
    day_offset-Within days_only next_monday days_only-IsCalendar (omega arith) (omega arith)
      (omega arith, omega arith)

-- "September" in January.
abbrev september : DateLexer days_only
september = record (date_lexer days_only [] (pos 10)) {
  months = record { month = pos 9; num = pos 0; year = pos 0 };
}

month_offset-Folds_example :
    (k : ℤ) × ((month_offset days_only september).rel ≡ pos 10 +ℤ pos 0) × Folds (pos 9 -ℤ pos 1) k
month_offset-Folds_example =
    month_offset-Folds days_only september (omega arith) (omega arith) (omega arith) (omega arith)
      refl

set_week-Weekday_example :
    (d : ℤ) × (week_mod (midnight days_only (pos 2024) (pos 1) d) ≡ pos 1)
    × (d ≤ℤ pos 4)
    × (pos 4 ≤ℤ d +ℤ pos 6)
    × ((set_week days_only (pos 2024) (pos 10) (pos 3) next_monday).date
        ≡ midnight days_only
            (pos 2024)
            (pos 1)
            (d +ℤ ((pos 10 -ℤ pos 1) *ℤ pos 7 +ℤ (pos 3 -ℤ pos 1))))
    × (week_mod (set_week days_only (pos 2024) (pos 10) (pos 3) next_monday).date
        ≡ week_mod (pos 3))
set_week-Weekday_example =
    set_week-Weekday days_only (pos 2024) (pos 10) (pos 3) next_monday days_only-IsCalendar
      (omega arith, omega arith) (omega arith, omega arith) refl
