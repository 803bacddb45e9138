-- ===== src/Datetime/Time.antt =====
-- What util/datetime/lexer.go needs of package time. A month is its number from 1 on, a weekday its
-- number from 0, which is Sunday; nanoseconds, always 0 here, are left out.
use sp0rkle.Prelude.{◌-◌, ◌%◌, ◌≡◌, ℤ, pos, negsuc, ◌+ℤ◌, ◌≤ℤ◌}

pub record TimeLib : Type 1 where
  pub Time : Type 0
  pub Location : Type 0
  -- `time.Date(y, m, d, h, n, s, 0, loc)`, `time.Unix(sec, 0)`, `time.Local`, `time.UTC`.
  pub date : ℤ → ℤ → ℤ → ℤ → ℤ → ℤ → Location → Time
  pub unix : ℤ → Time
  pub zero_time : Time
  pub local : Location
  pub utc : Location
  -- `t.Date()`, `t.Clock()` and the other methods.
  pub date_of : Time → ℤ × ℤ × ℤ
  pub clock_of : Time → ℤ × ℤ × ℤ
  pub weekday : Time → ℤ
  pub location : Time → Location
  pub add_date : Time → ℤ → ℤ → ℤ → Time
  -- `t.Add(d)`, with the duration in nanoseconds.
  pub add : Time → ℤ → Time

-- `t.Year()`, `t.Month()` and `t.Day()` are what `t.Date()` returns.
module _ (T : TimeLib) where
  abbrev pub year : T.Time → ℤ
  year t = (T.date_of t).0

  abbrev pub month : T.Time → ℤ
  month t = (T.date_of t).1

  abbrev pub day : T.Time → ℤ
  day t = (T.date_of t).2

-- The weekday that is so many days after Sunday.
unfoldable pub week_mod : ℤ → ℤ
week_mod (pos n) = pos (n % 7)
week_mod (negsuc n) = pos (6 - n % 7)

-- A calendar: weekdays and months are those from Sunday and from January on, as the
-- documentation says, and days go through the weekdays one by one at any time and midnight. Of
-- package time this holds where no clock jumps over the time of day and the numbers are small.
pub record IsCalendar (T : TimeLib) : Type 0 where
  pub weekday_bounds : (t : T.Time) → (pos 0 ≤ℤ T.weekday t) × (T.weekday t ≤ℤ pos 6)
  pub month_bounds : (t : T.Time) → (pos 1 ≤ℤ month T t) × (month T t ≤ℤ pos 12)
  pub add_date_weekday :
      (t : T.Time) (n : ℤ)
      → T.weekday (T.add_date t (pos 0) (pos 0) n) ≡ week_mod (T.weekday t +ℤ n)
  pub date_weekday :
      (y m d n : ℤ) (l : T.Location)
      → T.weekday (T.date y m (d +ℤ n) (pos 0) (pos 0) (pos 0) l)
        ≡ week_mod (T.weekday (T.date y m d (pos 0) (pos 0) (pos 0) T.utc) +ℤ n)
