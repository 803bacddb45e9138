-- ===== src/Datetime/Week.antt =====
-- `setWeek` of util/datetime/lexer.go finds the weekday that it has been given.
use sp0rkle.Prelude.{
  ◌≡◌, refl, ap, ◌∙◌, ◌⊎◌, inl, inr, false, ℤ, pos, negsuc, ◌+ℤ◌, ◌-ℤ◌, ◌*ℤ◌, ◌≤ℤ◌, wrap_fits,
  int_laws, arith, *ℤ_parts,
}
use sp0rkle.Datetime.Time.{TimeLib, IsCalendar, week_mod}
use sp0rkle.Datetime.State.{DateLexer}
use sp0rkle.Datetime.Setters.{jan4, week_day, set_date, set_week, midnight}
use sp0rkle.Datetime.Resolve.Weekday.{IsSmall, week_mod-weeks}

one_day : week_mod (pos 1) ≡ pos 1
unfolding week_mod
one_day = refl

module _ (T : TimeLib) where
  -- 4 January is from the first to the seventh day of its week, and its weekday is this up to weeks.
  jan4_bounds :
      (y : ℤ)
      → IsCalendar T
      → (pos 1 ≤ℤ jan4 T y)
        × (jan4 T y ≤ℤ pos 7)
        × ((T.weekday (T.date y (pos 1) (pos 4) (pos 0) (pos 0) (pos 0) T.utc) ≡ jan4 T y)
            ⊎ (T.weekday (T.date y (pos 1) (pos 4) (pos 0) (pos 0) (pos 0) T.utc)
                ≡ jan4 T y -ℤ pos 7))
  unfolding jan4 ◌-ℤ◌
  jan4_bounds y c =
      let bounds = c.weekday_bounds (T.date y (pos 1) (pos 4) (pos 0) (pos 0) (pos 0) T.utc) in
      ground (arith, bounds)

  week_day_eq :
      (y week wday : ℤ)
      → IsCalendar T
      → IsSmall week
      → IsSmall wday
      → week_day T y week wday ≡ pos 4 +ℤ (week *ℤ pos 7 +ℤ wday -ℤ pos 7 -ℤ jan4 T y)
  unfolding week_day
  week_day_eq y week wday c small small' =
      let (lo, hi, _) = jan4_bounds y c in
      let seven = *ℤ_parts week 7 in
      let a = wrap_fits (week *ℤ pos 7) (omega (int_laws, seven)) (omega (int_laws, seven)) in
      let b =
        wrap_fits (week *ℤ pos 7 +ℤ wday) (omega (int_laws, seven)) (omega (int_laws, seven)) in
      let d =
        wrap_fits (week *ℤ pos 7 +ℤ wday -ℤ jan4 T y) (omega (int_laws, seven, lo, hi))
          (omega (int_laws, seven, lo, hi)) in
      let e =
        wrap_fits (week *ℤ pos 7 +ℤ wday -ℤ jan4 T y -ℤ pos 3) (omega (int_laws, seven, lo, hi))
          (omega (int_laws, seven, lo, hi)) in
      rw (a, b, d, e) omega int_laws

  -- If weekdays run as in a calendar and the numbers are small, there is a Monday, which is the
  -- latest up to 4 January of the year, such that setWeek on a lexer with no date sets the date to
  -- midnight of the day that is as many weeks and days behind this Monday as the ISO numbers, which
  -- begin at 1, say; and this day has the weekday asked for.
  pub set_week-Weekday :
      (y week wday : ℤ) (l : DateLexer T)
      → IsCalendar T
      → IsSmall week
      → IsSmall wday
      → l.states.have_date ≡ false
      → (d : ℤ) × (T.weekday (midnight T y (pos 1) d) ≡ pos 1)
        × (d ≤ℤ pos 4)
        × (pos 4 ≤ℤ d +ℤ pos 6)
        × ((set_week T y week wday l).date
            ≡ midnight T y (pos 1) (d +ℤ ((week -ℤ pos 1) *ℤ pos 7 +ℤ (wday -ℤ pos 1))))
        × (T.weekday (set_week T y week wday l).date ≡ week_mod wday)
  unfolding set_week set_date
  set_week-Weekday y week wday l c small small' fresh =
      let j = jan4 T y in
      let n = week *ℤ pos 7 +ℤ wday -ℤ pos 7 -ℤ j in
      let d = pos 4 +ℤ (pos 1 -ℤ j) in
      let w = T.weekday (T.date y (pos 1) (pos 4) (pos 0) (pos 0) (pos 0) T.utc) in
      let eq = week_day_eq y week wday c small small' in
      let (lo, hi, up) = jan4_bounds y c in
      let moved : pos 4 +ℤ n ≡ d +ℤ ((week -ℤ pos 1) *ℤ pos 7 +ℤ (wday -ℤ pos 1)) =
        omega (int_laws, *ℤ_parts week 7, *ℤ_parts (week -ℤ pos 1) 7) in
      let monday : week_mod (w +ℤ (pos 1 -ℤ j)) ≡ week_mod (pos 1) = elim up [
        | inl e ↦
            week_mod-weeks (w +ℤ (pos 1 -ℤ j)) (pos 1) (pos 0)
              (rw e omega (int_laws, *ℤ_parts (pos 0) 7))
        | inr e ↦
            week_mod-weeks (w +ℤ (pos 1 -ℤ j)) (pos 1) (negsuc 0)
              (rw e omega (int_laws, *ℤ_parts (negsuc 0) 7))
      ] in
      let same : week_mod (w +ℤ n) ≡ week_mod wday = elim up [
        | inl e ↦
            week_mod-weeks (w +ℤ n) wday (week -ℤ pos 1)
              (rw e omega (int_laws, *ℤ_parts week 7, *ℤ_parts (week -ℤ pos 1) 7))
        | inr e ↦
            week_mod-weeks (w +ℤ n) wday (week -ℤ pos 2)
              (rw e omega (int_laws, *ℤ_parts week 7, *ℤ_parts (week -ℤ pos 2) 7))
      ] in
      (
        d,
        c.date_weekday y (pos 1) (pos 4) (pos 1 -ℤ j) T.local ∙ monday ∙ one_day,
        omega (int_laws, lo),
        omega (int_laws, hi),
        rw (fresh, eq) (ap (midnight T y (pos 1)) moved),
        rw (fresh, eq) (c.date_weekday y (pos 1) (pos 4) n T.local ∙ same),
      )
