-- ===== src/Datetime/Resolve.antt =====
-- util/datetime/lexer.go: the time that the date lexer makes of what it has been told.
pub mod Panics
pub mod Errors
pub mod Weekday
pub mod Month
use sp0rkle.Prelude.{
  ℕ, ◌*◌, ◌^◌, Bool, true, false, not, ◌&&◌, ◌||◌, Option, none, some, ℤ, pos, ltb_ℤ, eqb_ℤ,
  add_int, sub_int, mul_int, rem, if◌then◌else◌, codes, Bytes, ◌==◌,
}
use sp0rkle.Util.Text.{join}
use sp0rkle.Datetime.Time.{TimeLib, year, month, day}
use sp0rkle.Datetime.State.{RelTime, States, DateLexer, date_lexer}

-- What a parse comes to.
pub data Parsed (A : Type 0) : Type 0 where
  parsed : A → Parsed A
  failed : Bytes → Parsed A
  panicked : Parsed A

-- The number of weeks that `dayOffset` goes on with, for so many and a difference of days.
unfoldable pub weeks_on : ℤ → ℤ → ℤ
weeks_on num diff =
    if ltb_ℤ diff (pos 0) && not (ltb_ℤ (pos 0) num)
    then add_int num (pos 1)
    else if ltb_ℤ (pos 0) diff && ltb_ℤ (pos 0) num
    then sub_int num (pos 1)
    else num

-- And the number of years that `monthOffset` goes on with.
unfoldable pub years_on : ℤ → ℤ → ℤ
years_on num diff =
    if ltb_ℤ diff (pos 0) && ltb_ℤ num (pos 0)
    then add_int num (pos 1)
    else if ltb_ℤ (pos 0) diff && ltb_ℤ (pos 0) num
    then sub_int num (pos 1)
    else num

-- The months that `monthOffset` adds.
unfoldable pub months_on : ℤ → ℤ → ℤ
months_on num diff =
    if eqb_ℤ num (pos 0)
    then sub_int (rem (add_int diff (pos 5)) 12) (pos 5)
    else add_int (mul_int (years_on num diff) (pos 12)) diff

-- The days that `dayOffset` adds.
unfoldable pub days_on : ℤ → ℤ → ℤ
days_on num diff = add_int (mul_int (weeks_on num diff) (pos 7)) diff

-- The nanoseconds that `resolveOffset` adds.
unfoldable pub duration : RelTime → ℤ
duration r =
    add_int (add_int (mul_int (pos (3600 * 10 ^ 9)) r.hour) (mul_int (pos (60 * 10 ^ 9)) r.min))
      (mul_int (pos (10 ^ 9)) r.sec)

module _ (T : TimeLib) where
  unfoldable pub resolve_time : DateLexer T → DateLexer T
  resolve_time l =
      let (y, m, d) = T.date_of l.rel in
      let (h, n, s) = T.clock_of l.time in record l { rel = T.date y m d h n s (T.location l.time) }

  unfoldable pub resolve_date : DateLexer T → DateLexer T
  resolve_date l =
      let (y, m, d) = T.date_of l.date in
      let (h, n, s) = T.clock_of l.rel in
      let y' = if eqb_ℤ y (pos 0) then year T l.rel else y in
      record l { rel = T.date y' m d h n s (T.location l.rel) }

  unfoldable pub resolve_day : DateLexer T → DateLexer T
  resolve_day l =
      let (y, m, _) = T.date_of l.rel in
      let (h, n, s) = T.clock_of l.rel in
      record l { rel = T.date y m l.day h n s (T.location l.rel) }

  unfoldable pub day_offset : DateLexer T → DateLexer T
  day_offset l =
      let diff = sub_int l.days.day (T.weekday l.rel) in
      record l {
        days = record (l.days) { num = weeks_on l.days.num diff };
        rel = T.add_date l.rel (pos 0) (pos 0) (days_on l.days.num diff);
      }

  unfoldable pub month_offset : DateLexer T → DateLexer T
  month_offset l =
      let diff = sub_int l.months.month (month T l.rel) in
      let rel = T.add_date l.rel (pos 0) (months_on l.months.num diff) (pos 0) in
      if eqb_ℤ l.months.num (pos 0)
      then record l { rel = rel }
      else record l { months = record (l.months) { num = years_on l.months.num diff }; rel = rel }

  -- `mkrel`, with the clock and the location of a time of before.
  abbrev mkrel : T.Time → T.Time → ℤ → ℤ → ℤ → T.Time
  mkrel old rel y m d = let (h, n, s) = T.clock_of old in T.date y m d h n s (T.location rel)

  -- The case of a weekday of a month.
  unfoldable pub resolve_month_day : DateLexer T → DateLexer T
  resolve_month_day l =
      let here = if eqb_ℤ l.months.month (pos 0) then month T l.rel else l.months.month in
      let l' = month_offset (record l { months = record (l.months) { month = here } }) in
      day_offset (record l' { rel = mkrel l.rel l'.rel (year T l'.rel) (month T l'.rel) (pos 0) })

  -- The switch on the states for days, months, the year of the days and the year of the months;
  -- `none` stands for the panic.
  unfoldable pub dmy_case : Bool → Bool → Bool → Bool → DateLexer T → Option (DateLexer T)
  dmy_case false true false true l =
      some (record l { rel = mkrel l.rel l.rel l.months.year l.months.month (day T l.rel) })
  dmy_case true false true false l =
      some (day_offset (record l { rel = mkrel l.rel l.rel l.days.year (pos 1) (pos 0) }))
  dmy_case true true false true l =
      some (day_offset (record l { rel = mkrel l.rel l.rel l.months.year l.months.month (pos 0) }))
  dmy_case true false false false l = some (day_offset l)
  dmy_case false true false false l = some (month_offset l)
  dmy_case true true false false l = some (resolve_month_day l)
  dmy_case false false false true l =
      some (record l { rel = mkrel l.rel l.rel l.months.year (month T l.rel) (day T l.rel) })
  dmy_case false false true false l =
      some (record l { rel = mkrel l.rel l.rel l.days.year (month T l.rel) (day T l.rel) })
  dmy_case _ _ _ _ l = none

  abbrev resolve_dmy : DateLexer T → Option (DateLexer T)
  resolve_dmy l = let s = l.states in dmy_case s.have_days s.have_months s.have_dyear s.have_myear l

  unfoldable pub resolve_offset : DateLexer T → DateLexer T
  resolve_offset l =
      let rel = T.add_date l.rel l.offsets.year l.offsets.month l.offsets.day in
      record l { rel = T.add rel (duration l.offsets) }

  -- The dates and offsets that come before the days and months.
  unfoldable pub resolve_first : DateLexer T → DateLexer T
  resolve_first l =
      let a = if l.states.have_time then resolve_time l else l in
      let b = if l.states.have_date then resolve_date a else a in
      let c = if l.states.have_day then resolve_day b else b in
      if l.states.have_offset then resolve_offset c else c

  -- `l.state(HAVE_DMY)` and the test for conflicting dates.
  abbrev pub have_dmy : States → Bool
  have_dmy s = s.have_days || s.have_months || s.have_dyear || s.have_myear

  abbrev pub conflicting : States → Bool
  conflicting s = s.have_date && (s.have_dyear || s.have_myear) || s.have_dyear && s.have_myear

  unfoldable pub resolve : DateLexer T → Parsed T.Time
  resolve l =
      let first = resolve_first l in
      let last : Parsed T.Time = elim (resolve_dmy first) [
        | none ↦ panicked
        | some l' ↦ parsed l'.rel
      ] in
      if conflicting l.states
      then failed (codes "multiple conflicting absolute dates")
      else if have_dmy first.states
      then last
      else parsed first.rel

  abbrev pub no_dates : States → Bool
  no_dates s =
      not (s.have_time || s.have_date || s.have_day || have_dmy s || s.have_offset || s.have_ago)

  -- `parse`, with the generated parser as a parameter: it gives its result code and the lexer that
  -- it leaves.
  unfoldable pub parse : (DateLexer T → ℕ × DateLexer T) → Bytes → T.Time → Parsed T.Time
  parse yy_parse input rel =
      let (ret, l) = yy_parse (date_lexer T input rel) in
      if not (ret == 0)
      then failed (join l.errors (codes "; "))
      else if no_dates l.states
      then failed (codes "no dates parsed from input")
      else resolve l
