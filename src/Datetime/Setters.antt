-- ===== src/Datetime/Setters.antt =====
-- util/datetime/lexer.go: the methods by which the parser tells the date lexer what it has read.
-- A state that is set already stays set, and all but `setDays` then change nothing else.
use sp0rkle.Prelude.{
  true, ◌||◌, Option, none, some, ℤ, pos, ltb_ℤ, eqb_ℤ, add_int, sub_int, mul_int, quot, rem,
  if◌then◌else◌, codes,
}
use sp0rkle.Datetime.Time.{TimeLib, month, day}
use sp0rkle.Datetime.State.{Offset, DateLexer, add_error, add_to, negated}

unfoldable pub ampm : ℤ → ℤ → ℤ
ampm hour offset =
    let sum = add_int hour offset in
    if eqb_ℤ sum (pos 12) then pos 0 else if eqb_ℤ sum (pos 24) then pos 12 else sum

module _ (T : TimeLib) where
  unfoldable pub set_unix : ℤ → DateLexer T → DateLexer T
  set_unix epoch l =
      let s = l.states in
      let l' = record l { states = record s { have_date = true; have_time = true } } in
      if s.have_date || s.have_time
      then add_error T (codes "unix timestamp plus other time/date specifier") l'
      else record l' { time = T.unix epoch; date = T.unix epoch }

  -- `none` stands for the nil location.
  unfoldable pub set_time : ℤ → ℤ → ℤ → Option T.Location → DateLexer T → DateLexer T
  set_time h m s loc l =
      let place : T.Location = elim loc [ none ↦ T.location l.rel | some z ↦ z ] in
      let l' = record l { states = record (l.states) { have_time = true } } in
      if l.states.have_time then add_error T (codes "Parsed two times") l' else record l' {
        time = T.date (pos 1) (pos 1) (pos 1) (rem h 24) (rem m 60) (rem s 60) place;
      }

  unfoldable pub set_hms : ℤ → ℤ → Option T.Location → DateLexer T → DateLexer T
  set_hms hms ln loc l =
      if eqb_ℤ ln (pos 2)
      then set_time hms (pos 0) (pos 0) loc l
      else if eqb_ℤ ln (pos 4)
      then set_time (quot hms 100) (rem hms 100) (pos 0) loc l
      else set_time (quot hms 10000) (rem (quot hms 100) 100) (rem hms 100) loc l

  -- `time.Date(y, m, d, 0, 0, 0, 0, time.Local)`
  abbrev pub midnight : ℤ → ℤ → ℤ → T.Time
  midnight y m d = T.date y m d (pos 0) (pos 0) (pos 0) T.local

  unfoldable pub set_date : ℤ → ℤ → ℤ → DateLexer T → DateLexer T
  set_date y m d l =
      let l' = record l { states = record (l.states) { have_date = true } } in
      if l.states.have_date
      then add_error T (codes "Parsed two dates") l'
      else record l' { date = midnight y m d }

  unfoldable pub set_day : ℤ → DateLexer T → DateLexer T
  set_day d l =
      let l' = record l { states = record (l.states) { have_day = true } } in
      if l.states.have_day
      then add_error T (codes "Parsed two absolute days") l'
      else record l' { day = d }

  -- The year, if there is one.
  unfoldable pub set_days : ℤ → ℤ → Option ℤ → DateLexer T → DateLexer T
  set_days d n y l =
      let l' = record l { states = record (l.states) { have_days = true } } in
      let l'' = if l.states.have_days then add_error T (codes "Parsed two days") l' else l' in
      elim y [
        | none ↦ record l'' { days = record { day = d; num = n; year = pos 0 } }
        | some year ↦ record l'' {
          days = record { day = d; num = n; year = year };
          states = record (l''.states) { have_dyear = true };
        }
      ]

  -- `jan4`, the weekday of 4 January with Sunday as the seventh.
  unfoldable pub jan4 : ℤ → ℤ
  jan4 y =
      let w = T.weekday (T.date y (pos 1) (pos 4) (pos 0) (pos 0) (pos 0) T.utc) in
      if eqb_ℤ w (pos 0) then pos 7 else w

  -- `ord`, the day of the year.
  unfoldable pub week_day : ℤ → ℤ → ℤ → ℤ
  week_day y week wday = sub_int (sub_int (add_int (mul_int week (pos 7)) wday) (jan4 y)) (pos 3)

  unfoldable pub set_week : ℤ → ℤ → ℤ → DateLexer T → DateLexer T
  set_week y week wday = set_date y (pos 1) (week_day y week wday)

  unfoldable pub set_months : ℤ → ℤ → Option ℤ → DateLexer T → DateLexer T
  set_months m n y l =
      let l' = record l { states = record (l.states) { have_months = true } } in
      if l.states.have_months then add_error T (codes "Parsed two months") l' else elim y [
        | none ↦ record l' { months = record { month = m; num = n; year = pos 0 } }
        | some year ↦ record l' {
          months = record { month = m; num = n; year = year };
          states = record (l'.states) { have_myear = true };
        }
      ]

  unfoldable pub set_year : ℤ → DateLexer T → DateLexer T
  set_year y l =
      if l.states.have_date
      then record l { date = midnight y (month T l.date) (day T l.date) }
      else if l.states.have_months
      then record l {
        states = record (l.states) { have_myear = true };
        months = record (l.months) { year = y };
      }
      else record l {
        states = record (l.states) { have_dyear = true };
        days = record (l.days) { year = y };
      }

  unfoldable pub set_ymd : ℤ → ℤ → DateLexer T → DateLexer T
  set_ymd ymd ln l =
      let y = quot ymd 10000 in
      let y' =
        if eqb_ℤ ln (pos 6)
        then (if ltb_ℤ (pos 68) y then add_int y (pos 1900) else add_int y (pos 2000))
        else y in
      set_date y' (rem (quot ymd 100) 100) (rem ymd 100) l

  unfoldable pub add_offset : Offset → ℤ → DateLexer T → DateLexer T
  add_offset off n l = record l {
    offsets = add_to off n l.offsets;
    states = record (l.states) { have_offset = true };
  }

  unfoldable pub set_ago : DateLexer T → DateLexer T
  set_ago l =
      let l' = record l { states = record (l.states) { have_ago = true } } in
      if l.states.have_ago
      then add_error T (codes "Parsed two agos") l'
      else record l' { offsets = negated l.offsets }
