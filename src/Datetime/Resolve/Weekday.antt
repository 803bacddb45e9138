-- ===== src/Datetime/Resolve/Weekday.antt =====
-- `dayOffset` of util/datetime/lexer.go lands on the weekday that it has been given.
use sp0rkle.Prelude.{
  ℕ, ◌+◌, ◌^◌, ◌≡◌, refl, ◌∙◌, ap, ◌⊎◌, ℤ, pos, negsuc, pos_part, neg_part, ◌+ℤ◌, ◌-ℤ◌, ◌*ℤ◌, ◌≤ℤ◌,
  wrap_fits, int_laws, arith, +ℤ_parts, -ℤ_parts, *ℤ_parts,
}
use sp0rkle.Datetime.Time.{TimeLib, IsCalendar, week_mod}
use sp0rkle.Datetime.State.{DateLexer}
use sp0rkle.Datetime.Resolve.{weeks_on, days_on, day_offset}

-- A number of weeks that makes no int overflow.
abbrev pub IsSmall : ℤ → Type 0
IsSmall n = (negsuc (2 ^ 32) ≤ℤ n) × (n ≤ℤ pos (2 ^ 32))

-- Weeks make no difference to the weekday.
pub week_mod-weeks : (a b k : ℤ) → a ≡ k *ℤ pos 7 +ℤ b → week_mod a ≡ week_mod b
unfolding week_mod
week_mod-weeks (pos a) (pos b) k e =
    let f = ap pos_part e in
    let g = ap neg_part e in
    ap pos (omega (arith, f, g, *ℤ_parts k 7, +ℤ_parts (k *ℤ pos 7) (pos b)))
week_mod-weeks (pos a) (negsuc b) k e =
    let f = ap pos_part e in
    let g = ap neg_part e in
    ap pos (omega (arith, f, g, *ℤ_parts k 7, +ℤ_parts (k *ℤ pos 7) (negsuc b)))
week_mod-weeks (negsuc a) (pos b) k e =
    let f = ap pos_part e in
    let g = ap neg_part e in
    ap pos (omega (arith, f, g, *ℤ_parts k 7, +ℤ_parts (k *ℤ pos 7) (pos b)))
week_mod-weeks (negsuc a) (negsuc b) k e =
    let f = ap pos_part e in
    let g = ap neg_part e in
    ap pos (omega (arith, f, g, *ℤ_parts k 7, +ℤ_parts (k *ℤ pos 7) (negsuc b)))

pub week_mod-small : (d : ℤ) → pos 0 ≤ℤ d → d ≤ℤ pos 6 → week_mod d ≡ d
unfolding week_mod
week_mod-small d lo hi = ground arith

-- w + k = n + j
abbrev Differ : ℤ → ℕ → ℤ → ℕ → Type 0
Differ n k w j = pos_part w + neg_part n + k ≡ pos_part n + neg_part w + j

-- The weeks that a step to the weekday goes on with: one more or one less where the weekday of the
-- same week is on the other side of today.
abbrev Weeks : ℤ → ℤ → ℤ → Type 0
Weeks n d w =
    ((d ≤ℤ negsuc 0) × (n ≤ℤ pos 0) × Differ n 0 w 1)
    ⊎ ((pos 1 ≤ℤ d) × (pos 1 ≤ℤ n) × Differ n 1 w 0)
    ⊎ ((pos 0 ≤ℤ d) × (n ≤ℤ pos 0) × Differ n 0 w 0)
    ⊎ ((d ≤ℤ pos 0) × (pos 1 ≤ℤ n) × Differ n 0 w 0)

weeks_on-Weeks : (n d : ℤ) → IsSmall n → Weeks n d (weeks_on n d)
unfolding weeks_on
weeks_on-Weeks n d small =
    let up = wrap_fits (n +ℤ pos 1) (omega int_laws) (omega int_laws) in
    let down = wrap_fits (n -ℤ pos 1) (omega int_laws) (omega int_laws) in
    rw (up, down) ground (arith, +ℤ_parts n (pos 1), -ℤ_parts n (pos 1))

-- The days to the weekday: for a number up to 0 within the week from so many weeks on, and for
-- another within the week that ends so many weeks on.
abbrev pub Within : ℤ → ℤ → Type 0
Within n k =
    ((n ≤ℤ pos 0) × (n *ℤ pos 7 ≤ℤ k) × (k ≤ℤ n *ℤ pos 7 +ℤ pos 6))
    ⊎ ((pos 1 ≤ℤ n) × (n *ℤ pos 7 -ℤ pos 6 ≤ℤ k) × (k ≤ℤ n *ℤ pos 7))

weeks_on-near :
    (n d : ℤ)
    → IsSmall n
    → (negsuc (2 ^ 32 + 1) ≤ℤ weeks_on n d) × (weeks_on n d ≤ℤ pos (2 ^ 32 + 1))
weeks_on-near n d small = let cases = weeks_on-Weeks n d small in ground (arith, cases)

days_on_eq :
    (n d : ℤ) → IsSmall n → negsuc 5 ≤ℤ d → d ≤ℤ pos 6 → days_on n d ≡ weeks_on n d *ℤ pos 7 +ℤ d
unfolding days_on
days_on_eq n d small lo hi =
    let w = weeks_on n d in
    let near = weeks_on-near n d small in
    let seven = *ℤ_parts w 7 in
    let weeks =
      wrap_fits (w *ℤ pos 7) (omega (int_laws, seven, near)) (omega (int_laws, seven, near)) in
    let all =
      wrap_fits (w *ℤ pos 7 +ℤ d) (omega (int_laws, seven, near)) (omega (int_laws, seven, near)) in
    rw (weeks, all) refl

days_on-Within : (n d : ℤ) → IsSmall n → negsuc 5 ≤ℤ d → d ≤ℤ pos 6 → Within n (days_on n d)
days_on-Within n d small lo hi =
    let w = weeks_on n d in
    let cases = weeks_on-Weeks n d small in
    let seven = *ℤ_parts w 7 in
    let seven' = *ℤ_parts n 7 in
    rw (days_on_eq n d small lo hi) ground (
      arith,
      seven,
      seven',
      cases,
      +ℤ_parts (w *ℤ pos 7) d,
      +ℤ_parts (n *ℤ pos 7) (pos 6),
      -ℤ_parts (n *ℤ pos 7) (pos 6),
    )

module _ (T : TimeLib) where
  -- If weekdays run as in a calendar, the weekday asked for is one and the number of weeks is
  -- small, dayOffset adds a number of days that leads to this weekday: for a number up to 0 it is
  -- within the week that begins so many weeks after the time, and else within the week that ends
  -- so many weeks after it.
  pub day_offset-Within :
      (l : DateLexer T)
      → IsCalendar T
      → pos 0 ≤ℤ l.days.day
      → l.days.day ≤ℤ pos 6
      → IsSmall l.days.num
      → (k : ℤ) × ((day_offset T l).rel ≡ T.add_date l.rel (pos 0) (pos 0) k)
        × (T.weekday (day_offset T l).rel ≡ l.days.day)
        × Within l.days.num k
  unfolding day_offset
  day_offset-Within l c lo hi small =
      let n = l.days.num in
      let w = T.weekday l.rel in
      let (above, below) = c.weekday_bounds l.rel in
      let d = l.days.day -ℤ w in
      let fits = wrap_fits d (omega int_laws) (omega int_laws) in
      let k = days_on n d in
      let eq = days_on_eq n d small (omega int_laws) (omega int_laws) in
      let week = weeks_on n d in
      let sum : w +ℤ k ≡ week *ℤ pos 7 +ℤ l.days.day = rw eq omega int_laws in
      (
        k,
        rw fits refl,
        rw fits (
            c.add_date_weekday l.rel k
            ∙ (week_mod-weeks _ l.days.day week sum ∙ week_mod-small l.days.day lo hi)),
        days_on-Within n d small (omega int_laws) (omega int_laws),
      )
