-- ===== src/Datetime/Resolve/Month.antt =====
-- `monthOffset` of util/datetime/lexer.go on a month by its name alone.
use sp0rkle.Prelude.{
  ◌≡◌, refl, ◌⊎◌, inl, inr, ℤ, pos, negsuc, ◌+ℤ◌, ◌-ℤ◌, ◌≤ℤ◌, rem, wrap_fits, int_laws, arith,
}
use sp0rkle.Datetime.Time.{TimeLib, month}
use sp0rkle.Datetime.State.{DateLexer}
use sp0rkle.Datetime.Resolve.{months_on, month_offset}

-- The months from this month to another of the same year, or of the year before from 7 on.
abbrev pub Folds : ℤ → ℤ → Type 0
Folds d k = ((d ≤ℤ pos 6) × (k ≡ d)) ⊎ ((pos 7 ≤ℤ d) × (k ≡ d -ℤ pos 12))

rem_lem : (d : ℤ) → negsuc 10 ≤ℤ d → d ≤ℤ pos 11 → Folds d (rem (d +ℤ pos 5) 12 -ℤ pos 5)
unfolding rem ◌+ℤ◌ ◌-ℤ◌
rem_lem (pos d) lo hi = ground arith
rem_lem (negsuc d) lo hi = ground arith

Folds_bounds :
    (d k : ℤ) → Folds d k → negsuc 10 ≤ℤ d → d ≤ℤ pos 11 → (negsuc 10 ≤ℤ k) × (k ≤ℤ pos 6)
Folds_bounds d k near lo hi = elim near [
  | inl (h, e) ↦ rw e (lo, h)
  | inr (h, e) ↦ rw e (omega int_laws, omega int_laws)
]

module _ (T : TimeLib) where
  -- If the month of the lexer's time and the one that is asked for are from 1 to 12, monthOffset on
  -- a month with no number of years adds the months to that month of the same year, if it is at most
  -- 6 months ahead or however many are past, and else to that of the year before.
  pub month_offset-Folds :
      (l : DateLexer T)
      → pos 1 ≤ℤ month T l.rel
      → month T l.rel ≤ℤ pos 12
      → pos 1 ≤ℤ l.months.month
      → l.months.month ≤ℤ pos 12
      → l.months.num ≡ pos 0
      → (k : ℤ) × ((month_offset T l).rel ≡ T.add_date l.rel (pos 0) k (pos 0))
        × Folds (l.months.month -ℤ month T l.rel) k
  unfolding month_offset months_on
  month_offset-Folds l above below lo hi none =
      let d = l.months.month -ℤ month T l.rel in
      let fits = wrap_fits d (omega int_laws) (omega int_laws) in
      let sum = wrap_fits (d +ℤ pos 5) (omega int_laws) (omega int_laws) in
      let near = rem_lem d (omega int_laws) (omega int_laws) in
      let k = rem (d +ℤ pos 5) 12 -ℤ pos 5 in
      let (low, high) = Folds_bounds d k near (omega int_laws) (omega int_laws) in
      let back = wrap_fits k (omega (arith, low)) (omega (arith, high)) in
      (k, rw (none, fits, sum, back) refl, near)
