-- ===== src/Util/Since/Parts.antt =====
-- What `TimeSince` of util/utils.go writes adds up to the seconds.
use native.Mathlib.Nat.{zero-div, zero-mod}
use sp0rkle.Prelude.{
  codes, pos_part, ℕ, ◌+◌, ◌*◌, ◌/◌, ◌%◌, ◌≡◌, refl, List, [], ◌∷◌, Bytes, arith, if_both, ℤ, pos,
  negsuc, ltb_ℤ, ◌≤ℤ◌, quot, rem,
}
use sp0rkle.Util.Since.{Part, units, parts}

-- The seconds in what is written.
abbrev pub weight : List Part → ℕ
weight [] = 0
weight (p ∷ ps) = elim p.div [ pos n ↦ n * p.d + weight ps | negsuc n ↦ weight ps ]

quot_future : (sec : ℤ) (d : ℕ) → sec ≤ℤ pos 0 → quot sec d ≤ℤ pos 0
unfolding quot
quot_future (pos n) d h = let z : n ≡ 0 = omega arith in rw z (omega (arith, zero-div d))
quot_future (negsuc n) d h = ground arith

rem_future : (sec : ℤ) (d : ℕ) → sec ≤ℤ pos 0 → rem sec d ≤ℤ pos 0
unfolding rem
rem_future (pos n) d h = let z : n ≡ 0 = omega arith in rw z (omega (arith, zero-mod d))
rem_future (negsuc n) d h = ground arith

weight-parts_step :
    (d n : ℕ) (s : Bytes) (us : List (ℕ × Bytes))
    → weight (parts (pos n) ((d, s) ∷ us)) ≡ n / d * d + weight (parts (pos (n % d)) us)
unfolding parts quot rem
weight-parts_step d n s us =
    let rest = parts (pos (n % d)) us in
    if_both (λ ps. weight ps ≡ n / d * d + weight rest) (ltb_ℤ (pos 0) (pos (n / d)))
      (record { div = pos (n / d); d = d; s = s } ∷ rest) rest (λ _. refl)
      (λ e. let zero : n / d ≡ 0 = ground (arith, e) in rw zero (omega arith))

parts_future : (sec : ℤ) (us : List (ℕ × Bytes)) → sec ≤ℤ pos 0 → parts sec us ≡ []
unfolding parts
parts_future sec [] h = refl
parts_future sec ((d, s) ∷ us) h =
    if_both (λ ps. ps ≡ []) (ltb_ℤ (pos 0) (quot sec d)) _ (parts (rem sec d) us)
      (λ e. absurd (ground (arith, e, quot_future sec d h)))
      (λ _. parts_future (rem sec d) us (rem_future sec d h))

-- The units that TimeSince writes add up to the seconds since its time, or to 0 if it is in the
-- future.
pub weight-parts : (sec : ℤ) → weight (parts sec units) ≡ pos_part sec
unfolding parts
weight-parts (negsuc n) = rw (parts_future (negsuc n) units (omega arith)) refl
weight-parts (pos n) =
    let years = n % 31536000 in
    let weeks = years % 604800 in
    let days = weeks % 86400 in
    let hours = days % 3600 in
    let minutes = hours % 60 in
    omega (
      arith,
      weight-parts_step 31536000 n _ _,
      weight-parts_step 604800 years _ _,
      weight-parts_step 86400 weeks _ _,
      weight-parts_step 3600 days _ _,
      weight-parts_step 60 hours _ _,
      weight-parts_step 1 minutes (codes "s") [],
    )
