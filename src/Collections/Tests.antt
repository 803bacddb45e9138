-- ===== src/Collections/Tests.antt =====
-- The theorems on collections/ at concrete items.
use sp0rkle.Prelude.{ℕ, ◌<◌, ◌-◌, some, [], ◌∷◌, codes, arith}
use sp0rkle.Collections.PseudoRand.{get_pseudo_rand}
use sp0rkle.Collections.Fresh.{Draws, get_pseudo_rand-Draws}

abbrev last_one : ℕ → ℕ
last_one n = n - 1

last_one-below : (n : ℕ) → 0 < n → last_one n < n
last_one-below n h = omega arith

get_pseudo_rand-Draws_example :
    Draws
      (some (codes "c" ∷ []))
      (codes "a" ∷ codes "b" ∷ codes "c" ∷ [])
      (get_pseudo_rand last_one (some (codes "c" ∷ [])) (codes "a" ∷ codes "b" ∷ codes "c" ∷ []))
get_pseudo_rand-Draws_example =
    get_pseudo_rand-Draws last_one last_one-below (some (codes "c" ∷ []))
      (codes "a" ∷ codes "b" ∷ codes "c" ∷ [])
