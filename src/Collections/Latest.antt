-- ===== src/Collections/Latest.antt =====
-- `GetLast` of collections/factoids/factoids.go finds the factoids with the last times.
use sp0rkle.Prelude.{
  ◌≡◌, refl, inl, inr, ℕ, ◌≤◌, none, some, List, [], ◌∷◌, ltb, Bool-cases, All, arith,
}
use sp0rkle.Collections.Factoid.{Factoid, latest}

latest-from :
    (time : Factoid → ℕ) (c : Factoid) (fs : List Factoid)
    → (d : Factoid) × (latest time (some c) fs ≡ some d)
      × (time c ≤ time d)
      × All (λ g. time g ≤ time d) fs
unfolding latest
latest-from time c [] = (c, refl, omega arith, tt)
latest-from time c (f ∷ fs) = elim (Bool-cases (ltb (time c) (time f))) [
  | inl t ↦ let (d, e, le, all) = latest-from time f fs in (d, rw t e, ground (arith, t), (le, all))
  | inr t ↦ let (d, e, le, all) = latest-from time c fs in (d, rw t e, le, (ground (arith, t), all))
]

-- Of factoids of which there is one at least, the loop of GetLast on a time finds one, and no
-- factoid has a later time.
pub latest-All :
    (time : Factoid → ℕ) (f : Factoid) (fs : List Factoid)
    → (d : Factoid) × (latest time none (f ∷ fs) ≡ some d) × All (λ g. time g ≤ time d) (f ∷ fs)
unfolding latest
latest-All time f fs = let (d, e, le, all) = latest-from time f fs in (d, e, (le, all))
