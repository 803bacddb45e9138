-- ===== src/Drivers/Karma/Bounds.antt =====
-- The ints that count karma (collections/karma/karma.go) and the integers that they stand for.
use sp0rkle.Prelude.{
  ℕ, suc, ◌+◌, ◌<◌, ◌^◌, ◌≡◌, refl, ◌∙◌, arith, ℤ, pos, negsuc, pos_part, neg_part, ◌+ℤ◌, add_int,
  sub_int, +ℤ_parts, -ℤ_parts, eq_of_parts, wrap_fits, ◌-ℤ◌,
}

-- An integer that stays in an int when it is moved by as much as `n`.
abbrev pub Fits : ℕ → ℤ → Type 0
Fits n z = (pos_part z + n < 2 ^ 63) × (neg_part z + n < 2 ^ 63)

pub add_one-Fits :
    (n : ℕ) (z : ℤ) → Fits (suc n) z → (add_int z (pos 1) ≡ z +ℤ pos 1) × Fits n (z +ℤ pos 1)
add_one-Fits n z f = (
  wrap_fits _ (omega (arith, +ℤ_parts z (pos 1))) (omega (arith, +ℤ_parts z (pos 1))),
  unfold ◌+ℤ◌ in ground arith,
)

pub sub_one-Fits :
    (n : ℕ) (z : ℤ) → Fits (suc n) z → (sub_int z (pos 1) ≡ z +ℤ negsuc 0) × Fits n (z +ℤ negsuc 0)
sub_one-Fits n z f = (
  wrap_fits _ (omega (arith, -ℤ_parts z (pos 1))) (omega (arith, -ℤ_parts z (pos 1)))
      ∙ unfold ◌+ℤ◌ ◌-ℤ◌ in refl,
  unfold ◌+ℤ◌ in ground arith,
)

pub +ℤ-zero : (z : ℤ) → z +ℤ pos 0 ≡ z
+ℤ-zero z = eq_of_parts _ _ (omega (arith, +ℤ_parts z (pos 0)))

pub zero-+ℤ : (z : ℤ) → pos 0 +ℤ z ≡ z
zero-+ℤ z = eq_of_parts _ _ (omega (arith, +ℤ_parts (pos 0) z))

pub +ℤ_assoc : (a b c : ℤ) → (a +ℤ b) +ℤ c ≡ a +ℤ (b +ℤ c)
+ℤ_assoc a b c =
    eq_of_parts _ _
      (omega (arith, +ℤ_parts (a +ℤ b) c, +ℤ_parts a b, +ℤ_parts a (b +ℤ c), +ℤ_parts b c))
