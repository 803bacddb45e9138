-- ===== src/Util/Text/Prefix.antt =====
-- Prefixes of one text.
use sp0rkle.Prelude.{◌≡◌, refl, true, [], ◌∷◌, Bytes, length, arith}
use sp0rkle.Util.Text.{has_prefix}

-- Two prefixes of a text that are as long as each other are the same.
pub has_prefix_unique :
    (s p q : Bytes) → has_prefix s p ≡ true → has_prefix s q ≡ true → length p ≡ length q → p ≡ q
unfolding has_prefix
has_prefix_unique s [] [] h k e = refl
has_prefix_unique s [] (b ∷ q) h k e = absurd (omega arith)
has_prefix_unique s (a ∷ p) [] h k e = absurd (omega arith)
has_prefix_unique [] (a ∷ p) (b ∷ q) h k e = cc
has_prefix_unique (c ∷ s) (a ∷ p) (b ∷ q) h k e = ground (arith, has_prefix_unique s p q)
