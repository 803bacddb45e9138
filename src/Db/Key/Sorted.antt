-- ===== src/Db/Key/Sorted.antt =====
-- The bytes of uint64 numbers sort as the numbers do (db/db.go, `I`).
use sp0rkle.Prelude.{
  ◌≡◌, sym, ◌∙◌, ℕ, zero, suc, ◌/◌, ◌%◌, ◌^◌, ◌<◌, Bool, true, false, ◌&&◌, ◌||◌, [], ◌∷◌, ◌++◌,
  Bytes, length, length-append, arith, ltb, ◌==◌, if◌then◌else◌,
}
use sp0rkle.Db.Key.{big_endian}

-- `bytes.Compare(a, b) < 0`, the order of keys in a bucket.
abbrev pub bytes_ltb : Bytes → Bytes → Bool
bytes_ltb [] [] = false
bytes_ltb [] (y ∷ ys) = true
bytes_ltb (x ∷ xs) [] = false
bytes_ltb (x ∷ xs) (y ∷ ys) = ltb x y || x == y && bytes_ltb xs ys

-- With a last byte behind texts of the same length.
bytes_ltb-append :
    (xs ys : Bytes) (x y : ℕ)
    → length xs ≡ length ys
    → bytes_ltb (xs ++ x ∷ []) (ys ++ y ∷ [])
      ≡ (if bytes_ltb xs ys then true else if bytes_ltb ys xs then false else ltb x y)
bytes_ltb-append [] [] x y h = ground arith
bytes_ltb-append [] (b ∷ ys) x y h = absurd (omega arith)
bytes_ltb-append (a ∷ xs) [] x y h = absurd (omega arith)
bytes_ltb-append (a ∷ xs) (b ∷ ys) x y h = ground (arith, bytes_ltb-append xs ys x y)

length-big_endian : (w n : ℕ) → length (big_endian w n) ≡ w
unfolding big_endian
length-big_endian zero n = omega arith
length-big_endian (suc w) n =
    omega
      (arith, length-append (big_endian w (n / 256)) (n % 256 ∷ []), length-big_endian w (n / 256))

high : (w n : ℕ) → n < 256 ^ suc w → n / 256 < 256 ^ w
high w n h = omega arith

-- Numbers below 256 ^ w compare as their w big-endian bytes do.
pub bytes_ltb-big_endian :
    (w a b : ℕ) → a < 256 ^ w → b < 256 ^ w → bytes_ltb (big_endian w a) (big_endian w b) ≡ ltb a b
unfolding big_endian
bytes_ltb-big_endian zero a b h k = ground arith
bytes_ltb-big_endian (suc w) a b h k =
    bytes_ltb-append (big_endian w (a / 256)) (big_endian w (b / 256)) _ _
      (length-big_endian w _ ∙ sym (length-big_endian w _))
    ∙ ground (
      arith,
      bytes_ltb-big_endian w (a / 256) (b / 256) (high w a h) (high w b k),
      bytes_ltb-big_endian w (b / 256) (a / 256) (high w b k) (high w a h),
    )
