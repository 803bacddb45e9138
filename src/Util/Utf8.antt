-- ===== src/Util/Utf8.antt =====
-- What the program uses of Go's package utf8: decoding the first rune of a string and encoding one.
use sp0rkle.Prelude.{
  ℕ, ◌+◌, ◌-◌, ◌*◌, ◌/◌, ◌%◌, ◌≤◌, Bool, ◌&&◌, [], ◌∷◌, Bytes, length, arith, ltb, leb, ◌==◌,
  if◌then◌else◌,
}

abbrev pub rune_error : ℕ
rune_error = 0xfffd

abbrev between : ℕ → ℕ → ℕ → Bool
between lo hi b = leb lo b && leb b hi

abbrev invalid : ℕ × ℕ
invalid = (rune_error, 1)

-- The sequences of two, three and four bytes, with the range of the second byte.
decode2 : ℕ → Bytes → ℕ × ℕ
decode2 b (c ∷ _) = if between 0x80 0xbf c then ((b - 0xc0) * 64 + (c - 0x80), 2) else invalid
decode2 b _ = invalid

decode3 : ℕ → ℕ → ℕ → Bytes → ℕ × ℕ
decode3 lo hi b (c ∷ d ∷ _) =
    if between lo hi c && between 0x80 0xbf d
    then ((b - 0xe0) * 4096 + (c - 0x80) * 64 + (d - 0x80), 3)
    else invalid
decode3 lo hi b _ = invalid

decode4 : ℕ → ℕ → ℕ → Bytes → ℕ × ℕ
decode4 lo hi b (c ∷ d ∷ e ∷ _) =
    if between lo hi c && (between 0x80 0xbf d && between 0x80 0xbf e)
    then ((b - 0xf0) * 262144 + (c - 0x80) * 4096 + (d - 0x80) * 64 + (e - 0x80), 4)
    else invalid
decode4 lo hi b _ = invalid

-- `utf8.DecodeRuneInString`: the rune and its width.
unfoldable pub decode_rune : Bytes → ℕ × ℕ
unfolding decode2 decode3 decode4
decode_rune [] = (rune_error, 0)
decode_rune (b ∷ rest) =
    if ltb b 0x80
    then (b, 1)
    else if between 0xc2 0xdf b
    then decode2 b rest
    else if between 0xe0 0xef b
    then decode3 (if b == 0xe0 then 0xa0 else 0x80) (if b == 0xed then 0x9f else 0xbf) b rest
    else if between 0xf0 0xf4 b
    then decode4 (if b == 0xf0 then 0x90 else 0x80) (if b == 0xf4 then 0x8f else 0xbf) b rest
    else invalid

-- `string(r)` of a rune in the range of Unicode.
unfoldable pub encode_rune : ℕ → Bytes
encode_rune r =
    if ltb r 0x80
    then r ∷ []
    else if ltb r 0x800
    then (0xc0 + r / 64) ∷ (0x80 + r % 64) ∷ []
    else if ltb r 0x10000
    then (0xe0 + r / 4096) ∷ (0x80 + r / 64 % 64) ∷ (0x80 + r % 64) ∷ []
    else (0xf0 + r / 262144) ∷ (0x80 + r / 4096 % 64) ∷ (0x80 + r / 64 % 64) ∷ (0x80 + r % 64) ∷ []

-- The width of a rune is at least one byte and at most what there is.
pub decode_rune_width :
    (b : ℕ) (rest : Bytes)
    → (1 ≤ (decode_rune (b ∷ rest)).1) × ((decode_rune (b ∷ rest)).1 ≤ length (b ∷ rest))
unfolding decode_rune
decode_rune_width b [] = ground arith
decode_rune_width b (c ∷ []) = ground arith
decode_rune_width b (c ∷ d ∷ []) = ground arith
decode_rune_width b (c ∷ d ∷ e ∷ rest) = ground arith
