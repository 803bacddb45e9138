-- ===== src/Util/Text.antt =====
-- What the program uses of Go's package strings, on the bytes of a string.
pub mod Prefix
use sp0rkle.Prelude.{
  ℕ, zero, suc, ◌+◌, Bool, true, false, not, ◌&&◌, ◌||◌, List, [], ◌∷◌, ◌++◌, Bytes, length, take,
  drop, leb, ltb, ◌==◌, if◌then◌else◌,
}
use sp0rkle.Util.Utf8.{decode_rune}

-- `strings.HasPrefix(s, p)`
unfoldable pub has_prefix : Bytes → Bytes → Bool
has_prefix s [] = true
has_prefix [] (b ∷ p) = false
has_prefix (c ∷ s) (b ∷ p) = c == b && has_prefix s p

-- `strings.Contains(s, p)`
unfoldable pub contains : Bytes → Bytes → Bool
unfolding has_prefix
contains [] p = has_prefix [] p
contains (c ∷ s) p = has_prefix (c ∷ s) p || contains s p

-- `unicode.IsSpace`
unfoldable pub is_space : ℕ → Bool
is_space r =
    (leb 9 r && leb r 13)
    || (r == 32
        || (r == 0x85
            || (r == 0xa0
                || (r == 0x1680
                    || ((leb 0x2000 r && leb r 0x200a)
                        || (r == 0x2028
                            || (r == 0x2029 || (r == 0x202f || (r == 0x205f || r == 0x3000)))))))))

-- The runes of a text, each with its bytes; as much fuel as bytes is enough.
unfoldable pub runes : ℕ → Bytes → List (ℕ × Bytes)
runes zero s = []
runes (suc fuel) [] = []
runes (suc fuel) (b ∷ s) =
    let (r, w) = decode_rune (b ∷ s) in (r, take w (b ∷ s)) ∷ runes fuel (drop w (b ∷ s))

drop_spaces : List (ℕ × Bytes) → List (ℕ × Bytes)
drop_spaces [] = []
drop_spaces ((r, b) ∷ rs) = if is_space r then drop_spaces rs else (r, b) ∷ rs

-- All but the spaces at the end.
trim_end : List (ℕ × Bytes) → Bytes
trim_end [] = []
trim_end ((r, b) ∷ rs) =
    let rest = trim_end rs in
    elim rest [ [] ↦ (if is_space r then [] else b) | c ∷ cs ↦ b ++ (c ∷ cs) ]

-- `strings.TrimSpace`
unfoldable pub trim_space : Bytes → Bytes
unfolding runes drop_spaces trim_end is_space decode_rune
trim_space s = trim_end (drop_spaces (runes (length s) s))

cons_word : Bytes → List Bytes → List Bytes
cons_word [] words = words
cons_word (b ∷ w) words = (b ∷ w) ∷ words

split_words : List (ℕ × Bytes) → Bytes → List Bytes
split_words [] word = cons_word word []
split_words ((r, b) ∷ rs) word =
    if is_space r then cons_word word (split_words rs []) else split_words rs (word ++ b)

-- `strings.Fields`
unfoldable pub fields : Bytes → List Bytes
unfolding runes split_words cons_word is_space decode_rune
fields s = split_words (runes (length s) s) []

-- `strings.Join`
unfoldable pub join : List Bytes → Bytes → Bytes
join [] sep = []
join (s ∷ []) sep = s
join (s ∷ t ∷ ss) sep = s ++ (sep ++ join (t ∷ ss) sep)

-- `strings.Split` by a separator of one byte; the first part grows in front of the rest.
abbrev grow : ℕ → List Bytes → List Bytes
grow c [] = (c ∷ []) ∷ []
grow c (w ∷ ws) = (c ∷ w) ∷ ws

unfoldable pub split_on : ℕ → Bytes → List Bytes
split_on sep [] = [] ∷ []
split_on sep (c ∷ s) = let rest = split_on sep s in if c == sep then [] ∷ rest else grow c rest
