-- ===== src/Datetime/LexTests.antt =====
-- The theorems on the tokens of util/datetime at concrete inputs.
use sp0rkle.Prelude.{
  ℕ, ◌-◌, ◌≡◌, refl, ◌&&◌, Option, none, some, [], ◌∷◌, Bytes, codes, bytes_eq, length, map, leb,
  ◌==◌, if◌then◌else◌, pos, arith,
}
use sp0rkle.Util.Unicode.{Unicode}
use sp0rkle.Util.Lexer.{lexer}
use sp0rkle.Datetime.Words.{Left}
use sp0rkle.Datetime.Lex.{Strings, lex}
use sp0rkle.Datetime.Lex.Ends.{IsText, Takes, lex-Takes}

-- ASCII alone, and a world of two time zones.
abbrev upper : ℕ → ℕ
upper r = if leb b'a' r && leb r b'z' then r - 32 else r

abbrev ascii : Unicode
ascii = record {
  is_space = λ r. r == b' ';
  is_letter = λ r. leb b'A' (upper r) && leb (upper r) b'Z';
  is_digit = λ r. leb b'0' r && leb r b'9';
}

abbrev two_zones : Bytes → Option ℕ
two_zones s =
    if bytes_eq s (codes "GB") then some 1 else if bytes_eq s (codes "UTC") then some 2 else none

abbrev plain : Strings ℕ
plain = record {
  to_upper = map upper;
  upper_rune = upper;
  atoi = λ _. pos 0;
  load_location = two_zones;
}

length-map-upper : (s : Bytes) → length (map upper s) ≡ length s
length-map-upper [] = refl
length-map-upper (b ∷ s) = omega (arith, length-map-upper s)

plain-IsText : IsText ascii ℕ plain
plain-IsText = record {
  no_letter = refl;
  no_digit = refl;
  upper_zero = refl;
  upper_nonempty = λ s h. omega (arith, length-map-upper s);
}

abbrev nothing : Left ℕ
nothing = record {
  tval = record { i = pos 0; l = pos 0; s = [] };
  intval = pos 0;
  zoneval = none;
  cache = [];
}

lex-Takes_example : Takes (lexer (codes " bst")) (lex ascii ℕ plain (lexer (codes " bst")) nothing)
lex-Takes_example =
    lex-Takes ascii ℕ plain plain-IsText (lexer (codes " bst")) nothing
      (record { inside = omega arith; at_end = λ end. absurd (ground arith) })
