-- ===== src/Util/Colours.antt =====
-- util/utils.go: `RemoveColours` and `RemoveFormatting`.
-- The source cuts one colour code after another out of the string, searching from the start each
-- time; `panic` stands for an index out of range.
pub mod Codes
pub mod Runout
use sp0rkle.Prelude.{
  ℕ, zero, suc, ◌+◌, ◌-◌, Bool, true, false, not, ◌&&◌, ◌||◌, Option, none, some, List, [], ◌∷◌,
  ◌++◌, Bytes, length, take, drop, get_elem?, ltb, leb, ◌==◌, if◌then◌else◌,
}

pub data Outcome (A : Type 0) : Type 0 where
  ok : A → Outcome A
  panic : Outcome A
  -- The model's fuel was not enough.
  out_of_fuel : Outcome A

infixl 5 ◌>>=◌
abbrev pub ◌>>=◌ : {A B : Type 0} → Outcome A → (A → Outcome B) → Outcome B
ok a >>= f = f a
panic >>= f = panic
out_of_fuel >>= f = out_of_fuel

-- The first place of a byte, `strings.Index` of a text of one byte.
unfoldable pub index : ℕ → Bytes → Option ℕ
index b [] = none
index b (c ∷ s) =
    let later = index b s in
    if c == b then some 0 else elim later [ none ↦ none | some i ↦ some (suc i) ]

abbrev pub is_digit : ℕ → Bool
is_digit b = leb b'0' b && leb b b'9'

-- The comma's place, `-1` being `none`.
abbrev past_comma : Option ℕ → ℕ → Bool
past_comma none j = false
past_comma (some c) j = ltb 2 (j - c)

abbrev is_none : Option ℕ → Bool
is_none none = true
is_none (some _) = false

-- The inner loop on `j` and `c`: the end of the colour code that begins at `i`. Its fuel is one more
-- than the bytes after `j`, which every round brings down.
unfoldable pub colour_end : ℕ → Bytes → ℕ → ℕ → Option ℕ → Outcome ℕ
colour_end zero s i j c = out_of_fuel
colour_end (suc fuel) s i j c =
    let at_comma = colour_end fuel s i (j + 1) (some j) in
    let at_digit = colour_end fuel s i (j + 1) c in
    if past_comma c j then ok j else elim (get_elem? s j) [
      | none ↦ panic
      | some b ↦
          if b == b','
          then at_comma
          else if is_none c && ltb 2 (j - i)
          then ok j
          else if is_digit b
          then at_digit
          else ok j
    ]

-- The outer loop, which leaves one `\003` less in the string with every round.
unfoldable pub remove_colours_loop : ℕ → Bytes → Outcome Bytes
remove_colours_loop zero s = out_of_fuel
remove_colours_loop (suc fuel) s = elim (index 3 s) [
  | none ↦ ok s
  | some i ↦ colour_end (suc (length s)) s i (i + 1) none >>= λ j.
      remove_colours_loop fuel (take i s ++ drop j s)
]

unfoldable pub remove_colours : Bytes → Outcome Bytes
remove_colours s = remove_colours_loop (suc (length s)) s

-- `strings.Map` with the two control codes dropped; both are ASCII, so bytes serve for runes of a
-- valid text.
unfoldable pub remove_formatting : Bytes → Bytes
remove_formatting [] = []
remove_formatting (c ∷ s) =
    let rest = remove_formatting s in if c == 2 || c == 21 then rest else c ∷ rest
