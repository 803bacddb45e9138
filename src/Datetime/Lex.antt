-- ===== src/Datetime/Lex.antt =====
-- util/datetime/lexer.go: `Lex`, which gives the parser the next token. The tests of package unicode
-- and the functions of strings, strconv and time are parameters.
pub mod Ends
use sp0rkle.Prelude.{
  ℕ, Option, none, some, Bytes, ◌++◌, length, ltb, ◌==◌, if◌then◌else◌, ℤ, pos, negsuc,
}
use sp0rkle.Util.Unicode.{Unicode}
use sp0rkle.Util.Lexer.{Lexer, peek, next, scan, scan_not, rewind, set_pos}
use sp0rkle.Datetime.Tables.{t_plus, t_minus, t_integer, t_zone}
use sp0rkle.Datetime.Words.{TextInt, Left, hit, miss, out_of_range, zone, token_lookup}

-- `strings.ToUpper`, `unicode.ToUpper`, `strconv.Atoi` less its error, and `time.LoadLocation`.
pub record Strings (Location : Type 0) : Type 0 where
  pub to_upper : Bytes → Bytes
  pub upper_rune : ℕ → ℕ
  pub atoi : Bytes → ℤ
  pub load_location : Bytes → Option Location

module _ (U : Unicode) (Location : Type 0) (S : Strings Location) where
  open U use {is_space, is_letter, is_digit}

  -- A token, the lexer behind it and what the token leaves; `none` is an index out of range.
  abbrev pub Lexed : Type 0
  Lexed = Option (ℕ × Lexer × Left Location)

  -- What follows the switch: the rune itself.
  unfoldable pub rune_token : ℕ → Lexer → Left Location → Lexed
  rune_token c l v = some (S.upper_rune c, (next l).1, v)

  -- The current character instead, if the word was longer.
  unfoldable pub letter_token : ℕ → Bytes → Lexer → Left Location → Lexed
  letter_token c input l v =
      let (s, l') = next l in
      let behind = rune_token c (rewind l') v in
      if ltb 1 (length input)
      then elim (token_lookup Location (S.load_location) (S.to_upper s) v) [
        | hit t v' ↦ some (t, l', v')
        | miss ↦ behind
        | out_of_range ↦ none
      ]
      else rune_token c l v

  -- A zone in the format of IANA, or the current character.
  unfoldable pub zone_token : ℕ → ℕ → Bytes → Lexer → Left Location → Lexed
  zone_token c start input l v =
      let (tail, l') = scan_not is_space l in
      let (z, cache) = zone Location (S.load_location) v.cache (input ++ tail) in
      let v' = record v { cache = cache } in
      elim z [
        | some place ↦ some (t_zone, l', record v' { zoneval = some place })
        | none ↦ letter_token c input (set_pos start l') v'
      ]

  unfoldable pub word_token : ℕ → Lexer → Left Location → Lexed
  word_token c l v =
      let (input, l') = scan is_letter l in
      elim (token_lookup Location (S.load_location) (S.to_upper input) v) [
        | hit t v' ↦ some (t, l', v')
        | miss ↦ zone_token c l.pos input l' v
        | out_of_range ↦ none
      ]

  unfoldable pub integer_token : Lexer → Left Location → Lexed
  integer_token l v =
      let (s, l') = scan is_digit l in
      let n : TextInt = record { i = S.atoi s; l = pos (length s); s = s } in
      some (t_integer, l', record v { tval = n })

  unfoldable pub lex_at : ℕ → Lexer → Left Location → Lexed
  lex_at c l v =
      if c == b'+'
      then some (t_plus, (next l).1, record v { intval = pos 1 })
      else if c == b'-'
      then some (t_minus, (next l).1, record v { intval = negsuc 0 })
      else if is_digit c
      then integer_token l v
      else if is_letter c
      then word_token c l v
      else rune_token c l v

  -- `Lex`
  unfoldable pub lex : Lexer → Left Location → Lexed
  lex l v = let (c, l') = peek (scan is_space l).1 in lex_at c l' v
