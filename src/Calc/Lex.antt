-- ===== src/Calc/Lex.antt =====
-- util/calc/calc.go: the lexer of the calculator, and `Calc` of a string.
-- The tests of package unicode, `strconv.ParseFloat` and the minus of float64 are parameters.
pub mod Ends
pub mod Names
use sp0rkle.Prelude.{
  ℕ, zero, suc, ◌≡◌, Bool, true, false, not, ◌||◌, Option, none, some, List, [], ◌∷◌, ◌++◌, Bytes,
  codes, lookup, bytes_eq, length, ◌==◌, if◌then◌else◌,
}
use sp0rkle.Util.Unicode.{Unicode}
use sp0rkle.Util.Lexer.{Lexer, lexer, peek, next, scan, rewind}
use sp0rkle.Util.Lexer.Number.{number}
use sp0rkle.Calc.Token.{Float64, Token, eof, lpar, rpar, comma, nfi, op, func, num, function?}
use sp0rkle.Calc.Eval.{Outcome, calculate}

pub record CalcLexer : Type 0 where
  pub lex : Lexer
  pub binary_minus : Bool

abbrev is_known : Bytes → Bool
is_known str = elim (function? str) [ none ↦ false | some _ ↦ true ]

-- `c == "1" && l.Peek() == '0'`: the look is made only after a 1.
unfoldable pub ten_ahead : Bytes → Lexer → Bool × Lexer
ten_ahead c l =
    if bytes_eq c (codes "1") then (let (r, l') = peek l in (r == b'0', l')) else (false, l)

-- The name of a known function, with the 2 or the 10 that may follow.
unfoldable pub function_name : Bytes → Lexer → Bytes × Lexer
function_name str l =
    let (c, l') = next l in
    let (ten, l'') = ten_ahead c l' in
    if bytes_eq c (codes "2")
    then (str ++ codes "2", l')
    else if ten
    then (str ++ codes "10", (next l'').1)
    else (str, rewind l'')

-- `binaryMinus` after a token.
unfoldable pub minus_after : {N : Type 0} → Token N → Bool
minus_after (op o) = false
minus_after lpar = false
minus_after comma = false
minus_after _ = true

-- `tok.kind == T_EOF`
abbrev pub is_eof : {N : Type 0} → Token N → Bool
is_eof eof = true
is_eof _ = false

module _ (U : Unicode) (F : Float64) (parse_float : Bytes → Option F.Num) (negate : F.Num → F.Num)
    (nought : F.Num) (toks : List (Bytes × F.Num)) where
  open U use {is_space, is_letter, is_digit}

  unfoldable pub number_token : Lexer → Token F.Num × Lexer
  number_token l = let (n, l') = number is_digit parse_float nought l in (num n, l')

  -- The minus, with `l` behind it.
  unfoldable pub minus_token : Bool → Lexer → Token F.Num × Lexer
  minus_token binary l =
      let (r, l') = peek l in
      let (str, l'') = scan is_letter l' in
      if binary
      then (op (codes "-"), l)
      else if is_letter r
      then (elim (lookup str toks) [ some n ↦ num (negate n) | none ↦ nfi (codes "-" ++ str) ], l'')
      else number_token (rewind l')

  unfoldable pub star_token : Lexer → Token F.Num × Lexer
  star_token l =
      let (r, l') = peek l in
      if r == b'*' then (op (codes "**"), (next l').1) else (op (codes "*"), l')

  unfoldable pub word_token : Lexer → Token F.Num × Lexer
  word_token l =
      let (str, l') = scan is_letter l in
      let (name, l'') = function_name str l' in
      if is_known str
      then (func name, l'')
      else (elim (lookup str toks) [ some n ↦ num n | none ↦ nfi str ], l')

  -- The switch of `token`, on the rune ahead.
  unfoldable pub token_at : Bool → ℕ → Lexer → Token F.Num × Lexer
  token_at binary r l =
      let (t, l') = next l in
      if r == 0
      then (eof, l)
      else if r == b'+' || r == b'/' || r == b'%' || r == b'^'
      then (op t, l')
      else if r == b'('
      then (lpar, l')
      else if r == b')'
      then (rpar, l')
      else if r == b','
      then (comma, l')
      else if r == b'-'
      then minus_token binary l'
      else if r == b'*'
      then star_token l'
      else if is_letter r
      then word_token l
      else if is_digit r
      then number_token l
      else (nfi t, l')

  unfoldable pub token : CalcLexer → Token F.Num × CalcLexer
  token c =
      let (r, l) = peek (scan is_space c.lex).1 in
      let (t, l') = token_at c.binary_minus r l in
      (t, record { lex = l'; binary_minus = minus_after t })

  -- The loop of `tokens`. A token other than the end takes a byte of the input, so that the fuel of
  -- `tokens` is enough; `none` means that it was not.
  unfoldable pub tokens_loop : ℕ → CalcLexer → Option (List (Token F.Num))
  tokens_loop zero c = none
  tokens_loop (suc fuel) c =
      let (t, c') = token c in
      let more : Option (List (Token F.Num)) = elim (tokens_loop fuel c') [
        | none ↦ none
        | some ts ↦ some (t ∷ ts)
      ] in
      if is_eof t then some [] else more

  unfoldable pub tokens : Bytes → Option (List (Token F.Num))
  tokens input =
      tokens_loop (suc (length input)) (record { lex = lexer input; binary_minus = false })

  -- `Calc`, with the constants and the tokens of the caller in `toks`.
  unfoldable pub calc_string : Bytes → Option (Outcome F.Num)
  calc_string input = elim (tokens input) [ none ↦ none | some ts ↦ some (calculate F ts) ]
