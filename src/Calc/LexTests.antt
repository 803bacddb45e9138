-- ===== src/Calc/LexTests.antt =====
-- Runs of the lexer of the calculator, over whole numbers in ASCII.
use sp0rkle.Prelude.{
  ℕ, ◌+◌, ◌-◌, ◌*◌, ◌≡◌, refl, ◌&&◌, Option, some, List, [], ◌∷◌, Bytes, codes, lookup, bytes_eq,
  leb, ◌==◌, All,
}
use sp0rkle.Util.Utf8.{decode_rune, encode_rune}
use sp0rkle.Util.Lexer.{peek, next, scan, scan_loop, rewind}
use sp0rkle.Util.Lexer.Number.{number, number_end, fraction, exponent, skip_if}
use sp0rkle.Calc.Token.{Float64, Token, op, func, num, function?}
use sp0rkle.Calc.Eval.{calculate}
use sp0rkle.Util.Unicode.{Unicode}
use sp0rkle.Calc.Lex.{
  token, token_at, tokens, tokens_loop, calc_string, number_token, minus_token, star_token,
  word_token, function_name, ten_ahead, minus_after,
}
use sp0rkle.Calc.Lex.Ends.{calc_string_ends}
use sp0rkle.Calc.Lex.Names.{IsToken, tokens-All}

abbrev ascii : Unicode
ascii = record {
  is_space = λ r. r == 32;
  is_letter = λ r. leb 97 r && leb r 122;
  is_digit = λ r. leb 48 r && leb r 57;
}

abbrev whole : Float64
whole = record { Num = ℕ; math1 = λ f x. x; math2 = λ f x y. x + y }

abbrev read_digits : ℕ → Bytes → ℕ
read_digits n [] = n
read_digits n (d ∷ ds) = read_digits (10 * n + (d - 48)) ds

abbrev parse_whole : Bytes → Option ℕ
parse_whole s = some (read_digits 0 s)

abbrev constants : List (Bytes × ℕ)
constants = (codes "answer", 42) ∷ []

abbrev same : ℕ → ℕ
same n = n

tokens_cos2 :
    tokens ascii whole parse_whole same 0 constants (codes "12 ** cos2")
    ≡ some (num 12 ∷ op (codes "**") ∷ func (codes "cos2") ∷ [])
unfolding tokens tokens_loop token token_at number_token minus_token star_token word_token
    function_name ten_ahead minus_after function? bytes_eq lookup number number_end fraction
    exponent skip_if peek next scan scan_loop rewind decode_rune encode_rune
tokens_cos2 = refl

tokens_answer :
    tokens ascii whole parse_whole same 0 constants (codes "4-answer")
    ≡ some (num 4 ∷ op (codes "-") ∷ num 42 ∷ [])
unfolding tokens tokens_loop token token_at number_token minus_token star_token word_token
    function_name ten_ahead minus_after function? bytes_eq lookup number number_end fraction
    exponent skip_if peek next scan scan_loop rewind decode_rune encode_rune
tokens_answer = refl

calc_string_ends_example :
    (ts : List (Token ℕ)) × (tokens ascii whole parse_whole same 0 constants (codes "12 ** cos2")
      ≡ some ts)
    × (calc_string ascii whole parse_whole same 0 constants (codes "12 ** cos2")
        ≡ some (calculate whole ts))
calc_string_ends_example =
    calc_string_ends ascii whole parse_whole same 0 constants (codes "12 ** cos2")

tokens-All_example :
    All
      (IsToken ascii whole parse_whole same 0 constants)
      (num 12 ∷ op (codes "**") ∷ func (codes "cos2") ∷ [])
tokens-All_example =
    tokens-All ascii whole parse_whole same 0 constants (codes "12 ** cos2") _ tokens_cos2
