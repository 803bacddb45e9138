-- ===== src/Calc/Lex/Names.antt =====
-- The functions that the lexer of the calculator names.
use sp0rkle.Prelude.{
  if_both, ℕ, zero, suc, ◌≡◌, subst, ◌⊎◌, inl, inr, Bool, true, ◌||◌, Option, none, some, List, [],
  ◌∷◌, ◌++◌, Bytes, codes, lookup, ◌==◌, Bool-cases, Option-cases, All, arith,
}
use sp0rkle.Util.Lexer.{Lexer, peek, next, scan}
use sp0rkle.Calc.Token.{Float64, Token, nfi, func, num}
use sp0rkle.Util.Unicode.{Unicode}
use sp0rkle.Calc.Lex.{
  CalcLexer, is_known, function_name, number_token, minus_token, star_token, word_token, is_eof,
  token_at, token, tokens_loop, tokens,
}

-- A name that the table has, or one with a 2 or a 10 behind it.
abbrev pub IsNamed : Bytes → Type 0
IsNamed name =
    (str : Bytes) × (is_known str ≡ true)
    × ((name ≡ str) ⊎ (name ≡ str ++ codes "2") ⊎ (name ≡ str ++ codes "10"))

function_name-cases :
    (str : Bytes) (l : Lexer)
    → ((function_name str l).0 ≡ str)
      ⊎ ((function_name str l).0 ≡ str ++ codes "2")
      ⊎ ((function_name str l).0 ≡ str ++ codes "10")
unfolding function_name
function_name-cases str l = ground arith

module _ (U : Unicode) (F : Float64) (parse_float : Bytes → Option F.Num) (negate : F.Num → F.Num)
    (nought : F.Num) (toks : List (Bytes × F.Num)) where
  open U use {is_space, is_letter, is_digit}

  -- A function's token has such a name.
  abbrev pub IsToken : Token F.Num → Type 0
  IsToken (func name) = IsNamed name
  IsToken _ = Unit

  abbrev Makes : Token F.Num × Lexer → Type 0
  Makes r = IsToken r.0

  word_token-Makes : (l : Lexer) → Makes (word_token U F parse_float negate nought toks l)
  unfolding word_token
  word_token-Makes l =
      let str = (scan is_letter l).0 in
      let l' = (scan is_letter l).1 in
      if_both Makes (is_known str) _ _ (λ known. (str, known, function_name-cases str l'))
        (λ _.
          elim (lookup str toks) as (λ o. IsToken (elim o [ some n ↦ num n | none ↦ nfi str ])) [
            | none ↦ tt
            | some n ↦ tt
          ])

  minus_token-Makes :
      (binary : Bool) (l : Lexer) → Makes (minus_token U F parse_float negate nought toks binary l)
  unfolding minus_token number_token
  minus_token-Makes binary l =
      let str = (scan is_letter (peek l).1).0 in
      if_both Makes binary _ _ (λ _. tt)
        (λ _.
          if_both Makes (is_letter (peek l).0) _ _
            (λ _.
              elim (lookup str toks)
                as (λ o.
                  IsToken (elim o [ some n ↦ num (negate n) | none ↦ nfi (codes "-" ++ str) ])) [
                    | none ↦ tt
                    | some n ↦ tt
                  ])
            (λ _. tt))

  token_at-Makes :
      (binary : Bool) (r : ℕ) (l : Lexer)
      → Makes (token_at U F parse_float negate nought toks binary r l)
  unfolding token_at star_token number_token
  token_at-Makes binary r l =
      if_both Makes (r == 0) _ _ (λ _. tt)
        (λ _.
          if_both Makes (r == b'+' || r == b'/' || r == b'%' || r == b'^') _ _ (λ _. tt)
            (λ _.
              if_both Makes (r == b'(') _ _ (λ _. tt)
                (λ _.
                  if_both Makes (r == b')') _ _ (λ _. tt)
                    (λ _.
                      if_both Makes (r == b',') _ _ (λ _. tt)
                        (λ _.
                          if_both Makes (r == b'-') _ _ (λ _. minus_token-Makes binary (next l).1)
                            (λ _.
                              if_both Makes (r == b'*') _ _
                                (λ _.
                                  if_both Makes ((peek (next l).1).0 == b'*') _ _ (λ _. tt)
                                    (λ _. tt))
                                (λ _.
                                  if_both Makes (is_letter r) _ _ (λ _. word_token-Makes l)
                                    (λ _. if_both Makes (is_digit r) _ _ (λ _. tt) (λ _. tt)))))))))

  token-IsToken : (c : CalcLexer) → IsToken (token U F parse_float negate nought toks c).0
  unfolding token
  token-IsToken c = let l = (peek (scan is_space c.lex).1).1 in token_at-Makes c.binary_minus _ l

  tokens_loop-All :
      (fuel : ℕ) (c : CalcLexer) (ts : List (Token F.Num))
      → tokens_loop U F parse_float negate nought toks fuel c ≡ some ts
      → All IsToken ts
  unfolding tokens_loop
  tokens_loop-All zero c ts h = absurd (ground arith)
  tokens_loop-All (suc fuel) c ts h =
      let t = (token U F parse_float negate nought toks c).0 in
      let c' = (token U F parse_float negate nought toks c).1 in
      elim (Bool-cases (is_eof t)) [
        | inl e ↦ let same : [] ≡ ts = ground (arith, e) in subst (All IsToken) same tt
        | inr e ↦ elim (Option-cases (tokens_loop U F parse_float negate nought toks fuel c')) [
          | inl f ↦ absurd (ground (arith, e, f))
          | inr (rest, f) ↦
              let same : t ∷ rest ≡ ts = ground (arith, e, f) in
              subst (All IsToken) same (token-IsToken c, tokens_loop-All fuel c' rest f)
        ]
      ]

  -- If the lexer splits an input into tokens, each function among them has the name of a function
  -- of the table, or such a name with a 2 or a 10 behind it.
  pub tokens-All :
      (input : Bytes) (ts : List (Token F.Num))
      → tokens U F parse_float negate nought toks input ≡ some ts
      → All IsToken ts
  unfolding tokens
  tokens-All input ts h = tokens_loop-All _ _ ts h
