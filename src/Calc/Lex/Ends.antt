-- ===== src/Calc/Lex/Ends.antt =====
-- The lexer of the calculator comes to the end of every input, and so `Calc` returns.
use sp0rkle.Prelude.{
  if_both, ℕ, zero, suc, ◌+◌, ◌<◌, ◌≡◌, refl, ap, subst, ◌∙◌, ◌⊎◌, inl, inr, Bool, true, false,
  ◌||◌, Option, some, List, [], ◌∷◌, Bytes, codes, bytes_eq, length, arith, leb, ◌==◌, Bool-cases,
}
use sp0rkle.Util.Lexer.{Lexer, lexer, peek, next, scan, rewind}
use sp0rkle.Util.Lexer.Scanning.{IsInside, peek-Peeked, peek-eq}
use sp0rkle.Util.Lexer.Moving.{
  Moves, Moves-refl, Moves-trans, peek_end, peek-Moves, next-Moves, next-Moves_rune, rewind-Moves,
  next_start, scan-Moves, scan-Moves_rune,
}
use sp0rkle.Util.Lexer.Number.{number-Moves}
use sp0rkle.Calc.Token.{Float64, Token, eof}
use sp0rkle.Calc.Eval.{calculate}
use sp0rkle.Util.Unicode.{Unicode}
use sp0rkle.Calc.Lex.{
  CalcLexer, is_known, ten_ahead, function_name, number_token, minus_token, star_token, word_token,
  is_eof, token_at, token, tokens_loop, tokens, calc_string,
}

-- A look after the name of a function.
ten_ahead-Moves : (c : Bytes) (l : Lexer) → IsInside l → Moves 0 l (ten_ahead c l).1
unfolding ten_ahead
ten_ahead-Moves c l i =
    if_both (λ (r : Bool × Lexer). Moves 0 l r.1) (bytes_eq c (codes "1")) _ _ (λ _. peek-Moves l i)
      (λ _. Moves-refl l i)

ten_ahead_same :
    (c : Bytes) (l : Lexer)
    → ((ten_ahead c l).1.input ≡ l.input) × ((ten_ahead c l).1.start ≡ l.start)
unfolding ten_ahead
ten_ahead_same c l =
    let p = peek-Peeked l in
    if_both (λ (r : Bool × Lexer). (r.1.input ≡ l.input) × (r.1.start ≡ l.start))
      (bytes_eq c (codes "1")) _ _ (λ _. (p.same_input, p.same_start)) (λ _. (refl, refl))

rewind-ten_ahead-Moves :
    (c : Bytes) (l : Lexer) → IsInside l → Moves 0 l (rewind (ten_ahead c (next l).1).1)
rewind-ten_ahead-Moves c l i =
    let (e, h) = ten_ahead_same c (next l).1 in
    rewind-Moves l _ i (e ∙ (next_start l).0) (h ∙ (next_start l).1)

function_name-Moves : (str : Bytes) (l : Lexer) → IsInside l → Moves 0 l (function_name str l).1
unfolding function_name
function_name-Moves str l i =
    let a = next-Moves l i in
    let b = ten_ahead-Moves (next l).0 (next l).1 a.is_inside in
    let c = Moves-trans 0 0 l _ _ a b in
    if_both (λ (r : Bytes × Lexer). Moves 0 l r.1) (bytes_eq (next l).0 (codes "2")) _ _ (λ _. a)
      (λ _.
        if_both (λ (r : Bytes × Lexer). Moves 0 l r.1) (ten_ahead (next l).0 (next l).1).0 _ _
          (λ _. Moves-trans 0 0 l _ _ c (next-Moves _ c.is_inside))
          (λ _. rewind-ten_ahead-Moves (next l).0 l i))

module _ (U : Unicode) (F : Float64) (parse_float : Bytes → Option F.Num) (negate : F.Num → F.Num)
    (nought : F.Num) (toks : List (Bytes × F.Num)) where
  open U use {is_space, is_letter, is_digit}

  -- A token that is not the end takes something from the input.
  abbrev Takes : Lexer → Token F.Num × Lexer → Type 0
  Takes l r = (r.0 ≡ eof) ⊎ Moves 1 l r.1

  number_token-Takes :
      (l : Lexer)
      → IsInside l
      → l.pos < length l.input
      → ((peek l).0 == b'-' || is_digit (peek l).0) ≡ true
      → Takes l (number_token U F parse_float negate nought toks l)
  unfolding number_token
  number_token-Takes l i h e = inr (number-Moves is_digit parse_float nought l i h e)

  minus_token-Takes :
      (binary : Bool) (l : Lexer)
      → IsInside l
      → l.pos < length l.input
      → ((peek l).0 == b'-') ≡ true
      → Takes l (minus_token U F parse_float negate nought toks binary (next l).1)
  unfolding minus_token
  minus_token-Takes binary l i h e =
      let a = next-Moves_rune l i h in
      let b = Moves-trans 1 0 l _ _ a (peek-Moves (next l).1 a.is_inside) in
      let c = Moves-trans 1 0 l _ _ b (scan-Moves is_letter _ b.is_inside) in
      if_both (Takes l) binary _ _ (λ _. inr a)
        (λ _.
          if_both (Takes l) (is_letter (peek (next l).1).0) _ _ (λ _. inr c)
            (λ _.
              let p = peek-Peeked (next l).1 in
              let k = rewind (peek (next l).1).1 in
              let d =
                rewind-Moves l (peek (next l).1).1 i (p.same_input ∙ (next_start l).0)
                  (p.same_start ∙ (next_start l).1) in
              let back : k.pos ≡ l.pos = unfold rewind in p.same_start ∙ (next_start l).1 in
              let minus : ((peek k).0 == b'-' || is_digit (peek k).0) ≡ true =
                ground (arith, peek-eq l k d.same_input back) in
              elim (number_token-Takes k d.is_inside (omega (arith, back, ap length d.same_input))
                minus) [ inl f ↦ inl f | inr f ↦ inr (Moves-trans 0 1 l k _ d f) ]))

  star_token-Takes :
      (l : Lexer)
      → IsInside l
      → l.pos < length l.input
      → Takes l (star_token U F parse_float negate nought toks (next l).1)
  unfolding star_token
  star_token-Takes l i h =
      let a = next-Moves_rune l i h in
      let b = Moves-trans 1 0 l _ _ a (peek-Moves (next l).1 a.is_inside) in
      if_both (Takes l) ((peek (next l).1).0 == b'*') _ _
        (λ _. inr (Moves-trans 1 0 l _ _ b (next-Moves _ b.is_inside))) (λ _. inr b)

  word_token-Takes :
      (l : Lexer)
      → IsInside l
      → l.pos < length l.input
      → is_letter (peek l).0 ≡ true
      → Takes l (word_token U F parse_float negate nought toks l)
  unfolding word_token
  word_token-Takes l i h e =
      let a = scan-Moves_rune is_letter l i e h in
      if_both (Takes l) (is_known (scan is_letter l).0) _ _
        (λ _. inr (Moves-trans 1 0 l _ _ a (function_name-Moves _ _ a.is_inside))) (λ _. inr a)

  token_at-Takes :
      (binary : Bool) (l : Lexer)
      → IsInside l
      → Takes l (token_at U F parse_float negate nought toks binary (peek l).0 l)
  unfolding token_at
  token_at-Takes binary l i =
      let r = (peek l).0 in
      if_both (Takes l) (r == 0) _ _ (λ _. inl refl)
        (λ nonzero.
          let h : l.pos < length l.input = elim (Bool-cases (leb (length l.input) l.pos)) [
            | inl end ↦ absurd (ground (arith, peek_end l (ground arith)))
            | inr within ↦ ground arith
          ] in
          let one = next-Moves_rune l i h in
          if_both (Takes l) (r == b'+' || r == b'/' || r == b'%' || r == b'^') _ _ (λ _. inr one)
            (λ _.
              if_both (Takes l) (r == b'(') _ _ (λ _. inr one)
                (λ _.
                  if_both (Takes l) (r == b')') _ _ (λ _. inr one)
                    (λ _.
                      if_both (Takes l) (r == b',') _ _ (λ _. inr one)
                        (λ _.
                          if_both (Takes l) (r == b'-') _ _ (λ e. minus_token-Takes binary l i h e)
                            (λ _.
                              if_both (Takes l) (r == b'*') _ _ (λ _. star_token-Takes l i h)
                                (λ _.
                                  if_both (Takes l) (is_letter r) _ _
                                    (λ e. word_token-Takes l i h e)
                                    (λ _.
                                      if_both (Takes l) (is_digit r) _ _
                                        (λ e. number_token-Takes l i h (ground arith))
                                        (λ _. inr one)))))))))

  -- `token` takes a byte, or it is the end.
  token-Takes :
      (c : CalcLexer)
      → IsInside c.lex
      → ((token U F parse_float negate nought toks c).0 ≡ eof)
        ⊎ Moves 1 c.lex (token U F parse_float negate nought toks c).1.lex
  unfolding token
  token-Takes c i =
      let a = scan-Moves is_space c.lex i in
      let s = (scan is_space c.lex).1 in
      let b = Moves-trans 0 0 c.lex s _ a (peek-Moves s a.is_inside) in
      let p = peek-Peeked s in
      let same = peek-eq s (peek s).1 p.same_input p.same_pos in
      let at = λ (r : ℕ). token_at U F parse_float negate nought toks c.binary_minus r (peek s).1 in
      let takes =
        subst (λ r. Takes (peek s).1 (at r)) same
          (token_at-Takes c.binary_minus (peek s).1 b.is_inside) in
      elim takes [ inl e ↦ inl e | inr m ↦ inr (Moves-trans 0 1 c.lex (peek s).1 _ b m) ]

  tokens_loop-some :
      (fuel : ℕ) (c : CalcLexer)
      → IsInside c.lex
      → length c.lex.input < fuel + c.lex.pos
      → (ts : List (Token F.Num)) × (tokens_loop U F parse_float negate nought toks fuel c
          ≡ some ts)
  unfolding tokens_loop
  tokens_loop-some zero c i h = absurd (omega (arith, i.inside))
  tokens_loop-some (suc fuel) c i h =
      elim (Bool-cases (is_eof (token U F parse_float negate nought toks c).0)) [
        | inl e ↦ ([], rw e refl)
        | inr e ↦ elim (token-Takes c i) [
          | inl end ↦ absurd (ground (arith, ap (λ (t : Token F.Num). is_eof t) end))
          | inr m ↦
              let (ts, f) =
                tokens_loop-some fuel (token U F parse_float negate nought toks c).1 m.is_inside
                  (omega (arith, m.forward, ap length m.same_input)) in
              ((token U F parse_float negate nought toks c).0 ∷ ts, rw e (rw f refl))
        ]
      ]

  tokens-some :
      (input : Bytes)
      → (ts : List (Token F.Num)) × (tokens U F parse_float negate nought toks input ≡ some ts)
  unfolding tokens
  tokens-some input =
      tokens_loop-some (suc (length input)) (record { lex = lexer input; binary_minus = false })
        (record { inside = omega arith; at_end = λ end. absurd (ground arith) }) (omega arith)

  -- The lexer splits every input into tokens, and Calc returns what becomes of these.
  pub calc_string_ends :
      (input : Bytes)
      → (ts : List (Token F.Num)) × (tokens U F parse_float negate nought toks input ≡ some ts)
        × (calc_string U F parse_float negate nought toks input ≡ some (calculate F ts))
  unfolding calc_string
  calc_string_ends input = let (ts, e) = tokens-some input in (ts, e, rw (e, calc_string) refl)
