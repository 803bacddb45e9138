-- ===== src/Calc/Shunt/Count.antt =====
-- `shunt` of util/calc/calc.go neither loses nor repeats a token.
use sp0rkle.Prelude.{
  ℕ, ◌+◌, ◌≡◌, refl, Bool, false, List, [], ◌∷◌, ◌++◌, count, count-append, arith, Bytes,
}
use sp0rkle.Calc.Token.{Token, eof, lpar, rpar, comma, nfi, op, func, num}
use sp0rkle.Calc.Shunt.{
  Result, ok, err, ◌>>=◌, Yard, empty_yard, pop_operators, pop_to_lpar, check_argc, close_call,
  shunt_step, shunt_all, flush, shunt,
}
use sp0rkle.Calc.Shunt.Output.{Ensures, Ensures-bind}

-- A test of tokens that passes no parenthesis, comma or end of input.
pub record SkipsPunctuation {N : Type 0} (p : Token N → Bool) : Type 0 where
  pub at_lpar : p lpar ≡ false
  pub at_rpar : p rpar ≡ false
  pub at_comma : p comma ≡ false
  pub at_eof : p eof ≡ false

module _ {N : Type 0} (p : Token N → Bool) (skips : SkipsPunctuation p) where
  abbrev held : List (Token N) → List (Token N) → ℕ
  held stack out = count p stack + count p out

  abbrev Holds : ℕ → Yard N → Type 0
  Holds n y = held y.stack y.output ≡ n

  pop_operators-held :
      (o : Bytes) (stack out : List (Token N))
      → held (pop_operators o stack out).0 (pop_operators o stack out).1 ≡ held stack out
  unfolding pop_operators
  pop_operators-held o [] out = refl
  pop_operators-held o (op q ∷ stack) out =
      ground (arith, pop_operators-held o stack (out ++ op q ∷ []), count-append p out (op q ∷ []))
  pop_operators-held o (lpar ∷ stack) out = refl
  pop_operators-held o (_ ∷ stack) out = refl

  abbrev Sides : ℕ → List (Token N) × List (Token N) → Type 0
  Sides n (stack, out) = held stack out ≡ n

  pop_to_lpar-held :
      (stack out : List (Token N)) (n : ℕ)
      → held stack out ≡ n
      → Ensures (Sides n) (pop_to_lpar stack out)
  unfolding pop_to_lpar
  pop_to_lpar-held [] out n h = tt
  pop_to_lpar-held (lpar ∷ stack) out n h = ground (arith, skips.at_lpar)
  pop_to_lpar-held (t ∷ stack) out n h =
      pop_to_lpar-held stack _ n (omega (arith, count-append p out (t ∷ [])))

  close_call-Holds :
      (stack out : List (Token N)) (argcs : List (Bytes × ℕ)) (n : ℕ)
      → held stack out ≡ n
      → Ensures (Holds n) (close_call stack argcs out)
  unfolding close_call
  close_call-Holds [] out argcs n h = h
  close_call-Holds (func f ∷ stack) out argcs n h = close (check_argc argcs)
    where
      close :
          (r : Result (List (Bytes × ℕ)))
          → Ensures (Holds n) (
              r >>= λ rest.
              ok (record { stack = stack; argcs = rest; output = out ++ func f ∷ [] }))
      close (ok a) = omega (arith, count-append p out (func f ∷ []))
      close (err e) = tt
  close_call-Holds (_ ∷ stack) out argcs n h = h

  shunt_step-Holds :
      (tok : Token N) (y : Yard N) (n : ℕ)
      → Holds n y
      → Ensures (Holds (count p (tok ∷ []) + n)) (shunt_step tok y)
  unfolding shunt_step
  shunt_step-Holds eof y n h = ground (arith, skips.at_eof)
  shunt_step-Holds (nfi s) y n h = tt
  shunt_step-Holds (num x) y n h = omega (arith, count-append p y.output (num x ∷ []))
  shunt_step-Holds (op o) y n h = omega (arith, pop_operators-held o y.stack y.output)
  shunt_step-Holds (func f) y n h = omega arith
  shunt_step-Holds lpar y n h = ground (arith, skips.at_lpar)
  shunt_step-Holds rpar y n h =
      Ensures-bind (Sides n) _ (pop_to_lpar y.stack y.output) _ (pop_to_lpar-held _ _ n h)
        (λ r s. close_call-Holds r.0 r.1 y.argcs _ (ground (arith, skips.at_rpar)))
  shunt_step-Holds comma y n h =
      Ensures-bind (Sides n) _ (pop_to_lpar y.stack y.output) _ (pop_to_lpar-held _ _ n h)
        (λ r s. ground (arith, skips.at_lpar, skips.at_comma))

  shunt_all-Holds :
      (input : List (Token N)) (y : Yard N) (n m : ℕ)
      → count p input + n ≡ m
      → Holds n y
      → Ensures (Holds m) (shunt_all input y)
  unfolding shunt_all
  shunt_all-Holds [] y n m e h = omega arith
  shunt_all-Holds (tok ∷ input) y n m e h =
      Ensures-bind (Holds (count p (tok ∷ []) + n)) (Holds m) (shunt_step tok y) _
        (shunt_step-Holds tok y n h)
        (λ y' h'. shunt_all-Holds input y' (count p (tok ∷ []) + n) m (omega arith) h')

  flush-count :
      (stack out : List (Token N)) (n : ℕ)
      → held stack out ≡ n
      → Ensures (λ r. count p r ≡ n) (flush stack out)
  unfolding flush
  flush-count [] out n h = omega arith
  flush-count (lpar ∷ stack) out n h = tt
  flush-count (t ∷ stack) out n h =
      flush-count stack _ n (omega (arith, count-append p out (t ∷ [])))

  shunt-Ensures : (input : List (Token N)) → Ensures (λ r. count p r ≡ count p input) (shunt input)
  unfolding shunt
  shunt-Ensures input =
      Ensures-bind (Holds (count p input)) (λ r. count p r ≡ count p input)
        (shunt_all input (empty_yard N)) _
        (shunt_all-Holds input (empty_yard N) 0 (count p input) (omega arith) refl)
        (λ y h. flush-count y.stack y.output _ h)

  -- A test that passes no punctuation passes as many tokens of the output as of the input: every
  -- number, operator and function is output exactly as often as it was put in.
  pub count-shunt :
      (input : List (Token N)) {out : List (Token N)}
      → shunt input ≡ ok out
      → count p out ≡ count p input
  count-shunt input e = rw e at (shunt-Ensures input)
