-- ===== src/Calc/Eval/Correct.antt =====
-- `Calc` of util/calc/calc.go computes the value of the expression that its tokens spell.
use sp0rkle.Prelude.{
  ◌≡◌, refl, ap, ◌∙◌, Option, none, some, List, [], ◌∷◌, ◌++◌, append-nil, append_assoc,
}
use sp0rkle.Calc.Token.{
  Float64, Math1, Math2, Function, functionise1, functionise2, operator?, function?, argc_of, Token,
  num,
}
use sp0rkle.Calc.Shunt.Expr.{Expr, lit, bin, call1, call2, show, rpn, IsCalledRight}
use sp0rkle.Calc.Shunt.Reading.{shunt-show}
use sp0rkle.Calc.Eval.{ok, calc_step, exec, calc_all, calc, calculate}

module _ (F : Float64) where
  open F use {Num, math1, math2}

  abbrev pub apply_operator : Option Math2 → Option Num → Option Num → Option Num
  apply_operator (some f) (some x) (some y) = some (math2 f x y)
  apply_operator _ _ _ = none

  abbrev pub apply1 : Option Function → Option Num → Option Num
  apply1 (some (functionise1 f)) (some x) = some (math1 f x)
  apply1 _ _ = none

  abbrev pub apply2 : Option Function → Option Num → Option Num → Option Num
  apply2 (some (functionise2 f)) (some x) (some y) = some (math2 f x y)
  apply2 _ _ _ = none

  -- The value of an expression, if its names are in the tables and its functions get as many
  -- arguments as they take.
  unfoldable pub value : Expr Num → Option Num
  value (lit n) = some n
  value (bin o a b) = apply_operator (operator? o) (value a) (value b)
  value (call1 f a) = apply1 (function? f) (value a)
  value (call2 f a b) = apply2 (function? f) (value a) (value b)

  apply_operator-eq-some :
      (f : Option Math2) (x y : Option Num) {v : Num}
      → apply_operator f x y ≡ some v
      → (g : Math2) × (a : Num) × (b : Num) × (f ≡ some g)
        × (x ≡ some a)
        × (y ≡ some b)
        × (v ≡ math2 g a b)
  apply_operator-eq-some (some g) (some a) (some b) h = (g, a, b, refl, refl, refl, cc)
  apply_operator-eq-some _ _ _ h = cc

  apply1-eq-some :
      (f : Option Function) (x : Option Num) {v : Num}
      → apply1 f x ≡ some v
      → (g : Math1) × (a : Num) × (f ≡ some (functionise1 g)) × (x ≡ some a) × (v ≡ math1 g a)
  apply1-eq-some (some (functionise1 g)) (some a) h = (g, a, refl, refl, cc)
  apply1-eq-some _ _ h = cc

  apply2-eq-some :
      (f : Option Function) (x y : Option Num) {v : Num}
      → apply2 f x y ≡ some v
      → (g : Math2) × (a : Num) × (b : Num) × (f ≡ some (functionise2 g))
        × (x ≡ some a)
        × (y ≡ some b)
        × (v ≡ math2 g a b)
  apply2-eq-some (some (functionise2 g)) (some a) (some b) h = (g, a, b, refl, refl, refl, cc)
  apply2-eq-some _ _ _ h = cc

  IsCalledRight-value : (e : Expr Num) {v : Num} → value e ≡ some v → IsCalledRight e
  unfolding value argc_of
  IsCalledRight-value (lit n) h = tt
  IsCalledRight-value (bin o a b) h =
      let (g, x, y, p, q, r, s) = apply_operator-eq-some (operator? o) (value a) (value b) h in
      (IsCalledRight-value a q, IsCalledRight-value b r)
  IsCalledRight-value (call1 f a) h =
      let (g, x, p, q, s) = apply1-eq-some (function? f) (value a) h in
      (rw (p, argc_of), IsCalledRight-value a q)
  IsCalledRight-value (call2 f a b) h =
      let (g, x, y, p, q, r, s) = apply2-eq-some (function? f) (value a) (value b) h in
      (rw (p, argc_of), IsCalledRight-value a q, IsCalledRight-value b r)

  -- The tokens of an expression push its value.
  calc_all-rpn :
      (e : Expr Num) {v : Num} (stack rest : List (Token Num))
      → value e ≡ some v
      → calc_all F (rpn e ++ rest) stack ≡ calc_all F rest (num v ∷ stack)
  unfolding value rpn calc_all calc_step exec
  calc_all-rpn (lit n) stack rest h = cc
  calc_all-rpn (bin o a b) stack rest h =
      let (g, x, y, p, q, r, s) = apply_operator-eq-some (operator? o) (value a) (value b) h in
      ap (λ ts. calc_all F ts stack) (append_assoc (rpn a) _ rest)
      ∙ calc_all-rpn a stack _ q
      ∙ ap (λ ts. calc_all F ts (num x ∷ stack)) (append_assoc (rpn b) _ rest)
      ∙ calc_all-rpn b _ _ r
      ∙ rw (p, s)
  calc_all-rpn (call1 f a) stack rest h =
      let (g, x, p, q, s) = apply1-eq-some (function? f) (value a) h in
      ap (λ ts. calc_all F ts stack) (append_assoc (rpn a) _ rest)
      ∙ calc_all-rpn a stack _ q
      ∙ rw (p, s)
  calc_all-rpn (call2 f a b) stack rest h =
      let (g, x, y, p, q, r, s) = apply2-eq-some (function? f) (value a) (value b) h in
      ap (λ ts. calc_all F ts stack) (append_assoc (rpn a) _ rest)
      ∙ calc_all-rpn a stack _ q
      ∙ ap (λ ts. calc_all F ts (num x ∷ stack)) (append_assoc (rpn b) _ rest)
      ∙ calc_all-rpn b _ _ r
      ∙ rw (p, s)

  -- If every name of an expression is known and its functions get the right number of arguments,
  -- then the tokens of the expression, with the parentheses that the precedences make necessary
  -- and no other, are calculated to the expression's value.
  pub calculate-show : (e : Expr Num) {v : Num} → value e ≡ some v → calculate F (show e) ≡ ok v
  unfolding calculate calc calc_all
  calculate-show e h =
      rw (shunt-show e (IsCalledRight-value e h))
        (rw (← append-nil (rpn e)) (rw (calc_all-rpn e [] [] h)))
