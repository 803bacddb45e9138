-- ===== src/Calc/Tests.antt =====
-- Runs of the model of util/calc/calc.go, over whole numbers in place of floats.
use Prim.Native.Nat.{◌^◌}
use sp0rkle.Prelude.{
  ℕ, ◌+◌, ◌-◌, ◌*◌, ◌/◌, ◌%◌, ◌≡◌, ◌≢◌, refl, Bool, false, none, List, [], ◌∷◌, codes, ltb,
  if◌then◌else◌, bytes_eq,
}
use sp0rkle.Calc.Token.{
  Float64, Math2, pow, mul, div, fmod, add, sub, max, min, operator?, function?, precedence, prec,
  left_assoc, Token, lpar, rpar, comma, op, func, num,
}
use sp0rkle.Calc.Shunt.{ok, shunt, shunt_all, shunt_step, pop_operators, flush}
use sp0rkle.Calc.Shunt.Expr.{Expr, lit, bin, call2, show}
use sp0rkle.Calc.Eval
use sp0rkle.Calc.Eval.{calculate, calc, calc_all, calc_step, exec, panic}
use sp0rkle.Calc.Eval.Correct.{value, calculate-show}
use sp0rkle.Calc.Eval.Known.{calculate-unknown}

abbrev whole2 : Math2 → ℕ → ℕ → ℕ
whole2 pow x y = x ^ y
whole2 mul x y = x * y
whole2 div x y = x / y
whole2 fmod x y = x % y
whole2 add x y = x + y
whole2 sub x y = x - y
whole2 max x y = if ltb x y then y else x
whole2 min x y = if ltb x y then x else y
whole2 _ x y = 0

abbrev whole : Float64
whole = record { Num = ℕ; math1 = λ f x. x; math2 = whole2 }

-- 20 - (3 + 4) - max(1, 2 * 3) ^ 2 ^ 1 / 9
abbrev sample : Expr ℕ
sample = bin (codes "-") (bin (codes "-") (lit 20) (bin (codes "+") (lit 3) (lit 4))) (
    bin (codes "/")
      (bin (codes "^") (call2 (codes "max") (lit 1) (bin (codes "*") (lit 2) (lit 3)))
        (bin (codes "^") (lit 2) (lit 1)))
      (lit 9))

abbrev sample_tokens : List (Token ℕ)
sample_tokens =
    num 20
    ∷ op (codes "-")
    ∷ lpar
    ∷ num 3
    ∷ op (codes "+")
    ∷ num 4
    ∷ rpar
    ∷ op (codes "-")
    ∷ func (codes "max")
    ∷ lpar
    ∷ num 1
    ∷ comma
    ∷ num 2
    ∷ op (codes "*")
    ∷ num 3
    ∷ rpar
    ∷ op (codes "^")
    ∷ num 2
    ∷ op (codes "^")
    ∷ num 1
    ∷ op (codes "/")
    ∷ num 9
    ∷ []

show-sample : show sample ≡ sample_tokens
unfolding show precedence prec left_assoc bytes_eq
show-sample = refl

calculate-show_example : calculate whole (show sample) ≡ Eval.ok 9
calculate-show_example =
    calculate-show whole sample (unfold value operator? function? bytes_eq in refl)

-- 1 + 2 * 3
abbrev sum_tokens : List (Token ℕ)
sum_tokens = num 1 ∷ op (codes "+") ∷ num 2 ∷ op (codes "*") ∷ num 3 ∷ []

abbrev sum_rpn : List (Token ℕ)
sum_rpn = num 1 ∷ num 2 ∷ num 3 ∷ op (codes "*") ∷ op (codes "+") ∷ []

shunt-sum : shunt sum_tokens ≡ ok sum_rpn
unfolding shunt shunt_all shunt_step pop_operators precedence prec left_assoc bytes_eq flush
shunt-sum = refl

abbrev is_plus : Token ℕ → Bool
is_plus (op o) = bytes_eq o (codes "+")
is_plus _ = false

plus_known : operator? (codes "+") ≢ none
unfolding operator? bytes_eq
plus_known e = cc

times_known : operator? (codes "*") ≢ none
unfolding operator? bytes_eq
times_known e = cc

-- `cos2`, which the lexer makes of a known function and a digit
calculate-unknown_example : calculate whole (num 1 ∷ func (codes "cos2") ∷ []) ≡ panic
calculate-unknown_example =
    calculate-unknown whole (codes "cos2") (1 ∷ []) (unfold function? bytes_eq in refl)
