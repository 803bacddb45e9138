-- ===== src/Calc/Eval.antt =====
-- util/calc/calc.go: `calc`, with the token stack's top first. Calling the zero value of a map of
-- functions is a nil dereference, which `panic` stands for.
pub mod Correct
pub mod Known
use sp0rkle.Prelude.{ℕ, zero, suc, Option, none, some, List, [], ◌∷◌, Bytes}
use sp0rkle.Calc.Shunt
use sp0rkle.Calc.Shunt.{ShuntError, shunt}
use sp0rkle.Calc.Token.{
  Float64, Math1, Math2, Function, functionise1, functionise2, operator?, function?, Token, op,
  func, num,
}

pub data Outcome (A : Type 0) : Type 0 where
  ok : A → Outcome A
  -- "syntax error", "syntax error, too many numbers" and "token in calc"
  syntax_error too_many_numbers bad_token panic : Outcome A
  -- the error of `shunt`
  unshunted : ShuntError → Outcome A

infixl 5 ◌>>=◌
abbrev pub ◌>>=◌ : {A B : Type 0} → Outcome A → (A → Outcome B) → Outcome B
ok a >>= f = f a
syntax_error >>= f = syntax_error
too_many_numbers >>= f = too_many_numbers
bad_token >>= f = bad_token
panic >>= f = panic
unshunted e >>= f = unshunted e

abbrev pub of_shunt : {A : Type 0} → Shunt.Result A → Outcome A
of_shunt (Shunt.ok a) = ok a
of_shunt (Shunt.err e) = unshunted e

module _ (F : Float64) where
  open F use {Num, math1, math2}

  -- `ts.getNums(n)`: the numbers in stack order, and the rest of the stack.
  unfoldable pub get_nums : ℕ → List (Token Num) → List Num → Outcome (List Num × List (Token Num))
  get_nums zero stack nums = ok (nums, stack)
  get_nums (suc n) (num x ∷ stack) nums = get_nums n stack (x ∷ nums)
  get_nums (suc n) _ nums = syntax_error

  -- The two closures that `functionise1` and `functionise2` make.
  unfoldable pub exec : Function → List (Token Num) → Outcome (List (Token Num))
  unfolding get_nums
  exec (functionise1 f) ts = do
    (n, rest) ← get_nums 1 ts []
    elim n [ x ∷ _ ↦ ok (num (math1 f x) ∷ rest) | [] ↦ panic ]
  exec (functionise2 f) ts = do
    (n, rest) ← get_nums 2 ts []
    elim n [ x ∷ y ∷ _ ↦ ok (num (math2 f x y) ∷ rest) | _ ↦ panic ]

  -- A call of a table's entry, where a missing entry is a nil function.
  abbrev pub exec? : Option Function → List (Token Num) → Outcome (List (Token Num))
  exec? none ts = panic
  exec? (some f) ts = exec f ts

  abbrev pub operator_function : Option Math2 → Option Function
  operator_function none = none
  operator_function (some f) = some (functionise2 f)

  unfoldable pub calc_step : Token Num → List (Token Num) → Outcome (List (Token Num))
  calc_step (num n) stack = ok (num n ∷ stack)
  calc_step (op o) stack = exec? (operator_function (operator? o)) stack
  calc_step (func f) stack = exec? (function? f) stack
  calc_step _ stack = bad_token

  -- The loop over the tokens.
  unfoldable pub calc_all : List (Token Num) → List (Token Num) → Outcome (List (Token Num))
  calc_all [] stack = ok stack
  calc_all (tok ∷ ops) stack = do stack' ← calc_step tok stack; calc_all ops stack'

  -- `ret.numval` of the one token left; only numbers are ever pushed.
  unfoldable pub calc : List (Token Num) → Outcome Num
  calc ops = do stack ← calc_all ops []; elim stack [ num x ∷ [] ↦ ok x | _ ↦ too_many_numbers ]

  -- `Calc` from the tokens of its input on.
  unfoldable pub calculate : List (Token Num) → Outcome Num
  calculate input = do ops ← of_shunt (shunt input); calc ops
