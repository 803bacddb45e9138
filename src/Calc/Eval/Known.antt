-- ===== src/Calc/Eval/Known.antt =====
-- When `calc` of util/calc/calc.go reaches the zero value of one of its tables of functions, which
-- it then calls.
use sp0rkle.Prelude.{
  ◌≡◌, ◌≢◌, refl, ◌∙◌, Option, none, some, List, [], ◌∷◌, ◌++◌, Bytes, All, append-nil,
  append_assoc,
}
use sp0rkle.Calc.Token.{
  Float64, Math2, Function, functionise1, functionise2, operator?, function?, Token, op, func, num,
}
use sp0rkle.Calc.Shunt
use sp0rkle.Calc.Shunt.{Yard, empty_yard, shunt_step, shunt_all, flush, shunt}
use sp0rkle.Calc.Shunt.Output.{IsOperand, shunt-All}
use sp0rkle.Calc.Eval.{
  Outcome, ok, panic, exec, calc_step, calc_all, calc, calculate, exec?, operator_function,
  of_shunt, syntax_error, too_many_numbers, ◌>>=◌,
}

-- A token whose name is in the table that `calc` looks it up in.
abbrev pub IsKnown : {N : Type 0} → Token N → Type 0
IsKnown (op o) = operator? o ≢ none
IsKnown (func f) = function? f ≢ none
IsKnown _ = Unit

abbrev NotPanic : {A : Type 0} → (A → Type 0) → Outcome A → Type 0
NotPanic Q (ok a) = Q a
NotPanic Q panic = ⊥
NotPanic Q _ = Unit

NotPanic-bind :
    {A B : Type 0} (Q : A → Type 0) (R : B → Type 0) (m : Outcome A) (f : A → Outcome B)
    → NotPanic Q m
    → ((a : A) → Q a → NotPanic R (f a))
    → NotPanic R (m >>= f)
NotPanic-bind Q R (ok a) f h k = k a h
NotPanic-bind Q R panic f h k = elim h [ ]
NotPanic-bind Q R syntax_error f h k = tt
NotPanic-bind Q R _ f h k = tt

NotPanic-ne : {A : Type 0} (Q : A → Type 0) (m : Outcome A) → NotPanic Q m → m ≢ panic
NotPanic-ne Q panic h = absurd h
NotPanic-ne Q (ok a) h = λ e. cc
NotPanic-ne Q _ h = λ e. cc

module _ (F : Float64) where
  open F use {Num}

  abbrev Any : List (Token Num) → Type 0
  Any _ = Unit

  exec-NotPanic : (f : Function) (stack : List (Token Num)) → NotPanic Any (exec F f stack)
  unfolding exec
  exec-NotPanic (functionise1 f) [] = tt
  exec-NotPanic (functionise1 f) (num y ∷ stack) = tt
  exec-NotPanic (functionise1 f) (_ ∷ stack) = tt
  exec-NotPanic (functionise2 f) [] = tt
  exec-NotPanic (functionise2 f) (num y ∷ []) = tt
  exec-NotPanic (functionise2 f) (num y ∷ num x ∷ stack) = tt
  exec-NotPanic (functionise2 f) (num y ∷ _ ∷ stack) = tt
  exec-NotPanic (functionise2 f) (_ ∷ stack) = tt

  operator_function-ne-none : (o : Option Math2) → o ≢ none → operator_function F o ≢ none
  operator_function-ne-none none k = absurd (k refl)
  operator_function-ne-none (some f) k = λ e. cc

  of_shunt-NotPanic :
      (Q : List (Token Num) → Type 0) (r : Shunt.Result (List (Token Num)))
      → ((out : List (Token Num)) → r ≡ Shunt.ok out → Q out)
      → NotPanic Q (of_shunt r)
  of_shunt-NotPanic Q (Shunt.ok out) h = h out refl
  of_shunt-NotPanic Q (Shunt.err e) h = tt

  only_number :
      (stack : List (Token Num))
      → NotPanic
          (λ _. Unit)
          (let r : Outcome Num = elim stack [ num x ∷ [] ↦ ok x | _ ↦ too_many_numbers ] in r)
  only_number [] = tt
  only_number (num x ∷ []) = tt
  only_number (num x ∷ _ ∷ _) = tt
  only_number (_ ∷ _) = tt

  exec?-NotPanic :
      (f : Option Function) (stack : List (Token Num)) → f ≢ none → NotPanic Any (exec? F f stack)
  exec?-NotPanic none stack k = absurd (k refl)
  exec?-NotPanic (some f) stack k = exec-NotPanic f stack

  calc_step-NotPanic :
      (tok : Token Num) (stack : List (Token Num))
      → IsKnown tok
      → NotPanic Any (calc_step F tok stack)
  unfolding calc_step
  calc_step-NotPanic (op o) stack k =
      exec?-NotPanic (operator_function F (operator? o)) stack
        (operator_function-ne-none (operator? o) k)
  calc_step-NotPanic (func f) stack k = exec?-NotPanic (function? f) stack k
  calc_step-NotPanic _ stack k = tt

  calc_all-NotPanic :
      (ops stack : List (Token Num)) → All IsKnown ops → NotPanic Any (calc_all F ops stack)
  unfolding calc_all
  calc_all-NotPanic [] stack k = tt
  calc_all-NotPanic (tok ∷ ops) stack k =
      NotPanic-bind Any Any (calc_step F tok stack) _ (calc_step-NotPanic tok stack k.0)
        (λ stack' _. calc_all-NotPanic ops stack' k.1)

  -- `Calc` calls no nil function if the name of every operator and function among the tokens is
  -- in the table of its kind.
  pub calculate-ne-panic :
      (input : List (Token Num))
      → All (λ t. IsOperand t → IsKnown t) input
      → calculate F input ≢ panic
  unfolding calculate calc
  calculate-ne-panic input k =
      NotPanic-ne (λ _. Unit) (calculate F input)
        (NotPanic-bind (All IsKnown) (λ _. Unit) (of_shunt (shunt input)) _
          (of_shunt-NotPanic (All IsKnown) (shunt input) (λ out e. shunt-All IsKnown input k e))
          (λ ops known.
            NotPanic-bind Any (λ _. Unit) (calc_all F ops []) _ (calc_all-NotPanic ops [] known)
              (λ stack _. only_number stack)))

  abbrev pub nums : List Num → List (Token Num)
  nums [] = []
  nums (x ∷ xs) = num x ∷ nums xs

  shunt_all-nums :
      (xs : List Num) (rest : List (Token Num)) (y : Yard Num)
      → shunt_all (nums xs ++ rest) y ≡ shunt_all rest (record y { output = y.output ++ nums xs })
  unfolding shunt_all shunt_step
  shunt_all-nums [] rest y = rw append-nil
  shunt_all-nums (x ∷ xs) rest y = shunt_all-nums xs rest _ ∙ rw append_assoc

  calc_all-nums :
      (f : Bytes) (xs : List Num) (stack : List (Token Num))
      → function? f ≡ none
      → calc_all F (nums xs ++ func f ∷ []) stack ≡ panic
  unfolding calc_all calc_step
  calc_all-nums f [] stack h = rw h
  calc_all-nums f (x ∷ xs) stack h = calc_all-nums f xs _ h

  -- A function's name that the table does not hold, after any numbers, makes `Calc` call a nil
  -- function.
  pub calculate-unknown :
      (f : Bytes) (xs : List Num)
      → function? f ≡ none
      → calculate F (nums xs ++ func f ∷ []) ≡ panic
  unfolding calculate calc shunt
  calculate-unknown f xs h =
      rw (shunt_all-nums xs (func f ∷ []) (empty_yard Num))
        (unfold shunt_all shunt_step flush in rw (calc_all-nums f xs [] h))
