-- ===== src/Calc/Shunt.antt =====
-- util/calc/calc.go: `shunt` and `shuntStep`.
-- Stacks have their top first; the output, which is only pushed to, has its oldest token first.
pub mod Output
pub mod Count
pub mod Expr
pub mod Steps
pub mod Reading
use sp0rkle.Prelude.{
  ℕ, zero, suc, Bool, true, false, not, List, [], ◌∷◌, ◌++◌, Bytes, if◌then◌else◌, ◌==◌,
}
use sp0rkle.Calc.Token.{Token, eof, lpar, rpar, comma, nfi, op, func, num, precedence, argc_of}

pub data ShuntError : Type 0 where
  unrecognised stack_underflow stack_overflow wrong_argument_count : ShuntError

pub data Result (A : Type 0) : Type 0 where
  ok : A → Result A
  err : ShuntError → Result A

infixl 5 ◌>>=◌
abbrev pub ◌>>=◌ : {A B : Type 0} → Result A → (A → Result B) → Result B
ok a >>= f = f a
err e >>= f = err e

module _ {N : Type 0} where
  -- The two loops of the T_OP and the closing cases, on the stack and the output.
  unfoldable pub pop_operators :
      Bytes → List (Token N) → List (Token N) → List (Token N) × List (Token N)
  pop_operators o [] out = ([], out)
  pop_operators o (op p ∷ stack) out =
      if precedence o p then pop_operators o stack (out ++ op p ∷ []) else (op p ∷ stack, out)
  pop_operators o (t ∷ stack) out = (t ∷ stack, out)

  -- The stack below the first T_LPAR, and the output with all above it.
  unfoldable pub pop_to_lpar :
      List (Token N) → List (Token N) → Result (List (Token N) × List (Token N))
  pop_to_lpar [] out = err stack_underflow
  pop_to_lpar (lpar ∷ stack) out = ok (stack, out)
  pop_to_lpar (t ∷ stack) out = pop_to_lpar stack (out ++ t ∷ [])

pub record Yard (N : Type 0) : Type 0 where
  pub stack : List (Token N)
  -- The functions that are being read, each with its `numval`.
  pub argcs : List (Bytes × ℕ)
  pub output : List (Token N)

abbrev pub empty_yard : (N : Type 0) → Yard N
empty_yard N = record { stack = []; argcs = []; output = [] }

-- `(*argcs)[l-1].numval++`, if there is one.
abbrev pub count_argument : List (Bytes × ℕ) → List (Bytes × ℕ)
count_argument [] = []
count_argument ((f, n) ∷ argcs) = (f, suc n) ∷ argcs

-- The check of the count when a function's parenthesis closes.
unfoldable pub check_argc : List (Bytes × ℕ) → Result (List (Bytes × ℕ))
check_argc [] = ok []
check_argc ((f, n) ∷ argcs) = if suc n == argc_of f then ok argcs else err wrong_argument_count

module _ {N : Type 0} where
  -- The second half of the T_RPAR case: a function before the parenthesis is called.
  unfoldable pub close_call : List (Token N) → List (Bytes × ℕ) → List (Token N) → Result (Yard N)
  unfolding check_argc
  close_call (func f ∷ stack) argcs out = do
    rest ← check_argc argcs
    ok (record { stack = stack; argcs = rest; output = out ++ func f ∷ [] })
  close_call stack argcs out = ok (record { stack = stack; argcs = argcs; output = out })

  unfoldable pub shunt_step : Token N → Yard N → Result (Yard N)
  shunt_step eof y = ok y
  shunt_step (nfi s) y = err unrecognised
  shunt_step (num n) y = ok (record y { output = y.output ++ num n ∷ [] })
  shunt_step (op o) y =
      let (stack, out) = pop_operators o y.stack y.output in
      ok (record y { stack = op o ∷ stack; output = out })
  shunt_step (func f) y = ok (record y { stack = func f ∷ y.stack; argcs = (f, 0) ∷ y.argcs })
  shunt_step lpar y = ok (record y { stack = lpar ∷ y.stack })
  shunt_step rpar y = do (stack, out) ← pop_to_lpar y.stack y.output; close_call stack y.argcs out
  shunt_step comma y = do
    (stack, out) ← pop_to_lpar y.stack y.output
    ok (record { stack = lpar ∷ stack; argcs = count_argument y.argcs; output = out })

  -- The loop over the input.
  unfoldable pub shunt_all : List (Token N) → Yard N → Result (Yard N)
  shunt_all [] y = ok y
  shunt_all (tok ∷ input) y = do y' ← shunt_step tok y; shunt_all input y'

  -- The loop that empties the stack.
  unfoldable pub flush : List (Token N) → List (Token N) → Result (List (Token N))
  flush [] out = ok out
  flush (lpar ∷ stack) out = err stack_overflow
  flush (t ∷ stack) out = flush stack (out ++ t ∷ [])

  unfoldable pub shunt : List (Token N) → Result (List (Token N))
  shunt input = do y ← shunt_all input (empty_yard N); flush y.stack y.output
