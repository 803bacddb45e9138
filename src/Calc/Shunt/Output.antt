-- ===== src/Calc/Shunt/Output.antt =====
-- What `shunt` of util/calc/calc.go outputs: the operands, operators and functions of its input, each
-- as often as it is there, and nothing else.
use sp0rkle.Prelude.{ℕ, ◌≡◌, List, [], ◌∷◌, All, All-append, Bytes, Bool-cases, inl, inr}
use sp0rkle.Calc.Token.{Token, eof, lpar, rpar, comma, nfi, op, func, num, precedence}
use sp0rkle.Calc.Shunt.{
  Result, ok, err, ◌>>=◌, Yard, empty_yard, pop_operators, pop_to_lpar, check_argc, close_call,
  shunt_step, shunt_all, flush, shunt,
}

abbrev pub IsOperand : {N : Type 0} → Token N → Type 0
IsOperand (num n) = Unit
IsOperand (op o) = Unit
IsOperand (func f) = Unit
IsOperand _ = ⊥

abbrev pub Ensures : {A : Type 0} → (A → Type 0) → Result A → Type 0
Ensures Q (ok a) = Q a
Ensures Q (err e) = Unit

pub Ensures-bind :
    {A B : Type 0} (Q : A → Type 0) (R : B → Type 0) (m : Result A) (f : A → Result B)
    → Ensures Q m
    → ((a : A) → Q a → Ensures R (f a))
    → Ensures R (m >>= f)
Ensures-bind Q R (ok a) f h k = k a h
Ensures-bind Q R (err e) f h k = tt

module _ {N : Type 0} (P : Token N → Type 0) where
  abbrev OnStack : Token N → Type 0
  OnStack lpar = Unit
  OnStack (op o) = P (op o)
  OnStack (func f) = P (func f)
  OnStack _ = ⊥

  abbrev Sides : List (Token N) × List (Token N) → Type 0
  Sides (stack, out) = All OnStack stack × All P out

  abbrev Inv : Yard N → Type 0
  Inv y = All OnStack y.stack × All P y.output

  pop_operators-Sides :
      (o : Bytes) (stack out : List (Token N))
      → All OnStack stack
      → All P out
      → Sides (pop_operators o stack out)
  unfolding pop_operators
  pop_operators-Sides o [] out s h = (tt, h)
  pop_operators-Sides o (op p ∷ stack) out s h = elim (Bool-cases (precedence o p)) [
    | inl pops ↦
        rw pops (pop_operators-Sides o stack _ s.1 (All-append P out (op p ∷ []) h (s.0, tt)))
    | inr stays ↦ rw stays (s, h)
  ]
  pop_operators-Sides o (lpar ∷ stack) out s h = (s, h)
  pop_operators-Sides o (_ ∷ stack) out s h = (s, h)

  pop_to_lpar-Sides :
      (stack out : List (Token N))
      → All OnStack stack
      → All P out
      → Ensures Sides (pop_to_lpar stack out)
  unfolding pop_to_lpar
  pop_to_lpar-Sides [] out s h = tt
  pop_to_lpar-Sides (lpar ∷ stack) out s h = (s.1, h)
  pop_to_lpar-Sides (op p ∷ stack) out s h =
      pop_to_lpar-Sides stack _ s.1 (All-append P out (op p ∷ []) h (s.0, tt))
  pop_to_lpar-Sides (func f ∷ stack) out s h =
      pop_to_lpar-Sides stack _ s.1 (All-append P out (func f ∷ []) h (s.0, tt))
  pop_to_lpar-Sides (_ ∷ stack) out s h = elim s.0 [ ]

  close_call-Inv :
      (stack out : List (Token N)) (argcs : List (Bytes × ℕ))
      → All OnStack stack
      → All P out
      → Ensures Inv (close_call stack argcs out)
  unfolding close_call
  close_call-Inv [] out argcs s h = (tt, h)
  close_call-Inv (func f ∷ stack) out argcs s h =
      Ensures-bind (λ _. Unit) Inv (check_argc argcs) _
        (elim (check_argc argcs) as (λ r. Ensures (λ _. Unit) r) [ ok a ↦ tt | err e ↦ tt ])
        (λ rest _. (s.1, All-append P out (func f ∷ []) h (s.0, tt)))
  close_call-Inv (_ ∷ stack) out argcs s h = (s, h)

  shunt_step-Inv :
      (tok : Token N) (y : Yard N)
      → (IsOperand tok → P tok)
      → Inv y
      → Ensures Inv (shunt_step tok y)
  unfolding shunt_step
  shunt_step-Inv eof y p h = h
  shunt_step-Inv (nfi s) y p h = tt
  shunt_step-Inv (num n) y p h = (h.0, All-append P y.output (num n ∷ []) h.1 (p tt, tt))
  shunt_step-Inv (op o) y p h =
      let r = pop_operators-Sides o y.stack y.output h.0 h.1 in ((p tt, r.0), r.1)
  shunt_step-Inv (func f) y p h = ((p tt, h.0), h.1)
  shunt_step-Inv lpar y p h = ((tt, h.0), h.1)
  shunt_step-Inv rpar y p h =
      Ensures-bind Sides Inv (pop_to_lpar y.stack y.output) _ (pop_to_lpar-Sides _ _ h.0 h.1)
        (λ r s. close_call-Inv r.0 r.1 y.argcs s.0 s.1)
  shunt_step-Inv comma y p h =
      Ensures-bind Sides Inv (pop_to_lpar y.stack y.output) _ (pop_to_lpar-Sides _ _ h.0 h.1)
        (λ r s. ((tt, s.0), s.1))

  shunt_all-Inv :
      (input : List (Token N)) (y : Yard N)
      → All (λ t. IsOperand t → P t) input
      → Inv y
      → Ensures Inv (shunt_all input y)
  unfolding shunt_all
  shunt_all-Inv [] y p h = h
  shunt_all-Inv (tok ∷ input) y p h =
      Ensures-bind Inv Inv (shunt_step tok y) _ (shunt_step-Inv tok y p.0 h)
        (λ y' h'. shunt_all-Inv input y' p.1 h')

  flush-All :
      (stack out : List (Token N))
      → All OnStack stack
      → All P out
      → Ensures (All P) (flush stack out)
  unfolding flush
  flush-All [] out s h = h
  flush-All (lpar ∷ stack) out s h = tt
  flush-All (op p ∷ stack) out s h =
      flush-All stack _ s.1 (All-append P out (op p ∷ []) h (s.0, tt))
  flush-All (func f ∷ stack) out s h =
      flush-All stack _ s.1 (All-append P out (func f ∷ []) h (s.0, tt))
  flush-All (_ ∷ stack) out s h = elim s.0 [ ]

  shunt-Ensures :
      (input : List (Token N)) → All (λ t. IsOperand t → P t) input → Ensures (All P) (shunt input)
  unfolding shunt
  shunt-Ensures input p =
      Ensures-bind Inv (All P) (shunt_all input (empty_yard N)) _
        (shunt_all-Inv input (empty_yard N) p (tt, tt)) (λ y h. flush-All y.stack y.output h.0 h.1)

  -- What holds of the operands, operators and functions of the input holds of every token of the output.
  pub shunt-All :
      (input : List (Token N)) {out : List (Token N)}
      → All (λ t. IsOperand t → P t) input
      → shunt input ≡ ok out
      → All P out
  shunt-All input p e = rw e at (shunt-Ensures input p)
