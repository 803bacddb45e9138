-- ===== src/Calc/Shunt/Steps.antt =====
-- `shuntStep` of util/calc/calc.go, run over the pieces of an expression's tokens from a stack whose
-- top keeps its place.
use sp0rkle.Prelude.{
  ℕ, suc, ◌≡◌, refl, ◌∙◌, true, false, List, [], ◌∷◌, ◌++◌, append-nil, append_assoc, Bytes, All,
  ==_refl,
}
use sp0rkle.Calc.Token.{Token, eof, lpar, rpar, comma, op, func, precedence, argc_of}
use sp0rkle.Calc.Shunt.{
  ok, Yard, pop_operators, pop_to_lpar, close_call, shunt_step, shunt_all, flush,
}
use sp0rkle.Calc.Shunt.Expr.{ops}

module _ {N : Type 0} where
  abbrev pub at : List (Token N) → List (Bytes × ℕ) → List (Token N) → Yard N
  at stack argcs output = record { stack = stack; argcs = argcs; output = output }

  -- The stack's top keeps its place when the operators of the list arrive, and is no function.
  abbrev pub Keeps : List Bytes → List (Token N) → Type 0
  Keeps os [] = Unit
  Keeps os (lpar ∷ _) = Unit
  Keeps os (op p ∷ _) = All (λ r. precedence r p ≡ false) os
  Keeps os (_ ∷ _) = ⊥

  -- What is read before `rest` leaves its pending operators on the stack, and the rest is output.
  abbrev pub Reads : List (Token N) → List Bytes → List Bytes → List (Token N) → Type 0
  Reads ts os pend emit =
      (stack : List (Token N)) (argcs : List (Bytes × ℕ)) (out rest : List (Token N))
      → Keeps os stack
      → shunt_all (ts ++ rest) (at stack argcs out)
        ≡ shunt_all rest (at (ops pend ++ stack) argcs (out ++ emit))

  pop_operators_stays :
      (o : Bytes) (stack out : List (Token N))
      → Keeps (o ∷ []) stack
      → pop_operators o stack out ≡ (stack, out)
  unfolding pop_operators
  pop_operators_stays o [] out k = refl
  pop_operators_stays o (op p ∷ stack) out k = rw k.0
  pop_operators_stays o (lpar ∷ stack) out k = refl
  pop_operators_stays o (eof ∷ stack) out k = refl
  pop_operators_stays o (_ ∷ stack) out k = refl

  pop_operators-pending :
      (o : Bytes) (os : List Bytes) (stack out : List (Token N))
      → All (λ q. precedence o q ≡ true) os
      → Keeps (o ∷ []) stack
      → pop_operators o (ops os ++ stack) out ≡ (stack, out ++ ops os)
  unfolding pop_operators
  pop_operators-pending o [] stack out h k = rw append-nil (pop_operators_stays o stack out k)
  pop_operators-pending o (q ∷ os) stack out h k =
      rw h.0 (pop_operators-pending o os stack _ h.1 k ∙ rw append_assoc)

  pop_to_lpar-ops :
      (os : List Bytes) (stack out : List (Token N))
      → pop_to_lpar (ops os ++ (lpar ∷ stack)) out ≡ ok (stack, out ++ ops os)
  unfolding pop_to_lpar
  pop_to_lpar-ops [] stack out = rw append-nil
  pop_to_lpar-ops (o ∷ os) stack out = pop_to_lpar-ops os stack _ ∙ rw append_assoc

  pub flush-ops : (os : List Bytes) (out : List (Token N)) → flush (ops os) out ≡ ok (out ++ ops os)
  unfolding flush
  flush-ops [] out = rw append-nil
  flush-ops (o ∷ os) out = flush-ops os _ ∙ rw append_assoc

  close_call-Keeps :
      (os : List Bytes) (stack out : List (Token N)) (argcs : List (Bytes × ℕ))
      → Keeps os stack
      → close_call stack argcs out ≡ ok (at stack argcs out)
  unfolding close_call
  close_call-Keeps os [] out argcs k = refl
  close_call-Keeps os (op p ∷ stack) out argcs k = refl
  close_call-Keeps os (lpar ∷ stack) out argcs k = refl
  close_call-Keeps os (func f ∷ stack) out argcs k = elim k [ ]
  close_call-Keeps os (_ ∷ stack) out argcs k = refl

  -- The operator between two operands.
  pub shunt_op :
      (o : Bytes) (os : List Bytes) (stack : List (Token N)) (argcs : List (Bytes × ℕ))
      (out rest : List (Token N))
      → All (λ q. precedence o q ≡ true) os
      → Keeps (o ∷ []) stack
      → shunt_all (op o ∷ rest) (at (ops os ++ stack) argcs out)
        ≡ shunt_all rest (at (op o ∷ stack) argcs (out ++ ops os))
  unfolding shunt_all shunt_step
  shunt_op o os stack argcs out rest h k = rw (pop_operators-pending o os stack out h k)

  -- A closing parenthesis, with no function before its partner.
  pub shunt_rpar :
      (os ks : List Bytes) (stack : List (Token N)) (argcs : List (Bytes × ℕ))
      (out rest : List (Token N))
      → Keeps ks stack
      → shunt_all (rpar ∷ rest) (at (ops os ++ (lpar ∷ stack)) argcs out)
        ≡ shunt_all rest (at stack argcs (out ++ ops os))
  unfolding shunt_all shunt_step
  shunt_rpar os ks stack argcs out rest k =
      rw (pop_to_lpar-ops os stack out) (rw (close_call-Keeps ks stack (out ++ ops os) argcs k))

  -- A closing parenthesis, after the arguments of a function.
  pub shunt_rpar_call :
      (os : List Bytes) (f : Bytes) (n : ℕ) (stack : List (Token N)) (argcs : List (Bytes × ℕ))
      (out rest : List (Token N))
      → argc_of f ≡ suc n
      → shunt_all (rpar ∷ rest) (at (ops os ++ (lpar ∷ func f ∷ stack)) ((f, n) ∷ argcs) out)
        ≡ shunt_all rest (at stack argcs ((out ++ ops os) ++ func f ∷ []))
  unfolding shunt_all shunt_step close_call
  shunt_rpar_call os f n stack argcs out rest e =
      rw (pop_to_lpar-ops os (func f ∷ stack) out) (rw (e, ==_refl (suc n)))

  pub shunt_comma :
      (os : List Bytes) (f : Bytes) (n : ℕ) (stack : List (Token N)) (argcs : List (Bytes × ℕ))
      (out rest : List (Token N))
      → shunt_all (comma ∷ rest) (at (ops os ++ (lpar ∷ stack)) ((f, n) ∷ argcs) out)
        ≡ shunt_all rest (at (lpar ∷ stack) ((f, suc n) ∷ argcs) (out ++ ops os))
  unfolding shunt_all shunt_step
  shunt_comma os f n stack argcs out rest = rw (pop_to_lpar-ops os stack out)

  pub Keeps-head :
      (o : Bytes) (os : List Bytes) (stack : List (Token N))
      → Keeps (o ∷ os) stack
      → Keeps (o ∷ []) stack
  Keeps-head o os [] k = tt
  Keeps-head o os (lpar ∷ stack) k = tt
  Keeps-head o os (op p ∷ stack) k = (k.0, tt)
  Keeps-head o os (_ ∷ stack) k = elim k [ ]

  pub Keeps-tail :
      (o : Bytes) (os : List Bytes) (stack : List (Token N)) → Keeps (o ∷ os) stack → Keeps os stack
  Keeps-tail o os [] k = tt
  Keeps-tail o os (lpar ∷ stack) k = tt
  Keeps-tail o os (op p ∷ stack) k = k.1
  Keeps-tail o os (_ ∷ stack) k = elim k [ ]

  pub shunt_lpar :
      (stack : List (Token N)) (argcs : List (Bytes × ℕ)) (out rest : List (Token N))
      → shunt_all (lpar ∷ rest) (at stack argcs out) ≡ shunt_all rest (at (lpar ∷ stack) argcs out)
  unfolding shunt_all shunt_step
  shunt_lpar stack argcs out rest = refl

  -- From the opening of a call to its first argument.
  pub shunt_open_call :
      (f : Bytes) (stack : List (Token N)) (argcs : List (Bytes × ℕ)) (out rest : List (Token N))
      → shunt_all (func f ∷ lpar ∷ rest) (at stack argcs out)
        ≡ shunt_all rest (at (lpar ∷ func f ∷ stack) ((f, 0) ∷ argcs) out)
  unfolding shunt_all shunt_step
  shunt_open_call f stack argcs out rest = refl
