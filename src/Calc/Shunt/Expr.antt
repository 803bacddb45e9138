-- ===== src/Calc/Shunt/Expr.antt =====
-- Expressions, the tokens that a writer of one types (with the parentheses that the precedences
-- make necessary and no other), and the reverse Polish order that util/calc/calc.go should make.
use sp0rkle.Prelude.{
  ◌≡◌, refl, ap, inl, inr, Bool, true, false, not, List, [], ◌∷◌, ◌++◌, append-nil, append_assoc,
  Bytes, All, All-append, arith, ltb, ◌==◌, ◌&&◌, ◌||◌, if◌then◌else◌, Bool-cases,
}
use sp0rkle.Calc.Token.{
  Token, lpar, rpar, comma, op, func, num, precedence, prec, left_assoc, argc_of,
}

pub data Expr (N : Type 0) : Type 0 where
  lit : N → Expr N
  bin : Bytes → Expr N → Expr N → Expr N
  call1 : Bytes → Expr N → Expr N
  call2 : Bytes → Expr N → Expr N → Expr N

module _ {N : Type 0} where
  -- An operand to the left of `o` keeps its parentheses if its operator binds less tightly, or as
  -- tightly as `o` and they associate to the right.
  abbrev pub wraps_left : Bytes → Expr N → Bool
  wraps_left o (bin q _ _) = ltb (prec q) (prec o) || prec q == prec o && not (left_assoc o)
  wraps_left o _ = false

  -- An operand to the right of `o` keeps its parentheses if its operator binds less tightly, or as
  -- tightly as `o` and they associate to the left.
  abbrev pub wraps_right : Bytes → Expr N → Bool
  wraps_right o (bin r _ _) = ltb (prec r) (prec o) || prec r == prec o && left_assoc r
  wraps_right o _ = false

  abbrev pub wrap : Bool → List (Token N) → List (Token N)
  wrap true ts = lpar ∷ (ts ++ rpar ∷ [])
  wrap false ts = ts

  unfoldable pub show : Expr N → List (Token N)
  show (lit n) = num n ∷ []
  show (bin o a b) = wrap (wraps_left o a) (show a) ++ (op o ∷ wrap (wraps_right o b) (show b))
  show (call1 f a) = func f ∷ lpar ∷ (show a ++ rpar ∷ [])
  show (call2 f a b) = func f ∷ lpar ∷ (show a ++ (comma ∷ (show b ++ rpar ∷ [])))

  unfoldable pub rpn : Expr N → List (Token N)
  rpn (lit n) = num n ∷ []
  rpn (bin o a b) = rpn a ++ (rpn b ++ op o ∷ [])
  rpn (call1 f a) = rpn a ++ func f ∷ []
  rpn (call2 f a b) = rpn a ++ (rpn b ++ func f ∷ [])

  -- Every function is called with as many arguments as `functionMap` says.
  abbrev pub IsCalledRight : Expr N → Type 0
  IsCalledRight (lit n) = Unit
  IsCalledRight (bin o a b) = IsCalledRight a × IsCalledRight b
  IsCalledRight (call1 f a) = (argc_of f ≡ 1) × IsCalledRight a
  IsCalledRight (call2 f a b) = (argc_of f ≡ 2) × IsCalledRight a × IsCalledRight b

  -- The operators that are on the stack when the last token of the expression has been read.
  abbrev pub pending : Expr N → List Bytes
  pending (bin o a b) = (if wraps_right o b then [] else pending b) ++ o ∷ []
  pending _ = []

  -- What has been output by then.
  abbrev pub emitted : Expr N → List (Token N)
  emitted (bin o a b) = rpn a ++ (if wraps_right o b then rpn b else emitted b)
  emitted e = rpn e

  -- The operators that meet what stood on the stack before the expression.
  abbrev pub arriving : Expr N → List Bytes
  arriving (bin o a b) = o ∷ (if wraps_left o a then [] else arriving a)
  arriving _ = []

  abbrev pub ops : List Bytes → List (Token N)
  ops [] = []
  ops (o ∷ os) = op o ∷ ops os

pub All-if-nil :
    (P : Bytes → Type 0) (w : Bool) (xs : List Bytes)
    → (w ≡ false → All P xs)
    → All P (if w then [] else xs)
All-if-nil P true xs h = tt
All-if-nil P false xs h = h refl

module _ {N : Type 0} where
  pub ops-append : (xs ys : List Bytes) → ops {N = N} (xs ++ ys) ≡ ops xs ++ ops ys
  ops-append [] ys = refl
  ops-append (x ∷ xs) ys = ap (◌∷◌ (op x)) (ops-append xs ys)

  -- What is pending is all that is missing from the output.
  pub rpn-emitted : (e : Expr N) → emitted e ++ ops (pending e) ≡ rpn e
  unfolding rpn
  rpn-emitted (lit n) = refl
  rpn-emitted (bin o a b) = elim (Bool-cases (wraps_right o b)) [
    | inl w ↦ rw w (append_assoc (rpn a) (rpn b) _)
    | inr w ↦ rw w (
        simp (ops-append, append_assoc)
          (simp (← append_assoc (emitted b) (ops (pending b)) (op o ∷ []), rpn-emitted b)))
  ]
  rpn-emitted (call1 f a) = append-nil _
  rpn-emitted (call2 f a b) = append-nil _

  wraps_left_right :
      (o q : Bytes) (b : Expr N)
      → precedence o q ≡ true
      → wraps_right q b ≡ false
      → wraps_left o b ≡ false
  unfolding precedence
  wraps_left_right o q (bin r x y) h k = ground arith
  wraps_left_right o q (lit n) h k = refl
  wraps_left_right o q _ h k = refl

  -- Reading `o` pops the operator of what stands to its left with no parentheses.
  wraps_left-pops :
      (o q : Bytes) (a b : Expr N) → wraps_left o (bin q a b) ≡ false → precedence o q ≡ true
  unfolding precedence
  wraps_left-pops o q a b h = ground arith

  -- What stands to the right of `p` with no parentheses does not pop `p`.
  wraps_right-stays :
      (p r : Bytes) (a b : Expr N) → wraps_right p (bin r a b) ≡ false → precedence r p ≡ false
  unfolding precedence
  wraps_right-stays p r a b h = ground arith

  pub pending-All-pops :
      (o : Bytes) (e : Expr N)
      → wraps_left o e ≡ false
      → All (λ q. precedence o q ≡ true) (pending e)
  pending-All-pops o (bin q a b) h =
      let popped : precedence o q ≡ true = wraps_left-pops o q a b h in
      All-append (λ r. precedence o r ≡ true) _ (q ∷ [])
        (All-if-nil _ (wraps_right q b) (pending b)
          (λ w. pending-All-pops o b (wraps_left_right o q b popped w)))
        (popped, tt)
  pending-All-pops o (lit n) h = tt
  pending-All-pops o _ h = tt

  wraps_right_left :
      (p r : Bytes) (a : Expr N)
      → precedence r p ≡ false
      → wraps_left r a ≡ false
      → wraps_right p a ≡ false
  unfolding precedence
  wraps_right_left p r (bin s x y) h k = ground arith
  wraps_right_left p r (lit n) h k = refl
  wraps_right_left p r _ h k = refl

  pub arriving-All-stays :
      (p : Bytes) (e : Expr N)
      → wraps_right p e ≡ false
      → All (λ r. precedence r p ≡ false) (arriving e)
  arriving-All-stays p (bin r a b) h = (
    wraps_right-stays p r a b h,
    All-if-nil _ (wraps_left r a) (arriving a)
        (λ w. arriving-All-stays p a (wraps_right_left p r a (wraps_right-stays p r a b h) w)),
  )
  arriving-All-stays p (lit n) h = tt
  arriving-All-stays p _ h = tt
