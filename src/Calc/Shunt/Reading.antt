-- ===== src/Calc/Shunt/Reading.antt =====
-- `shunt` of util/calc/calc.go turns what a writer types for an expression into its reverse Polish
-- order. The stack and the output are followed over each piece of the input.
use sp0rkle.Prelude.{
  ◌≡◌, refl, sym, ap, ap₂, ◌∙◌, Bool, true, false, List, [], ◌∷◌, ◌++◌, append-nil, append_assoc,
  Bytes, if◌then◌else◌,
}
use sp0rkle.Calc.Token.{Token, lpar, rpar, comma, op, func, num, argc_of}
use sp0rkle.Calc.Shunt.{ok, ◌>>=◌, empty_yard, shunt_step, shunt_all, flush, shunt}
use sp0rkle.Calc.Shunt.Steps.{
  at, Reads, flush-ops, shunt_op, shunt_rpar, shunt_rpar_call, shunt_comma, Keeps-head, Keeps-tail,
  shunt_lpar, shunt_open_call,
}
use sp0rkle.Calc.Shunt.Expr.{
  Expr, lit, bin, call1, call2, wraps_left, wraps_right, wrap, show, rpn, IsCalledRight, pending,
  emitted, arriving, ops, ops-append, All-if-nil, rpn-emitted, pending-All-pops, arriving-All-stays,
}

module _ {N : Type 0} where
  regroup :
      (out x y z xy : List (Token N)) → x ++ y ≡ xy → ((out ++ x) ++ y) ++ z ≡ out ++ (xy ++ z)
  regroup out x y z xy e = rw (← e) (simp append_assoc)

  -- An operand in its parentheses, or with none.
  Reads-wrap :
      (w : Bool) (e : Expr N)
      → Reads (show e) (arriving e) (pending e) (emitted e)
      → Reads
          (wrap w (show e))
          (if w then [] else arriving e)
          (if w then [] else pending e)
          (if w then rpn e else emitted e)
  Reads-wrap false e reads stack argcs out rest k = reads stack argcs out rest k
  Reads-wrap true e reads stack argcs out rest k =
      ap (λ ts. shunt_all (lpar ∷ ts) (at stack argcs out)) (append_assoc (show e) _ rest)
      ∙ shunt_lpar stack argcs out _
      ∙ reads (lpar ∷ stack) argcs out (rpar ∷ rest) tt
      ∙ shunt_rpar (pending e) [] stack argcs (out ++ emitted e) rest k
      ∙ ap (λ o. shunt_all rest (at stack argcs o))
          (append_assoc out (emitted e) _ ∙ ap (◌++◌ out) (rpn-emitted e))

  emitted-wrap :
      (w : Bool) (e : Expr N)
      → (if w then rpn e else emitted e) ++ ops (if w then [] else pending e) ≡ rpn e
  emitted-wrap true e = append-nil (rpn e)
  emitted-wrap false e = rpn-emitted e

  module _ (o : Bytes) (a b : Expr N) where
    Reads-bin :
        Reads (show a) (arriving a) (pending a) (emitted a)
        → Reads (show b) (arriving b) (pending b) (emitted b)
        → Reads
            (show (bin o a b))
            (arriving (bin o a b))
            (pending (bin o a b))
            (emitted (bin o a b))
    unfolding show
    Reads-bin ra rb stack argcs out rest k =
        let wa = wraps_left o a in
        let wb = wraps_right o b in
        ap (λ ts. shunt_all ts (at stack argcs out)) (append_assoc (wrap wa (show a)) _ rest)
        ∙ Reads-wrap wa a ra stack argcs out _ (Keeps-tail o _ stack k)
        ∙ shunt_op o (if wa then [] else pending a) stack argcs _ (wrap wb (show b) ++ rest)
            (All-if-nil _ wa (pending a) (pending-All-pops o a)) (Keeps-head o _ stack k)
        ∙ Reads-wrap wb b rb (op o ∷ stack) argcs _ rest
            (All-if-nil _ wb (arriving b) (arriving-All-stays o b))
        ∙ ap₂ (λ st ou. shunt_all rest (at st argcs ou))
            (sym (append_assoc (ops (if wb then [] else pending b)) (op o ∷ []) stack)
              ∙ ap (λ l. l ++ stack) (sym (ops-append (if wb then [] else pending b) (o ∷ []))))
            (regroup out _ _ _ _ (emitted-wrap wa a))

  module _ (f : Bytes) (a : Expr N) (ra : Reads (show a) (arriving a) (pending a) (emitted a)) where
    Reads-call1 : argc_of f ≡ 1 → Reads (show (call1 f a)) [] [] (rpn (call1 f a))
    unfolding show rpn
    Reads-call1 e stack argcs out rest k =
        shunt_open_call f stack argcs out _
        ∙ ap (λ ts. shunt_all ts (at (lpar ∷ func f ∷ stack) ((f, 0) ∷ argcs) out))
            (append_assoc (show a) _ rest)
        ∙ ra _ _ out (rpar ∷ rest) tt
        ∙ shunt_rpar_call (pending a) f 0 stack argcs _ rest e
        ∙ ap (λ o. shunt_all rest (at stack argcs o)) (regroup out _ _ _ _ (rpn-emitted a))

    Reads-call2 :
        (b : Expr N)
        → Reads (show b) (arriving b) (pending b) (emitted b)
        → argc_of f ≡ 2
        → Reads (show (call2 f a b)) [] [] (rpn (call2 f a b))
    unfolding show rpn
    Reads-call2 b rb e stack argcs out rest k =
        shunt_open_call f stack argcs out _
        ∙ ap (λ ts. shunt_all ts (at (lpar ∷ func f ∷ stack) ((f, 0) ∷ argcs) out))
            (append_assoc (show a) _ rest
              ∙ ap (λ ts. show a ++ (comma ∷ ts)) (append_assoc (show b) _ rest))
        ∙ ra _ _ out _ tt
        ∙ shunt_comma (pending a) f 0 _ argcs _ _
        ∙ rb _ _ _ (rpar ∷ rest) tt
        ∙ shunt_rpar_call (pending b) f 1 stack argcs _ rest e
        ∙ ap (λ o. shunt_all rest (at stack argcs o))
            (regroup _ (emitted b) _ _ _ (rpn-emitted b) ∙ regroup out _ _ _ _ (rpn-emitted a))

  Reads-lit : (n : N) → Reads (num n ∷ []) [] [] (num n ∷ [])
  unfolding shunt_all shunt_step
  Reads-lit n stack argcs out rest k = refl

  Reads-show : (e : Expr N) → IsCalledRight e → Reads (show e) (arriving e) (pending e) (emitted e)
  Reads-show (lit n) c = unfold show rpn in Reads-lit n
  Reads-show (bin o a b) c = Reads-bin o a b (Reads-show a c.0) (Reads-show b c.1)
  Reads-show (call1 f a) c = Reads-call1 f a (Reads-show a c.1) c.0
  Reads-show (call2 f a b) c = Reads-call2 f a (Reads-show a c.1) b (Reads-show b c.2) c.0

  -- Whatever the operators and their precedences: what a writer types for an expression, with
  -- the parentheses that the precedences make necessary, is converted to its reverse Polish order.
  pub shunt-show : (e : Expr N) → IsCalledRight e → shunt (show e) ≡ ok (rpn e)
  unfolding shunt shunt_all
  shunt-show e c =
      ap (λ r. r >>= λ y. flush y.stack y.output)
        (ap (λ ts. shunt_all ts (empty_yard N)) (sym (append-nil (show e)))
          ∙ Reads-show e c [] [] [] [] tt)
      ∙ (ap (λ st. flush st (emitted e)) (append-nil (ops (pending e)))
          ∙ flush-ops (pending e) (emitted e)
          ∙ ap ok (rpn-emitted e))
