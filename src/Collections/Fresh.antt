-- ===== src/Collections/Fresh.antt =====
-- `GetPseudoRand` returns what it has not returned before, and so goes through all that there is.
use sp0rkle.Prelude.{
  ◌≡◌, refl, sym, ap, ◌∙◌, ◌⊎◌, inl, inr, ℕ, zero, suc, ◌<◌, ◌≤◌, true, false, Option, none, some,
  List, [], ◌∷◌, Bytes, bytes_eq, bytes_eq_iff, length, get_elem?, ◌==◌, Bool-cases, arith,
}
use sp0rkle.Collections.PseudoRand.{mem, unseen, filtered, or_empty, get_pseudo_rand}

get_elem?-inside :
    (xs : List Bytes) (i : ℕ) → i < length xs → (x : Bytes) × (get_elem? xs i ≡ some x)
get_elem?-inside [] i h = absurd (omega arith)
get_elem?-inside (x ∷ xs) zero h = (x, refl)
get_elem?-inside (x ∷ xs) (suc i) h = get_elem?-inside xs i (omega arith)

get_elem?-mem : (xs : List Bytes) (i : ℕ) (x : Bytes) → get_elem? xs i ≡ some x → mem x xs ≡ true
unfolding mem
get_elem?-mem [] i x h = absurd (cc h)
get_elem?-mem (y ∷ xs) zero x h = let same : y ≡ x = cc in ground (arith, bytes_eq_iff y x)
get_elem?-mem (y ∷ xs) (suc i) x h = ground (arith, get_elem?-mem xs i x)

-- What is unseen is an item, and has not been seen.
unseen-mem :
    (ids items : List Bytes) (x : Bytes)
    → mem x (unseen ids items) ≡ true
    → (mem x items ≡ true) × (mem x ids ≡ false)
unfolding unseen mem
unseen-mem ids [] x h = absurd (ground arith)
unseen-mem ids (y ∷ items) x h = elim (Bool-cases (mem y ids)) [
  | inl e ↦ ground (arith, e, unseen-mem ids items x)
  | inr e ↦ elim (Bool-cases (bytes_eq y x)) [
    | inl f ↦
        let same : y ≡ x = (bytes_eq_iff y x).0 f in
        (ground (arith, f), sym (ap (λ z. mem z ids) same) ∙ e)
    | inr f ↦ ground (arith, e, f, unseen-mem ids items x)
  ]
]

filtered-mem :
    (seen : Option (List Bytes)) (items : List Bytes) (x : Bytes)
    → mem x (filtered seen items) ≡ true
    → (mem x items ≡ true) × (mem x (or_empty seen) ≡ false)
unfolding filtered or_empty mem
filtered-mem none items x h = (h, refl)
filtered-mem (some []) items x h = (h, refl)
filtered-mem (some (i ∷ ids)) items x h = ground (arith, unseen-mem (i ∷ ids) items x)

unseen-cons_le :
    (x : Bytes) (ids items : List Bytes)
    → length (unseen (x ∷ ids) items) ≤ length (unseen ids items)
unfolding unseen mem
unseen-cons_le x ids [] = omega arith
unseen-cons_le x ids (y ∷ items) = ground (arith, unseen-cons_le x ids items)

unseen-cons_lt :
    (x : Bytes) (ids items : List Bytes)
    → mem x (unseen ids items) ≡ true
    → length (unseen (x ∷ ids) items) < length (unseen ids items)
unfolding unseen mem
unseen-cons_lt x ids [] h = absurd (ground arith)
unseen-cons_lt x ids (y ∷ items) h = ground (
  arith,
  unseen-cons_lt x ids items,
  unseen-cons_le x ids items,
  bytes_eq_iff x y,
  bytes_eq_iff y x,
)

unseen_nil : (items : List Bytes) → unseen [] items ≡ items
unfolding unseen mem
unseen_nil [] = refl
unseen_nil (x ∷ items) = ap (λ xs. x ∷ xs) (unseen_nil items)

-- With one item more among those seen there is less to choose from.
filtered-cons_lt :
    (x : Bytes) (seen : Option (List Bytes)) (items : List Bytes)
    → mem x (filtered seen items) ≡ true
    → length (filtered (some (x ∷ or_empty seen)) items) < length (filtered seen items)
unfolding filtered or_empty
filtered-cons_lt x none items h = ground (arith, unseen-cons_lt x [] items, unseen_nil items)
filtered-cons_lt x (some []) items h = ground (arith, unseen-cons_lt x [] items, unseen_nil items)
filtered-cons_lt x (some (i ∷ ids)) items h = ground (arith, unseen-cons_lt x (i ∷ ids) items)

-- What a call may do: return nothing when all is seen and forget it; or return an item that is not
-- seen, and forget all if it is the last, or else remember it, which leaves less to choose from.
abbrev pub Draws :
    (seen : Option (List Bytes)) → List Bytes → Option Bytes × Option (List Bytes) → Type 0
Draws seen items r =
    ((r ≡ (none, none)) × (length (filtered seen items) ≡ 0))
    ⊎ ((x : Bytes) × (r.0 ≡ some x)
        × (mem x items ≡ true)
        × (mem x (or_empty seen) ≡ false)
        × (((r.1 ≡ none) × (length (filtered seen items) ≡ 1))
            ⊎ ((r.1 ≡ some (x ∷ or_empty seen))
                × (length (filtered r.1 items) < length (filtered seen items)))))

-- If rand.Intn returns a number below its argument, a call of GetPseudoRand returns nothing when
-- there is nothing that is not seen, and else an item that is not seen; it forgets all in the first
-- case and if the item was the last, and else remembers it, which leaves less to choose from.
pub get_pseudo_rand-Draws :
    (intn : ℕ → ℕ)
    → ((n : ℕ) → 0 < n → intn n < n)
    → (seen : Option (List Bytes)) (items : List Bytes)
    → Draws seen items (get_pseudo_rand intn seen items)
unfolding get_pseudo_rand
get_pseudo_rand-Draws intn below seen items =
    let left = filtered seen items in
    elim (Bool-cases (length left == 0)) [
      | inl e ↦ rw e (inl (refl, ground (arith, e)))
      | inr e ↦ elim (Bool-cases (length left == 1)) [
        | inl f ↦
            let (x, g) = get_elem?-inside left 0 (ground (arith, e)) in
            let (a, b) = filtered-mem seen items x (get_elem?-mem left 0 x g) in
            rw e (rw f (inr (x, g, a, b, inl (refl, ground (arith, f)))))
        | inr f ↦
            let (x, g) =
              get_elem?-inside left (intn (length left))
                (below (length left) (ground (arith, e))) in
            let m = get_elem?-mem left (intn (length left)) x g in
            let (a, b) = filtered-mem seen items x m in
            rw e (rw f (rw g (inr (x, refl, a, b, inr (refl, filtered-cons_lt x seen items m)))))
      ]
    ]
