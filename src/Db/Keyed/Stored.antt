-- ===== src/Db/Keyed/Stored.antt =====
-- What `Get` finds after `Put` and `Del` of db/keyed.go.
use sp0rkle.Prelude.{
  ◌≡◌, refl, sym, ap, subst, ◌∙◌, ◌⊎◌, inl, inr, true, false, Option, none, some, List, [], ◌∷◌,
  ◌++◌, append-nil, append_assoc, Bytes, Bool-cases, Option-cases, arith,
}
use sp0rkle.Db.Bolt.{Result, ok, err, Error, BucketPath, Bolt}
use sp0rkle.Db.Keyed.{find, create, put_tx, delete_at}

pub Result-cases :
    {A : Type 0} (r : Result A) → ((e : Error) × (r ≡ err e)) ⊎ ((a : A) × (r ≡ ok a))
Result-cases (ok a) = inr (a, refl)
Result-cases (err e) = inl (e, refl)

module _ {Tx : Type 0} (bolt : Bolt Tx) where
  nested :
      (p : BucketPath) (elems : List Bytes) (tx : Tx)
      → bolt.is_bucket (p ++ elems) tx ≡ true
      → bolt.is_bucket p tx ≡ true
  nested p [] tx h = subst (λ q. bolt.is_bucket q tx ≡ true) (append-nil p) h
  nested p (e ∷ elems) tx h = bolt.is_bucket_nested p e tx (
      nested (p ++ e ∷ []) elems tx
        (subst (λ q. bolt.is_bucket q tx ≡ true) (sym (append_assoc p (e ∷ []) elems)) h))

  get-nested :
      (p : BucketPath) (elems : List Bytes) (k : Bytes) (tx : Tx)
      → bolt.is_bucket p tx ≡ false
      → bolt.get (p ++ elems) k tx ≡ none
  get-nested p elems k tx h = elim (Bool-cases (bolt.is_bucket (p ++ elems) tx)) [
    | inl e ↦ absurd (ground (arith, nested p elems tx e))
    | inr e ↦ bolt.get_outside (p ++ elems) k tx e
  ]

  abbrev pub at_found : Option BucketPath → Bytes → Tx → Option Bytes
  at_found none k tx = none
  at_found (some b) k tx = bolt.get b k tx

  -- The buckets that `find` does not find have no value.
  pub get-find :
      (p : BucketPath) (elems : List Bytes) (k : Bytes) (tx : Tx)
      → at_found (find bolt p elems tx) k tx ≡ bolt.get (p ++ elems) k tx
  unfolding find
  get-find p [] k tx = ap (λ q. bolt.get q k tx) (sym (append-nil p))
  get-find p (e ∷ elems) k tx = elim (Bool-cases (bolt.is_bucket (p ++ e ∷ []) tx)) [
    | inl b ↦ rw b (
        get-find (p ++ e ∷ []) elems k tx
        ∙ ap (λ q. bolt.get q k tx) (append_assoc p (e ∷ []) elems))
    | inr b ↦ rw b (
        sym (get-nested (p ++ e ∷ []) elems k tx b)
        ∙ ap (λ q. bolt.get q k tx) (append_assoc p (e ∷ []) elems))
  ]

  -- Where `find` succeeds it gives the path itself.
  pub find-some :
      (p : BucketPath) (elems : List Bytes) (tx : Tx) (b : BucketPath)
      → find bolt p elems tx ≡ some b
      → b ≡ p ++ elems
  unfolding find
  find-some p [] tx b h = let same : b ≡ p = cc in same ∙ sym (append-nil p)
  find-some p (e ∷ elems) tx b h =
      let found : find bolt (p ++ e ∷ []) elems tx ≡ some b = ground arith in
      find-some (p ++ e ∷ []) elems tx b found ∙ append_assoc p (e ∷ []) elems

  pub create-keeps :
      (p : BucketPath) (elems : List Bytes) (tx : Tx) (b : BucketPath) (tx' : Tx)
      → create bolt p elems tx ≡ ok (b, tx')
      → (b ≡ p ++ elems) × ((q : BucketPath) (k : Bytes) → bolt.get q k tx' ≡ bolt.get q k tx)
  unfolding create
  create-keeps p [] tx b tx' h =
      let path : b ≡ p = cc in
      let same : tx' ≡ tx = cc in (path ∙ sym (append-nil p), λ q k. ap (bolt.get q k) same)
  create-keeps p (e ∷ elems) tx b tx' h = elim (Option-cases (bolt.create_bucket p e tx)) [
    | inl n ↦ absurd (ground (arith, n))
    | inr (tx1, n) ↦
        let h' : create bolt (p ++ e ∷ []) elems tx1 ≡ ok (b, tx') = ground (arith, n) in
        let (path, same) = create-keeps (p ++ e ∷ []) elems tx1 b tx' h' in
        (path ∙ append_assoc p (e ∷ []) elems, λ q k. same q k ∙ bolt.create_get p e tx tx1 q k n)
  ]

  -- The value at a place has become this one, and all others are as they were.
  abbrev pub Changes : BucketPath → Bytes → Option Bytes → Tx → Tx → Type 0
  Changes p k o tx tx' =
      (bolt.get p k tx' ≡ o)
      × ((q : BucketPath) (j : Bytes) → ¬ ((q ≡ p) × (j ≡ k)) → bolt.get q j tx' ≡ bolt.get q j tx)

  pub put_tx-Changes :
      (root : BucketPath) (elems : List Bytes) (k v : Bytes) (tx tx' : Tx)
      → put_tx bolt root elems k v tx ≡ ok tx'
      → Changes (root ++ elems) k (some v) tx tx'
  unfolding put_tx
  put_tx-Changes root elems k v tx tx' h = elim (Result-cases (create bolt root elems tx)) [
    | inl (e, c) ↦ absurd (ground (arith, c))
    | inr ((b, tx1), c) ↦
        let (path, same) = create-keeps root elems tx b tx1 c in
        let put_ok : bolt.put b k v tx1 ≡ some tx' = ground (arith, c) in
        let put_ok' : bolt.put (root ++ elems) k v tx1 ≡ some tx' =
          subst (λ q. bolt.put q k v tx1 ≡ some tx') path put_ok in
        (
          bolt.put_get _ k v tx1 tx' put_ok',
          λ q j n. bolt.put_get_other _ k v tx1 tx' q j put_ok' n ∙ same q j,
        )
  ]

  pub delete_at-none :
      (root b : BucketPath) (k : Bytes) (tx tx' : Tx)
      → delete_at bolt root b k tx ≡ ok tx'
      → bolt.get b k tx' ≡ none
  unfolding delete_at
  delete_at-none root b k tx tx' h = elim (Bool-cases (bolt.is_bucket (b ++ k ∷ []) tx)) [
    | inl e ↦ bolt.delete_bucket_get b k tx tx' (ground (arith, e))
    | inr e ↦ bolt.delete_get b k tx tx' (ground (arith, e))
  ]
