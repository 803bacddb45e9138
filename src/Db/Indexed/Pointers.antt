-- ===== src/Db/Indexed/Pointers.antt =====
-- What `putIndex` and `delIndex` of db/indexed.go leave as it was, and what they point at.
use sp0rkle.Prelude.{
  ◌≡◌, refl, ap, ap₂, subst, ◌∙◌, inl, inr, true, ◌&&◌, some, List, [], ◌∷◌, Bytes, All, Bool-cases,
  Option-cases, arith, bytes_eq, bytes_eq_iff,
}
use sp0rkle.Db.Key.{Key, to_buckets}
use sp0rkle.Db.Bolt.{ok, BucketPath, Bolt}
use sp0rkle.Db.Bolt.Memory.{path_eq}
use sp0rkle.Db.Bolt.Memory.Laws.{path_eq_iff}
use sp0rkle.Db.Keyed.{find, create}
use sp0rkle.Db.Keyed.Stored.{find-some, create-keeps, Result-cases, Changes}
use sp0rkle.Db.Indexed.{put_index, del_index}

head_eq : (a b : Bytes) (p : BucketPath) → ◌≡◌ {A = BucketPath} (a ∷ []) (b ∷ p) → a ≡ b
head_eq a b p e = cc

module _ {Tx : Type 0} (bolt : Bolt Tx) (idxs : Bytes) where
  -- One round of `putIndex`.
  put_pointer-Changes :
      (ptr : Bytes) (key : Key) (tx : Tx) (b : BucketPath) (tx1 tx2 : Tx)
      → create bolt (idxs ∷ []) (to_buckets key).0 tx ≡ ok (b, tx1)
      → bolt.put b (to_buckets key).1 ptr tx1 ≡ some tx2
      → Changes bolt (idxs ∷ (to_buckets key).0) (to_buckets key).1 (some ptr) tx tx2
  put_pointer-Changes ptr key tx b tx1 tx2 c p =
      let (path, same) = create-keeps bolt (idxs ∷ []) (to_buckets key).0 tx b tx1 c in
      let p' = subst (λ q. bolt.put q (to_buckets key).1 ptr tx1 ≡ some tx2) path p in
      (
        bolt.put_get _ _ ptr tx1 tx2 p',
        λ q j n. bolt.put_get_other _ _ ptr tx1 tx2 q j p' n ∙ same q j,
      )

  -- What a property of states needs so that `putIndex` keeps it.
  put_index-keeps :
      (P : Tx → Type 0) (ptr : Bytes)
      → ((key : Key) (tx tx' : Tx)
          → Changes bolt (idxs ∷ (to_buckets key).0) (to_buckets key).1 (some ptr) tx tx'
          → P tx
          → P tx')
      → (keys : List Key) (tx tx' : Tx) → put_index bolt idxs ptr keys tx ≡ ok tx'
      → P tx
      → P tx'
  unfolding put_index
  put_index-keeps P ptr step [] tx tx' h p = let same : tx ≡ tx' = cc in subst P same p
  put_index-keeps P ptr step (key ∷ keys) tx tx' h p =
      elim (Result-cases (create bolt (idxs ∷ []) (to_buckets key).0 tx)) [
        | inl (e, c) ↦ absurd (ground (arith, c))
        | inr ((b, tx1), c) ↦ elim (Option-cases (bolt.put b (to_buckets key).1 ptr tx1)) [
          | inl q ↦ absurd (ground (arith, c, q))
          | inr (tx2, q) ↦
              put_index-keeps P ptr step keys tx2 tx' (ground (arith, c, q))
                (step key tx tx2 (put_pointer-Changes ptr key tx b tx1 tx2 c q) p)
        ]
      ]

  -- The values are in another bucket.
  pub put_index-values :
      (vals : Bytes)
      → ¬ (vals ≡ idxs)
      → (ptr : Bytes) (keys : List Key) (tx tx' : Tx) (k : Bytes)
      → put_index bolt idxs ptr keys tx ≡ ok tx'
      → bolt.get (vals ∷ []) k tx' ≡ bolt.get (vals ∷ []) k tx
  put_index-values vals n ptr keys tx tx' k h =
      put_index-keeps (λ s. bolt.get (vals ∷ []) k s ≡ bolt.get (vals ∷ []) k tx) ptr
        (λ key s s' c e. c.1 (vals ∷ []) k (λ q. n (head_eq vals idxs (to_buckets key).0 q.0)) ∙ e)
        keys tx tx' h refl

  pub del_index-values :
      (vals : Bytes)
      → ¬ (vals ≡ idxs)
      → (keys : List Key) (tx tx' : Tx) (k : Bytes) → del_index bolt idxs keys tx ≡ ok tx'
      → bolt.get (vals ∷ []) k tx' ≡ bolt.get (vals ∷ []) k tx
  unfolding del_index
  del_index-values vals n [] tx tx' k h =
      let same : tx' ≡ tx = cc in ap (bolt.get (vals ∷ []) k) same
  del_index-values vals n (key ∷ keys) tx tx' k h =
      elim (Option-cases (find bolt (idxs ∷ []) (to_buckets key).0 tx)) [
        | inl f ↦ let same : tx' ≡ tx = ground (arith, f) in ap (bolt.get (vals ∷ []) k) same
        | inr (b, f) ↦ elim (Option-cases (bolt.delete b (to_buckets key).1 tx)) [
          | inl d ↦ absurd (ground (arith, f, d))
          | inr (tx1, d) ↦
              let path = find-some bolt (idxs ∷ []) (to_buckets key).0 tx b f in
              del_index-values vals n keys tx1 tx' k (ground (arith, f, d))
              ∙ bolt.delete_get_other b (to_buckets key).1 tx tx1 (vals ∷ []) k d
                  (λ q. n (head_eq vals idxs (to_buckets key).0 (q.0 ∙ path)))
        ]
      ]

  -- A key that points at a value still does when other keys are made to.
  put_index-get :
      (ptr : Bytes) (key : Key) (keys : List Key) (tx tx' : Tx)
      → put_index bolt idxs ptr keys tx ≡ ok tx'
      → bolt.get (idxs ∷ (to_buckets key).0) (to_buckets key).1 tx ≡ some ptr
      → bolt.get (idxs ∷ (to_buckets key).0) (to_buckets key).1 tx' ≡ some ptr
  put_index-get ptr key keys tx tx' h e =
      let p = idxs ∷ (to_buckets key).0 in
      let j = (to_buckets key).1 in
      put_index-keeps (λ s. bolt.get p j s ≡ some ptr) ptr
        (λ other s s' c f.
          let q = idxs ∷ (to_buckets other).0 in
          let i = (to_buckets other).1 in
          elim (Bool-cases (path_eq p q && bytes_eq j i)) [
            | inl t ↦
                let (a, b) : (path_eq p q ≡ true) × (bytes_eq j i ≡ true) = ground arith in
                let path : p ≡ q = (path_eq_iff p q).0 a in
                let last : j ≡ i = (bytes_eq_iff j i).0 b in
                ap₂ (λ r l. bolt.get r l s') path last ∙ c.0
            | inr t ↦
                c.1 p j (λ w.
                  let a = (path_eq_iff p q).1 w.0 in
                  let b = (bytes_eq_iff j i).1 w.1 in absurd (ground (arith, a, b)))
                ∙ f
          ])
        keys tx tx' h e

  -- In the end every key points at the value.
  pub put_index-points :
      (ptr : Bytes) (keys : List Key) (tx tx' : Tx)
      → put_index bolt idxs ptr keys tx ≡ ok tx'
      → All (λ key. bolt.get (idxs ∷ (to_buckets key).0) (to_buckets key).1 tx' ≡ some ptr) keys
  unfolding put_index
  put_index-points ptr [] tx tx' h = tt
  put_index-points ptr (key ∷ keys) tx tx' h =
      elim (Result-cases (create bolt (idxs ∷ []) (to_buckets key).0 tx)) [
        | inl (e, c) ↦ absurd (ground (arith, c))
        | inr ((b, tx1), c) ↦ elim (Option-cases (bolt.put b (to_buckets key).1 ptr tx1)) [
          | inl q ↦ absurd (ground (arith, c, q))
          | inr (tx2, q) ↦
              let rest : put_index bolt idxs ptr keys tx2 ≡ ok tx' = ground (arith, c, q) in
              (
                put_index-get ptr key keys tx2 tx' rest
                    (put_pointer-Changes ptr key tx b tx1 tx2 c q).0,
                put_index-points ptr keys tx2 tx' rest,
              )
        ]
      ]
