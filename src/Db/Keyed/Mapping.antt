-- ===== src/Db/Keyed/Mapping.antt =====
-- A collection of db/keyed.go is a map from keys to values.
use sp0rkle.Prelude.{
  ◌≡◌, refl, sym, ap, ap₂, subst, ◌∙◌, inl, inr, ◌↔◌, true, false, Option, none, some, List, [],
  ◌∷◌, ◌++◌, map, Bytes, append_cancel, length, ◌==◌, if◌then◌else◌, Bool-cases, Option-cases,
  arith,
}
use sp0rkle.Db.Key.{Key, to_buckets, is_valid}
use sp0rkle.Db.Key.Unique.{pair_bytes, to_buckets_unique}
use sp0rkle.Db.Bolt.{Result, ok, err, ◌>>=◌, zero_length_key, BucketPath, Bolt, Codec}
use sp0rkle.Db.Keyed.{
  find, put_tx, delete_at, get, put, del, prepare, to_bson, from_bson, suffix, bson_prefix,
  prepare_all, put_tuples, batch_put, put_each,
}
use sp0rkle.Db.Keyed.Stored.{
  at_found, get-find, find-some, Changes, put_tx-Changes, delete_at-none, Result-cases,
}

suffix_bson : (m : Bytes) → suffix (bson_prefix ++ m) ≡ m
unfolding suffix
suffix_bson m = ground arith

module _ {V : Type 0} (codec : Codec V) where
  -- What `Get` makes of the bytes that it finds.
  abbrev pub decode : Option Bytes → Result (Option V)
  decode none = ok none
  decode (some d) = from_bson codec d >>= λ v. ok (some v)

  pub decode-to_bson : (v : V) (d : Bytes) → to_bson codec v ≡ ok d → decode (some d) ≡ ok (some v)
  unfolding to_bson from_bson
  decode-to_bson v d h = elim (Option-cases (codec.marshal v)) [
    | inl n ↦ absurd (ground (arith, n))
    | inr (m, n) ↦
        let same : bson_prefix ++ m ≡ d = ground (arith, n) in
        subst (λ b. decode (some b) ≡ ok (some v)) same
          (rw (suffix_bson m) (rw (codec.unmarshal_marshal v m n) refl))
  ]

module _ {Tx V : Type 0} (bolt : Bolt Tx) (codec : Codec V) (key_of : V → Key)
    (root : BucketPath) where
  -- The bytes at a key.
  abbrev pub stored : Key → Tx → Option Bytes
  stored key tx = bolt.get (root ++ (to_buckets key).0) (to_buckets key).1 tx

  pub get-stored :
      (key : Key) (tx : Tx)
      → get bolt codec key_of root key tx ≡ (
          if length (to_buckets key).1 == 0
          then err zero_length_key
          else decode codec (stored key tx))
  unfolding get
  get-stored key tx = elim (Bool-cases (length (to_buckets key).1 == 0)) [
    | inl e ↦ rw e refl
    | inr e ↦ rw e (
        go (find bolt root (to_buckets key).0 tx)
        ∙ ap (decode codec) (get-find bolt root (to_buckets key).0 (to_buckets key).1 tx))
  ]
    where
      go :
          (o : Option BucketPath)
          → (elim o [
            | none ↦ ok none
            | some b ↦ elim (bolt.get b (to_buckets key).1 tx) [
              | none ↦ ok none
              | some d ↦ from_bson codec d >>= λ v. ok (some v)
            ]
          ])
            ≡ decode codec (at_found bolt o (to_buckets key).1 tx)
      go none = refl
      go (some b) = elim (bolt.get b (to_buckets key).1 tx) [ none ↦ refl | some d ↦ refl ]

  -- What a Put that succeeds has done.
  put-Changes :
      (v : V) (tx tx' : Tx)
      → put bolt codec key_of root v tx ≡ ok tx'
      → (d : Bytes) × (to_bson codec v ≡ ok d)
        × ((length (to_buckets (key_of v)).1 == 0) ≡ false)
        × (is_valid (key_of v) ≡ true)
        × Changes bolt (root ++ (to_buckets (key_of v)).0) (to_buckets (key_of v)).1 (some d) tx tx'
  unfolding put prepare
  put-Changes v tx tx' h = elim (Result-cases (to_bson codec v)) [
    | inl (e, b) ↦ absurd (ground (arith, b))
    | inr (d, b) ↦
        let done : put_tx bolt root (to_buckets (key_of v)).0 (to_buckets (key_of v)).1 d tx
            ≡ ok tx' =
          ground (arith, b) in
        (d, b, ground arith, ground arith, put_tx-Changes bolt root _ _ d tx tx' done)
  ]

  -- Get at the key of a value that Put has stored finds the value.
  pub get-put :
      (v : V) (tx tx' : Tx)
      → put bolt codec key_of root v tx ≡ ok tx'
      → get bolt codec key_of root (key_of v) tx' ≡ ok (some v)
  get-put v tx tx' h =
      let (d, b, nonempty, valid, (found, others)) = put-Changes v tx tx' h in
      get-stored (key_of v) tx' ∙ rw nonempty (ap (decode codec) found ∙ decode-to_bson codec v d b)

  -- Put leaves what Get finds at every other valid key, one with another name or value in it.
  pub get-put_other :
      (v : V) (tx tx' : Tx) (key : Key)
      → put bolt codec key_of root v tx ≡ ok tx'
      → is_valid key ≡ true
      → ¬ (map pair_bytes key ≡ map pair_bytes (key_of v))
      → get bolt codec key_of root key tx' ≡ get bolt codec key_of root key tx
  get-put_other v tx tx' key h k n =
      let (d, b, nonempty, valid, (found, others)) = put-Changes v tx tx' h in
      let same : stored key tx' ≡ stored key tx = others _ _ (λ p. n (
        to_buckets_unique key (key_of v) k valid
          (ap₂ (λ a c. (a, c)) (append_cancel root _ _ p.0) p.1))) in
      get-stored key tx'
      ∙ ap (λ o. if length (to_buckets key).1 == 0 then err zero_length_key else decode codec o)
          same
      ∙ sym (get-stored key tx)

  removed :
      (v : V) (tx tx' : Tx)
      → del bolt codec key_of root v tx ≡ ok tx'
      → stored (key_of v) tx' ≡ none
  unfolding del
  removed v tx tx' h =
      let elems = (to_buckets (key_of v)).0 in
      let last = (to_buckets (key_of v)).1 in
      elim (Option-cases (find bolt root elems tx)) [
        | inl e ↦
            let same : tx' ≡ tx = ground (arith, e) in
            ap (stored (key_of v)) same
            ∙ sym (get-find bolt root elems last tx)
            ∙ ap (λ o. at_found bolt o last tx) e
        | inr (b, e) ↦
            let done : delete_at bolt root b last tx ≡ ok tx' = ground (arith, e) in
            ap (λ q. bolt.get q last tx') (sym (find-some bolt root elems tx b e))
            ∙ delete_at-none bolt root b last tx tx' done
      ]

  -- After Del of a value Get finds nothing at its key.
  pub get-del :
      (v : V) (tx tx' : Tx)
      → del bolt codec key_of root v tx ≡ ok tx'
      → get bolt codec key_of root (key_of v) tx' ≡ ok none
  unfolding del
  get-del v tx tx' h =
      let nonempty : (length (to_buckets (key_of v)).1 == 0) ≡ false = ground arith in
      get-stored (key_of v) tx' ∙ rw nonempty (ap (decode codec) (removed v tx tx' h))

  -- BatchPut succeeds just when the Puts of its values one after the other do, with their result.
  pub batch_put_lem :
      (vs : List V) (tx tx' : Tx)
      → (batch_put bolt codec key_of root vs tx ≡ ok tx')
        ↔ (put_each bolt codec key_of root vs tx ≡ ok tx')
  unfolding batch_put put_each put prepare_all put_tuples
  batch_put_lem [] tx tx' = (λ e. e, λ e. e)
  batch_put_lem (v ∷ vs) tx tx' = elim (Result-cases (prepare bolt codec key_of root v)) [
    | inl (e, p) ↦ ground (arith, p)
    | inr (((elems, last), d), p) ↦ elim (Result-cases (put_tx bolt root elems last d tx)) [
      | inl (e, q) ↦ ground (arith, p, q)
      | inr (tx1, q) ↦ elim (Result-cases (prepare_all bolt codec key_of root vs)) [
        | inl (e, r) ↦ ground (arith, p, q, r, batch_put_lem vs tx1 tx')
        | inr (ts, r) ↦ ground (arith, p, q, r, batch_put_lem vs tx1 tx')
      ]
    ]
  ]
