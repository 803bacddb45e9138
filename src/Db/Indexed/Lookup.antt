-- ===== src/Db/Indexed/Lookup.antt =====
-- What `Get` of db/indexed.go finds after `Put`, by id and by index, and when its buckets share a name.
use sp0rkle.Prelude.{
  ◌≡◌, refl, sym, ap, ◌∙◌, inl, inr, ◌↔◌, ℕ, ◌≤◌, Bool, true, false, not, ◌&&◌, ◌||◌, Option, none,
  some, List, [], ◌∷◌, ◌++◌, Bytes, codes, append_cancel, length, get_elem?, bytes_eq, leb, ◌==◌,
  All, Bool-cases, Option-cases, arith,
}
use sp0rkle.Db.Key.{Key, elem_id, bytes, name, value_bytes, to_buckets, split_last, id_tag, usep}
use sp0rkle.Db.Bolt.{Result, ok, BucketPath, Bolt, Codec}
use sp0rkle.Db.Keyed.{find, is_pointer, is_bson, to_bson, from_bson}
use sp0rkle.Db.Keyed.Stored.{at_found, get-find, Result-cases}
use sp0rkle.Db.Keyed.Mapping.{decode, decode-to_bson}
use sp0rkle.Db.Indexed.{
  bucket_names, to_pointer, is_nil, put_index, resolve, get, drop_old, put_tx, put,
}
use sp0rkle.Db.Indexed.Pointers.{put_index-values, put_index-points, del_index-values}
use sp0rkle.Db.Indexed.Names.{names_shared, names_apart}

abbrev nth : ℕ → Bytes → ℕ
nth i s = elim (get_elem? s i) [ none ↦ 0 | some b ↦ b ]

-- The two buckets have the same name just when the array of the collection's name has room for five
-- more bytes behind it.
pub bucket_names_lem :
    (grown : ℕ → Bytes) (spare n : Bytes)
    → ((bucket_names grown spare n).0 ≡ (bucket_names grown spare n).1) ↔ (5 ≤ length spare)
bucket_names_lem grown spare n = elim (Bool-cases (leb 5 (length spare))) [
  | inl e ↦ rw (names_shared grown spare n (ground (arith, e))) (λ _. ground (arith, e), λ _. refl)
  | inr e ↦ rw (names_apart grown spare n (ground (arith, e))) (
    λ q.
        let second : 118 ≡ 105 = ap (nth 1) (append_cancel n (codes "_vals") (codes "_idxs") q) in
        absurd (omega arith),
    λ le. absurd (ground (arith, e)),
  )
]

-- The key of an index, which `Get` looks up among the indexes.
abbrev pub is_index_key : Key → Bool
is_index_key key =
    not (length (to_buckets key).1 == 0)
    && (not (is_nil (to_buckets key).0) || not (is_pointer (to_buckets key).1))

module _ {Tx V : Type 0} (bolt : Bolt Tx) (codec : Codec V) (vals idxs : Bytes) where
  resolve-decode :
      (ptr : Bytes) (tx : Tx)
      → resolve bolt codec vals idxs ptr tx ≡ decode codec (bolt.get (vals ∷ []) ptr tx)
  unfolding resolve
  resolve-decode ptr tx = elim (bolt.get (vals ∷ []) ptr tx) [ none ↦ refl | some d ↦ refl ]

  -- By id, Get reads the values alone.
  id_is_pointer : (i : Bytes) → is_pointer (bytes (elem_id i)) ≡ true
  unfolding is_pointer bytes name value_bytes bytes_eq
  id_is_pointer i = ground arith

  length-id : (i : Bytes) → (length (bytes (elem_id i)) == 0) ≡ false
  unfolding bytes name value_bytes
  length-id i = ground arith

  get-id :
      (i : Bytes) (tx : Tx)
      → get bolt codec vals idxs (elem_id i ∷ []) tx
        ≡ decode codec (bolt.get (vals ∷ []) (bytes (elem_id i)) tx)
  unfolding get to_buckets split_last
  get-id i tx = rw (length-id i) (rw (id_is_pointer i) (resolve-decode _ tx))

  get-index :
      (key : Key) (tx : Tx) (ptr : Bytes)
      → is_index_key key ≡ true
      → bolt.get (idxs ∷ (to_buckets key).0) (to_buckets key).1 tx ≡ some ptr
      → get bolt codec vals idxs key tx ≡ decode codec (bolt.get (vals ∷ []) ptr tx)
  unfolding get
  get-index key tx ptr h e =
      let full : (length (to_buckets key).1 == 0) ≡ false = ground arith in
      let looked : (not (is_nil (to_buckets key).0) || not (is_pointer (to_buckets key).1)) ≡ true =
        ground arith in
      rw full (
        rw looked (
          go (find bolt (idxs ∷ []) (to_buckets key).0 tx)
          ∙ ap follow (get-find bolt (idxs ∷ []) (to_buckets key).0 (to_buckets key).1 tx ∙ e)
          ∙ resolve-decode ptr tx))
    where
      follow : Option Bytes → Result (Option V)
      follow none = ok none
      follow (some p) = resolve bolt codec vals idxs p tx

      go :
          (o : Option BucketPath)
          → (elim o [
            | none ↦ ok none
            | some b ↦ elim (bolt.get b (to_buckets key).1 tx) [
              | none ↦ ok none
              | some p ↦ resolve bolt codec vals idxs p tx
            ]
          ])
            ≡ follow (at_found bolt o (to_buckets key).1 tx)
      go none = refl
      go (some b) = elim (bolt.get b (to_buckets key).1 tx) [ none ↦ refl | some p ↦ refl ]

  module _ (id_of : V → Bytes) (indexes : V → List Key) (id_is_valid : Bytes → Bool) where
    drop_old-values :
        ¬ (vals ≡ idxs)
        → (v : V) (tx tx' : Tx) (k : Bytes)
        → drop_old bolt codec vals idxs id_of indexes v tx ≡ ok tx'
        → bolt.get (vals ∷ []) k tx' ≡ bolt.get (vals ∷ []) k tx
    unfolding drop_old
    drop_old-values n v tx tx' k h =
        elim (Option-cases (bolt.get (vals ∷ []) (to_pointer id_of v) tx)) [
          | inl g ↦ let same : tx' ≡ tx = ground (arith, g) in ap (bolt.get (vals ∷ []) k) same
          | inr (d, g) ↦ elim (Bool-cases (is_bson d)) [
            | inr b ↦ let same : tx' ≡ tx = ground (arith, g, b) in ap (bolt.get (vals ∷ []) k) same
            | inl b ↦ elim (Result-cases (from_bson codec d)) [
              | inl (e, r) ↦ absurd (ground (arith, g, b, r))
              | inr (old, r) ↦
                  del_index-values bolt idxs vals n (indexes old) tx tx' k (ground (arith, g, b, r))
            ]
          ]
        ]

    pointer_id : (v : V) → bytes (elem_id (id_of v)) ≡ to_pointer id_of v
    unfolding bytes name value_bytes to_pointer
    pointer_id v = refl

    other_pointer :
        (v : V) (i : Bytes) → ¬ (i ≡ id_of v) → ¬ (bytes (elem_id i) ≡ to_pointer id_of v)
    unfolding bytes name value_bytes to_pointer
    other_pointer v i m q = m (append_cancel (id_tag ++ usep ∷ []) i (id_of v) q)

    -- What a Put that succeeds has done.
    record Stores (v : V) (tx tx' : Tx) : Type 0 where
      encoded : Bytes
      is_encoded : to_bson codec v ≡ ok encoded
      found : bolt.get (vals ∷ []) (to_pointer id_of v) tx' ≡ some encoded
      others :
          (k : Bytes)
          → ¬ (k ≡ to_pointer id_of v)
          → bolt.get (vals ∷ []) k tx' ≡ bolt.get (vals ∷ []) k tx
      points :
          All
            (λ key.
              bolt.get (idxs ∷ (to_buckets key).0) (to_buckets key).1 tx'
              ≡ some (to_pointer id_of v))
            (indexes v)

    put_tx-Stores :
        ¬ (vals ≡ idxs)
        → (v : V) (d : Bytes) (tx tx' : Tx) → to_bson codec v ≡ ok d
        → put_tx bolt codec vals idxs id_of indexes v d tx ≡ ok tx'
        → Stores v tx tx'
    unfolding put_tx
    put_tx-Stores n v d tx tx' b h =
        elim (Result-cases (drop_old bolt codec vals idxs id_of indexes v tx)) [
          | inl (e, o) ↦ absurd (ground (arith, o))
          | inr (tx1, o) ↦ elim (Option-cases (bolt.put (vals ∷ []) (to_pointer id_of v) d tx1)) [
            | inl p ↦ absurd (ground (arith, o, p))
            | inr (tx2, p) ↦
                let last : put_index bolt idxs (to_pointer id_of v) (indexes v) tx2 ≡ ok tx' =
                  ground (arith, o, p) in
                let kept : (k : Bytes) → bolt.get (vals ∷ []) k tx' ≡ bolt.get (vals ∷ []) k tx2 =
                  λ k. put_index-values bolt idxs vals n _ (indexes v) tx2 tx' k last in
                record {
                  encoded = d;
                  is_encoded = b;
                  found = kept _ ∙ bolt.put_get _ _ d tx1 tx2 p;
                  others = λ k m.
                      kept k
                      ∙ bolt.put_get_other _ _ d tx1 tx2 _ k p (λ q. m q.1)
                      ∙ drop_old-values n v tx tx1 k o;
                  points = put_index-points bolt idxs _ (indexes v) tx2 tx' last;
                }
          ]
        ]

    put-Stores :
        ¬ (vals ≡ idxs)
        → (v : V) (tx tx' : Tx) → put bolt codec vals idxs id_of indexes id_is_valid v tx ≡ ok tx'
        → Stores v tx tx'
    unfolding put
    put-Stores n v tx tx' h = elim (Result-cases (to_bson codec v)) [
      | inl (e, b) ↦ absurd (ground (arith, b))
      | inr (d, b) ↦ put_tx-Stores n v d tx tx' b (ground (arith, b))
    ]

    -- If the two buckets have different names, Get by the id of a value that Put has stored finds
    -- the value.
    pub get_id-put :
        ¬ (vals ≡ idxs)
        → (v : V) (tx tx' : Tx) → put bolt codec vals idxs id_of indexes id_is_valid v tx ≡ ok tx'
        → get bolt codec vals idxs (elem_id (id_of v) ∷ []) tx' ≡ ok (some v)
    get_id-put n v tx tx' h =
        let s = put-Stores n v tx tx' h in
        get-id (id_of v) tx'
        ∙ ap (decode codec) (ap (λ k. bolt.get (vals ∷ []) k tx') (pointer_id v) ∙ s.found)
        ∙ decode-to_bson codec v s.encoded s.is_encoded

    -- If the two buckets have different names, Put leaves what Get finds by every other id.
    pub get_id-put_other :
        ¬ (vals ≡ idxs)
        → (v : V) (tx tx' : Tx) (i : Bytes)
        → put bolt codec vals idxs id_of indexes id_is_valid v tx ≡ ok tx'
        → ¬ (i ≡ id_of v)
        → get bolt codec vals idxs (elem_id i ∷ []) tx'
          ≡ get bolt codec vals idxs (elem_id i ∷ []) tx
    get_id-put_other n v tx tx' i h m =
        let s = put-Stores n v tx tx' h in
        get-id i tx'
        ∙ ap (decode codec) (s.others (bytes (elem_id i)) (other_pointer v i m))
        ∙ sym (get-id i tx)

    -- If the two buckets have different names and Get looks the keys of all the indexes of a value
    -- up among the indexes, then after Put has stored the value Get finds it at each of them.
    pub get_index-put :
        ¬ (vals ≡ idxs)
        → (v : V) (tx tx' : Tx) → All (λ key. is_index_key key ≡ true) (indexes v)
        → put bolt codec vals idxs id_of indexes id_is_valid v tx ≡ ok tx'
        → All (λ key. get bolt codec vals idxs key tx' ≡ ok (some v)) (indexes v)
    get_index-put n v tx tx' looked h =
        let s = put-Stores n v tx tx' h in
        let value = ap (decode codec) s.found ∙ decode-to_bson codec v s.encoded s.is_encoded in
        go value (indexes v) looked s.points
      where
        go :
            decode codec (bolt.get (vals ∷ []) (to_pointer id_of v) tx') ≡ ok (some v)
            → (keys : List Key) → All (λ key. is_index_key key ≡ true) keys
            → All
                (λ key.
                  bolt.get (idxs ∷ (to_buckets key).0) (to_buckets key).1 tx'
                  ≡ some (to_pointer id_of v))
                keys
            → All (λ key. get bolt codec vals idxs key tx' ≡ ok (some v)) keys
        go value [] l p = tt
        go value (key ∷ keys) l p = (get-index key tx' _ l.0 p.0 ∙ value, go value keys l.1 p.1)
