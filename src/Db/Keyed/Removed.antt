-- ===== src/Db/Keyed/Removed.antt =====
-- What `Del` of db/keyed.go leaves.
use sp0rkle.Prelude.{
  ◌≡◌, sym, ap, ap₂, ◌∙◌, inl, inr, ◌≤◌, true, [], ◌∷◌, ◌++◌, map, Bytes, append_cancel, length,
  length-append, ◌==◌, if◌then◌else◌, Bool-cases, Option-cases, arith,
}
use sp0rkle.Db.Key.{Key, to_buckets, is_valid}
use sp0rkle.Db.Key.Unique.{pair_bytes, to_buckets_unique}
use sp0rkle.Db.Bolt.{ok, err, zero_length_key, BucketPath, Bolt, Codec}
use sp0rkle.Db.Keyed.{find, delete_at, get, del}
use sp0rkle.Db.Keyed.Stored.{find-some}
use sp0rkle.Db.Keyed.Mapping.{decode, stored, get-stored}

module _ {Tx : Type 0} (bolt : Bolt Tx) where
  -- Neither the place itself nor inside a bucket of this name.
  delete_at-other :
      (root p : BucketPath) (k : Bytes) (tx tx' : Tx) (q : BucketPath) (j : Bytes)
      → delete_at bolt root p k tx ≡ ok tx'
      → ¬ ((q ≡ p) × (j ≡ k))
      → ¬ ((r : BucketPath) × (q ≡ p ++ k ∷ r))
      → bolt.get q j tx' ≡ bolt.get q j tx
  unfolding delete_at
  delete_at-other root p k tx tx' q j h n m = elim (Bool-cases (bolt.is_bucket (p ++ k ∷ []) tx)) [
    | inl e ↦ bolt.delete_bucket_get_other p k tx tx' q j (ground (arith, e)) m
    | inr e ↦ bolt.delete_get_other p k tx tx' q j (ground (arith, e)) n
  ]

-- A path that is no longer than another is not inside it.
outside_of_length :
    (root p q r : BucketPath) (k : Bytes)
    → length q ≤ length p
    → ¬ (root ++ q ≡ (root ++ p) ++ k ∷ r)
outside_of_length root p q r k h e = absurd (
    omega (
      arith,
      ap length e,
      length-append root q,
      length-append (root ++ p) (k ∷ r),
      length-append root p,
    ))

module _ {Tx V : Type 0} (bolt : Bolt Tx) (codec : Codec V) (key_of : V → Key)
    (root : BucketPath) where
  -- If Del of a value succeeds, it leaves what Get finds at every valid key of no more elements
  -- than the value's that differs from it in a name or in the bytes of a value.
  pub get-del_other :
      (v : V) (tx tx' : Tx) (key : Key)
      → del bolt codec key_of root v tx ≡ ok tx'
      → is_valid key ≡ true
      → ¬ (map pair_bytes key ≡ map pair_bytes (key_of v))
      → length (to_buckets key).0 ≤ length (to_buckets (key_of v)).0
      → get bolt codec key_of root key tx' ≡ get bolt codec key_of root key tx
  unfolding del
  get-del_other v tx tx' key h valid n short =
      let elems = (to_buckets (key_of v)).0 in
      let last = (to_buckets (key_of v)).1 in
      let valid' : is_valid (key_of v) ≡ true = ground arith in
      let same : stored bolt codec key_of root key tx' ≡ stored bolt codec key_of root key tx =
        elim (Option-cases (find bolt root elems tx)) [
          | inl e ↦
              let unchanged : tx' ≡ tx = ground (arith, e) in
              ap (stored bolt codec key_of root key) unchanged
          | inr (b, e) ↦
              let path = find-some bolt root elems tx b e in
              let done : delete_at bolt root b last tx ≡ ok tx' = ground (arith, e) in
              delete_at-other bolt root b last tx tx' _ _ done
                (λ p. n (
                  to_buckets_unique key (key_of v) valid valid'
                    (ap₂ (λ a c. (a, c)) (append_cancel root _ _ (p.0 ∙ path)) p.1)))
                (λ p.
                  outside_of_length root elems (to_buckets key).0 p.0 last short
                    (p.1 ∙ ap (λ a. a ++ last ∷ p.0) path))
        ] in
      get-stored bolt codec key_of root key tx'
      ∙ ap (λ o. if length (to_buckets key).1 == 0 then err zero_length_key else decode codec o)
          same
      ∙ sym (get-stored bolt codec key_of root key tx)
