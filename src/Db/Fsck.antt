-- ===== src/Db/Fsck.antt =====
-- `Fsck` of db/indexed.go and of db/keyed.go, with the two passes of db/scan.go.
pub mod Fails
use sp0rkle.Prelude.{
  ℕ, zero, suc, ◌≡◌, ◌≢◌, Bool, true, false, not, Option, none, some, List, [], ◌∷◌, ◌++◌, Bytes,
  bytes_eq, length, ◌==◌, if◌then◌else◌,
}
use sp0rkle.Db.Key.{Key, to_buckets}
use sp0rkle.Db.Bolt.{
  Error, unmarshal_error, bolt_error, delete_everything, Result, ok, err, ◌>>=◌, of_option,
  BucketPath, Bolt, Codec,
}
use sp0rkle.Db.Keyed.{is_bson, find, from_bson, delete_at}
use sp0rkle.Db.Indexed.{to_pointer, del_index}
use sp0rkle.Db.IndexedScan
use sp0rkle.Db.Scan

-- The cursors of the bbolt library, each in its bucket. Where `Next` goes after a `Delete` its
-- documentation leaves open; a `Delete` changes the cursor's own bucket.
pub record Cursors (Tx : Type 0) : Type 1 where
  pub Cursor : Type 0
  pub bucket : Cursor → BucketPath
  -- The entry, where `none` stands for a nested bucket, and the cursor there.
  pub first : BucketPath → Tx → Option ((Bytes × Option Bytes) × Cursor)
  pub next : Cursor → Tx → Option ((Bytes × Option Bytes) × Cursor)
  pub delete : Cursor → Tx → Option Tx
  pub bucket-first :
      (p : BucketPath) (tx : Tx) (e : Bytes × Option Bytes) (c : Cursor)
      → first p tx ≡ some (e, c)
      → bucket c ≡ p
  pub bucket-next :
      (c : Cursor) (tx : Tx) (e : Bytes × Option Bytes) (c' : Cursor)
      → next c tx ≡ some (e, c')
      → bucket c' ≡ bucket c
  pub first-delete :
      (c : Cursor) (tx tx' : Tx) (q : BucketPath)
      → delete c tx ≡ some tx'
      → q ≢ bucket c
      → first q tx' ≡ first q tx

-- Whether the last part of one of the keys is `k`.
unfoldable pub has_last : Bytes → List Key → Bool
has_last k [] = false
has_last k (key ∷ keys) = if bytes_eq (to_buckets key).1 k then true else has_last k keys

module _ {Tx V : Type 0} (bolt : Bolt Tx) (cursors : Cursors Tx) (codec : Codec V)
    (vals idxs : Bytes) (id_of : V → Bytes) (indexes : V → List Key) where
  open cursors use {Cursor, first, next, delete}

  -- Whether an entry of the index bucket is to go.
  unfoldable pub is_obsolete : Bytes → Option Bytes → Tx → Result Bool
  unfolding has_last
  is_obsolete k none tx = ok true
  is_obsolete k (some v) tx = elim (bolt.get (vals ∷ []) v tx) [
    | none ↦ ok true
    | some d ↦
        let looked_up = (do elem ← from_bson codec d; ok (not (has_last k (indexes elem)))) in
        if is_bson d then looked_up else ok true
  ]

  -- The loop of fsckIndexPass; `none` means that the fuel was not enough.
  unfoldable pub index_pass : ℕ → Option ((Bytes × Option Bytes) × Cursor) → Tx → Option (Result Tx)
  index_pass fuel none tx = some (ok tx)
  index_pass zero (some at) tx = none
  index_pass (suc fuel) (some ((k, v), c)) tx = elim (is_obsolete k v tx) [
    | err e ↦ some (err e)
    | ok false ↦ index_pass fuel (next c tx) tx
    | ok true ↦ elim (delete c tx) [
      | none ↦ some (err bolt_error)
      | some tx' ↦ index_pass fuel (next c tx') tx'
    ]
  ]

  -- The bucket of an index, whose buckets are made where they are missing.
  unfoldable pub descend : BucketPath → List Bytes → Tx → Result (BucketPath × Tx)
  descend b [] tx = ok (b, tx)
  descend b (el ∷ elems) tx =
      let there = descend (b ++ el ∷ []) elems tx in
      let made = (do
        tx' ← of_option bolt_error (bolt.create_bucket b el tx)
        descend (b ++ el ∷ []) elems tx') in
      if bolt.is_bucket (b ++ el ∷ []) tx then there else made

  unfoldable pub is_pointing : Option Bytes → Bytes → Bool
  is_pointing none ptr = false
  is_pointing (some idxptr) ptr = bytes_eq idxptr ptr

  -- The inner loop of fsckValuePass.
  unfoldable pub point_indexes : Bytes → List Key → Tx → Result Tx
  unfolding is_pointing descend
  point_indexes ptr [] tx = ok tx
  point_indexes ptr (key ∷ keys) tx = do
    (b, tx1) ← descend (idxs ∷ []) (to_buckets key).0 tx
    tx2 ←
        (let fixed = of_option bolt_error (bolt.put b (to_buckets key).1 ptr tx1) in
          if is_pointing (bolt.get b (to_buckets key).1 tx1) ptr then ok tx1 else fixed)
    point_indexes ptr keys tx2

  -- `bson.Unmarshal(v, &elem)`, where v is nil for a nested bucket and keeps its prefix otherwise.
  unfoldable pub unmarshal_raw : Option Bytes → Result V
  unmarshal_raw none = of_option unmarshal_error (codec.unmarshal [])
  unmarshal_raw (some v) = of_option unmarshal_error (codec.unmarshal v)

  -- The loop of fsckValuePass; that a key does not match its value is only logged.
  unfoldable pub value_pass : ℕ → Option ((Bytes × Option Bytes) × Cursor) → Tx → Option (Result Tx)
  unfolding unmarshal_raw
  value_pass fuel none tx = some (ok tx)
  value_pass zero (some at) tx = none
  value_pass (suc fuel) (some ((k, v), c)) tx =
      elim (unmarshal_raw v >>= λ elem. point_indexes (to_pointer id_of elem) (indexes elem) tx) [
        | err e ↦ some (err e)
        | ok tx' ↦ value_pass fuel (next c tx') tx'
      ]

  -- What is done with the values that ValidateValues returns.
  unfoldable pub delete_values : List V → Tx → Result Tx
  delete_values [] tx = ok tx
  delete_values (d ∷ del) tx = do
    tx1 ← of_option bolt_error (bolt.delete (vals ∷ []) (to_pointer id_of d) tx)
    tx2 ← del_index bolt idxs (indexes d) tx1
    delete_values del tx2

  unfoldable pub two_passes : ℕ → Tx → Option (Result Tx)
  two_passes fuel tx = elim (index_pass fuel (first (idxs ∷ []) tx) tx) [
    | none ↦ none
    | some (err e) ↦ some (err e)
    | some (ok tx') ↦ value_pass fuel (first (vals ∷ []) tx') tx'
  ]

  -- `Fsck`; a type without ValidateValues has nothing to delete.
  unfoldable pub fsck : (List V → Result (List V)) → ℕ → Tx → Option (Result Tx)
  unfolding two_passes
  fsck validate fuel tx = elim (IndexedScan.all bolt codec vals idxs fuel [] tx) [
    | none ↦ none
    | some (err e) ↦ some (err e)
    | some (ok []) ↦ two_passes fuel tx
    | some (ok (v ∷ vs)) ↦ elim (validate (v ∷ vs)) [
      | err e ↦ some (err e)
      | ok [] ↦ two_passes fuel tx
      | ok (d ∷ del) ↦ some (delete_values (d ∷ del) tx)
    ]
  ]

module _ {Tx V : Type 0} (bolt : Bolt Tx) (codec : Codec V) (key_of : V → Key)
    (root : BucketPath) where
  unfoldable pub delete_keyed : List V → Tx → Result Tx
  delete_keyed [] tx = ok tx
  delete_keyed (d ∷ del) tx =
      let (elems, last) = to_buckets (key_of d) in
      let skipped = delete_keyed del tx in
      if length last == 0 then err delete_everything else elim (find bolt root elems tx) [
        | none ↦ skipped
        | some b ↦ do tx' ← delete_at bolt root b last tx; delete_keyed del tx'
      ]

  -- `Fsck` of a keyed collection.
  unfoldable pub fsck_keyed : (List V → Result (List V)) → ℕ → Tx → Option (Result Tx)
  fsck_keyed validate fuel tx = elim (Scan.all bolt codec root fuel [] tx) [
    | none ↦ none
    | some (err e) ↦ some (err e)
    | some (ok []) ↦ some (ok tx)
    | some (ok (v ∷ vs)) ↦ some (do del ← validate (v ∷ vs); delete_keyed del tx)
  ]
