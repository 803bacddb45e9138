-- ===== src/Db/Indexed.antt =====
-- db/indexed.go: a collection whose values are stored by their ids, with pointers to them at the
-- keys of their indexes.
-- The buckets that `RegisterIndexed` creates are there from then on; `id_is_valid` is the bson
-- library's test of an ObjectId.
pub mod Pointers
pub mod Names
pub mod Lookup
use sp0rkle.Prelude.{
  ℕ, suc, ◌+◌, Bool, true, false, not, ◌&&◌, ◌||◌, Option, none, some, List, [], ◌∷◌, ◌++◌, Bytes,
  codes, length, take, drop, leb, ltb, ◌==◌, if◌then◌else◌,
}
use sp0rkle.Db.Key.{Key, elem_s, bytes, to_buckets, is_valid, id_tag}
use sp0rkle.Db.Bolt.{
  Error, zero_length_key, invalid_key, invalid_id, bolt_error, bucket_not_found, Result, ok, err,
  ◌>>=◌, of_option, BucketPath, Bolt, Codec,
}
use sp0rkle.Db.Keyed.{find, create, is_bson, is_pointer, to_bson, from_bson}

-- A slice is an array of the heap, how much of it the slice has, and how much there is room for.
pub record Slice : Type 0 where
  pub array : ℕ
  pub size : ℕ
  pub room : ℕ

pub record Heap : Type 0 where
  pub arrays : ℕ → Bytes
  pub fresh : ℕ

unfoldable pub bytes_of : Heap → Slice → Bytes
bytes_of h s = take s.size (h.arrays s.array)

unfoldable pub write : ℕ → Bytes → (ℕ → Bytes) → ℕ → Bytes
write a bs arrays b = if a == b then bs else arrays b

-- Go's `append` of bytes: behind the slice in its own array, if there is room for them, and else in
-- a new array with a copy of the slice. `grown` is the room that the run time then leaves behind so
-- many bytes.
unfoldable pub append_slice : (ℕ → Bytes) → Slice → Bytes → Heap → Slice × Heap
unfolding bytes_of write
append_slice grown s bs h =
    let size = s.size + length bs in
    let old = h.arrays s.array in
    let in_place = take s.size old ++ (bs ++ drop size old) in
    let copied = take s.size old ++ (bs ++ grown size) in
    if leb size s.room
    then (record s { size = size }, record h { arrays = write s.array in_place h.arrays })
    else (
      record { array = h.fresh; size = size; room = size + length (grown size) },
      record { arrays = write h.fresh copied h.arrays; fresh = suc h.fresh },
    )

-- The names of the two buckets that `RegisterIndexed` makes of the collection's name `n`, whose
-- slice has the room `spare` behind it: what the two slices hold after both calls of `append`.
unfoldable pub bucket_names : (ℕ → Bytes) → Bytes → Bytes → Bytes × Bytes
unfolding append_slice
bucket_names grown spare n =
    let name : Slice = record { array = 0; size = length n; room = length n + length spare } in
    let h : Heap = record { arrays = λ _. n ++ spare; fresh = 1 } in
    let (vals, h') = append_slice grown name (codes "_vals") h in
    let (idxs, h'') = append_slice grown name (codes "_idxs") h' in
    (bytes_of h'' vals, bytes_of h'' idxs)

module _ {V : Type 0} (id_of : V → Bytes) where
  unfoldable pub to_pointer : V → Bytes
  to_pointer v = bytes (elem_s id_tag (id_of v))

unfoldable pub are_valid : List Key → Bool
are_valid [] = true
are_valid (k ∷ ks) = is_valid k && are_valid ks

abbrev pub is_nil : List Bytes → Bool
is_nil [] = true
is_nil (e ∷ es) = false

module _ {Tx : Type 0} (bolt : Bolt Tx) (idxs : Bytes) where
  -- `putIndex` and `delIndex`, from the pointer and the keys of a value. The second stops at the
  -- first bucket that is not there.
  unfoldable pub put_index : Bytes → List Key → Tx → Result Tx
  put_index ptr [] tx = ok tx
  put_index ptr (key ∷ keys) tx = do
    (b, tx1) ← create bolt (idxs ∷ []) (to_buckets key).0 tx
    tx2 ← of_option bolt_error (bolt.put b (to_buckets key).1 ptr tx1)
    put_index ptr keys tx2

  unfoldable pub del_index : List Key → Tx → Result Tx
  del_index [] tx = ok tx
  del_index (key ∷ keys) tx = elim (find bolt (idxs ∷ []) (to_buckets key).0 tx) [
    | none ↦ ok tx
    | some b ↦ do
      tx' ← of_option bolt_error (bolt.delete b (to_buckets key).1 tx)
      del_index keys tx'
  ]

module _ {Tx V : Type 0} (bolt : Bolt Tx) (codec : Codec V) (vals idxs : Bytes) where
  -- The end of `Get`: the value at a pointer.
  unfoldable pub resolve : Bytes → Tx → Result (Option V)
  resolve ptr tx = elim (bolt.get (vals ∷ []) ptr tx) [
    | none ↦ ok none
    | some d ↦ do v ← from_bson codec d; ok (some v)
  ]

  unfoldable pub get : Key → Tx → Result (Option V)
  get key tx =
      let (elems, last) = to_buckets key in
      if length last == 0
      then err zero_length_key
      else if not (is_nil elems) || not (is_pointer last)
      then elim (find bolt (idxs ∷ []) elems tx) [
        | none ↦ ok none
        | some b ↦ elim (bolt.get b last tx) [ none ↦ ok none | some ptr ↦ resolve ptr tx ]
      ]
      else resolve last tx

  -- `none` is a panic: where there is no bucket for the index, the interface `b` holds a nil pointer
  -- and is not nil itself, so that a method is called on it.
  unfoldable pub next : Key → Option ℕ → Tx → Option (Result (ℕ × Tx))
  next key set tx =
      let (elems, last) = to_buckets key in
      let place =
        if ltb 0 (length last)
        then find bolt (idxs ∷ []) (elems ++ last ∷ []) tx
        else some (vals ∷ []) in
      elim place [
        | none ↦ none
        | some b ↦ some (elim set [
          | none ↦ of_option bolt_error (bolt.next_sequence b tx)
          | some n ↦ do tx' ← of_option bolt_error (bolt.set_sequence b n tx); ok (n, tx')
        ])
      ]

  module _ (id_of : V → Bytes) (indexes : V → List Key) where
    -- The first half of `putTx`: the indexes of a value that is overwritten go.
    unfoldable pub drop_old : V → Tx → Result Tx
    drop_old v tx = elim (bolt.get (vals ∷ []) (to_pointer id_of v) tx) [
      | none ↦ ok tx
      | some d ↦
          let cleaned = (do old ← from_bson codec d; del_index bolt idxs (indexes old) tx) in
          if is_bson d then cleaned else ok tx
    ]

    unfoldable pub put_tx : V → Bytes → Tx → Result Tx
    put_tx v d tx = do
      tx1 ← drop_old v tx
      tx2 ← of_option bolt_error (bolt.put (vals ∷ []) (to_pointer id_of v) d tx1)
      put_index bolt idxs (to_pointer id_of v) (indexes v) tx2

    unfoldable pub put : (Bytes → Bool) → V → Tx → Result Tx
    put id_is_valid v tx = do
      d ← to_bson codec v
      if are_valid (indexes v)
          then (if id_is_valid (id_of v) then put_tx v d tx else err invalid_id)
          else err invalid_key

    unfoldable pub prepare_all : List V → Result (List (V × Bytes))
    prepare_all [] = ok []
    prepare_all (v ∷ vs) =
        let rest = (do d ← to_bson codec v; ts ← prepare_all vs; ok ((v, d) ∷ ts)) in
        if are_valid (indexes v) then rest else err invalid_key

    unfoldable pub put_tuples : List (V × Bytes) → Tx → Result Tx
    put_tuples [] tx = ok tx
    put_tuples ((v, d) ∷ ts) tx = do tx' ← put_tx v d tx; put_tuples ts tx'

    unfoldable pub batch_put : List V → Tx → Result Tx
    batch_put vs tx = do ts ← prepare_all vs; put_tuples ts tx

    unfoldable pub del : V → Tx → Result Tx
    del v tx =
        if are_valid (indexes v)
        then (do
          tx' ← of_option bolt_error (bolt.delete (vals ∷ []) (to_pointer id_of v) tx)
          del_index bolt idxs (indexes v) tx')
        else err invalid_key
