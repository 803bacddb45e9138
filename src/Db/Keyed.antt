-- ===== src/Db/Keyed.antt =====
-- db/keyed.go: a collection whose values are stored directly at their keys; and the prefixes of
-- stored data, from db/bolt.go.
-- The bucket that `RegisterKeyed` creates is there from then on. `Get` of nothing is Go's zero
-- value, here `none`.
pub mod Stored
pub mod Mapping
pub mod Removed
use sp0rkle.Prelude.{
  ℕ, Bool, true, false, Option, none, some, List, [], ◌∷◌, ◌++◌, Bytes, codes, length, drop, take,
  bytes_eq, ltb, ◌==◌, if◌then◌else◌,
}
use sp0rkle.Db.Key.{Key, to_buckets, is_valid, usep, id_tag}
use sp0rkle.Db.Bolt.{
  Error, zero_length_key, invalid_key, empty_key, delete_everything, bucket_not_found, bolt_error,
  marshal_error, unmarshal_error, Result, ok, err, ◌>>=◌, of_option, BucketPath, Bolt, Codec,
}

abbrev pub prefix_len : ℕ
prefix_len = 4

abbrev pub bson_prefix : Bytes
bson_prefix = codes "_bs" ++ usep ∷ []

abbrev pub id_prefix : Bytes
id_prefix = id_tag ++ usep ∷ []

unfoldable pub is_bson : Bytes → Bool
is_bson d = if ltb (length d) prefix_len then false else bytes_eq (take prefix_len d) bson_prefix

unfoldable pub is_pointer : Bytes → Bool
is_pointer d = if ltb (length d) prefix_len then false else bytes_eq (take prefix_len d) id_prefix

-- `suffix`, where nil is the empty list.
unfoldable pub suffix : Bytes → Bytes
suffix d = if ltb (length d) prefix_len then [] else drop prefix_len d

module _ {V : Type 0} (codec : Codec V) where
  unfoldable pub to_bson : V → Result Bytes
  to_bson v = do d ← of_option marshal_error (codec.marshal v); ok (bson_prefix ++ d)

  -- `bson.Unmarshal(suffix(bson), &result)`
  unfoldable pub from_bson : Bytes → Result V
  unfolding suffix
  from_bson d = of_option unmarshal_error (codec.unmarshal (suffix d))

module _ {Tx : Type 0} (bolt : Bolt Tx) where
  -- The loops of `find` and `create`, from the bucket at a path.
  unfoldable pub find : BucketPath → List Bytes → Tx → Option BucketPath
  find p [] tx = some p
  find p (e ∷ elems) tx =
      let rest = find (p ++ e ∷ []) elems tx in
      if bolt.is_bucket (p ++ e ∷ []) tx then rest else none

  unfoldable pub create : BucketPath → List Bytes → Tx → Result (BucketPath × Tx)
  create p [] tx = ok (p, tx)
  create p (e ∷ elems) tx = do
    tx' ← of_option bolt_error (bolt.create_bucket p e tx)
    create (p ++ e ∷ []) elems tx'

  module _ (root : BucketPath) where
    unfoldable pub put_tx : List Bytes → Bytes → Bytes → Tx → Result Tx
    put_tx elems key value tx = do
      (b, tx') ← create root elems tx
      of_option bolt_error (bolt.put b key value tx')

    -- What `Del` and `Fsck` do at a key.
    unfoldable pub delete_at : BucketPath → Bytes → Tx → Result Tx
    delete_at b last tx =
        if bolt.is_bucket (b ++ last ∷ []) tx
        then of_option bolt_error (bolt.delete_bucket b last tx)
        else of_option bolt_error (bolt.delete b last tx)

    unfoldable pub next : Key → Option ℕ → Tx → Result (ℕ × Tx)
    next key set tx =
        let (elems, last) = to_buckets key in
        elim (find root (if ltb 0 (length last) then elems ++ last ∷ [] else elems) tx) [
          | none ↦ err bucket_not_found
          | some b ↦ elim set [
            | none ↦ of_option bolt_error (bolt.next_sequence b tx)
            | some n ↦ do tx' ← of_option bolt_error (bolt.set_sequence b n tx); ok (n, tx')
          ]
        ]

module _ {Tx V : Type 0} (bolt : Bolt Tx) (codec : Codec V) (key_of : V → Key)
    (root : BucketPath) where
  unfoldable pub get : Key → Tx → Result (Option V)
  get key tx =
      let (elems, last) = to_buckets key in
      if length last == 0 then err zero_length_key else elim (find bolt root elems tx) [
        | none ↦ ok none
        | some b ↦ elim (bolt.get b last tx) [
          | none ↦ ok none
          | some bson ↦ do v ← from_bson codec bson; ok (some v)
        ]
      ]

  -- What `Put` and `BatchPut` do before the transaction: the place and the data of a value.
  unfoldable pub prepare : V → Result ((List Bytes × Bytes) × Bytes)
  prepare v =
      let (elems, last) = to_buckets (key_of v) in
      if is_valid (key_of v)
      then (if length last == 0
          then err empty_key
          else (do bson ← to_bson codec v; ok ((elems, last), bson)))
      else err invalid_key

  unfoldable pub put : V → Tx → Result Tx
  put v tx = do ((elems, last), bson) ← prepare v; put_tx bolt root elems last bson tx

  unfoldable pub prepare_all : List V → Result (List ((List Bytes × Bytes) × Bytes))
  prepare_all [] = ok []
  prepare_all (v ∷ vs) = do t ← prepare v; ts ← prepare_all vs; ok (t ∷ ts)

  unfoldable pub put_tuples : List ((List Bytes × Bytes) × Bytes) → Tx → Result Tx
  put_tuples [] tx = ok tx
  put_tuples (((elems, last), bson) ∷ ts) tx = do
    tx' ← put_tx bolt root elems last bson tx
    put_tuples ts tx'

  unfoldable pub batch_put : List V → Tx → Result Tx
  batch_put vs tx = do ts ← prepare_all vs; put_tuples ts tx

  unfoldable pub del : V → Tx → Result Tx
  del v tx =
      let (elems, last) = to_buckets (key_of v) in
      if is_valid (key_of v)
      then (if length last == 0 then err delete_everything else elim (find bolt root elems tx) [
        | none ↦ ok tx
        | some b ↦ delete_at bolt root b last tx
      ])
      else err invalid_key

  -- For comparison with BatchPut: the values put one after the other, each in a transaction of its own.
  unfoldable pub put_each : List V → Tx → Result Tx
  put_each [] tx = ok tx
  put_each (v ∷ vs) tx = do tx' ← put v tx; put_each vs tx'
