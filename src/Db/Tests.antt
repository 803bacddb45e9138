-- ===== src/Db/Tests.antt =====
-- The theorems on db/ at concrete keys and values, which are kept in memory.
use sp0rkle.Prelude.{
  List, ◌≡◌, refl, sym, none, some, [], ◌∷◌, ◌++◌, Bytes, codes, take, drop, map, ◌↔◌, arith,
  bytes_eq, get_elem?, ℕ, ap, Bool, true, ◌≤◌, All,
}
use sp0rkle.Db.Key.{
  elem_s, Key, to_buckets, split_last, bytes, name, value_bytes, is_valid, has_usep, usep,
}
use sp0rkle.Db.Key.Unique.{pair_bytes, to_buckets_unique}
use sp0rkle.Db.Bolt.{ok, Codec, BucketPath}
use sp0rkle.Db.Bolt.Memory.{
  Memory, empty_memory, path_eq, is_within, value_at, create_in, put_in, delete_in,
}
use sp0rkle.Db.Bolt.Memory.Laws.{memory}
use sp0rkle.Db.Keyed.{put, del, prepare, put_tx, create, find, to_bson, delete_at}
use sp0rkle.Db.Indexed
use sp0rkle.Db.Indexed.Lookup.{bucket_names_lem, get_index-put}

to_buckets_unique_example :
    map pair_bytes (elem_s (codes "ns") (codes "a") ∷ [])
    ≡ map pair_bytes (elem_s (codes "ns") (codes "a") ∷ [])
to_buckets_unique_example =
    to_buckets_unique (elem_s (codes "ns") (codes "a") ∷ []) (elem_s (codes "ns") (codes "a") ∷ [])
      (unfold is_valid has_usep name in refl) (unfold is_valid has_usep name in refl) refl

-- Values that are their own encoding, with a key of two elements.
abbrev plain : Codec Bytes
plain = record { marshal = some; unmarshal = some; unmarshal_marshal = λ v d e. e' v d e }
  where
    e' : (v d : Bytes) → some v ≡ some d → some d ≡ some v
    e' v d e = sym e

abbrev key_of : Bytes → Key
key_of v = elem_s (codes "ns") (take 1 v) ∷ elem_s (codes "key") (drop 1 v) ∷ []

abbrev root : BucketPath
root = codes "conf" ∷ []

abbrev registered : Memory
registered = record empty_memory { buckets = root ∷ [] }

abbrev one_value : Memory
one_value = record {
  values =
      (
        (root ++ (codes "ns" ++ usep ∷ codes "a") ∷ [], codes "key" ++ usep ∷ codes "b"),
        codes "_bs" ++ usep ∷ codes "ab",
      )
      ∷ [];
  buckets = (root ++ (codes "ns" ++ usep ∷ codes "a") ∷ []) ∷ root ∷ [];
  sequences = [];
}

put_one : put memory plain key_of root (codes "ab") registered ≡ ok one_value
unfolding memory put prepare to_buckets split_last bytes name value_bytes is_valid has_usep to_bson
    put_tx create create_in put_in value_at path_eq is_within bytes_eq
put_one = refl

abbrev deleted : Memory
deleted = record {
  values = [];
  buckets =
      (root ++ (codes "ns" ++ usep ∷ codes "a") ∷ [])
      ∷ (root ++ (codes "ns" ++ usep ∷ codes "a") ∷ [])
      ∷ root
      ∷ [];
  sequences = [];
}

del_one : del memory plain key_of root (codes "ab") one_value ≡ ok deleted
unfolding memory del delete_at to_buckets split_last bytes name value_bytes is_valid has_usep find
    delete_in path_eq is_within bytes_eq
del_one = refl

-- Values whose first byte is their id, with one index on the rest of them.
abbrev vals : Bytes
vals = codes "urls_vals"

abbrev idxs : Bytes
idxs = codes "urls_idxs"

abbrev id_of : Bytes → Bytes
id_of v = take 1 v

abbrev indexes : Bytes → List Key
indexes v = (elem_s (codes "key") (drop 1 v) ∷ elem_s (codes "v") (take 1 v) ∷ []) ∷ []

abbrev any_id : Bytes → Bool
any_id i = true

abbrev first : Bytes → ℕ
first s = elim (get_elem? s 0) [ none ↦ 0 | some b ↦ b ]

abbrev sixth : Bytes → ℕ
sixth s = elim (get_elem? s 5) [ none ↦ 0 | some b ↦ b ]

names_differ : ¬ (vals ≡ idxs)
names_differ e = let letters : ◌≡◌ {A = ℕ} 118 105 = ap sixth e in absurd (omega arith)

abbrev two_buckets : Memory
two_buckets = record empty_memory { buckets = (vals ∷ []) ∷ (idxs ∷ []) ∷ [] }

abbrev one_indexed : Memory
one_indexed = record {
  values =
      (
        (idxs ∷ (codes "key" ++ usep ∷ codes "b") ∷ [], codes "v" ++ usep ∷ codes "a"),
        codes "_id" ++ usep ∷ codes "a",
      )
      ∷ ((vals ∷ [], codes "_id" ++ usep ∷ codes "a"), codes "_bs" ++ usep ∷ codes "ab")
      ∷ [];
  buckets = (idxs ∷ (codes "key" ++ usep ∷ codes "b") ∷ []) ∷ (vals ∷ []) ∷ (idxs ∷ []) ∷ [];
  sequences = [];
}

put_indexed :
    Indexed.put memory plain vals idxs id_of indexes any_id (codes "ab") two_buckets
    ≡ ok one_indexed
unfolding memory Indexed.put Indexed.are_valid Indexed.put_tx Indexed.drop_old Indexed.put_index
    Indexed.to_pointer to_buckets split_last bytes name value_bytes is_valid has_usep to_bson create
    create_in put_in value_at path_eq is_within bytes_eq
put_indexed = refl

get_index-put_example :
    All
      (λ key. Indexed.get memory plain vals idxs key one_indexed ≡ ok (some (codes "ab")))
      (indexes (codes "ab"))
get_index-put_example =
    get_index-put memory plain vals idxs id_of indexes any_id names_differ (codes "ab") two_buckets
      one_indexed (unfold to_buckets split_last bytes name value_bytes in refl, tt) put_indexed

-- A name of nine bytes in an array of sixteen.
abbrev seven : Bytes
seven = codes "......."

abbrev tight : ℕ → Bytes
tight n = []

bucket_names_lem_example :
    ((Indexed.bucket_names tight seven (codes "reminders")).0
      ≡ (Indexed.bucket_names tight seven (codes "reminders")).1)
    ↔ (5 ≤ 7)
bucket_names_lem_example = bucket_names_lem tight seven (codes "reminders")
