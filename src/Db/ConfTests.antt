-- ===== src/Db/ConfTests.antt =====
-- Namespaces in memory and in the database, at concrete calls.
use sp0rkle.Prelude.{
  ◌≡◌, refl, ℕ, zero, suc, ◌&&◌, Option, none, some, List, [], ◌∷◌, Bytes, codes, bytes_eq,
  bytes_eq_iff, lookup, if◌then◌else◌, arith,
}
use sp0rkle.Db.Key.{to_buckets, split_last, bytes, name, value_bytes, is_valid, has_usep}
use sp0rkle.Db.Bolt.{Codec, BucketPath}
use sp0rkle.Db.Bolt.Memory.{
  Memory, empty_memory, path_eq, is_within, value_at, create_in, put_in, delete_in,
}
use sp0rkle.Db.Bolt.Memory.Laws.{memory}
use sp0rkle.Db.Keyed
use sp0rkle.Db.Keyed.{find, create, put_tx, prepare, to_bson, from_bson, delete_at, suffix}
use sp0rkle.Db.Conf.{Number, wide, string, int64, Entry, entry_key}
use sp0rkle.Db.Conf.Namespace
use sp0rkle.Db.Conf.Alike.{
  Call, string_call, int_call, delete_call, all_in_memory, in_database, all_in_database, AllWork,
  Mirrors, all_expected, all_in_database-Mirrors,
}

-- An encoding of one entry, with a tag before a string and an int64.
abbrev encode : Entry ℕ ℕ ℕ → Option Bytes
encode e =
    if bytes_eq e.ns (codes "n") && bytes_eq e.key (codes "k")
    then (elim e.value [
      | some (string s) ↦ some (0 ∷ s)
      | some (int64 i) ↦ some (1 ∷ i ∷ [])
      | _ ↦ none
    ])
    else none

abbrev decode : Bytes → Option (Entry ℕ ℕ ℕ)
decode (zero ∷ s) = some (record { ns = codes "n"; key = codes "k"; value = some (string s) })
decode (suc t ∷ i ∷ []) = some (record { ns = codes "n"; key = codes "k"; value = some (int64 i) })
decode _ = none

decode-encode : (e : Entry ℕ ℕ ℕ) (d : Bytes) → encode e ≡ some d → decode d ≡ some e
decode-encode e d h = ground (arith, bytes_eq_iff e.ns (codes "n"), bytes_eq_iff e.key (codes "k"))

abbrev entries : Codec (Entry ℕ ℕ ℕ)
entries = record { marshal = encode; unmarshal = decode; unmarshal_marshal = decode-encode }

abbrev root : BucketPath
root = codes "conf" ∷ []

abbrev registered : Memory
registered = record empty_memory { buckets = root ∷ [] }

abbrev calls : List (Call (Number ℕ ℕ) ℕ)
calls =
    string_call (codes "k") (some (codes "v"))
    ∷ string_call (codes "k") none
    ∷ int_call (codes "k") (some (wide 7))
    ∷ int_call (codes "k") none
    ∷ delete_call (codes "k")
    ∷ []

calls-AllWork : AllWork 0 0 memory entries root (codes "n") calls registered
unfolding in_database memory Keyed.put Keyed.del prepare to_bson put_tx find create delete_at
    create_in put_in delete_in value_at path_eq is_within entry_key to_buckets split_last bytes name
    value_bytes is_valid has_usep bytes_eq
calls-AllWork = ((_, refl), (tt, ((_, refl), (tt, ((_, refl), tt)))))

nothing_set : Mirrors 0 0 memory entries root (codes "n") registered []
unfolding Namespace.get Keyed.get memory find is_within value_at lookup entry_key to_buckets
    split_last bytes name value_bytes bytes_eq
nothing_set j = ground arith

all_in_database-Mirrors_example :
    ((all_in_database 0 0 memory entries root (codes "n") calls registered).0
      ≡ all_expected 0 0 memory entries root (codes "n") calls (all_in_memory 0 0 calls []).0)
    × Mirrors 0 0 memory entries root
        (codes "n")
        (all_in_database 0 0 memory entries root (codes "n") calls registered).1
        (all_in_memory 0 0 calls []).1
all_in_database-Mirrors_example =
    all_in_database-Mirrors 0 0 memory entries root (codes "n") calls registered [] calls-AllWork
      nothing_set
