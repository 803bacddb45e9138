-- ===== src/Db/Conf/Writes.antt =====
-- What the namespaces of db/conf hold after a setting is written or deleted.
use sp0rkle.Prelude.{
  ◌≡◌, refl, sym, ap, ◌∙◌, inl, inr, true, false, none, some, List, [], ◌∷◌, Bytes, map, bytes_eq,
  bytes_eq_iff, lookup, ◌≤◌, length, if◌then◌else◌, Bool-cases, arith,
}
use sp0rkle.Db.Key.{Key, to_buckets, split_last, is_valid, has_usep, name, value_bytes}
use sp0rkle.Db.Key.Unique.{pair_bytes}
use sp0rkle.Db.Bolt.{ok, BucketPath, Bolt, Codec}
use sp0rkle.Db.Keyed
use sp0rkle.Db.Keyed.Mapping.{get-put, get-put_other, get-del}
use sp0rkle.Db.Keyed.Removed.{get-del_other}
use sp0rkle.Db.Conf.{Value, Entry, entry_key, insert, delete}
use sp0rkle.Db.Conf.Namespace
use sp0rkle.Db.Conf.Namespace.{settle, entry, value_found, stored_int}

module _ {V : Type 0} where
  pub lookup-insert :
      (k j : Bytes) (v : V) (m : List (Bytes × V))
      → lookup j (insert k v m) ≡ (if bytes_eq k j then some v else lookup j m)
  unfolding lookup insert
  lookup-insert k j v [] = refl
  lookup-insert k j v ((i, w) ∷ m) =
      ground (arith, bytes_eq_iff k j, bytes_eq_iff i k, bytes_eq_iff i j, lookup-insert k j v m)

  pub lookup-delete :
      (k j : Bytes) (m : List (Bytes × V))
      → lookup j (delete k m) ≡ (if bytes_eq k j then none else lookup j m)
  unfolding lookup delete
  lookup-delete k j [] = ground arith
  lookup-delete k j ((i, w) ∷ m) =
      ground (arith, bytes_eq_iff k j, bytes_eq_iff i k, bytes_eq_iff i j, lookup-delete k j m)

module _ {Tx Int Wide Float : Type 0} (bolt : Bolt Tx) (codec : Codec (Entry Int Wide Float))
    (root : BucketPath) (ns : Bytes) where
  abbrev place : Bytes → Key
  place key =
      entry_key {Int = Int} {Wide = Wide} {Float = Float}
        (record { ns = ns; key = key; value = none })

  place-is_valid : (key : Bytes) → is_valid (place key) ≡ true
  unfolding entry_key is_valid has_usep name
  place-is_valid key = refl

  second_value : List (Bytes × Bytes) → Bytes
  second_value (_ ∷ p ∷ _) = p.1
  second_value _ = []

  place-differs :
      (k j : Bytes) → bytes_eq k j ≡ false → ¬ (map pair_bytes (place j) ≡ map pair_bytes (place k))
  unfolding entry_key name value_bytes second_value
  place-differs k j e h =
      let same : j ≡ k = ap second_value h in absurd (ground (arith, bytes_eq_iff k j))

  place-length : (k j : Bytes) → length (to_buckets (place j)).0 ≤ length (to_buckets (place k)).0
  unfolding entry_key to_buckets split_last
  place-length k j = omega arith

  module _ (k j : Bytes) (tx tx' : Tx) where
    -- The entry at a key after one is written, in the database.
    pub get-put_if :
        (v : Value Int Wide Float)
        → Keyed.put bolt codec entry_key root (entry bolt codec root ns k (some v)) tx ≡ ok tx'
        → Namespace.get bolt codec root ns j tx'
          ≡ (if bytes_eq k j then some v else Namespace.get bolt codec root ns j tx)
    unfolding Namespace.get entry_key
    get-put_if v h = elim (Bool-cases (bytes_eq k j)) [
      | inl e ↦
          let same : k ≡ j = (bytes_eq_iff k j).0 e in
          rw e (
            ap (λ i. value_found (Keyed.get bolt codec entry_key root (place i) tx')) (sym same)
            ∙ ap value_found
                (get-put bolt codec entry_key root (entry bolt codec root ns k (some v)) tx tx' h))
      | inr e ↦ rw e (
          ap value_found (
            get-put_other bolt codec entry_key root (entry bolt codec root ns k (some v)) tx tx'
              (place j) h (place-is_valid j) (place-differs k j e)))
    ]

    pub get-del_if :
        Keyed.del bolt codec entry_key root (entry bolt codec root ns k none) tx ≡ ok tx'
        → Namespace.get bolt codec root ns j tx'
          ≡ (if bytes_eq k j then none else Namespace.get bolt codec root ns j tx)
    unfolding Namespace.get entry_key
    get-del_if h = elim (Bool-cases (bytes_eq k j)) [
      | inl e ↦
          let same : k ≡ j = (bytes_eq_iff k j).0 e in
          rw e (
            ap (λ i. value_found (Keyed.get bolt codec entry_key root (place i) tx')) (sym same)
            ∙ ap value_found
                (get-del bolt codec entry_key root (entry bolt codec root ns k none) tx tx' h))
      | inr e ↦ rw e (
          ap value_found (
            get-del_other bolt codec entry_key root (entry bolt codec root ns k none) tx tx'
              (place j) h (place-is_valid j) (place-differs k j e) (place-length k j)))
    ]
