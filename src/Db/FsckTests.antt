-- ===== src/Db/FsckTests.antt =====
-- A run of `Fsck` of db/indexed.go, in memory.
use sp0rkle.Prelude.{
  ℕ, zero, suc, ◌≡◌, ◌≢◌, refl, sym, ap, inr, Option, none, some, List, [], ◌∷◌, ◌++◌, Bytes, codes,
  bytes_eq, arith,
}
use sp0rkle.Db.Key.{Key, elem_s, to_buckets, split_last, bytes, name, value_bytes}
use sp0rkle.Db.Bolt.{ok, err, unmarshal_error, Codec, BucketPath}
use sp0rkle.Db.Bolt.Memory.{
  Memory, path_eq, is_within, child_of, insert_entry, value_entries, bucket_entries, value_at,
}
use sp0rkle.Db.Bolt.Memory.Laws.{memory}
use sp0rkle.Db.Keyed.{find, is_bson, is_pointer, suffix, from_bson, bson_prefix}
use sp0rkle.Db.Scan.{scan_all, scan_tx, scan_entries, scan_value, collect}
use sp0rkle.Db.IndexedScan
use sp0rkle.Db.Fsck.{
  Cursors, is_obsolete, has_last, index_pass, value_pass, unmarshal_raw, two_passes, fsck,
}
use sp0rkle.Db.Fsck.Fails.{fsck-fails}

abbrev vals : Bytes
vals = codes "v"

abbrev idxs : Bytes
idxs = codes "i"

abbrev first_byte : Bytes → ℕ
first_byte [] = 0
first_byte (b ∷ s) = b

vals-ne-idxs : vals ≢ idxs
vals-ne-idxs e = let apart : ◌≡◌ {A = ℕ} 118 105 = ap first_byte e in absurd (omega arith)

abbrev Place : Type 0
Place = BucketPath × List (Bytes × Option Bytes)

abbrev entry_of : Place → Option ((Bytes × Option Bytes) × Place)
entry_of (p, []) = none
entry_of (p, e ∷ es) = some (e, (p, es))

entry_of-bucket :
    (q : Place) (e : Bytes × Option Bytes) (c : Place) → entry_of q ≡ some (e, c) → c.0 ≡ q.0
entry_of-bucket (p, []) e c h = cc
entry_of-bucket (p, f ∷ es) e c h =
    let same : (p, es) ≡ c = cc in sym (ap (λ (r : Place). r.0) same)

nothing : (m : Memory) → ◌≡◌ {A = Option Memory} none (some m) → ⊥
nothing m h = cc

-- Cursors that go through the entries in order and delete nothing.
abbrev reading : Cursors Memory
reading = record {
  Cursor = Place;
  bucket = λ c. c.0;
  first = λ p m. entry_of (p, bucket_entries p m.buckets (value_entries p m.values));
  next = λ c m. entry_of c;
  delete = λ c m. none;
  bucket-first = λ p m e c h. entry_of-bucket _ e c h;
  bucket-next = λ c m e c' h. entry_of-bucket c e c' h;
  first-delete = λ c m m' q h. absurd (nothing m' h);
}

-- An encoding that begins with a byte of its own.
abbrev unmarshal_marked : Bytes → Option Bytes
unmarshal_marked (suc zero ∷ v) = some v
unmarshal_marked _ = none

back : (v d : Bytes) → some (1 ∷ v) ≡ some d → unmarshal_marked d ≡ some v
back v d e = let same : 1 ∷ v ≡ d = cc in ap unmarshal_marked (sym same)

abbrev marked : Codec Bytes
marked = record {
  marshal = λ v. some (1 ∷ v);
  unmarshal = unmarshal_marked;
  unmarshal_marshal = back;
}

abbrev id_of : Bytes → Bytes
id_of v = v

abbrev indexes : Bytes → List Key
indexes v = (elem_s (codes "k") v ∷ []) ∷ []

-- The value "ab" at its id and its index.
abbrev one_value : Memory
one_value = record {
  values =
      ((vals ∷ [], codes "_id" ++ 31 ∷ codes "ab"), codes "_bs" ++ 31 ∷ 1 ∷ codes "ab")
      ∷ ((idxs ∷ [], codes "k" ++ 31 ∷ codes "ab"), codes "_id" ++ 31 ∷ codes "ab")
      ∷ [];
  buckets = (vals ∷ []) ∷ (idxs ∷ []) ∷ [];
  sequences = [];
}

all_one : IndexedScan.all memory marked vals idxs 4 [] one_value ≡ some (ok (codes "ab" ∷ []))
unfolding IndexedScan.all to_buckets scan_all scan_tx scan_entries scan_value collect is_pointer
    is_bson suffix memory path_eq is_within child_of insert_entry value_entries bucket_entries
    bytes_eq
all_one = refl

all_indexed :
    IndexedScan.all memory marked vals idxs 4 (elem_s (codes "k") (codes "ab") ∷ []) one_value
    ≡ some (ok [])
unfolding IndexedScan.all to_buckets split_last bytes name value_bytes find
    IndexedScan.scan_indexed_all scan_all scan_tx scan_entries scan_value collect is_pointer is_bson
    suffix memory path_eq is_within child_of insert_entry value_entries bucket_entries bytes_eq
all_indexed = refl

fsck_one :
    fsck memory reading marked vals idxs id_of indexes (λ vs. ok []) 4 one_value
    ≡ some (err unmarshal_error)
unfolding fsck IndexedScan.all to_buckets split_last bytes name value_bytes scan_all scan_tx
    scan_entries scan_value collect is_pointer is_bson suffix from_bson memory path_eq is_within
    child_of insert_entry value_entries value_at bucket_entries bytes_eq index_pass value_pass
    is_obsolete has_last unmarshal_raw two_passes
fsck_one = refl

marked-refuses : (d : Bytes) → unmarshal_marked (bson_prefix ++ d) ≡ none
marked-refuses d = refl

first_value :
    reading.first (vals ∷ []) one_value
    ≡ some ((codes "_id" ++ 31 ∷ codes "ab", some (bson_prefix ++ 1 ∷ codes "ab")), (vals ∷ [], []))
unfolding path_eq is_within child_of insert_entry value_entries bucket_entries bytes_eq
first_value = refl

fsck-fails_example :
    fsck memory reading marked vals idxs id_of indexes (λ vs. ok []) 4 one_value
    ≢ some (ok one_value)
fsck-fails_example =
    fsck-fails memory reading marked vals idxs id_of indexes (λ vs. ok []) (λ vs. inr refl)
      vals-ne-idxs marked-refuses 4 (codes "_id" ++ 31 ∷ codes "ab") (1 ∷ codes "ab")
      (vals ∷ [], []) one_value one_value first_value
