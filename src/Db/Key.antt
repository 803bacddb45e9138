-- ===== src/Db/Key.antt =====
-- db/db.go: the elements of keys, their bytes, and keys as buckets within buckets.
-- A uint64 is a number below 2 ^ 64; a timestamp stands by `uint64(e.Value.UnixMilli())`.
pub mod Unique
pub mod Sorted
use sp0rkle.Prelude.{
  ℕ, zero, suc, ◌/◌, ◌%◌, Bool, true, false, not, ◌&&◌, List, [], ◌∷◌, ◌++◌, Bytes, codes, map,
  ◌==◌, if◌then◌else◌,
}

abbrev pub usep : ℕ
usep = 31

abbrev pub id_tag : Bytes
id_tag = codes "_id"

-- `S`, `I`, `T`, `ID` and `TS`.
pub data Elem : Type 0 where
  elem_s : Bytes → Bytes → Elem
  elem_i : Bytes → ℕ → Elem
  elem_t : Bytes → Bool → Elem
  elem_id : Bytes → Elem
  elem_ts : Bytes → ℕ → Elem

-- The bytes of a number, most significant first; `binary.BigEndian.PutUint64` gives eight.
unfoldable pub big_endian : ℕ → ℕ → Bytes
big_endian zero n = []
big_endian (suc w) n = big_endian w (n / 256) ++ n % 256 ∷ []

-- The first half of `Pair`.
unfoldable pub name : Elem → Bytes
name (elem_s n v) = n
name (elem_i n v) = n
name (elem_t n v) = n
name (elem_id v) = id_tag
name (elem_ts n v) = n

-- What `Bytes` writes after the separator.
unfoldable pub value_bytes : Elem → Bytes
value_bytes (elem_s n v) = v
value_bytes (elem_i n v) = big_endian 8 v
value_bytes (elem_t n v) = if v then 255 ∷ [] else 0 ∷ []
value_bytes (elem_id v) = v
value_bytes (elem_ts n v) = big_endian 8 v

unfoldable pub bytes : Elem → Bytes
bytes e = name e ++ usep ∷ value_bytes e

abbrev pub Key : Type 0
Key = List Elem

-- `B` of a key that has the element `e` and then those of the list.
unfoldable pub split_last : Elem → List Elem → List Bytes × Bytes
split_last e [] = ([], bytes e)
split_last e (f ∷ k) = let (elems, last) = split_last f k in (bytes e ∷ elems, last)

-- `B`: the buckets and the key in the last of them, which is empty for the empty key.
unfoldable pub to_buckets : Key → List Bytes × Bytes
to_buckets [] = ([], [])
to_buckets (e ∷ k) = split_last e k

-- `strings.IndexByte(name, USEP) >= 0`
unfoldable pub has_usep : Bytes → Bool
has_usep [] = false
has_usep (c ∷ s) = if c == usep then true else has_usep s

unfoldable pub is_valid : Key → Bool
is_valid [] = true
is_valid (e ∷ k) = not (has_usep (name e)) && is_valid k
