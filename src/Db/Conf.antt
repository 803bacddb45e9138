-- ===== src/Db/Conf.antt =====
-- db/conf/: the configuration, by namespaces in the database and in memory.
-- An `any` that a namespace holds is a string, an int or a float64; the numbers are parameters. An
-- int is one of `Int`, which have 32 bits, or of `Wide`, which do not: util/bson writes the two in
-- different ways, and reads one of the second back as an int64.
-- A variadic argument is a value or none.
pub mod InMemory
pub mod Namespace
pub mod Writes
pub mod Alike
use sp0rkle.Prelude.{
  ◌≡◌, Bool, true, false, Option, none, some, List, [], ◌∷◌, Bytes, codes, bytes_eq, lookup,
  if◌then◌else◌,
}
use sp0rkle.Db.Key.{Key, elem_s}

pub data Number (Int Wide : Type 0) : Type 0 where
  narrow : Int → Number Int Wide
  wide : Wide → Number Int Wide

module _ (Int Wide Float : Type 0) where
  pub data Value : Type 0 where
    string : Bytes → Value
    int : Int → Value
    int64 : Wide → Value
    float : Float → Value

  pub record Entry : Type 0 where
    pub ns : Bytes
    pub key : Bytes
    pub value : Option Value

module _ {Int Wide Float : Type 0} where
  -- `Entry.K`
  unfoldable pub entry_key : Entry Int Wide Float → Key
  entry_key e = elem_s (codes "ns") e.ns ∷ elem_s (codes "key") e.key ∷ []

  -- The type assertions, with the zero value where they fail.
  unfoldable pub as_string : Option (Value Int Wide Float) → Bytes
  as_string (some (string s)) = s
  as_string _ = []

  unfoldable pub as_int : Int → Option (Value Int Wide Float) → Int
  as_int zero_int (some (int i)) = i
  as_int zero_int _ = zero_int

  unfoldable pub as_float : Float → Option (Value Int Wide Float) → Float
  as_float zero_float (some (float f)) = f
  as_float zero_float _ = zero_float

-- `m[k] = v` and `delete(m, k)` on a map with string keys.
module _ {V : Type 0} where
  unfoldable pub insert : Bytes → V → List (Bytes × V) → List (Bytes × V)
  insert k v [] = (k, v) ∷ []
  insert k v ((j, w) ∷ m) = if bytes_eq j k then (k, v) ∷ m else (j, w) ∷ insert k v m

  unfoldable pub delete : Bytes → List (Bytes × V) → List (Bytes × V)
  delete k [] = []
  delete k ((j, w) ∷ m) = let rest = delete k m in if bytes_eq j k then rest else (j, w) ∷ rest

abbrev pub Settings : Type 0 → Type 0 → Type 0 → Type 0
Settings Int Wide Float = List (Bytes × Value Int Wide Float)
