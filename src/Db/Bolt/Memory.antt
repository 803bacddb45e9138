-- ===== src/Db/Bolt/Memory.antt =====
-- Buckets in memory, which behave as the documentation of go.etcd.io/bbolt says.
pub mod Laws
use sp0rkle.Prelude.{
  ◌≡◌, refl, sym, ap, ◌∙◌, ℕ, zero, suc, Bool, true, false, not, ◌&&◌, ◌||◌, Option, none, some,
  List, [], ◌∷◌, ◌++◌, ◌↔◌, inl, inr, Bytes, bytes_eq, bytes_eq_iff, bytes_eq_refl, if◌then◌else◌,
  Bool-cases, arith,
}
use sp0rkle.Db.Key.Sorted.{bytes_ltb}
use sp0rkle.Db.Bolt.{BucketPath, Bolt}

-- The values by their paths and keys, the buckets that were created, and their sequences.
pub record Memory : Type 0 where
  pub values : List ((BucketPath × Bytes) × Bytes)
  pub buckets : List BucketPath
  pub sequences : List (BucketPath × ℕ)

abbrev pub empty_memory : Memory
empty_memory = record { values = []; buckets = []; sequences = [] }

unfoldable pub path_eq : BucketPath → BucketPath → Bool
path_eq [] [] = true
path_eq (a ∷ p) (b ∷ q) = bytes_eq a b && path_eq p q
path_eq _ _ = false

-- Whether the second path is in the bucket of the first or is its own.
unfoldable pub is_within : BucketPath → BucketPath → Bool
is_within [] q = true
is_within (a ∷ p) [] = false
is_within (a ∷ p) (b ∷ q) = bytes_eq a b && is_within p q

abbrev pub any {ℓ} : {A : Type ℓ} → (A → Bool) → List A → Bool
any f [] = false
any f (x ∷ xs) = if f x then true else any f xs

abbrev pub discard {ℓ} : {A : Type ℓ} → (A → Bool) → List A → List A
discard f [] = []
discard f (x ∷ xs) = if f x then discard f xs else x ∷ discard f xs

abbrev pub is_at : BucketPath → Bytes → (BucketPath × Bytes) × Bytes → Bool
is_at p k ((q, j), _) = path_eq q p && bytes_eq j k

unfoldable pub value_at : BucketPath → Bytes → List ((BucketPath × Bytes) × Bytes) → Option Bytes
value_at p k [] = none
value_at p k (e ∷ es) = if is_at p k e then some e.1 else value_at p k es

abbrev pub holds_bucket : BucketPath → Memory → Bool
holds_bucket p m = any (λ e. is_within p e.0.0) m.values || any (is_within p) m.buckets

unfoldable pub create_in : BucketPath → Bytes → Memory → Option Memory
create_in p e m = elim (value_at p e m.values) [
  | some _ ↦ none
  | none ↦
      if holds_bucket p m && not (bytes_eq e [])
      then some (record m { buckets = (p ++ e ∷ []) ∷ m.buckets })
      else none
]

unfoldable pub put_in : BucketPath → Bytes → Bytes → Memory → Option Memory
put_in p k v m =
    if holds_bucket p m && not (holds_bucket (p ++ k ∷ []) m) && not (bytes_eq k [])
    then some (record m { values = ((p, k), v) ∷ discard (is_at p k) m.values })
    else none

unfoldable pub delete_in : BucketPath → Bytes → Memory → Option Memory
delete_in p k m =
    if holds_bucket p m
    then some (record m { values = discard (is_at p k) m.values; buckets = p ∷ m.buckets })
    else none

unfoldable pub delete_bucket_in : BucketPath → Bytes → Memory → Option Memory
delete_bucket_in p k m =
    let inside = is_within (p ++ k ∷ []) in
    elim (value_at p k m.values) [
      | some _ ↦ none
      | none ↦
          if holds_bucket (p ++ k ∷ []) m
          then some (record {
            values = discard (λ e. inside e.0.0) m.values;
            buckets = p ∷ discard inside m.buckets;
            sequences = discard (λ s. inside s.0) m.sequences;
          })
          else none
    ]

-- An entry into a list in the order of its keys, unless its key is there.
unfoldable pub insert_entry :
    Bytes → Option Bytes → List (Bytes × Option Bytes) → List (Bytes × Option Bytes)
insert_entry k v [] = (k, v) ∷ []
insert_entry k v ((j, w) ∷ es) =
    let later = insert_entry k v es in
    if bytes_ltb k j
    then (k, v) ∷ (j, w) ∷ es
    else if bytes_eq k j
    then (j, w) ∷ es
    else (j, w) ∷ later

-- The name of the bucket below the first path that the second path goes through.
unfoldable pub child_of : BucketPath → BucketPath → Option Bytes
child_of [] [] = none
child_of [] (b ∷ q) = some b
child_of (a ∷ p) [] = none
child_of (a ∷ p) (b ∷ q) = let rest = child_of p q in if bytes_eq a b then rest else none

abbrev pub add_child :
    BucketPath → BucketPath → List (Bytes × Option Bytes) → List (Bytes × Option Bytes)
add_child p q es = elim (child_of p q) [ none ↦ es | some b ↦ insert_entry b none es ]

unfoldable pub value_entries :
    BucketPath → List ((BucketPath × Bytes) × Bytes) → List (Bytes × Option Bytes)
value_entries p [] = []
value_entries p (((q, k), v) ∷ es) =
    let rest = value_entries p es in
    add_child p q (if path_eq q p then insert_entry k (some v) rest else rest)

unfoldable pub bucket_entries :
    BucketPath → List BucketPath → List (Bytes × Option Bytes) → List (Bytes × Option Bytes)
bucket_entries p [] es = es
bucket_entries p (q ∷ qs) es = add_child p q (bucket_entries p qs es)

unfoldable pub sequence_of : BucketPath → List (BucketPath × ℕ) → ℕ
sequence_of p [] = 0
sequence_of p ((q, n) ∷ s) = if path_eq q p then n else sequence_of p s

unfoldable pub set_in : BucketPath → ℕ → Memory → Option Memory
set_in p n m =
    if holds_bucket p m then some (record m { sequences = (p, n) ∷ m.sequences }) else none
