-- ===== src/Db/ScanTests.antt =====
-- Runs of `All` and `Match` of db/keyed.go, in memory.
use sp0rkle.Prelude.{
  ℕ, ◌≤◌, ◌≡◌, refl, sym, Bool, none, some, List, [], ◌∷◌, ◌++◌, Bytes, codes, length, if_both,
  Option-cases, bytes_eq, ltb, arith, inl, inr,
}
use sp0rkle.Db.Key.{to_buckets, split_last, usep}
use sp0rkle.Db.Bolt.{Result, ok, Codec, BucketPath}
use sp0rkle.Db.Bolt.Memory.{
  Memory, empty_memory, path_eq, is_within, child_of, add_child, insert_entry, value_entries,
  bucket_entries,
}
use sp0rkle.Db.Bolt.Memory.Laws.{memory}
use sp0rkle.Db.Keyed.{find, is_bson, is_pointer, suffix}
use sp0rkle.Db.Scan.{scan_value, scan_entries, scan_tx, scan_all, all, match_all, collect}
use sp0rkle.Db.Scan.Filtered.{passing, map_outcome, match_all-passing}
use sp0rkle.Db.Scan.Ends.{IsNested, nested, scan_all-some}

abbrev plain : Codec Bytes
plain = record { marshal = some; unmarshal = some; unmarshal_marshal = λ v d e. sym e }

abbrev stored : Bytes → Bytes
stored v = codes "_bs" ++ usep ∷ v

-- A bucket with a value, and one in it with another.
abbrev two_values : Memory
two_values = record {
  values =
      ((codes "conf" ∷ [], codes "k"), stored (codes "long"))
      ∷ ((codes "conf" ∷ codes "ns" ∷ [], codes "k"), stored (codes "ab"))
      ∷ [];
  buckets = (codes "conf" ∷ codes "ns" ∷ []) ∷ (codes "conf" ∷ []) ∷ [];
  sequences = [];
}

abbrev is_long : Bytes → Bool
is_long v = ltb 2 (length v)

all_two :
    all memory plain (codes "conf" ∷ []) 2 [] two_values
    ≡ some (ok (codes "long" ∷ codes "ab" ∷ []))
unfolding all to_buckets split_last find scan_all scan_tx scan_entries scan_value collect is_pointer
    is_bson suffix memory path_eq is_within child_of insert_entry value_entries bucket_entries
    bytes_eq
all_two = refl

match_all-passing_example :
    match_all memory plain (codes "conf" ∷ []) is_long 2 two_values
    ≡ map_outcome
        (passing memory plain is_long)
        (all memory plain (codes "conf" ∷ []) 2 [] two_values)
unfolding to_buckets split_last
match_all-passing_example =
    match_all-passing memory plain is_long (codes "conf" ∷ []) 2 [] two_values refl

-- Two buckets, one in the other.
abbrev nested_twice : Memory
nested_twice = record empty_memory { buckets = (codes "conf" ∷ codes "ns" ∷ []) ∷ [] }

abbrev depth_size : BucketPath → ℕ
depth_size [] = 3
depth_size (_ ∷ []) = 2
depth_size (_ ∷ _ ∷ _) = 1

child_of_end : (p : BucketPath) → child_of p [] ≡ none
unfolding child_of
child_of_end [] = refl
child_of_end (a ∷ p) = refl

child_of_deep : (a b c d : Bytes) (p : BucketPath) → child_of (a ∷ b ∷ p) (c ∷ d ∷ []) ≡ none
unfolding child_of
child_of_deep a b c d p =
    if_both (λ o. o ≡ none) (bytes_eq a c) _ none
      (λ _.
        if_both (λ o. o ≡ none) (bytes_eq b d) (child_of p []) none (λ _. child_of_end p)
          (λ _. refl))
      (λ _. refl)

depth_size_child :
    (p : BucketPath) (b : Bytes) → depth_size (p ++ b ∷ []) ≡ depth_size (p ++ codes "" ∷ [])
depth_size_child [] b = refl
depth_size_child (a ∷ []) b = refl
depth_size_child (a ∷ c ∷ p) b = refl

-- At most one bucket is in a bucket.
nested_child :
    (p q : BucketPath) → nested depth_size p (add_child p q []) ≤ depth_size (p ++ codes "" ∷ [])
unfolding insert_entry
nested_child p q = elim (Option-cases (child_of p q)) [
  | inl e ↦ rw (e, add_child) (omega arith)
  | inr (b, e) ↦ rw (e, add_child) (omega (arith, depth_size_child p b))
]

nested_twice-IsNested : IsNested memory nested_twice depth_size
unfolding memory value_entries bucket_entries
nested_twice-IsNested [] = omega (arith, nested_child [] (codes "conf" ∷ codes "ns" ∷ []))
nested_twice-IsNested (a ∷ []) =
    omega (arith, nested_child (a ∷ []) (codes "conf" ∷ codes "ns" ∷ []))
nested_twice-IsNested (a ∷ b ∷ p) =
    rw (child_of_deep a b (codes "conf") (codes "ns") p, add_child) (omega arith)

scan_all-some_example :
    (r : Result (List Bytes)) × (scan_all memory plain 3 [] nested_twice ≡ some r)
scan_all-some_example =
    scan_all-some memory plain depth_size [] nested_twice 3 nested_twice-IsNested (omega arith)
