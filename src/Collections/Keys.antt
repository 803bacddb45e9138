-- ===== src/Collections/Keys.antt =====
-- What is told of the factoids with a key (collections/factoids/factoids.go).
use sp0rkle.Prelude.{
  ◌≡◌, ap, true, List, [], ◌∷◌, Bytes, bytes_eq, bytes_eq_iff, count, if◌then◌else◌, arith,
}
use sp0rkle.Collections.Factoid.{Factoid, keys_of, is_key_of}

abbrev pub keys : List Factoid → List Bytes
keys [] = []
keys (f ∷ fs) = f.key ∷ keys fs

same_key :
    (j k : Bytes) (set : List Bytes) → bytes_eq j k ≡ true → is_key_of j set ≡ is_key_of k set
same_key j k set e = ap (λ i. is_key_of i set) ((bytes_eq_iff j k).0 e)

-- A key is listed once if a factoid has it and it is not in the set of keys that the loop has met,
-- and else not at all.
pub count-keys_of :
    (k : Bytes) (set : List Bytes) (fs : List Factoid)
    → count (λ j. bytes_eq j k) (keys_of set fs)
      ≡ (if is_key_of k set then 0 else if is_key_of k (keys fs) then 1 else 0)
unfolding keys_of is_key_of
count-keys_of k set [] = ground arith
count-keys_of k set (f ∷ fs) =
    ground (arith, count-keys_of k set fs, count-keys_of k (f.key ∷ set) fs, same_key f.key k set)
