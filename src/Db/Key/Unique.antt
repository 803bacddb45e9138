-- ===== src/Db/Key/Unique.antt =====
-- Two valid keys of the same buckets have the same names and values (db/db.go, `Valid`).
use sp0rkle.Prelude.{
  ◌≡◌, refl, ap, ap₂, true, false, List, [], ◌∷◌, ◌++◌, Bytes, map, length, length-append, ◌<◌,
  arith,
}
use sp0rkle.Db.Key.{
  Elem, Key, name, value_bytes, bytes, usep, split_last, to_buckets, has_usep, is_valid,
}

abbrev pub pair_bytes : Elem → Bytes × Bytes
pair_bytes e = (name e, value_bytes e)

-- The first separator ends the name.
usep_split :
    (n m v w : Bytes)
    → has_usep n ≡ false
    → has_usep m ≡ false
    → n ++ usep ∷ v ≡ m ++ usep ∷ w
    → (n ≡ m) × (v ≡ w)
unfolding has_usep
usep_split [] [] v w h k e = (refl, cc)
usep_split [] (c ∷ m) v w h k e = ground arith
usep_split (c ∷ n) [] v w h k e = ground arith
usep_split (c ∷ n) (d ∷ m) v w h k e =
    let f : has_usep n ≡ false = ground arith in
    let g : has_usep m ≡ false = ground arith in
    let tails : n ++ usep ∷ v ≡ m ++ usep ∷ w = cc in
    let heads : c ≡ d = cc in
    let (names, values) = usep_split n m v w f g tails in (ap₂ (λ a s. a ∷ s) heads names, values)

bytes_unique :
    (e f : Elem)
    → has_usep (name e) ≡ false
    → has_usep (name f) ≡ false
    → bytes e ≡ bytes f
    → pair_bytes e ≡ pair_bytes f
unfolding bytes
bytes_unique e f h k q =
    let (names, values) = usep_split (name e) (name f) _ _ h k q in ap₂ (λ a b. (a, b)) names values

split_last_unique :
    (e f : Elem) (k l : List Elem)
    → is_valid (e ∷ k) ≡ true
    → is_valid (f ∷ l) ≡ true
    → split_last e k ≡ split_last f l
    → map pair_bytes (e ∷ k) ≡ map pair_bytes (f ∷ l)
unfolding split_last is_valid
split_last_unique e f [] [] h k q =
    ap (λ p. p ∷ []) (bytes_unique e f (ground arith) (ground arith) (ap (λ r. r.1) q))
split_last_unique e f [] (g ∷ l) h k q = absurd (ground arith)
split_last_unique e f (g ∷ k) [] h j q = absurd (ground arith)
split_last_unique e f (g ∷ k) (i ∷ l) h j q =
    let heads : bytes e ≡ bytes f = cc in
    let tails : split_last g k ≡ split_last i l = cc in
    ap₂ (λ p ps. p ∷ ps) (bytes_unique e f (ground arith) (ground arith) heads)
      (split_last_unique g i k l (ground arith) (ground arith) tails)

split_last-ne-nil : (e : Elem) (k : List Elem) → 0 < length (split_last e k).1
unfolding split_last bytes
split_last-ne-nil e [] = omega (arith, length-append (name e) (usep ∷ value_bytes e))
split_last-ne-nil e (f ∷ k) = split_last-ne-nil f k

-- Two valid keys that give the same buckets and the same last key have the same elements, by their
-- names and the bytes of their values.
pub to_buckets_unique :
    (k l : Key)
    → is_valid k ≡ true
    → is_valid l ≡ true
    → to_buckets k ≡ to_buckets l
    → map pair_bytes k ≡ map pair_bytes l
unfolding to_buckets
to_buckets_unique [] [] h j q = refl
to_buckets_unique [] (f ∷ l) h j q =
    absurd (omega (arith, split_last-ne-nil f l, ap (λ r. length r.1) q))
to_buckets_unique (e ∷ k) [] h j q =
    absurd (omega (arith, split_last-ne-nil e k, ap (λ r. length r.1) q))
to_buckets_unique (e ∷ k) (f ∷ l) h j q = split_last_unique e f k l h j q
