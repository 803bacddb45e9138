-- ===== src/Db/Indexed/Names.antt =====
-- What `RegisterIndexed` of db/indexed.go makes of the name of a collection by two calls of append.
use sp0rkle.Prelude.{
  ◌≡◌, refl, ap, ◌∙◌, ℕ, zero, suc, ◌+◌, ◌≤◌, ◌<◌, ap₂, take, drop, length-append, append_assoc,
  true, false, [], ◌∷◌, ◌++◌, Bytes, codes, length, leb, arith,
}
use sp0rkle.Db.Indexed.{append_slice, write, bytes_of, bucket_names}

take-append : (k : ℕ) (xs ys : Bytes) → k ≡ length xs → take k (xs ++ ys) ≡ xs
take-append zero [] ys e = refl
take-append zero (x ∷ xs) ys e = absurd (omega arith)
take-append (suc k) [] ys e = absurd (omega arith)
take-append (suc k) (x ∷ xs) ys e = ap (◌∷◌ x) (take-append k xs ys (omega arith))

-- What a slice that has been appended to holds.
take-front : (n bs rest : Bytes) → take (length n + length bs) (n ++ (bs ++ rest)) ≡ n ++ bs
take-front n bs rest =
    ap (take (length n + length bs)) (rw append_assoc refl)
    ∙ take-append (length n + length bs) (n ++ bs) rest (omega (arith, length-append n bs))

take-name : (n rest : Bytes) → take (length n) (n ++ rest) ≡ n
take-name n rest = take-append (length n) n rest refl

pub names_shared :
    (grown : ℕ → Bytes) (spare n : Bytes)
    → 5 ≤ length spare
    → bucket_names grown spare n ≡ (n ++ codes "_idxs", n ++ codes "_idxs")
unfolding bucket_names append_slice write bytes_of
names_shared grown spare n h =
    let fits : leb (length n + 5) (length n + length spare) ≡ true = ground arith in
    let kept = take-name n (codes "_vals" ++ drop (length n + 5) (n ++ spare)) in
    rw (fits, take-name n spare, kept) (ap (λ b. (b, b)) (take-front n (codes "_idxs") _))

pub names_apart :
    (grown : ℕ → Bytes) (spare n : Bytes)
    → length spare < 5
    → bucket_names grown spare n ≡ (n ++ codes "_vals", n ++ codes "_idxs")
unfolding bucket_names append_slice write bytes_of
names_apart grown spare n h =
    let full : leb (length n + 5) (length n + length spare) ≡ false = ground arith in
    rw (full, take-name n spare)
      (ap₂ (λ a b. (a, b)) (take-front n (codes "_vals") _) (take-front n (codes "_idxs") _))
