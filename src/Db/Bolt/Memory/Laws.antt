-- ===== src/Db/Bolt/Memory/Laws.antt =====
-- Buckets in memory have the properties that db/ relies on.
use sp0rkle.Prelude.{
  ◌≡◌, refl, sym, ap, ap₂, subst, ◌∙◌, suc, Bool, true, false, none, some, List, [], ◌∷◌, ◌++◌, ◌↔◌,
  inl, inr, Bytes, bytes_eq_iff, bytes_eq_refl, if◌then◌else◌, Bool-cases, arith,
}
use sp0rkle.Db.Bolt.{BucketPath, Bolt}
use sp0rkle.Db.Bolt.Memory.{
  Memory, path_eq, is_within, any, discard, is_at, value_at, holds_bucket, create_in, put_in,
  delete_in, delete_bucket_in, value_entries, bucket_entries, sequence_of, set_in,
}

pub path_eq_iff : (p q : BucketPath) → (path_eq p q ≡ true) ↔ (p ≡ q)
unfolding path_eq
path_eq_iff (a ∷ p) (b ∷ q) = ground (arith, bytes_eq_iff a b, path_eq_iff p q)
path_eq_iff _ _ = ground arith

is_within_refl : (p : BucketPath) → is_within p p ≡ true
unfolding is_within
is_within_refl [] = refl
is_within_refl (a ∷ p) = rw (bytes_eq_refl a) (is_within_refl p)

is_within-nested :
    (p q : BucketPath) (e : Bytes) → is_within (p ++ e ∷ []) q ≡ true → is_within p q ≡ true
unfolding is_within
is_within-nested [] q e h = refl
is_within-nested (a ∷ p) [] e h = h
is_within-nested (a ∷ p) (b ∷ q) e h = ground (arith, is_within-nested p q e)

any-weaken {ℓ} :
    {A : Type ℓ} (f g : A → Bool)
    → ((x : A) → f x ≡ true → g x ≡ true)
    → (xs : List A) → any f xs ≡ true
    → any g xs ≡ true
any-weaken f g h [] e = e
any-weaken f g h (x ∷ xs) e = ground (arith, h x, any-weaken f g h xs)

pub holds_bucket-nested :
    (p : BucketPath) (e : Bytes) (m : Memory)
    → holds_bucket (p ++ e ∷ []) m ≡ true
    → holds_bucket p m ≡ true
holds_bucket-nested p e m h = ground (
  arith,
  any-weaken (λ v. is_within (p ++ e ∷ []) v.0.0) (λ v. is_within p v.0.0)
      (λ v. is_within-nested p v.0.0 e) m.values,
  any-weaken (is_within (p ++ e ∷ [])) (is_within p) (λ q. is_within-nested p q e) m.buckets,
)

path_eq-is_within : (p q : BucketPath) → path_eq q p ≡ true → is_within p q ≡ true
path_eq-is_within p q h =
    subst (λ r. is_within p r ≡ true) (sym ((path_eq_iff q p).0 h)) (is_within_refl p)

value_at-outside :
    (p : BucketPath) (k : Bytes) (vs : List ((BucketPath × Bytes) × Bytes))
    → any (λ e. is_within p e.0.0) vs ≡ false
    → value_at p k vs ≡ none
unfolding value_at
value_at-outside p k [] h = refl
value_at-outside p k (((q, j), v) ∷ vs) h =
    ground (arith, path_eq-is_within p q, value_at-outside p k vs)

pub value_at-unheld :
    (p : BucketPath) (k : Bytes) (m : Memory)
    → holds_bucket p m ≡ false
    → value_at p k m.values ≡ none
value_at-unheld p k m h = value_at-outside p k m.values (ground arith)

pub value_at-discard :
    (p : BucketPath) (k : Bytes) (vs : List ((BucketPath × Bytes) × Bytes))
    → value_at p k (discard (is_at p k) vs) ≡ none
unfolding value_at
value_at-discard p k [] = refl
value_at-discard p k (v ∷ vs) = elim (Bool-cases (is_at p k v)) [
  | inl e ↦ rw e (value_at-discard p k vs)
  | inr e ↦ rw e (rw e (value_at-discard p k vs))
]

is_at_iff :
    (p : BucketPath) (k : Bytes) (q : BucketPath) (j v : Bytes)
    → (is_at p k ((q, j), v) ≡ true) ↔ ((p ≡ q) × (k ≡ j))
is_at_iff p k q j v = ground (arith, path_eq_iff q p, bytes_eq_iff j k)

pub value_at-discard_other :
    (p : BucketPath) (k : Bytes) (q : BucketPath) (j : Bytes)
    (vs : List ((BucketPath × Bytes) × Bytes))
    → ¬ ((q ≡ p) × (j ≡ k))
    → value_at q j (discard (is_at p k) vs) ≡ value_at q j vs
unfolding value_at
value_at-discard_other p k q j [] n = refl
value_at-discard_other p k q j (((r, i), v) ∷ vs) n =
    let rest = value_at-discard_other p k q j vs n in
    elim (Bool-cases (is_at p k ((r, i), v))) [
      | inl e ↦
          let (same_path, same_key) = (is_at_iff p k r i v).0 e in
          elim (Bool-cases (is_at q j ((r, i), v))) [
            | inl f ↦
                let (path, key) = (is_at_iff q j r i v).0 f in
                absurd (n (path ∙ sym same_path, key ∙ sym same_key))
            | inr f ↦ rw e (rw f rest)
          ]
      | inr e ↦ rw e (ap (λ o. if is_at q j ((r, i), v) then some v else o) rest)
    ]

pub create_in-some :
    (p : BucketPath) (e : Bytes) (m m' : Memory)
    → create_in p e m ≡ some m'
    → (m'.values ≡ m.values) × (m'.buckets ≡ (p ++ e ∷ []) ∷ m.buckets)
unfolding create_in
create_in-some p e m m' h = ground arith

put_in-some :
    (p : BucketPath) (k v : Bytes) (m m' : Memory)
    → put_in p k v m ≡ some m'
    → m'.values ≡ ((p, k), v) ∷ discard (is_at p k) m.values
unfolding put_in
put_in-some p k v m m' h = ground arith

pub delete_in-some :
    (p : BucketPath) (k : Bytes) (m m' : Memory)
    → delete_in p k m ≡ some m'
    → m'.values ≡ discard (is_at p k) m.values
unfolding delete_in
delete_in-some p k m m' h = ground arith

value_at-discard-none :
    (p : BucketPath) (k : Bytes) (f : (BucketPath × Bytes) × Bytes → Bool)
    (vs : List ((BucketPath × Bytes) × Bytes))
    → value_at p k vs ≡ none
    → value_at p k (discard f vs) ≡ none
unfolding value_at
value_at-discard-none p k f [] h = refl
value_at-discard-none p k f (v ∷ vs) h = ground (arith, value_at-discard-none p k f vs)

pub delete_bucket_in-none :
    (p : BucketPath) (k : Bytes) (m m' : Memory)
    → delete_bucket_in p k m ≡ some m'
    → value_at p k m'.values ≡ none
unfolding delete_bucket_in
delete_bucket_in-none p k m m' h =
    ground (arith, value_at-discard-none p k (λ e. is_within (p ++ k ∷ []) e.0.0) m.values)

pub create_in-is_bucket :
    (p : BucketPath) (e : Bytes) (m m' : Memory)
    → create_in p e m ≡ some m'
    → holds_bucket (p ++ e ∷ []) m' ≡ true
create_in-is_bucket p e m m' h =
    ground (arith, create_in-some p e m m' h, is_within_refl (p ++ e ∷ []))

pub put_in-value_at :
    (p : BucketPath) (k v : Bytes) (m m' : Memory)
    → put_in p k v m ≡ some m'
    → value_at p k m'.values ≡ some v
unfolding value_at
put_in-value_at p k v m m' h =
    rw (put_in-some p k v m m' h) (rw ((is_at_iff p k p k v).1 (refl, refl)) refl)

pub put_in-value_at_other :
    (p : BucketPath) (k v : Bytes) (m m' : Memory) (q : BucketPath) (j : Bytes)
    → put_in p k v m ≡ some m'
    → ¬ ((q ≡ p) × (j ≡ k))
    → value_at q j m'.values ≡ value_at q j m.values
unfolding value_at
put_in-value_at_other p k v m m' q j h n = elim (Bool-cases (is_at q j ((p, k), v))) [
  | inl e ↦ absurd (n ((is_at_iff q j p k v).0 e))
  | inr e ↦ rw (put_in-some p k v m m' h) (rw e (value_at-discard_other p k q j m.values n))
]

within_rest :
    (p : BucketPath) (k : Bytes) (q : BucketPath)
    → is_within (p ++ k ∷ []) q ≡ true
    → (r : BucketPath) × (q ≡ p ++ k ∷ r)
unfolding is_within
within_rest [] k [] h = absurd (ground arith)
within_rest [] k (b ∷ q) h =
    let same : k ≡ b = (bytes_eq_iff k b).0 (ground arith) in (q, ap (λ a. a ∷ q) (sym same))
within_rest (a ∷ p) k [] h = absurd (ground arith)
within_rest (a ∷ p) k (b ∷ q) h =
    let same : a ≡ b = (bytes_eq_iff a b).0 (ground arith) in
    let (r, e) = within_rest p k q (ground arith) in (r, ap₂ (λ c s. c ∷ s) (sym same) e)

value_at-discard-outside :
    (f : BucketPath → Bool) (q : BucketPath) (j : Bytes) (vs : List ((BucketPath × Bytes) × Bytes))
    → f q ≡ false
    → value_at q j (discard (λ e. f e.0.0) vs) ≡ value_at q j vs
unfolding value_at
value_at-discard-outside f q j [] h = refl
value_at-discard-outside f q j (((r, i), v) ∷ vs) h =
    let rest = value_at-discard-outside f q j vs h in
    elim (Bool-cases (f r)) [
      | inl e ↦ elim (Bool-cases (is_at q j ((r, i), v))) [
        | inl g ↦
            let path : q ≡ r = ((is_at_iff q j r i v).0 g).0 in absurd (ground (arith, ap f path))
        | inr g ↦ rw e (rw g rest)
      ]
      | inr e ↦ rw e (ap (λ o. if is_at q j ((r, i), v) then some v else o) rest)
    ]

delete_bucket_in-some :
    (p : BucketPath) (k : Bytes) (m m' : Memory)
    → delete_bucket_in p k m ≡ some m'
    → m'.values ≡ discard (λ e. is_within (p ++ k ∷ []) e.0.0) m.values
unfolding delete_bucket_in
delete_bucket_in-some p k m m' h = ground arith

pub delete_bucket_in-value_at :
    (p : BucketPath) (k : Bytes) (m m' : Memory) (q : BucketPath) (j : Bytes)
    → delete_bucket_in p k m ≡ some m'
    → ¬ ((r : BucketPath) × (q ≡ p ++ k ∷ r))
    → value_at q j m'.values ≡ value_at q j m.values
delete_bucket_in-value_at p k m m' q j h n =
    ap (value_at q j) (delete_bucket_in-some p k m m' h)
    ∙ (elim (Bool-cases (is_within (p ++ k ∷ []) q)) [
      | inl e ↦ absurd (n (within_rest p k q e))
      | inr e ↦ value_at-discard-outside (is_within (p ++ k ∷ [])) q j m.values e
    ])

unfoldable pub memory : Bolt Memory
memory = record {
  get = λ p k m. value_at p k m.values;
  is_bucket = holds_bucket;
  create_bucket = create_in;
  put = put_in;
  delete = delete_in;
  delete_bucket = delete_bucket_in;
  entries = λ p m. bucket_entries p m.buckets (value_entries p m.values);
  next_sequence = λ p m.
      let n = suc (sequence_of p m.sequences) in
      elim (set_in p n m) [ none ↦ none | some m' ↦ some (n, m') ];
  set_sequence = set_in;
  get_outside = value_at-unheld;
  is_bucket_nested = holds_bucket-nested;
  create_is_bucket = create_in-is_bucket;
  create_get = λ p e m m' q k h. ap (value_at q k) (create_in-some p e m m' h).0;
  put_get = put_in-value_at;
  put_get_other = put_in-value_at_other;
  delete_get =
      λ p k m m' h. ap (value_at p k) (delete_in-some p k m m' h) ∙ value_at-discard p k m.values;
  delete_get_other = λ p k m m' q j h n.
      ap (value_at q j) (delete_in-some p k m m' h) ∙ value_at-discard_other p k q j m.values n;
  delete_bucket_get = delete_bucket_in-none;
  delete_bucket_get_other = delete_bucket_in-value_at;
}
