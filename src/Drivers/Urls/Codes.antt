-- ===== src/Drivers/Urls/Codes.antt =====
-- What the codes of drivers/urldriver/urldriver.go depend on, and what they find.
use sp0rkle.Prelude.{
  ◌≡◌, refl, subst, ap, inl, inr, ◌⊎◌, ℕ, zero, suc, ◌/◌, ◌%◌, Bool, true, none, some, List, [],
  ◌∷◌, ◌++◌, Bytes, bytes_eq, All, All-append, Option-cases, arith,
}
use sp0rkle.Db.Key.{Key, bytes, name, value_bytes, to_buckets, split_last}
use sp0rkle.Db.Bolt.{Result, ok, err, ◌>>=◌, Bolt, Codec}
use sp0rkle.Db.Keyed.{is_pointer}
use sp0rkle.Db.Keyed.Stored.{Result-cases}
use sp0rkle.Db.Indexed
use sp0rkle.Db.Indexed.Lookup.{is_index_key, get_index-put}
use sp0rkle.Collections.Urls.{
  Url, by_url, by_cached_as, by_shortened, key_unless_empty, indexes, id_of, exists, get_cached,
  get_shortened, put,
}
use sp0rkle.Drivers.Urls.{base64, bump, Crc, crc_bytes, encode_loop, encode, shorten_url}

crc_bytes_low : (m n : ℕ) → m % 2048 ≡ n % 2048 → crc_bytes m ≡ crc_bytes n
unfolding crc_bytes
crc_bytes_low m n e = λ i. record {
  b0 = (let p : m / 1 % 256 ≡ n / 1 % 256 = omega arith in p) i;
  b1 = (let p : m / 2 % 256 ≡ n / 2 % 256 = omega arith in p) i;
  b2 = (let p : m / 4 % 256 ≡ n / 4 % 256 = omega arith in p) i;
  b3 = (let p : m / 8 % 256 ≡ n / 8 % 256 = omega arith in p) i;
}

is_index_key-by_url : (v : Bytes) → is_index_key (by_url v) ≡ true
unfolding to_buckets split_last bytes name value_bytes is_pointer bytes_eq
is_index_key-by_url v = ground arith

is_index_key-by_cached_as : (v : Bytes) → is_index_key (by_cached_as v) ≡ true
unfolding to_buckets split_last bytes name value_bytes is_pointer bytes_eq
is_index_key-by_cached_as v = ground arith

is_index_key-by_shortened : (v : Bytes) → is_index_key (by_shortened v) ≡ true
unfolding to_buckets split_last bytes name value_bytes is_pointer bytes_eq
is_index_key-by_shortened v = ground arith

abbrev IsLooked : Key → Type 0
IsLooked key = is_index_key key ≡ true

module _ (P : Key → Type 0) where
  All-key_unless_empty :
      (by : Bytes → Key) (v : Bytes) → ((w : Bytes) → P (by w)) → All P (key_unless_empty by v)
  All-key_unless_empty by [] p = tt
  All-key_unless_empty by (b ∷ v) p = (p (b ∷ v), tt)

  All-indexes :
      ((v : Bytes) → P (by_url v))
      → ((v : Bytes) → P (by_cached_as v))
      → ((v : Bytes) → P (by_shortened v))
      → (u : Url) → All P (indexes u)
  unfolding indexes
  All-indexes p q r u = (
    p u.url,
    All-append P (key_unless_empty by_cached_as u.cached_as)
        (key_unless_empty by_shortened u.shortened)
        (All-key_unless_empty by_cached_as u.cached_as q)
        (All-key_unless_empty by_shortened u.shortened r),
  )

  last_of_append : (xs : List Key) (y : Key) → All P (xs ++ y ∷ []) → P y
  last_of_append [] y h = h.0
  last_of_append (x ∷ xs) y h = last_of_append xs y h.1

  -- What all indexes have, the index of the code has.
  of_shortened : (u : Url) → All P (indexes u) → (u.shortened ≡ []) ⊎ P (by_shortened u.shortened)
  unfolding indexes
  of_shortened u h = go u.shortened h.1
    where
      go :
          (s : Bytes)
          → All P (key_unless_empty by_cached_as u.cached_as ++ key_unless_empty by_shortened s)
          → (s ≡ []) ⊎ P (by_shortened s)
      go [] h' = inl refl
      go (b ∷ s) h' =
          inr (last_of_append (key_unless_empty by_cached_as u.cached_as) (by_shortened (b ∷ s)) h')

module _ {Tx : Type 0} (bolt : Bolt Tx) (codec : Codec Url) (vals idxs : Bytes)
    (id_is_valid : Bytes → Bool) (checksum : Bytes → ℕ) where
  -- Of the 32 bits of the checksum the code depends on the lowest eleven alone: two URLs whose
  -- checksums agree there are given the same code, by the same random numbers and file.
  pub encode-few :
      (rands : ℕ → ℕ) (a b : Bytes) (tx : Tx)
      → checksum a % 2048 ≡ checksum b % 2048
      → encode bolt codec vals idxs id_is_valid checksum rands a tx
        ≡ encode bolt codec vals idxs id_is_valid checksum rands b tx
  unfolding encode
  encode-few rands a b tx e =
      ap (λ c. encode_loop bolt codec vals idxs id_is_valid checksum rands 10 0 c tx)
        (crc_bytes_low (checksum a) (checksum b) e)

  -- A code that no URL has.
  abbrev pub IsFree : Bytes → Tx → Type 0
  IsFree s tx =
      (get_cached bolt codec vals idxs s tx ≡ none)
      × (get_shortened bolt codec vals idxs s tx ≡ none)

  encode_loop-IsFree :
      (rands : ℕ → ℕ) (n i : ℕ) (c : Crc) (tx : Tx)
      → let s = encode_loop bolt codec vals idxs id_is_valid checksum rands n i c tx in
        (s ≡ []) ⊎ IsFree s tx
  unfolding encode_loop
  encode_loop-IsFree rands zero i c tx = inl refl
  encode_loop-IsFree rands (suc n) i c tx =
      let again = encode_loop-IsFree rands n (suc i) (bump (rands i) c) tx in
      elim (Option-cases (get_cached bolt codec vals idxs (base64 c) tx)) [
        | inr (u, e) ↦ rw e again
        | inl e ↦ elim (Option-cases (get_shortened bolt codec vals idxs (base64 c) tx)) [
          | inr (u, g) ↦ rw (e, g) again
          | inl g ↦ rw (e, g) (inr (e, g))
        ]
      ]

  get_shortened-put :
      ¬ (vals ≡ idxs)
      → (u : Url) (tx tx' : Tx) → exists u ≡ true
      → put bolt codec vals idxs id_is_valid u tx ≡ ok tx'
      → (u.shortened ≡ []) ⊎ (get_shortened bolt codec vals idxs u.shortened tx' ≡ some u)
  unfolding put get_shortened
  get_shortened-put n u tx tx' ex h =
      let indexed =
        get_index-put bolt codec vals idxs id_of indexes id_is_valid n u tx tx'
          (All-indexes IsLooked is_index_key-by_url is_index_key-by_cached_as
            is_index_key-by_shortened u)
          h in
      elim (of_shortened (λ key. Indexed.get bolt codec vals idxs key tx' ≡ ok (some u)) u
        indexed) [ inl e ↦ inl e | inr e ↦ inr (rw (e, ex) refl) ]

  -- If the values and the indexes have buckets of different names, then an existing URL that
  -- Shorten stores with no error is found by its code, which no URL had before, unless the code is
  -- empty; and it is the URL that was given.
  pub shorten_url-found :
      ¬ (vals ≡ idxs)
      → (rands : ℕ → ℕ) (u u' : Url) (tx tx' : Tx) → exists u ≡ true
      → shorten_url bolt codec vals idxs id_is_valid checksum rands u tx ≡ ok (u', tx')
      → (u'.url ≡ u.url)
        × ((u'.shortened ≡ [])
            ⊎ (IsFree u'.shortened tx
                × (get_shortened bolt codec vals idxs u'.shortened tx' ≡ some u')))
  unfolding shorten_url encode
  shorten_url-found n rands u u' tx tx' ex h =
      elim (Result-cases (put bolt codec vals idxs id_is_valid coded tx)) [
        | inl (e, r) ↦ absurd (ground (arith, r))
        | inr (t, r) ↦
            let both : (coded, t) ≡ (u', tx') =
              with_stored (put bolt codec vals idxs id_is_valid coded tx) t (u', tx') h r in
            subst (λ (q : Url × Tx). (q.0.url ≡ u.url) × Found q.0 q.1) both
              (
                refl,
                join (encode_loop-IsFree rands 10 0 (crc_bytes (checksum u.url)) tx)
                    (get_shortened-put n coded tx t ex r),
              )
      ]
    where
      coded : Url
      coded = record u {
        shortened = encode bolt codec vals idxs id_is_valid checksum rands u.url tx;
      }

      Found : Url → Tx → Type 0
      Found v t =
          (v.shortened ≡ [])
          ⊎ (IsFree v.shortened tx × (get_shortened bolt codec vals idxs v.shortened t ≡ some v))

      with_stored :
          (r : Result Tx) (t : Tx) (w : Url × Tx)
          → (r >>= λ t'. ok (coded, t')) ≡ ok w
          → r ≡ ok t
          → (coded, t) ≡ w
      with_stored (ok s) t w h' e = let same : s ≡ t = cc in cc
      with_stored (err s) t w h' e = absurd (ground arith)

      join : {P Q R : Type 0} → P ⊎ Q → P ⊎ R → P ⊎ (Q × R)
      join (inl p) r = inl p
      join (inr q) (inl p) = inl p
      join (inr q) (inr r) = inr (q, r)
