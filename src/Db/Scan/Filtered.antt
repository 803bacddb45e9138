-- ===== src/Db/Scan/Filtered.antt =====
-- `Match` of db/keyed.go returns what passes its test of what `All` returns, in the same order.
use sp0rkle.Prelude.{
  ℕ, zero, suc, ◌≡◌, refl, ap, sym, inl, inr, Bool, Option, none, some, List, [], ◌∷◌, ◌++◌, Bytes,
  if◌then◌else◌, Option-cases, arith,
}
use sp0rkle.Db.Key.{Key, to_buckets}
use sp0rkle.Db.Bolt.{Result, ok, err, BucketPath, Bolt, Codec}
use sp0rkle.Db.Keyed.Stored.{Result-cases}
use sp0rkle.Db.Keyed.{suffix, find}
use sp0rkle.Db.Scan.{
  scan_value, scan_entries, scan_tx, collect, collect_matching, scan_all, scan_match, all,
  match_all,
}

abbrev pub map_result : {A B : Type 0} → (A → B) → Result A → Result B
map_result f (ok a) = ok (f a)
map_result f (err e) = err e

abbrev pub map_outcome : {A B : Type 0} → (A → B) → Option (Result A) → Option (Result B)
map_outcome f none = none
map_outcome f (some r) = some (map_result f r)

-- Two visits that do the same up to a function on what they gather make the scans do so.
module _ {Tx R S : Type 0} (bolt : Bolt Tx) (tx : Tx) (h : R → S)
    (visit : Bytes → Bytes → R → Result R) (visit' : Bytes → Bytes → S → Result S)
    (same : (k v : Bytes) (r : R) → visit' k v (h r) ≡ map_result h (visit k v r)) where
  scan_value-same :
      (k v : Bytes) (r : R)
      → scan_value bolt tx visit' k v (h r) ≡ map_result h (scan_value bolt tx visit k v r)
  unfolding scan_value
  scan_value-same k v r = ground (arith, same k v r, same k (suffix v) r)

  abbrev on_first : R × List BucketPath → S × List BucketPath
  on_first (r, queue) = (h r, queue)

  scan_entries-same :
      (p : BucketPath) (es : List (Bytes × Option Bytes)) (r : R) (queue : List BucketPath)
      → scan_entries bolt tx visit' p es (h r, queue)
        ≡ map_result on_first (scan_entries bolt tx visit p es (r, queue))
  unfolding scan_entries
  scan_entries-same p [] r queue = refl
  scan_entries-same p ((k, none) ∷ es) r queue = scan_entries-same p es r _
  scan_entries-same p ((k, some v) ∷ es) r queue =
      elim (Result-cases (scan_value bolt tx visit k v r)) [
        | inl (e, fails) ↦ rw (scan_value-same k v r, fails) refl
        | inr (r', works) ↦ rw (scan_value-same k v r, works) (scan_entries-same p es r' queue)
      ]

  scan_tx-same :
      (fuel : ℕ) (ps : List BucketPath) (r : R)
      → scan_tx bolt tx visit' fuel ps (h r) ≡ map_outcome h (scan_tx bolt tx visit fuel ps r)
  unfolding scan_tx
  scan_tx-same fuel [] r = refl
  scan_tx-same zero (p ∷ ps) r = refl
  scan_tx-same (suc fuel) (p ∷ ps) r =
      let s = scan_entries-same p (bolt.entries p tx) r ps in
      elim (Result-cases (scan_entries bolt tx visit p (bolt.entries p tx) (r, ps))) [
        | inl (e, fails) ↦ rw (s, fails, scan_tx) refl
        | inr ((r', queue), works) ↦ rw (s, works, scan_tx) (scan_tx-same fuel queue r')
      ]

module _ {Tx V : Type 0} (bolt : Bolt Tx) (codec : Codec V) (pred : V → Bool) where
  -- The members that pass a test, in order.
  abbrev pub passing : List V → List V
  passing [] = []
  passing (v ∷ vs) = if pred v then v ∷ passing vs else passing vs

  passing-append :
      (vs : List V) (v : V)
      → passing (vs ++ v ∷ []) ≡ (if pred v then passing vs ++ v ∷ [] else passing vs)
  passing-append [] v = ground arith
  passing-append (w ∷ vs) v = ground (arith, passing-append vs v)

  collect-same :
      (k v : Bytes) (vs : List V)
      → collect_matching bolt codec pred k v (passing vs)
        ≡ map_result passing (collect bolt codec k v vs)
  unfolding collect_matching collect
  collect-same k v vs = elim (Option-cases (codec.unmarshal v)) [
    | inl e ↦ rw e refl
    | inr (val, e) ↦ rw e (ap ok (sym (passing-append vs val)))
  ]

  all_whole :
      (root : BucketPath) (fuel : ℕ) (key : Key) (tx : Tx)
      → to_buckets key ≡ ([], [])
      → all bolt codec root fuel key tx ≡ scan_all bolt codec fuel root tx
  unfolding all find
  all_whole root fuel key tx whole = rw (whole, all) refl

  -- Match of a keyed collection returns what passes its test of what All returns for a key with no
  -- buckets and no last part, in the same order, or the same error, in as many rounds.
  pub match_all-passing :
      (root : BucketPath) (fuel : ℕ) (key : Key) (tx : Tx)
      → to_buckets key ≡ ([], [])
      → match_all bolt codec root pred fuel tx
        ≡ map_outcome passing (all bolt codec root fuel key tx)
  unfolding match_all scan_match scan_all find
  match_all-passing root fuel key tx whole = rw (all_whole root fuel key tx whole) (
      scan_tx-same bolt tx passing (collect bolt codec) (collect_matching bolt codec pred)
        collect-same fuel (root ∷ []) [])
