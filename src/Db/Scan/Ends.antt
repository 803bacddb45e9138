-- ===== src/Db/Scan/Ends.antt =====
-- `scanTxT` of db/scan.go ends, as buckets are nested finitely.
use sp0rkle.Prelude.{
  ℕ, zero, suc, ◌+◌, ◌≤◌, ◌≡◌, refl, inl, inr, Option, none, some, List, [], ◌∷◌, ◌++◌, Bytes,
  if◌then◌else◌, if_both, arith,
}
use sp0rkle.Db.Bolt.{Result, ok, err, BucketPath, Bolt, Codec}
use sp0rkle.Db.Keyed.Stored.{Result-cases}
use sp0rkle.Db.Scan.{scan_value, scan_entries, scan_tx, collect, scan_all}

module _ (size : BucketPath → ℕ) where
  -- The sizes of the buckets of a queue, and of those that stand in one.
  abbrev pub total : List BucketPath → ℕ
  total [] = 0
  total (p ∷ ps) = size p + total ps

  abbrev pub nested : BucketPath → List (Bytes × Option Bytes) → ℕ
  nested p [] = 0
  nested p ((k, none) ∷ es) = size (p ++ k ∷ []) + nested p es
  nested p ((k, some _) ∷ es) = nested p es

  total-append : (ps : List BucketPath) (p : BucketPath) → total (ps ++ p ∷ []) ≡ total ps + size p
  total-append [] p = omega arith
  total-append (q ∷ ps) p = omega (arith, total-append ps p)

-- Every bucket is larger than those in it together.
abbrev pub IsNested : {Tx : Type 0} → Bolt Tx → Tx → (BucketPath → ℕ) → Type 0
IsNested bolt tx size = (p : BucketPath) → suc (nested size p (bolt.entries p tx)) ≤ size p

module _ {Tx R : Type 0} (bolt : Bolt Tx) (tx : Tx) (visit : Bytes → Bytes → R → Result R)
    (size : BucketPath → ℕ) where
  scan_entries-total :
      (p : BucketPath) (es : List (Bytes × Option Bytes)) (r r' : R)
      (queue queue' : List BucketPath)
      → scan_entries bolt tx visit p es (r, queue) ≡ ok (r', queue')
      → total size queue' ≤ total size queue + nested size p es
  unfolding scan_entries
  scan_entries-total p [] r r' queue queue' e =
      let same : queue ≡ queue' = cc in rw same (omega arith)
  scan_entries-total p ((k, none) ∷ es) r r' queue queue' e =
      let nest = p ++ k ∷ [] in
      let more = if bolt.is_bucket nest tx then queue ++ nest ∷ [] else queue in
      let rest = scan_entries-total p es r r' more queue' e in
      let grows : total size more ≤ total size queue + size nest =
        if_both (λ q. total size q ≤ total size queue + size nest) (bolt.is_bucket nest tx)
          (queue ++ nest ∷ []) queue (λ _. omega (arith, total-append size queue nest))
          (λ _. omega arith) in
      omega (arith, rest, grows)
  scan_entries-total p ((k, some v) ∷ es) r r' queue queue' e =
      elim (Result-cases (scan_value bolt tx visit k v r)) [
        | inl (x, fails) ↦ absurd (ground (arith, rw fails at e))
        | inr (r1, works) ↦ scan_entries-total p es r1 r' queue queue' (rw works at e)
      ]

  scan_tx-some :
      (fuel : ℕ) (ps : List BucketPath) (r : R)
      → IsNested bolt tx size
      → total size ps ≤ fuel
      → (o : Result R) × (scan_tx bolt tx visit fuel ps r ≡ some o)
  unfolding scan_tx
  scan_tx-some fuel [] r n h = (ok r, refl)
  scan_tx-some zero (p ∷ ps) r n h = absurd (omega (arith, n p))
  scan_tx-some (suc fuel) (p ∷ ps) r n h =
      elim (Result-cases (scan_entries bolt tx visit p (bolt.entries p tx) (r, ps))) [
        | inl (e, fails) ↦ (err e, rw (fails, scan_tx) refl)
        | inr ((r', queue), works) ↦
            let less = scan_entries-total p (bolt.entries p tx) r r' ps queue works in
            let (o, ends) = scan_tx-some fuel queue r' n (omega (arith, less, n p)) in
            (o, rw (works, scan_tx) ends)
      ]

-- If every bucket of the file has a size that is larger than those of the buckets in it together,
-- scanAll of a bucket ends within as many rounds as its size.
pub scan_all-some :
    {Tx V : Type 0} (bolt : Bolt Tx) (codec : Codec V) (size : BucketPath → ℕ) (b : BucketPath)
    (tx : Tx) (fuel : ℕ)
    → IsNested bolt tx size
    → size b ≤ fuel
    → (r : Result (List V)) × (scan_all bolt codec fuel b tx ≡ some r)
unfolding scan_all
scan_all-some bolt codec size b tx fuel n h =
    scan_tx-some bolt tx (collect bolt codec) size fuel (b ∷ []) [] n (omega (arith, h))
