-- ===== src/Db/IndexedScan.antt =====
-- `scanIndexedAll` of db/scan.go, and `All` and `Match` of db/indexed.go.
use sp0rkle.Prelude.{
  ℕ, Bool, true, false, Option, none, some, List, [], ◌∷◌, ◌++◌, Bytes, bytes_eq, length, ◌==◌,
  if◌then◌else◌,
}
use sp0rkle.Db.Key.{Key, to_buckets}
use sp0rkle.Db.Bolt.{Result, ok, err, ◌>>=◌, BucketPath, Bolt, Codec}
use sp0rkle.Db.Keyed.{is_bson, find, from_bson}
use sp0rkle.Db.Scan.{scan_tx, scan_all, scan_match}

-- `seen[string(v)]`
unfoldable pub is_seen : Bytes → List Bytes → Bool
is_seen v [] = false
is_seen v (w ∷ ws) = if bytes_eq w v then true else is_seen v ws

-- The slice of a scan, without its other state.
abbrev pub results_of : {A B : Type 0} → Option (Result (A × B)) → Option (Result A)
results_of none = none
results_of (some (err e)) = some (err e)
results_of (some (ok (r, _))) = some (ok r)

module _ {Tx V : Type 0} (bolt : Bolt Tx) (codec : Codec V) (vals : Bytes) (tx : Tx) where
  -- A pointer: its value joins the results, unless the pointer has been seen.
  unfoldable pub collect_indexed :
      Bytes → Bytes → List V × List Bytes → Result (List V × List Bytes)
  unfolding is_seen
  collect_indexed k v (results, seen) =
      let fresh : Result (List V × List Bytes) = elim (bolt.get (vals ∷ []) v tx) [
        | none ↦ ok (results, v ∷ seen)
        | some d ↦
            let decoded = (do val ← from_bson codec d; ok (results ++ val ∷ [], v ∷ seen)) in
            if is_bson d then decoded else ok (results, v ∷ seen)
      ] in
      if is_seen v seen then ok (results, seen) else fresh

  unfoldable pub scan_indexed_all : ℕ → BucketPath → Option (Result (List V))
  scan_indexed_all fuel b = results_of (scan_tx bolt tx collect_indexed fuel (b ∷ []) ([], []))

module _ {Tx V : Type 0} (bolt : Bolt Tx) (codec : Codec V) (vals idxs : Bytes) where
  unfoldable pub all : ℕ → Key → Tx → Option (Result (List V))
  all fuel key tx =
      let (elems, last) = to_buckets key in
      if length last == 0
      then scan_all bolt codec fuel (vals ∷ []) tx
      else elim (find bolt (idxs ∷ []) (elems ++ last ∷ []) tx) [
        | none ↦ some (ok [])
        | some b ↦ scan_indexed_all bolt codec vals tx fuel b
      ]

  unfoldable pub match_all : (V → Bool) → ℕ → Tx → Option (Result (List V))
  match_all pred fuel tx = scan_match bolt codec pred fuel (vals ∷ []) tx
