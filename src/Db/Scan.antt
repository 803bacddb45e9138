-- ===== src/Db/Scan.antt =====
-- db/scan.go: `scanTxT`, which goes through a bucket and all the buckets in it, with `scanAll` and
-- `scanMatch`; and `All` and `Match` of db/keyed.go.
pub mod Filtered
pub mod Ends
use sp0rkle.Prelude.{
  ℕ, zero, suc, Bool, true, false, Option, none, some, List, [], ◌∷◌, ◌++◌, Bytes, length, ltb,
  if◌then◌else◌,
}
use sp0rkle.Db.Key.{Key, to_buckets}
use sp0rkle.Db.Bolt.{
  Error, unmarshal_error, Result, ok, err, ◌>>=◌, of_option, BucketPath, Bolt, Codec,
}
use sp0rkle.Db.Keyed.{is_bson, is_pointer, suffix, find}

module _ {Tx R : Type 0} (bolt : Bolt Tx) (tx : Tx) (visit : Bytes → Bytes → R → Result R) where
  -- What is stored at a key: a pointer, a value with its prefix, or something else.
  unfoldable pub scan_value : Bytes → Bytes → R → Result R
  scan_value k v r =
      if is_pointer v then visit k v r else if is_bson v then visit k (suffix v) r else ok r

  -- A bucket's entries; the buckets among them queue up.
  unfoldable pub scan_entries :
      BucketPath → List (Bytes × Option Bytes) → R × List BucketPath → Result (R × List BucketPath)
  scan_entries p [] s = ok s
  scan_entries p ((k, none) ∷ es) (r, queue) =
      let nest = p ++ k ∷ [] in
      scan_entries p es (r, if bolt.is_bucket nest tx then queue ++ nest ∷ [] else queue)
  scan_entries p ((k, some v) ∷ es) (r, queue) = do
    r' ← scan_value k v r
    scan_entries p es (r', queue)

  -- `scanTxT`: a bucket in each round; `none` means that the fuel was not enough.
  unfoldable pub scan_tx : ℕ → List BucketPath → R → Option (Result R)
  scan_tx fuel [] r = some (ok r)
  scan_tx zero (p ∷ ps) r = none
  scan_tx (suc fuel) (p ∷ ps) r = elim (scan_entries p (bolt.entries p tx) (r, ps)) [
    | err e ↦ some (err e)
    | ok (r', queue) ↦ scan_tx fuel queue r'
  ]

module _ {Tx V : Type 0} (bolt : Bolt Tx) (codec : Codec V) where
  unfoldable pub collect : Bytes → Bytes → List V → Result (List V)
  collect k v vs = do val ← of_option unmarshal_error (codec.unmarshal v); ok (vs ++ val ∷ [])

  unfoldable pub collect_matching : (V → Bool) → Bytes → Bytes → List V → Result (List V)
  collect_matching pred k v vs = do
    val ← of_option unmarshal_error (codec.unmarshal v)
    ok (if pred val then vs ++ val ∷ [] else vs)

  unfoldable pub scan_all : ℕ → BucketPath → Tx → Option (Result (List V))
  scan_all fuel b tx = scan_tx bolt tx collect fuel (b ∷ []) []

  unfoldable pub scan_match : (V → Bool) → ℕ → BucketPath → Tx → Option (Result (List V))
  scan_match pred fuel b tx = scan_tx bolt tx (collect_matching pred) fuel (b ∷ []) []

  module _ (root : BucketPath) where
    unfoldable pub all : ℕ → Key → Tx → Option (Result (List V))
    all fuel key tx =
        let (elems, last) = to_buckets key in
        elim (find bolt root (if ltb 0 (length last) then elems ++ last ∷ [] else elems) tx) [
          | none ↦ some (ok [])
          | some b ↦ scan_all fuel b tx
        ]

    unfoldable pub match_all : (V → Bool) → ℕ → Tx → Option (Result (List V))
    match_all pred fuel tx = elim (find bolt root [] tx) [
      | none ↦ some (ok [])
      | some b ↦ scan_match pred fuel b tx
    ]
