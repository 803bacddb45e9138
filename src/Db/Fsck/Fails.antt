-- ===== src/Db/Fsck/Fails.antt =====
-- The pass of db/scan.go over the values fails on every value that Put has stored.
use sp0rkle.Prelude.{
  ℕ, zero, suc, ◌≡◌, ◌≢◌, refl, sym, ap, ◌∙◌, ◌⊎◌, inl, inr, true, false, Option, none, some, List,
  [], ◌∷◌, ◌++◌, Bytes, Option-cases,
}
use sp0rkle.Db.Key.{Key}
use sp0rkle.Db.Bolt.{Error, Result, ok, err, Bolt, Codec}
use sp0rkle.Db.Keyed.{bson_prefix}
use sp0rkle.Db.Keyed.Stored.{Result-cases}
use sp0rkle.Db.IndexedScan
use sp0rkle.Db.Fsck.{Cursors, is_obsolete, index_pass, unmarshal_raw, value_pass, two_passes, fsck}

Outcome-cases :
    {A : Type 0} (o : Option (Result A))
    → (o ≡ none) ⊎ ((e : Error) × (o ≡ some (err e))) ⊎ ((a : A) × (o ≡ some (ok a)))
Outcome-cases none = inl refl
Outcome-cases (some (err e)) = inr (inl (e, refl))
Outcome-cases (some (ok a)) = inr (inr (a, refl))

module _ {Tx V : Type 0} (bolt : Bolt Tx) (cursors : Cursors Tx) (codec : Codec V)
    (vals idxs : Bytes) (id_of : V → Bytes) (indexes : V → List Key) where
  open cursors use {Cursor, bucket, first, next, delete}

  -- Where the loop stands, it is in the bucket of the indexes.
  abbrev IsAmong : Option ((Bytes × Option Bytes) × Cursor) → Type 0
  IsAmong none = Unit
  IsAmong (some (e, c)) = bucket c ≡ idxs ∷ []

  next-IsAmong : (c : Cursor) (tx : Tx) → bucket c ≡ idxs ∷ [] → IsAmong (next c tx)
  next-IsAmong c tx b = go (next c tx) refl
    where
      go : (o : Option ((Bytes × Option Bytes) × Cursor)) → next c tx ≡ o → IsAmong o
      go none e = tt
      go (some (en, c')) e = cursors.bucket-next c tx en c' e ∙ b

  -- The pass over the indexes leaves the values alone.
  index_pass-first :
      vals ≢ idxs
      → (fuel : ℕ) (at : Option ((Bytes × Option Bytes) × Cursor)) (tx tx' : Tx) → IsAmong at
      → index_pass bolt cursors codec vals idxs id_of indexes fuel at tx ≡ some (ok tx')
      → first (vals ∷ []) tx' ≡ first (vals ∷ []) tx
  unfolding index_pass
  index_pass-first apart fuel none tx tx' a h =
      let same : tx ≡ tx' = cc in ap (first (vals ∷ [])) (sym same)
  index_pass-first apart zero (some at) tx tx' a h = cc
  index_pass-first apart (suc fuel) (some ((k, v), c)) tx tx' a h =
      elim (Result-cases (is_obsolete bolt cursors codec vals idxs id_of indexes k v tx)) [
        | inl (e, o) ↦ cc (rw (o, index_pass) at h)
        | inr (false, o) ↦
            index_pass-first apart fuel (next c tx) tx tx' (next-IsAmong c tx a)
              (rw (o, index_pass) at h)
        | inr (true, o) ↦ elim (Option-cases (delete c tx)) [
          | inl d ↦ cc (rw (o, index_pass, d) at h)
          | inr (tx1, d) ↦
              index_pass-first apart fuel (next c tx1) tx1 tx' (next-IsAmong c tx1 a)
                (rw (o, index_pass, d) at h)
              ∙ cursors.first-delete c tx tx1 (vals ∷ []) d (λ e. apart (cc (e, a)))
        ]
      ]

  -- The values bucket begins with what Put stores, which keeps its prefix when fsckValuePass reads it.
  value_pass-fails :
      ((d : Bytes) → codec.unmarshal (bson_prefix ++ d) ≡ none)
      → (fuel : ℕ) (k d : Bytes) (c : Cursor) (tx tx' : Tx)
      → value_pass bolt cursors codec vals idxs id_of indexes fuel
          (some ((k, some (bson_prefix ++ d)), c))
          tx
        ≢ some (ok tx')
  unfolding value_pass unmarshal_raw
  value_pass-fails refuses zero k d c tx tx' h = cc
  value_pass-fails refuses (suc fuel) k d c tx tx' h =
      cc (rw (value_pass, unmarshal_raw, refuses d) at h)

  two_passes-fails :
      vals ≢ idxs
      → ((d : Bytes) → codec.unmarshal (bson_prefix ++ d) ≡ none)
      → (fuel : ℕ) (k d : Bytes) (c : Cursor) (tx tx' : Tx)
      → first (vals ∷ []) tx ≡ some ((k, some (bson_prefix ++ d)), c)
      → two_passes bolt cursors codec vals idxs id_of indexes fuel tx ≢ some (ok tx')
  unfolding two_passes
  two_passes-fails apart refuses fuel k d c tx tx' begins h =
      elim (Outcome-cases
        (index_pass bolt cursors codec vals idxs id_of indexes fuel (first (idxs ∷ []) tx) tx)) [
          | inl e ↦ cc (rw (two_passes, e) at h)
          | inr (inl (x, e)) ↦ cc (rw (two_passes, e) at h)
          | inr (inr (tx1, e)) ↦
              let kept =
                index_pass-first apart fuel _ tx tx1 (starts (first (idxs ∷ []) tx) refl) e in
              value_pass-fails refuses fuel k d c tx1 tx' (
                ap (λ at. value_pass bolt cursors codec vals idxs id_of indexes fuel at tx1)
                  (sym (kept ∙ begins))
                ∙ rw (two_passes, e) at h)
        ]
    where
      starts : (o : Option ((Bytes × Option Bytes) × Cursor)) → first (idxs ∷ []) tx ≡ o → IsAmong o
      starts none e = tt
      starts (some (en, c')) e = cursors.bucket-first (idxs ∷ []) tx en c' e

  -- If the BSON library refuses data with the prefix of db/, the two buckets have different names and
  -- the first value is as Put stores one, then Fsck of an indexed collection does not succeed,
  -- unless ValidateValues gives it values to delete.
  pub fsck-fails :
      (validate : List V → Result (List V))
      → ((vs : List V) → ((e : Error) × (validate vs ≡ err e)) ⊎ (validate vs ≡ ok []))
      → vals ≢ idxs
      → ((d : Bytes) → codec.unmarshal (bson_prefix ++ d) ≡ none)
      → (fuel : ℕ) (k d : Bytes) (c : Cursor) (tx tx' : Tx)
      → first (vals ∷ []) tx ≡ some ((k, some (bson_prefix ++ d)), c)
      → fsck bolt cursors codec vals idxs id_of indexes validate fuel tx ≢ some (ok tx')
  unfolding fsck
  fsck-fails validate keeps apart refuses fuel k d c tx tx' begins h =
      elim (Outcome-cases (IndexedScan.all bolt codec vals idxs fuel [] tx)) [
        | inl e ↦ cc (rw (fsck, e) at h)
        | inr (inl (x, e)) ↦ cc (rw (fsck, e) at h)
        | inr (inr ([], e)) ↦ fails (rw (fsck, e) at h)
        | inr (inr (v ∷ vs, e)) ↦ elim (keeps (v ∷ vs)) [
          | inl (x, q) ↦ cc (rw (fsck, e, q) at h)
          | inr q ↦ fails (rw (fsck, e, q) at h)
        ]
      ]
    where
      fails : two_passes bolt cursors codec vals idxs id_of indexes fuel tx ≢ some (ok tx')
      fails = two_passes-fails apart refuses fuel k d c tx tx' begins
