-- ===== src/Drivers/OneValue.antt =====
-- An encoding of one value alone, for runs of the drivers in memory.
use sp0rkle.Prelude.{
  ◌≡◌, ◌≢◌, sym, ap, ◌∙◌, inl, inr, ℕ, zero, suc, Bool, true, Option, none, some, [], ◌∷◌, Bytes,
  codes, Bool-cases, if◌then◌else◌, arith,
}
use sp0rkle.Db.Bolt.{Codec}
use sp0rkle.Db.Bolt.Memory.{Memory, empty_memory}

module _ {V : Type 0} (v : V) (is_it : V → Bool) where
  abbrev pub marshal : V → Option Bytes
  marshal w = if is_it w then some (1 ∷ []) else none

  abbrev pub unmarshal : Bytes → Option V
  unmarshal (suc zero ∷ []) = some v
  unmarshal _ = none

  pub unmarshal-marshal :
      ((w : V) → is_it w ≡ true → w ≡ v)
      → (w : V) (d : Bytes) → marshal w ≡ some d
      → unmarshal d ≡ some w
  unmarshal-marshal same w d e = elim (Bool-cases (is_it w)) [
    | inr n ↦ absurd (ground (arith, n))
    | inl y ↦
        let this : 1 ∷ [] ≡ d = ground (arith, y) in
        ap unmarshal (sym this) ∙ ap some (sym (same w y))
  ]

  abbrev pub one_codec : ((w : V) → is_it w ≡ true → w ≡ v) → Codec V
  one_codec same = record {
    marshal = marshal;
    unmarshal = unmarshal;
    unmarshal_marshal = unmarshal-marshal same;
  }

abbrev pub vals : Bytes
vals = codes "v"

abbrev pub idxs : Bytes
idxs = codes "i"

abbrev first_byte : Bytes → ℕ
first_byte [] = 0
first_byte (b ∷ s) = b

pub vals-ne-idxs : vals ≢ idxs
vals-ne-idxs e = let apart : ◌≡◌ {A = ℕ} 118 105 = ap first_byte e in absurd (omega arith)

abbrev pub two_buckets : Memory
two_buckets = record empty_memory { buckets = (vals ∷ []) ∷ (idxs ∷ []) ∷ [] }

abbrev pub any_id : Bytes → Bool
any_id i = true
