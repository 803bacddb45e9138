-- ===== src/Datetime/Words/InRange.antt =====
-- The look-ups of util/datetime/tokenmaps.go index no word out of range but the empty one.
use sp0rkle.Prelude.{
  ℕ, ◌<◌, ◌≡◌, inl, inr, Option, none, some, [], ◌∷◌, List, All, Bytes, length, take, lookup, ltb,
  if◌then◌else◌, ℤ, Option-cases, arith,
}
use sp0rkle.Datetime.Tables.{word_table, num_table, abbr_table, rel_table}
use sp0rkle.Datetime.ZoneTable.{zone_table}
use sp0rkle.Datetime.Words.{
  Left, Found, hit, miss, out_of_range, singular, word_lookup, num_lookup, abbr_lookup, rel_lookup,
  zone_lookup, first_of, token_lookup, with_value,
}

-- A look-up that stays in range.
abbrev pub InRange : {L : Type 0} → Found L → Type 0
InRange (hit _ _) = Unit
InRange miss = Unit
InRange out_of_range = ⊥

singular-some : (s : Bytes) → 0 < length s → (t : Bytes) × (singular s ≡ some t)
unfolding singular
singular-some [] h = absurd (omega arith)
singular-some (b ∷ s) h = elim (Option-cases (singular (b ∷ s))) [
  | inl e ↦ absurd (ground (arith, e))
  | inr found ↦ found
]

module _ (L : Type 0) where
  with_value-InRange : (o : Option (ℕ × ℤ)) (v : Left L) → InRange (with_value L o v)
  with_value-InRange none v = tt
  with_value-InRange (some (t, n)) v = tt

  num_lookup-InRange : (s : Bytes) (v : Left L) → 0 < length s → InRange (num_lookup L s v)
  unfolding num_lookup
  num_lookup-InRange s v h =
      let (t, e) = singular-some s h in rw (e, InRange) (with_value-InRange (lookup t num_table) v)

  word_lookup-InRange : (s : Bytes) (v : Left L) → InRange (word_lookup L s v)
  unfolding word_lookup
  word_lookup-InRange s v = elim (Option-cases (lookup s word_table)) [
    | inl e ↦ rw (e, InRange) tt
    | inr (t, e) ↦ rw (e, InRange) tt
  ]

  abbr_lookup-InRange : (s : Bytes) (v : Left L) → InRange (abbr_lookup L s v)
  unfolding abbr_lookup
  abbr_lookup-InRange s v =
      let word = if ltb 3 (length s) then take 3 s else s in
      with_value-InRange (lookup word abbr_table) v

  rel_lookup-InRange : (s : Bytes) (v : Left L) → InRange (rel_lookup L s v)
  unfolding rel_lookup
  rel_lookup-InRange s v = elim (Option-cases (lookup s rel_table)) [
    | inl e ↦ rw (e, InRange) tt
    | inr (t, e) ↦ rw (e, InRange) tt
  ]

  zone_lookup-InRange :
      (load : Bytes → Option L) (s : Bytes) (v : Left L) → InRange (zone_lookup L load s v)
  unfolding zone_lookup
  zone_lookup-InRange load s v = elim (Option-cases (lookup s zone_table)) [
    | inl e ↦ rw (e, InRange) tt
    | inr (t, e) ↦ rw (e, InRange) tt
  ]

  -- One table after the other.
  first_of-InRange :
      (ms : List (Bytes → Left L → Found L)) (s : Bytes) (v : Left L)
      → All (λ m. InRange (m s v)) ms
      → InRange (first_of L ms s v)
  unfolding first_of
  first_of-InRange [] s v h = tt
  first_of-InRange (m ∷ ms) s v h =
      let rest = first_of-InRange ms s v h.1 in
      (elim (m s v)
          as (λ f.
            InRange f
            → InRange (elim f [
              | hit t v' ↦ hit t v'
              | miss ↦ first_of L ms s v
              | out_of_range ↦ out_of_range
            ])) [ hit t v' ↦ λ _. tt | miss ↦ λ _. rest | out_of_range ↦ λ e. e ])
        h.0

  pub token_lookup-InRange :
      (load : Bytes → Option L) (s : Bytes) (v : Left L)
      → 0 < length s
      → InRange (token_lookup L load s v)
  unfolding token_lookup
  token_lookup-InRange load s v h = first_of-InRange _ s v (
    word_lookup-InRange s v,
    (
      num_lookup-InRange s v h,
      (abbr_lookup-InRange s v, (rel_lookup-InRange s v, (zone_lookup-InRange load s v, tt))),
    ),
  )
