-- ===== src/Datetime/Words/Zones.antt =====
-- The abbreviations of time zones in util/datetime/tokenmaps.go, and the cache of the zones.
use sp0rkle.Prelude.{
  Bool, true, false, ◌&&◌, ◌||◌, Option, none, some, List, [], ◌∷◌, Bytes, codes, lookup, bytes_eq,
  bytes_eq_iff, length, take, ltb, if◌then◌else◌, All, ◌≡◌, refl, ◌∙◌, sym, inl, inr, ap, subst,
  arith, Bool-cases, Option-cases,
}
use sp0rkle.Datetime.Tables.{t_zone, word_table, num_table, abbr_table, rel_table}
use sp0rkle.Datetime.ZoneTable.{zone_table}
use sp0rkle.Datetime.Words.{
  Left, Found, hit, miss, out_of_range, Cache, singular, word_lookup, num_lookup, abbr_lookup,
  rel_lookup, zone_lookup, first_of, token_lookup, zone, zone_of, zone_or_local,
}

-- A test of all the keys of a table.
abbrev all_keys {ℓ} : {V : Type ℓ} → (Bytes → Bool) → List (Bytes × V) → Bool
all_keys p [] = true
all_keys p ((k, v) ∷ m) = p k && all_keys p m

all_keys-lookup {ℓ} :
    {V : Type ℓ} (p : Bytes → Bool) (m : List (Bytes × V)) (k : Bytes) (v : V)
    → all_keys p m ≡ true
    → lookup k m ≡ some v
    → p k ≡ true
unfolding lookup
all_keys-lookup p [] k v h e = absurd (ground (arith, e))
all_keys-lookup p ((j, w) ∷ m) k v h e = elim (Bool-cases (bytes_eq j k)) [
  | inl same ↦ subst (λ s. p s ≡ true) ((bytes_eq_iff j k).0 same) (ground (arith, h))
  | inr other ↦ all_keys-lookup p m k v (ground (arith, h)) (ground (arith, e, other))
]

abbrev absent {ℓ} : {V : Type ℓ} → Option V → Bool
absent none = true
absent (some _) = false

-- No table before that of the zones has the word.
abbrev only_zone : Bytes → Bool
only_zone s =
    absent (lookup s word_table)
    && (elim (singular s) [ none ↦ false | some w ↦ absent (lookup w num_table) ]
        && (absent (lookup (if ltb 3 (length s) then take 3 s else s) abbr_table)
            && absent (lookup s rel_table)))

zones_only : all_keys (λ s. bytes_eq s (codes "MART") || only_zone s) zone_table ≡ true
unfolding lookup bytes_eq singular
zones_only = refl

absent-none {ℓ} : {V : Type ℓ} (o : Option V) → absent o ≡ true → o ≡ none
absent-none none h = refl
absent-none (some v) h = absurd (ground (arith, h))

module _ (L : Type 0) (load : Bytes → Option L) where
  num_lookup-miss :
      (s : Bytes) (v : Left L)
      → (elim (singular s) [ none ↦ false | some w ↦ absent (lookup w num_table) ]) ≡ true
      → num_lookup L s v ≡ miss
  unfolding num_lookup
  num_lookup-miss s v h = elim (Option-cases (singular s)) [
    | inl e ↦ absurd (ground (arith, e, h))
    | inr (w, e) ↦
        let gone : absent (lookup w num_table) ≡ true = rw e at h in
        rw (e, absent-none _ gone, num_lookup) refl
  ]

  zone_alone :
      (f : Found L) → (elim f [ hit t v ↦ hit t v | miss ↦ miss | out_of_range ↦ out_of_range ]) ≡ f
  zone_alone (hit t v) = refl
  zone_alone miss = refl
  zone_alone out_of_range = refl

  only_zone-lookup :
      (s : Bytes) (v : Left L)
      → only_zone s ≡ true
      → token_lookup L load s v ≡ zone_lookup L load s v
  unfolding token_lookup first_of word_lookup abbr_lookup rel_lookup
  only_zone-lookup s v h =
      let word = if ltb 3 (length s) then take 3 s else s in
      let a : absent (lookup s word_table) ≡ true = ground (arith, h) in
      let b : absent (lookup word abbr_table) ≡ true = ground (arith, h) in
      let c : absent (lookup s rel_table) ≡ true = ground (arith, h) in
      let no_word : word_lookup L s v ≡ miss = rw (absent-none _ a, word_lookup) refl in
      let no_abbr : abbr_lookup L s v ≡ miss = rw (absent-none _ b, abbr_lookup) refl in
      let no_rel : rel_lookup L s v ≡ miss = rw (absent-none _ c, rel_lookup) refl in
      let no_num = num_lookup-miss s v (ground (arith, h)) in
      rw (no_word, no_num, no_abbr, no_rel, token_lookup, first_of)
        (zone_alone (zone_lookup L load s v))

  -- The look-up of an abbreviation of the table of zones other than MART is a zone, the one that
  -- zone gives for the place in the table.
  pub token_lookup-zone :
      (name place : Bytes) (v : Left L)
      → lookup name zone_table ≡ some place
      → bytes_eq name (codes "MART") ≡ false
      → token_lookup L load name v
        ≡ hit t_zone (record v {
          zoneval = (zone L load v.cache place).0;
          cache = (zone L load v.cache place).1;
        })
  unfolding zone_lookup
  token_lookup-zone name place v e other =
      let keys =
        all_keys-lookup (λ s. bytes_eq s (codes "MART") || only_zone s) zone_table name place
          zones_only e in
      only_zone-lookup name v (ground (arith, keys, other)) ∙ rw (e, zone_lookup) refl

  -- What the cache holds are zones that `time.LoadLocation` has given.
  abbrev pub IsLoaded : Cache L → Type 0
  IsLoaded cache = All (λ (e : Bytes × L). load e.0 ≡ some e.1) cache

  -- `zone` without the cache.
  abbrev pub loaded : Bytes → Option L
  loaded loc = if bytes_eq loc [] then none else load loc

  cached_lem :
      (cache : Cache L) (loc : Bytes) (l : L)
      → IsLoaded cache
      → lookup loc cache ≡ some l
      → load loc ≡ some l
  unfolding lookup
  cached_lem [] loc l h e = absurd (ground (arith, e))
  cached_lem ((k, m) ∷ cache) loc l h e = elim (Bool-cases (bytes_eq k loc)) [
    | inl same ↦
        let here : load k ≡ some l = h.0 ∙ ground (arith, e, same) in
        subst (λ s. load s ≡ some l) ((bytes_eq_iff k loc).0 same) here
    | inr other ↦ cached_lem cache loc l h.1 (ground (arith, e, other))
  ]

  pub zone-IsLoaded :
      (cache : Cache L) (loc : Bytes)
      → IsLoaded cache
      → ((zone L load cache loc).0 ≡ loaded loc) × IsLoaded (zone L load cache loc).1
  unfolding zone
  zone-IsLoaded cache loc h = elim (Bool-cases (bytes_eq loc [])) [
    | inl e ↦ rw e (refl, h)
    | inr e ↦ elim (Option-cases (lookup loc cache)) [
      | inr (l, f) ↦ rw (e, f) (sym (cached_lem cache loc l h f), h)
      | inl f ↦ elim (Option-cases (load loc)) [
        | inl g ↦ rw (e, f, g) (refl, h)
        | inr (l, g) ↦ rw (e, f, g) (refl, (g, h))
      ]
    ]
  ]

  -- The place that `Zone` looks for.
  abbrev pub place_of : Bytes → Bytes
  place_of loc = elim (lookup loc zone_table) [ some place ↦ place | none ↦ loc ]

  zone_of_eq :
      (cache : Cache L) (loc : Bytes) → zone_of L load cache loc ≡ zone L load cache (place_of loc)
  unfolding zone_of
  zone_of_eq cache loc = elim (Option-cases (lookup loc zone_table)) [
    | inl e ↦ rw (e, zone_of, place_of) refl
    | inr (place, e) ↦ rw (e, zone_of, place_of) refl
  ]

  -- If all zones of the cache are what time.LoadLocation gives for their names, ZoneOrLocal gives
  -- what this gives for the place of an abbreviation or else for the name itself, and the local
  -- zone for none or an empty name, and leaves such a cache.
  pub zone_or_local-IsLoaded :
      (here : L) (cache : Cache L) (loc : Bytes)
      → IsLoaded cache
      → ((zone_or_local L load here cache loc).0
          ≡ (elim (loaded (place_of loc)) [ some l ↦ l | none ↦ here ]))
        × IsLoaded (zone_or_local L load here cache loc).1
  unfolding zone_or_local
  zone_or_local-IsLoaded here cache loc h =
      let (same, kept) = zone-IsLoaded cache (place_of loc) h in
      let e = zone_of_eq cache loc in
      let same' : (zone_of L load cache loc).0 ≡ loaded (place_of loc) =
        ap (λ (r : Option L × Cache L). r.0) e ∙ same in
      (
        ap (λ (z : Option L). elim z [ some l ↦ l | none ↦ here ]) same',
        subst (λ (r : Option L × Cache L). IsLoaded r.1) (sym e) kept,
      )
