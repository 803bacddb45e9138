-- ===== src/Datetime/Words.antt =====
-- util/datetime/tokenmaps.go: the look-ups in the tables of words, and the time zones.
-- `time.LoadLocation` is a parameter; the mutex of the cache is left out, as it makes each call of
-- `zone` one step.
pub mod InRange
pub mod Zones
use sp0rkle.Prelude.{
  ℕ, ◌-◌, not, ◌&&◌, Option, none, some, List, [], ◌∷◌, Bytes, lookup, bytes_eq, length, take, ltb,
  ◌==◌, if◌then◌else◌, ℤ,
}
use sp0rkle.Util.Lexer.{byte_at}
use sp0rkle.Datetime.Tables.{t_relative, t_zone, word_table, num_table, abbr_table, rel_table}
use sp0rkle.Datetime.ZoneTable.{zone_table}

-- `textint`
pub record TextInt : Type 0 where
  pub i : ℤ
  pub l : ℤ
  pub s : Bytes

-- `none` stands for the index out of range.
unfoldable pub singular : Bytes → Option Bytes
singular [] = none
singular input =
    let last = length input - 1 in
    if not (length input == 1) && byte_at input last == b'S'
    then some (take last input)
    else some input

module _ (Location : Type 0) where
  -- `zoneCache`
  abbrev pub Cache : Type 0
  Cache = List (Bytes × Location)

  -- What a token leaves beside its number: `yySymType` and the cache.
  pub record Left : Type 0 where
    pub tval : TextInt
    pub intval : ℤ
    pub zoneval : Option Location
    pub cache : Cache

  -- A token, none, or an index out of range.
  pub data Found : Type 0 where
    hit : ℕ → Left → Found
    miss : Found
    out_of_range : Found

  unfoldable pub word_lookup : Bytes → Left → Found
  word_lookup input v = elim (lookup input word_table) [ some t ↦ hit t v | none ↦ miss ]

  -- An entry of a table with a value.
  abbrev pub with_value : Option (ℕ × ℤ) → Left → Found
  with_value none v = miss
  with_value (some (t, n)) v = hit t (record v { intval = n })

  unfoldable pub num_lookup : Bytes → Left → Found
  num_lookup input v = elim (singular input) [
    | none ↦ out_of_range
    | some word ↦ with_value (lookup word num_table) v
  ]

  unfoldable pub abbr_lookup : Bytes → Left → Found
  abbr_lookup input v =
      let word = if ltb 3 (length input) then take 3 input else input in
      with_value (lookup word abbr_table) v

  unfoldable pub rel_lookup : Bytes → Left → Found
  rel_lookup input v = elim (lookup input rel_table) [
    | some n ↦ hit t_relative (record v { intval = n })
    | none ↦ miss
  ]

  -- The first table that has the word.
  unfoldable pub first_of : List (Bytes → Left → Found) → Bytes → Left → Found
  first_of [] input v = miss
  first_of (m ∷ ms) input v =
      let rest = first_of ms input v in
      elim (m input v) [ hit t v' ↦ hit t v' | miss ↦ rest | out_of_range ↦ out_of_range ]

  module _ (load : Bytes → Option Location) where
    -- `zone`; `none` is the nil location.
    unfoldable pub zone : Cache → Bytes → Option Location × Cache
    zone cache loc = if bytes_eq loc [] then (none, cache) else elim (lookup loc cache) [
      | some l ↦ (some l, cache)
      | none ↦ elim (load loc) [ none ↦ (none, cache) | some l ↦ (some l, (loc, l) ∷ cache) ]
    ]

    -- `Zone`
    unfoldable pub zone_of : Cache → Bytes → Option Location × Cache
    zone_of cache loc = elim (lookup loc zone_table) [
      | some place ↦ zone cache place
      | none ↦ zone cache loc
    ]

    -- `ZoneOrLocal`
    unfoldable pub zone_or_local : Location → Cache → Bytes → Location × Cache
    zone_or_local here cache loc =
        let (z, cache') = zone_of cache loc in (elim z [ some l ↦ l | none ↦ here ], cache')

    unfoldable pub zone_lookup : Bytes → Left → Found
    zone_lookup input v = elim (lookup input zone_table) [
      | none ↦ miss
      | some place ↦
          let (z, cache) = zone v.cache place in
          hit t_zone (record v { zoneval = z; cache = cache })
    ]

    -- `tokenMaps.Lookup`
    unfoldable pub token_lookup : Bytes → Left → Found
    token_lookup = first_of (word_lookup ∷ num_lookup ∷ abbr_lookup ∷ rel_lookup ∷ zone_lookup ∷ [])
