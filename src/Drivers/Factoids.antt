-- ===== src/Drivers/Factoids.antt =====
-- drivers/factdriver/handlers.go: `recurse`, which puts factoids in the place of the pointers to
-- them. What keeps the factoids is a parameter: a state, and `GetPseudoRand` on it.
pub mod Ends
use sp0rkle.Prelude.{
  ℕ, zero, suc, Bool, true, false, ◌||◌, Option, none, some, List, [], ◌∷◌, ◌++◌, Bytes, codes,
  bytes_eq, length, take, drop, ltb, ◌==◌, if◌then◌else◌,
}
use sp0rkle.Util.Colours.{Outcome, ok, panic, out_of_fuel}
use sp0rkle.Util.Pointer.{fact_pointer}
use sp0rkle.Collections.PseudoRand.{mem}
use sp0rkle.Collections.Factoid.{Factoid, FactoidType}

-- A factoid with another in the place of a pointer.
unfoldable pub inline : ℕ → ℕ → Factoid → Factoid → Factoid
inline start end f2 f = record f {
  value = take start f.value ++ (f2.value ++ drop end f.value);
  kind = if start == 0 then f2.kind else f.kind;
}

abbrev pub circular : ℕ → ℕ → Factoid → Factoid
circular start end f = record f {
  value = take start f.value ++ (codes "[circular reference]" ++ drop end f.value);
}

module _ {W : Type 0} (get_pseudo_rand : Bytes → W → Option Factoid × W) (to_lower : Bytes → Bytes)
    (is_alnum : ℕ → Bool) where
  -- The factoid, the keys that have been met, and the state of the collection. Each round meets
  -- a new key or is the last, and there are at most 20 before the last, so that 22 rounds are enough.
  unfoldable pub recurse : ℕ → Factoid → List Bytes → W → Outcome (Factoid × W)
  recurse zero f keys w = out_of_fuel
  recurse (suc fuel) f keys w = elim (fact_pointer to_lower is_alnum f.value) [
    | panic ↦ panic
    | out_of_fuel ↦ out_of_fuel
    | ok none ↦ ok (f, w)
    | ok (some (key, start, end)) ↦
        let (found, w') = get_pseudo_rand key w in
        let with : Outcome (Factoid × W) = elim found [
          | some f2 ↦ recurse fuel (inline start end f2 f) (key ∷ keys) w'
          | none ↦ elim (recurse fuel (record f { value = drop end f.value }) (key ∷ keys) w') [
            | ok (f', w'') ↦ ok (record f' { value = take end f.value ++ f'.value }, w'')
            | panic ↦ panic
            | out_of_fuel ↦ out_of_fuel
          ]
        ] in
        if bytes_eq key []
        then ok (f, w)
        else if mem key keys || ltb 20 (length keys)
        then ok (circular start end f, w)
        else with
  ]
