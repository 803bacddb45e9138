-- ===== src/Drivers/Factoids/Ends.antt =====
-- `recurse` of drivers/factdriver/handlers.go ends, and only an unclosed brace makes it fail.
use sp0rkle.Prelude.{
  ℕ, zero, suc, ◌+◌, ◌≤◌, ◌≡◌, subst, refl, ◌⊎◌, inl, inr, Bool, ◌||◌, Option, none, some, List, [],
  ◌∷◌, Bytes, bytes_eq, length, drop, arith, ltb, if_both, Option-cases,
}
use sp0rkle.Util.Colours.{Outcome, ok, panic, out_of_fuel}
use sp0rkle.Util.Pointer.{fact_pointer}
use sp0rkle.Util.Pointer.Bounds.{IsWithin, fact_pointer-IsWithin}
use sp0rkle.Collections.PseudoRand.{mem}
use sp0rkle.Collections.Factoid.{Factoid}
use sp0rkle.Drivers.Factoids.{inline, recurse}

-- An outcome within the fuel.
abbrev pub Ends : {A : Type 0} → Outcome A → Type 0
Ends (ok _) = Unit
Ends panic = Unit
Ends out_of_fuel = ⊥

Outcome-cases :
    {A : Type 0} (o : Outcome A) → (o ≡ panic) ⊎ (o ≡ out_of_fuel) ⊎ ((a : A) × (o ≡ ok a))
Outcome-cases panic = inl refl
Outcome-cases out_of_fuel = inr (inl refl)
Outcome-cases (ok a) = inr (inr (a, refl))

-- What is done to a result changes nothing in this.
Ends-map :
    {A : Type 0} (g : A → A) (o : Outcome A)
    → Ends o
    → Ends
        (elim o as (λ _. Outcome A) [ ok a ↦ ok (g a) | panic ↦ panic | out_of_fuel ↦ out_of_fuel ])
Ends-map g (ok a) h = tt
Ends-map g panic h = tt
Ends-map g out_of_fuel h = h

module _ {W : Type 0} (get_pseudo_rand : Bytes → W → Option Factoid × W) (to_lower : Bytes → Bytes)
    (is_alnum : ℕ → Bool) where
  recurse-Ends_from :
      (fuel : ℕ) (f : Factoid) (keys : List Bytes) (w : W)
      → length keys ≤ 21
      → 22 ≤ fuel + length keys
      → Ends (recurse get_pseudo_rand to_lower is_alnum fuel f keys w)
  unfolding recurse
  recurse-Ends_from zero f keys w few enough = absurd (omega arith)
  recurse-Ends_from (suc fuel) f keys w few enough =
      elim (Outcome-cases (fact_pointer to_lower is_alnum f.value)) [
        | inl e ↦ rw (e, Ends) tt
        | inr (inl e) ↦
            absurd (subst (IsWithin f.value) e (fact_pointer-IsWithin to_lower is_alnum f.value))
        | inr (inr (none, e)) ↦ rw (e, Ends) tt
        | inr (inr (some (key, start, end), e)) ↦
            rw (e, Ends)
              (if_both Ends (bytes_eq key []) _ _ (λ _. tt)
                (λ _.
                  if_both Ends (mem key keys || ltb 20 (length keys)) _ _ (λ _. tt)
                    (λ new.
                      let room : length keys ≤ 20 = ground (arith, new) in
                      elim (Option-cases (get_pseudo_rand key w).0) [
                        | inl none_found ↦
                            rw (none_found, Ends)
                              (Ends-map _ _ (
                                recurse-Ends_from fuel (record f { value = drop end f.value })
                                  (key ∷ keys) (get_pseudo_rand key w).1 (omega arith)
                                  (omega arith)))
                        | inr (f2, found) ↦
                            rw (found, Ends)
                              (recurse-Ends_from fuel (inline start end f2 f) (key ∷ keys)
                                (get_pseudo_rand key w).1 (omega arith) (omega arith))
                      ])))
      ]

  -- `recurse`, called with the key of its factoid alone, ends within 21 rounds, whatever
  -- GetPseudoRand returns.
  pub recurse-Ends :
      (f : Factoid) (key : Bytes) (w : W)
      → Ends (recurse get_pseudo_rand to_lower is_alnum 21 f (key ∷ []) w)
  recurse-Ends f key w = recurse-Ends_from 21 f (key ∷ []) w (omega arith) (omega arith)
