-- ===== src/Collections/PseudoRand.antt =====
-- collections/factoids/factoids.go and collections/quotes/quotes.go: `GetPseudoRand`, which both
-- have, on the factoids with a key or the quotes that match an expression.
-- `r` is what `rand.Intn` returns; an item stands by its id. An entry of the map of seen items is
-- there or not, and holds a set of ids.
use sp0rkle.Prelude.{
  ℕ, Bool, true, false, Option, none, some, List, [], ◌∷◌, Bytes, bytes_eq, length, get_elem?, ltb,
  ◌==◌, if◌then◌else◌,
}

unfoldable pub mem : Bytes → List Bytes → Bool
mem i [] = false
mem i (j ∷ js) = if bytes_eq j i then true else mem i js

-- `!ids[fact.Id()]`
unfoldable pub unseen : List Bytes → List Bytes → List Bytes
unseen ids [] = []
unseen ids (x ∷ xs) = let rest = unseen ids xs in if mem x ids then rest else x ∷ rest

-- What is left to choose from.
unfoldable pub filtered : Option (List Bytes) → List Bytes → List Bytes
filtered none items = items
filtered (some ids) items = if ltb 0 (length ids) then unseen ids items else items

unfoldable pub or_empty : Option (List Bytes) → List Bytes
or_empty none = []
or_empty (some ids) = ids

-- The item that is returned, and the entry of the map afterwards; an index that `rand.Intn` cannot
-- return gives nothing.
unfoldable pub get_pseudo_rand :
    (ℕ → ℕ) → Option (List Bytes) → List Bytes → Option Bytes × Option (List Bytes)
get_pseudo_rand intn seen items =
    let left = filtered seen items in
    if length left == 0
    then (none, none)
    else if length left == 1
    then (get_elem? left 0, none)
    else elim (get_elem? left (intn (length left))) [
      | none ↦ (none, seen)
      | some x ↦ (some x, some (x ∷ or_empty seen))
    ]
