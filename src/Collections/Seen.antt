-- ===== src/Collections/Seen.antt =====
-- collections/seen/seen.go: `refCheck`, which finds the records that are to be deleted.
-- The map of maps is one association list by nick and action.
use sp0rkle.Prelude.{
  ℕ, Bool, ◌&&◌, Option, none, some, List, [], ◌∷◌, ◌++◌, Bytes, bytes_eq, ltb, if◌then◌else◌,
}

pub record Nick : Type 0 where
  pub nick : Bytes
  pub chan : Bytes
  pub other_nick : Bytes
  -- The time in nanoseconds.
  pub timestamp : ℕ
  pub key : Bytes
  pub action : Bytes
  pub text : Bytes
  pub id : Bytes

pub record RefCheck : Type 0 where
  pub del : List Nick
  pub seen : List Nick

abbrev pub same_ref : Nick → Nick → Bool
same_ref m n = bytes_eq m.nick n.nick && bytes_eq m.action n.action

-- The entry of the map for the nick and the action of `n`.
unfoldable pub seen_as : Nick → List Nick → Option Nick
seen_as n [] = none
seen_as n (m ∷ ms) = if same_ref m n then some m else seen_as n ms

-- `am[n.Action] = n`
unfoldable pub see : Nick → List Nick → List Nick
see n [] = n ∷ []
see n (m ∷ ms) = let rest = see n ms in if same_ref m n then n ∷ ms else m ∷ rest

unfoldable pub add : Nick → RefCheck → RefCheck
add n rc = elim (seen_as n rc.seen) [
  | none ↦ record rc { seen = see n rc.seen }
  | some prev ↦
      if ltb prev.timestamp n.timestamp
      then record { del = rc.del ++ prev ∷ []; seen = see n rc.seen }
      else record rc { del = rc.del ++ n ∷ [] }
]

unfoldable pub add_all : List Nick → RefCheck → RefCheck
add_all [] rc = rc
add_all (n ∷ ns) rc = add_all ns (add n rc)

unfoldable pub validate_values : List Nick → List Nick
validate_values all = (add_all all (record { del = []; seen = [] })).del
