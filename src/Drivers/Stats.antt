-- ===== src/Drivers/Stats.antt =====
-- drivers/statsdriver: recordStats of handlers.go and statsCmd and topten of commands.go.
-- A line's target is where a reply to it goes: its sender, if it is private. `args0` is whom it was
-- sent to.
pub mod Counting
use sp0rkle.Prelude.{
  ℕ, ◌+◌, ◌%◌, Bool, true, false, Option, none, some, List, [], ◌∷◌, ◌++◌, Bytes, length, ltb, ◌==◌,
  if◌then◌else◌, ℤ, pos, pos_part, neg_part,
}
use sp0rkle.Db.Bolt.{Error, Result, ok, err, Bolt, Codec}
use sp0rkle.Collections.Stats.{NickStat, new_stat, update, stats_for, top_ten, put}

-- What recordStats says, in this order: that the lines are a multiple of 10000, and that they could not be stored.
pub data Said : Type 0 where
  many_lines : ℤ → Said
  not_stored : Error → Said

-- Whether a reply tells of an error.
abbrev pub has_error : List Said → Bool
has_error [] = false
has_error (many_lines n ∷ said) = has_error said
has_error (not_stored e ∷ said) = true

-- `n % 10000 == 0`, for an int of either sign.
abbrev pub is_round : ℤ → Bool
is_round n = (pos_part n + neg_part n) % 10000 == 0

module _ {Tx : Type 0} (bolt : Bolt Tx) (codec : Codec NickStat) (vals idxs : Bytes)
    (to_lower : Bytes → Bytes) (id_is_valid : Bytes → Bool) where
  -- The value that is stored: that which is found, or a new one with the given id, with the line
  -- that was said at the given hour of the given day.
  unfoldable pub counted : Bytes → ℕ → ℕ → Bytes → Bytes → Bytes → Bytes → Tx → NickStat
  unfolding update new_stat
  counted id weekday hour nick target args0 text tx =
      update weekday hour text (elim (stats_for bolt codec vals idxs to_lower nick target tx) [
        | none ↦ new_stat to_lower id nick args0
        | some ns ↦ ns
      ])

  unfoldable pub record_stats : Bytes → ℕ → ℕ → Bytes → Bytes → Bytes → Bytes → Tx → Tx × List Said
  unfolding counted
  record_stats id weekday hour nick target args0 text tx =
      let ns = counted id weekday hour nick target args0 text tx in
      let said = if is_round ns.lines then many_lines ns.lines ∷ [] else [] in
      elim (put bolt codec vals idxs to_lower id_is_valid ns tx) [
        | ok tx' ↦ (tx', said)
        | err e ↦ (tx, said ++ not_stored e ∷ [])
      ]

  -- `statsCmd`: whose statistics are asked for, and what is known of them.
  unfoldable pub stats_cmd : Bytes → Bytes → Bytes → Tx → Bytes × Option NickStat
  stats_cmd nick target text tx =
      let n = if ltb 0 (length text) then text else nick in
      (n, stats_for bolt codec vals idxs to_lower n target tx)

-- The lines of the reply of `topten`, with their numbers.
unfoldable pub numbered : ℕ → List NickStat → List (ℕ × (Bytes × ℤ))
numbered i [] = []
numbered i (ns ∷ top) = (i + 1, (ns.nick, ns.lines)) ∷ numbered (i + 1) top

module _ {Tx : Type 0} (bolt : Bolt Tx) (codec : Codec NickStat) (vals idxs : Bytes)
    (to_lower : Bytes → Bytes) where
  unfoldable pub topten :
      ℕ → (List NickStat → List NickStat) → Bytes → Tx → Option (List (ℕ × (Bytes × ℤ)))
  unfolding numbered
  topten fuel sort target tx = elim (top_ten bolt codec vals idxs to_lower fuel sort target tx) [
    | none ↦ none
    | some top ↦ some (numbered 0 top)
  ]
