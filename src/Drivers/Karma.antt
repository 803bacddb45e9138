-- ===== src/Drivers/Karma.antt =====
-- drivers/karmadriver: the karma that a line gives (karmaThings of karmadriver.go) and its counting
-- (recordKarma of handlers.go).
-- `is_alphanumeric` is `unicode.In(r, unicode.L, unicode.N)`.
pub mod Things
pub mod Bounds
pub mod Counting
use sp0rkle.Prelude.{
  ℕ, zero, suc, Bool, true, false, not, ◌&&◌, ◌||◌, Option, none, some, List, [], ◌∷◌, ◌++◌, Bytes,
  codes, length, bytes_eq, ◌==◌, if◌then◌else◌,
}
use sp0rkle.Util.Utf8.{encode_rune, rune_error}
use sp0rkle.Util.Text.{runes, is_space}
use sp0rkle.Util.Lexer.{Lexer, lexer, peek, at_eof, next, scan, find}
use sp0rkle.Db.Bolt.{Result, ok, err, Error, BucketPath, Bolt, Codec}
use sp0rkle.Collections.Karma.{Karma, new_karma, plus, minus, karma_for, put}

-- `kt`
pub record Thing : Type 0 where
  pub thing : Bytes
  pub plus : Bool

-- The runes of a text in the opposite order, in front of some bytes.
reverse_onto : List (ℕ × Bytes) → Bytes → Bytes
reverse_onto [] out = out
reverse_onto ((r, _) ∷ rs) out = reverse_onto rs (encode_rune r ++ out)

unfoldable pub reverse : Bytes → Bytes
unfolding runes reverse_onto encode_rune
reverse s = reverse_onto (runes (length s) s) []

last_of : ℕ → List (ℕ × Bytes) → ℕ
last_of r [] = r
last_of _ ((r, _) ∷ rs) = last_of r rs

-- The rune of `utf8.DecodeLastRuneInString`.
unfoldable pub last_rune : Bytes → ℕ
unfolding runes last_of
last_rune s = last_of rune_error (runes (length s) s)

abbrev pub is_plus_minus : ℕ → Bool
is_plus_minus r = r == b'+' || r == b'-'

abbrev pub not_plus_minus : ℕ → Bool
not_plus_minus r = not (is_plus_minus r)

-- `ret = append(ret, thing)`, unless it is empty.
abbrev pub add : Bytes → Bool → List Thing → List Thing
add t p ret = if length t == 0 then ret else ret ++ record { thing = t; plus = p } ∷ []

module _ (is_alphanumeric : ℕ → Bool) where
  -- What comes after the signs: the thing, the lexer behind it, and whether the loop breaks.
  unfoldable pub read_thing : Lexer → Bytes × Lexer × Bool
  unfolding reverse
  read_thing l =
      let (r, l1) = peek l in
      if r == b')'
      then (let (t, l2) = find b'(' (next l1).1 in
          let (eof, l3) = at_eof l2 in (reverse t, l3, eof))
      else (let (t, l2) = scan is_alphanumeric l1 in (reverse t, l2, false))

  -- A round takes something from the input or is the last.
  unfoldable pub things_loop : ℕ → Lexer → List Thing → Option (List Thing)
  unfolding last_rune
  things_loop zero l ret = none
  things_loop (suc fuel) l ret =
      let (prefix, l1) = scan not_plus_minus l in
      let (eof, l2) = at_eof l1 in
      let skipped = things_loop fuel (next l2).1 ret in
      let (pm, l3) = scan is_plus_minus l2 in
      let is_plus = bytes_eq pm (codes "++") in
      let no_thing = things_loop fuel l3 ret in
      let (t, l4, breaks) = read_thing l3 in
      let with_thing = things_loop fuel l4 (add t is_plus ret) in
      if eof
      then some ret
      else if not (length prefix == 0) && not (is_space (last_rune prefix))
      then skipped
      else if not is_plus && not (bytes_eq pm (codes "--"))
      then no_thing
      else if breaks
      then some ret
      else with_thing

  unfoldable pub karma_things : Bytes → Option (List Thing)
  unfolding reverse
  karma_things s = let r = reverse s in things_loop (suc (length r)) (lexer r) []

module _ {Tx : Type 0} (bolt : Bolt Tx) (codec : Codec Karma) (root : BucketPath)
    (to_lower : Bytes → Bytes) (nick : Bytes) where
  -- The karma of a thing after its vote.
  unfoldable pub voted : ℕ → Thing → Tx → Karma
  unfolding karma_for new_karma plus minus
  voted now t tx =
      let k : Karma = elim (karma_for bolt codec root to_lower t.thing tx) [
        | some k ↦ k
        | none ↦ new_karma to_lower t.thing
      ] in
      if t.plus then plus nick now k else minus nick now k

  -- The loop of recordKarma: the file, and the errors that it replies. `clock` gives the times.
  unfoldable pub record_karma : (ℕ → ℕ) → List Thing → Tx → Tx × List Error
  record_karma clock [] tx = (tx, [])
  record_karma clock (t ∷ ts) tx =
      let later = λ (n : ℕ). clock (suc n) in
      elim (put bolt codec root to_lower (voted (clock 0) t tx) tx) [
        | ok tx' ↦ record_karma later ts tx'
        | err e ↦ let (tx', es) = record_karma later ts tx in (tx', e ∷ es)
      ]
