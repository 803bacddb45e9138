-- ===== src/Bot/Commands.antt =====
-- bot/commandset.go: the registered commands and the choice of one for a line.
-- The map is an association list, in the order in which Go happens to go through it; `to_lower` is
-- `strings.ToLower`, and `Text()` of a PRIVMSG is its message.
pub mod Match
use sp0rkle.Prelude.{
  ℕ, Bool, true, false, not, ◌&&◌, ◌||◌, Option, none, some, List, [], ◌∷◌, ◌++◌, Bytes, codes,
  bytes_eq, lookup, length, drop, take, ltb, leb, if◌then◌else◌,
}
use sp0rkle.Util.Text.{has_prefix, contains, fields, join}
use sp0rkle.Util.Nick.{is_factoid_addition}
use sp0rkle.Bot.Filter.{LineFilter, should_process}
use sp0rkle.Bot.Context.{Line, Context, new_context}

abbrev is_none {ℓ} : {A : Type ℓ} → Option A → Bool
is_none none = true
is_none (some _) = false

module _ {Runner : Type 0} where
  -- `Add` of a runner that is not nil.
  unfoldable pub add : Runner → Bytes → List (Bytes × Runner) → List (Bytes × Runner)
  unfolding lookup
  add r [] set = set
  add r (b ∷ prefix) set = elim (lookup (b ∷ prefix) set) [
    | some _ ↦ set
    | none ↦ (b ∷ prefix, r) ∷ set
  ]

-- A prefix holds one of the words.
unfoldable pub holds_word : Bytes → List Bytes → Bool
holds_word prefix [] = false
holds_word prefix (w ∷ words) = contains prefix w || holds_word prefix words

module _ (to_lower : Bytes → Bytes) {Runner : Type 0} where
  -- The entry is a candidate for the text, of which the lower case is given.
  abbrev pub applies : Bytes → Bytes × Runner → Bool
  applies lowertxt e = has_prefix lowertxt (to_lower e.0)

  -- A round of the loop of `match`, on `final` and `prefixlen`.
  abbrev pub round : Bytes → Bytes × Runner → Option Runner × ℕ → Option Runner × ℕ
  round lowertxt e best =
      if not (applies lowertxt e)
      then best
      else if is_none best.0 || ltb best.1 (length e.0)
      then (some e.1, length e.0)
      else best

  unfoldable pub match_loop : Bytes → List (Bytes × Runner) → Option Runner × ℕ → Option Runner × ℕ
  match_loop lowertxt [] best = best
  match_loop lowertxt (e ∷ set) best = match_loop lowertxt set (round lowertxt e best)

  unfoldable pub match : List (Bytes × Runner) → Bytes → Option Runner × ℕ
  match set txt = match_loop (to_lower txt) set (none, 0)

  -- `possible`: the prefixes that hold one of the text's words, ten at most.
  unfoldable pub possible_all : List (Bytes × Runner) → List Bytes → List Bytes
  possible_all [] words = []
  possible_all ((prefix, r) ∷ set) words =
      let rest = possible_all set words in
      if holds_word (to_lower prefix) words then prefix ∷ rest else rest

  unfoldable pub possible : List (Bytes × Runner) → Bytes → List Bytes
  possible set txt = take 10 (possible_all set (fields (to_lower txt)))

  -- `Handle`: the runner that is run and the context that it gets, if any.
  unfoldable pub handle :
      List (LineFilter Line) → List (Bytes × Runner) → Bytes → Line → Option (Runner × Context)
  handle filters set me line =
      let ctx = new_context to_lower me line in
      let (r, ln) = match set ctx.message in
      if not (should_process filters line)
      then none
      else if is_factoid_addition to_lower line.message
      then none
      else elim r [
        | none ↦ none
        | some runner ↦
            if ctx.addressed
            then some (
              runner,
              record ctx {
                line = record ctx.line {
                  message = join (fields (drop ln ctx.message)) (codes " ");
                };
              },
            )
            else none
      ]
