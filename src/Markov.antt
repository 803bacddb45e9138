-- ===== src/Markov.antt =====
-- util/markov/markov.go: sentences from a chain of links.
-- The uses of a link are an int, and so is their sum; `rand.Intn` panics if that is negative, and
-- else `intn` gives what each call of it returns, by the number of calls before it. The limit of
-- words, for which `make` allocates, is not negative.
pub mod Picks
pub mod Walk
mod Tests
use sp0rkle.Prelude.{
  ℕ, zero, suc, ℤ, pos, pos_part, ltb_ℤ, eqb_ℤ, add_int, sub_int, mul_int, quot, Bool, true, false,
  ◌&&◌, Option, none, some, List, [], ◌∷◌, ◌++◌, Bytes, codes, bytes_eq, length, leb, if◌then◌else◌,
}

pub record Link : Type 0 where
  pub value : Bytes
  pub uses : ℤ

abbrev pub sentence_end : Bytes
sentence_end = codes "!SENTENCE_END"

abbrev pub sentence_start : Bytes
sentence_start = codes "!SENTENCE_START"

abbrev pub action_start : Bytes
action_start = codes "!ACTION_START"

pub data Ending : Type 0 where
  done source_error not_enough_data too_much_data panicked : Ending

pub record Generated : Type 0 where
  pub output : List Bytes
  pub ending : Ending

abbrev pub is_end : Link → Bool
is_end l = bytes_eq l.value sentence_end

-- The first loop: the sum of the uses, or `none` where it returns at a link to the end.
unfoldable pub sum_uses : Bool → ℤ → List Link → Option ℤ
sum_uses late sum [] = some sum
sum_uses late sum (l ∷ ls) =
    let rest = sum_uses late (add_int sum l.uses) ls in if late && is_end l then none else rest

-- The second loop: the link at which `r` falls below zero, if any.
unfoldable pub pick : ℤ → List Link → Option Link
pick r [] = none
pick r (l ∷ ls) =
    let below = sub_int r l.uses in
    let rest = pick below ls in if ltb_ℤ below (pos 0) then some l else rest

-- `len(output) > 4*length/5`
abbrev pub is_late : ℕ → ℕ → Bool
is_late limit n = ltb_ℤ (quot (mul_int (pos 4) (pos limit)) 5) (pos n)

module _ (get_links : Bytes → Option (List Link)) (intn : ℕ → ℕ → ℕ) where
  -- The loop of `generate`. A round adds a word, so that a fuel of one more than `limit` is enough;
  -- `none` means that it was not.
  unfoldable pub generate_loop : ℕ → ℕ → ℕ → Bytes → List Bytes → Option Generated
  generate_loop zero limit calls current output = none
  generate_loop (suc fuel) limit calls current output =
      if leb limit (length output)
      then some (record { output = output; ending = too_much_data })
      else elim (get_links current) [
        | none ↦ some (record { output = output; ending = source_error })
        | some children ↦ elim (sum_uses (is_late limit (length output)) (pos 0) children) [
          | none ↦ some (record { output = output; ending = done })
          | some sum ↦
              let none_picked = generate_loop fuel limit (suc calls) current output in
              let picked : Option Generated =
                elim (pick (pos (intn calls (pos_part sum))) children) [
                  | none ↦ none_picked
                  | some child ↦
                      let rest =
                        generate_loop fuel limit (suc calls) child.value
                          (output ++ child.value ∷ []) in
                      if is_end child
                      then some (record { output = output; ending = done })
                      else rest
                ] in
              if eqb_ℤ sum (pos 0)
              then some (record { output = output; ending = not_enough_data })
              else if ltb_ℤ sum (pos 0)
              then some (record { output = output; ending = panicked })
              else picked
        ]
      ]

  unfoldable pub generate : Bytes → ℕ → Option Generated
  generate start limit = generate_loop (suc limit) limit 0 start []

  -- `Sentence` and `Action`, before their words are joined.
  unfoldable pub sentence : Option Generated
  sentence = generate sentence_start 50

  unfoldable pub action : Option Generated
  action = generate action_start 50
