-- ===== src/Util/Plugin.antt =====
-- util/utils.go: `ApplyPluginFunction`, which puts the results of a function in the place of its calls
-- in a text.
pub mod Ends
pub mod Diverges
use sp0rkle.Prelude.{
  ℕ, zero, suc, ◌+◌, Bool, true, false, Option, none, some, [], ◌∷◌, ◌++◌, Bytes, codes, length,
  take, drop, ltb, ◌==◌, if◌then◌else◌,
}
use sp0rkle.Util.Lexer.{slice}
use sp0rkle.Util.Text.{has_prefix}
use sp0rkle.Util.Colours.{Outcome, ok, panic, out_of_fuel, index}

abbrev pub shift : Option ℕ → Option ℕ
shift none = none
shift (some i) = some (suc i)

-- `strings.Index(s, p)`
unfoldable pub index_of : Bytes → Bytes → Option ℕ
index_of p [] = if has_prefix [] p then some 0 else none
index_of p (c ∷ s) = if has_prefix (c ∷ s) p then some 0 else shift (index_of p s)

-- How many spaces the loop skips; it runs out of the text if nothing else follows.
unfoldable pub spaces : Bytes → Option ℕ
spaces [] = none
spaces (c ∷ s) = if c == 32 then shift (spaces s) else some 0

-- `plstart`
abbrev pub start_of : Bytes → Bytes
start_of plugin = codes "<plugin=" ++ plugin

module _ (plugin : Bytes) (f : Bytes → Bytes) where
  -- A call is replaced in each round. The slice `val[mid:pe]` panics if it begins behind its end.
  unfoldable pub apply_plugin : ℕ → Bytes → Outcome Bytes
  apply_plugin zero val = out_of_fuel
  apply_plugin (suc fuel) val = elim (index_of (start_of plugin) val) [
    | none ↦ ok val
    | some ps ↦ elim (index b'>' (drop ps val)) [
      | none ↦ ok val
      | some pe ↦
          let mid = ps + length (start_of plugin) in
          elim (spaces (drop mid val)) [
            | none ↦ panic
            | some n ↦
                let arg = slice val (mid + n) (pe + ps) in
                let rest = apply_plugin fuel (take ps val ++ (f arg ++ drop (pe + ps + 1) val)) in
                if ltb (pe + ps) (mid + n) then panic else rest
          ]
    ]
  ]
