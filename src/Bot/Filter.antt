-- ===== src/Bot/Filter.antt =====
-- bot/filter.go and the ignoring of nicks in bot/commands.go, and the rewriters of bot/rewriteset.go.
-- A filter is the test that it makes of a line; the namespace of ignored nicks is the map from keys to
-- its strings.
use sp0rkle.Prelude.{
  Bool, true, false, not, List, [], ◌∷◌, ◌++◌, Bytes, codes, bytes_eq, if◌then◌else◌,
}
use sp0rkle.Util.Text.{fields}

abbrev pub LineFilter : Type 0 → Type 0
LineFilter Line = Line → Bool

module _ {Line : Type 0} where
  -- `FilterPipeline.Add` and `AddFunc`
  abbrev pub add_filters : List (LineFilter Line) → List (LineFilter Line) → List (LineFilter Line)
  add_filters filters lf = filters ++ lf

  -- `FilterPipeline.ShouldProcess`
  unfoldable pub should_process : List (LineFilter Line) → Line → Bool
  should_process [] line = true
  should_process (f ∷ filters) line =
      let rest = should_process filters line in if not (f line) then false else rest

-- `ns.String(key)` and `ns.String(key, value)` of the ignore namespace, and its `Delete`.
abbrev pub Namespace : Type 0
Namespace = Bytes → Bytes

abbrev pub ns_set : Namespace → Bytes → Bytes → Namespace
ns_set ns key value k = if bytes_eq key k then value else ns k

abbrev pub ns_delete : Namespace → Bytes → Namespace
ns_delete ns key = ns_set ns key []

module _ (to_lower : Bytes → Bytes) where
  -- `nickIgnoreFilter.ShouldProcess`, of the line's nick.
  unfoldable pub nick_ignore_filter : Namespace → Bytes → Bool
  nick_ignore_filter ns nick = if bytes_eq nick [] then true else bytes_eq (ns (to_lower nick)) []

  -- `ignore` and `unignore`, of the command's text; the reply is left out.
  unfoldable pub ignore : Bytes → Namespace → Namespace
  ignore text ns = elim (fields text) [ [] ↦ ns | f ∷ _ ↦ ns_set ns (to_lower f) (codes "ignore") ]

  unfoldable pub unignore : Bytes → Namespace → Namespace
  unignore text ns = elim (fields text) [ [] ↦ ns | f ∷ _ ↦ ns_delete ns (to_lower f) ]

-- `rewriteSet.Rewrite`: the rewriters in the order in which they were added.
unfoldable pub rewrite :
    {Context : Type 0} → List (Bytes → Context → Bytes) → Bytes → Context → Bytes
rewrite [] text ctx = text
rewrite (rw' ∷ set) text ctx = rewrite set (rw' text ctx) ctx
