-- ===== src/Util/PluginTests.antt =====
-- Runs of `ApplyPluginFunction` of util/utils.go.
use sp0rkle.Prelude.{suc, ◌≡◌, refl, none, [], Bytes, codes, count}
use sp0rkle.Util.Text.{has_prefix}
use sp0rkle.Util.Colours.{ok, out_of_fuel, index}
use sp0rkle.Util.Plugin.{index_of, spaces, apply_plugin}
use sp0rkle.Util.Plugin.Ends.{is_open, HasNone, apply_plugin-Ends}
use sp0rkle.Util.Plugin.Diverges.{HasCall, apply_plugin_diverges}

abbrev six : Bytes → Bytes
six s = codes "6"

apply_two :
    apply_plugin (codes "rand") six 3 (codes "a <plugin=rand 9> b <plugin=rand>")
    ≡ ok (codes "a 6 b 6")
unfolding apply_plugin index_of index spaces has_prefix
apply_two = refl

no_close : index b'>' (codes "rand") ≡ none
unfolding index
no_close = refl

apply_plugin-Ends_example :
    (out : Bytes) × (apply_plugin
        (codes "rand")
        six
        (suc (count is_open (codes "a <plugin=rand 9>")))
        (codes "a <plugin=rand 9>")
      ≡ ok out)
    × HasNone (codes "rand") out
apply_plugin-Ends_example =
    apply_plugin-Ends (codes "rand") no_close six (λ s. refl) (codes "a <plugin=rand 9>")

-- A quote about the plugin that looks quotes up.
abbrev quote : Bytes → Bytes
quote s = codes "try <plugin=rand>!"

quote-HasCall : (s : Bytes) → HasCall (codes "rand") (quote s)
unfolding index
quote-HasCall s = record {
  before = codes "try ";
  after = codes ">!";
  place = 0;
  split = refl;
  closes = refl;
}

apply_plugin_diverges_example :
    apply_plugin (codes "rand") quote 1000 (codes "try <plugin=rand>!") ≡ out_of_fuel
apply_plugin_diverges_example =
    apply_plugin_diverges (codes "rand") no_close quote quote-HasCall (codes "try <plugin=rand>!")
      (quote-HasCall []) 1000
