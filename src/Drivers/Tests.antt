-- ===== src/Drivers/Tests.antt =====
-- Runs of `FactPointer` and `recurse`, with a few of the tests of util/utils_test.go.
use sp0rkle.Prelude.{
  ℕ, ◌≡◌, refl, ◌↔◌, Bool, ◌&&◌, Option, none, some, [], ◌∷◌, Bytes, codes, bytes_eq, leb,
  if◌then◌else◌,
}
use sp0rkle.Util.Utf8.{decode_rune}
use sp0rkle.Util.Lexer.{peek, scan, scan_loop, set_pos}
use sp0rkle.Util.Text.{trim_space}
use sp0rkle.Util.Colours.{ok, panic, index}
use sp0rkle.Util.Pointer.{braced, bare, pointer_at, fact_pointer}
use sp0rkle.Util.Pointer.Bounds.{IsUnclosed, fact_pointer-panic}
use sp0rkle.Collections.Factoid.{Factoid, fact}
use sp0rkle.Collections.PseudoRand.{mem}
use sp0rkle.Drivers.Factoids.{inline, recurse}
use sp0rkle.Drivers.Factoids.Ends.{Ends, recurse-Ends}

abbrev same : Bytes → Bytes
same s = s

abbrev is_small : ℕ → Bool
is_small r = leb b'a' r && leb r b'z'

pointer_braced :
    fact_pointer same is_small (codes "foo *{a b} bar") ≡ ok (some (codes "a b", 4, 10))
unfolding fact_pointer pointer_at braced index trim_space
pointer_braced = refl

pointer_bare :
    fact_pointer same is_small (codes "as should *this.") ≡ ok (some (codes "this", 10, 15))
unfolding fact_pointer pointer_at bare index scan scan_loop set_pos peek decode_rune
pointer_bare = refl

pointer_emphasis : fact_pointer same is_small (codes "it should *work*.") ≡ ok none
unfolding fact_pointer pointer_at bare index scan scan_loop set_pos peek decode_rune
pointer_emphasis = refl

fact_pointer-panic_example :
    (fact_pointer same is_small (codes "a *{b") ≡ panic) ↔ IsUnclosed (codes "a *{b")
fact_pointer-panic_example = fact_pointer-panic same is_small (codes "a *{b")

-- The one factoid is about itself.
abbrev loop : Factoid
loop = record {
  key = codes "a";
  value = codes "*a b";
  kind = fact;
  created = record { timestamp = 0; nick = []; chan = []; count = 0 };
  modified = record { timestamp = 0; nick = []; chan = []; count = 0 };
  accessed = record { timestamp = 0; nick = []; chan = []; count = 0 };
}

abbrev one_factoid : Bytes → ℕ → Option Factoid × ℕ
one_factoid key w = (if bytes_eq key (codes "a") then some loop else none, w)

recurse_circular :
    recurse one_factoid same is_small 21 loop (codes "a" ∷ []) 0
    ≡ ok (record loop { value = codes "[circular reference] b" }, 0)
unfolding recurse inline fact_pointer pointer_at bare index scan scan_loop set_pos peek decode_rune
    bytes_eq mem
recurse_circular = refl

recurse-Ends_example : Ends (recurse one_factoid same is_small 21 loop (codes "a" ∷ []) 0)
recurse-Ends_example = recurse-Ends one_factoid same is_small loop (codes "a") 0
