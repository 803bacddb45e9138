-- ===== src/Util/Colours/Runout.antt =====
-- A colour code that `RemoveColours` of util/utils.go finds at the end of a text.
use Prim.Native.Nat.add
use sp0rkle.Prelude.{
  All, ==_refl, ℕ, zero, suc, ◌+◌, ◌≤◌, ◌<◌, ◌≡◌, refl, ap, sym, ◌∙◌, true, none, some, [], ◌∷◌,
  ◌++◌, Bytes, length, drop, get_elem?, arith, length-append,
}
use sp0rkle.Util.Colours.{panic, index, is_digit, colour_end, remove_colours_loop, remove_colours}
use sp0rkle.Util.Colours.Codes.{drop-get_elem?}

-- At most two digits.
abbrev pub IsColnum : Bytes → Type 0
IsColnum ds = All (λ d. is_digit d ≡ true) ds × (length ds ≤ 2)

get_elem?-drop :
    (s : Bytes) (j : ℕ) (d : ℕ) (r : Bytes)
    → drop j s ≡ d ∷ r
    → (get_elem? s j ≡ some d) × (drop (j + 1) s ≡ r)
get_elem?-drop s j d r e =
    let (b, at, split) = drop-get_elem? s j (rw e (omega arith)) in
    let both : b ∷ drop (j + 1) s ≡ d ∷ r = sym split ∙ e in (at ∙ ground arith, ground arith)

get_elem?-drop_nil : (s : Bytes) (j : ℕ) → drop j s ≡ [] → get_elem? s j ≡ none
get_elem?-drop_nil [] j e = refl
get_elem?-drop_nil (b ∷ s) zero e = cc
get_elem?-drop_nil (b ∷ s) (suc j) e = get_elem?-drop_nil s j e

-- Digits up to the end of the text lead the inner loop out of it.
colour_end-panic :
    (fuel : ℕ) (s : Bytes) (i j : ℕ) (ds : Bytes)
    → drop j s ≡ ds
    → All (λ d. is_digit d ≡ true) ds
    → length ds + j ≤ i + 3
    → length ds < fuel
    → colour_end fuel s i j none ≡ panic
unfolding colour_end
colour_end-panic zero s i j ds e h k m = elim m [ ]
colour_end-panic (suc fuel) s i j [] e h k m = rw (get_elem?-drop_nil s j e)
colour_end-panic (suc fuel) s i j (d ∷ r) e h k m =
    let (at, rest) = get_elem?-drop s j d r e in
    rw at (
      ground (arith, h.0, colour_end-panic fuel s i (j + 1) r rest h.1 (omega arith) (omega arith)))

index-append : (b : ℕ) (a s : Bytes) → index b a ≡ none → index b (a ++ b ∷ s) ≡ some (length a)
unfolding index
index-append b [] s h = rw (==_refl b)
index-append b (c ∷ a) s h = ground (arith, index-append b a s)

drop-append : (a s : Bytes) (j : ℕ) → drop (length a + j) (a ++ s) ≡ drop j s
drop-append [] s j = ap (λ k. drop k s) (omega arith)
drop-append (c ∷ a) s j = ap (λ k. drop k (c ∷ (a ++ s))) (add.suc (length a) j) ∙ drop-append a s j

-- A colour code at the very end of a text, with no digit, one or two, makes `RemoveColours` index
-- out of range, whatever text with no `\003` stands before it.
pub remove_colours-panic :
    (a ds : Bytes) → index 3 a ≡ none → IsColnum ds → remove_colours (a ++ 3 ∷ ds) ≡ panic
unfolding remove_colours remove_colours_loop
remove_colours-panic a ds h d =
    rw (index-append 3 a ds h, remove_colours, remove_colours_loop)
      (rw (
        colour_end-panic (suc (length (a ++ 3 ∷ ds))) (a ++ 3 ∷ ds) (length a) (length a + 1) ds
          (drop-append a (3 ∷ ds) 1) d.0 (omega (arith, d.1))
          (omega (arith, length-append a (3 ∷ ds)))))
