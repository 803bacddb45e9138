-- ===== src/Util/Plugin/Diverges.antt =====
-- The loop of `ApplyPluginFunction` of util/utils.go does not end where results hold calls.
use sp0rkle.Prelude.{
  ℕ, zero, suc, ◌+◌, ◌≤◌, ◌≡◌, refl, sym, ap, ◌∙◌, inl, inr, true, none, some, [], ◌∷◌, ◌++◌,
  append_assoc, Bytes, length, take, drop, ◌==◌, arith, Bool-cases,
}
use sp0rkle.Util.Text.{has_prefix}
use sp0rkle.Util.Colours.{out_of_fuel, index}
use sp0rkle.Util.Plugin.{index_of, start_of, apply_plugin}
use sp0rkle.Util.Plugin.Ends.{found_call}

-- A closed call of the plugin in a text.
pub record HasCall (plugin val : Bytes) : Type 0 where
  pub before : Bytes
  pub after : Bytes
  pub place : ℕ
  pub split : val ≡ before ++ (start_of plugin ++ after)
  pub closes : index b'>' after ≡ some place

has_prefix_self : (p t : Bytes) → has_prefix (p ++ t) p ≡ true
unfolding has_prefix
has_prefix_self [] t = ground arith
has_prefix_self (c ∷ p) t = ground (arith, has_prefix_self p t)

index_of-here : (p s : Bytes) → has_prefix s p ≡ true → index_of p s ≡ some 0
unfolding index_of
index_of-here p [] h = rw h
index_of-here p (c ∷ s) h = rw h

-- A text that stands somewhere is found there or before.
index_of-append : (p a t : Bytes) → (i : ℕ) × (index_of p (a ++ (p ++ t)) ≡ some i) × (i ≤ length a)
unfolding index_of
index_of-append p [] t = (0, index_of-here p (p ++ t) (has_prefix_self p t), omega arith)
index_of-append p (c ∷ a) t = elim (Bool-cases (has_prefix (c ∷ (a ++ (p ++ t))) p)) [
  | inl e ↦ (0, index_of-here p _ e, omega arith)
  | inr e ↦
      let (i, found, le) = index_of-append p a t in
      (suc i, rw (index_of, e, found) refl, omega arith)
]

index-suffix :
    (b : ℕ) (a t : Bytes) (j : ℕ) → index b t ≡ some j → (k : ℕ) × (index b (a ++ t) ≡ some k)
unfolding index
index-suffix b [] t j h = (j, h)
index-suffix b (c ∷ a) t j h = elim (Bool-cases (c == b)) [
  | inl e ↦ (0, rw (e, index) refl)
  | inr e ↦ let (k, found) = index-suffix b a t j h in (suc k, rw (e, index, found) refl)
]

index-append_left : (b : ℕ) (s t : Bytes) (j : ℕ) → index b s ≡ some j → index b (s ++ t) ≡ some j
unfolding index
index-append_left b [] t j h = cc
index-append_left b (c ∷ s) t zero h = ground arith
index-append_left b (c ∷ s) t (suc j) h = ground (arith, index-append_left b s t j)

drop-append : (n : ℕ) (a t : Bytes) → n ≤ length a → drop n (a ++ t) ≡ drop n a ++ t
drop-append zero a t h = refl
drop-append (suc n) [] t h = absurd (omega arith)
drop-append (suc n) (c ∷ a) t h = drop-append n a t (omega arith)

module _ (plugin : Bytes) (closed : index b'>' plugin ≡ none) (f : Bytes → Bytes)
    (wild : (s : Bytes) → HasCall plugin (f s)) where
  -- The call in a result stands in the next text.
  HasCall-around : (a b s : Bytes) → HasCall plugin (a ++ (f s ++ b))
  HasCall-around a b s =
      let c = wild s in
      record {
        before = a ++ c.before;
        after = c.after ++ b;
        place = c.place;
        split =
            ap (λ t. a ++ (t ++ b)) c.split
            ∙ ap (λ t. a ++ t)
                (append_assoc c.before (start_of plugin ++ c.after) b
                  ∙ ap (λ t. c.before ++ t) (append_assoc (start_of plugin) c.after b))
            ∙ sym (append_assoc a c.before (start_of plugin ++ (c.after ++ b)));
        closes = index-append_left b'>' c.after b c.place c.closes;
      }

  apply_plugin_diverges_from :
      (fuel : ℕ) (val : Bytes) → HasCall plugin val → apply_plugin plugin f fuel val ≡ out_of_fuel
  unfolding apply_plugin
  apply_plugin_diverges_from zero val c = refl
  apply_plugin_diverges_from (suc fuel) val c =
      let p = start_of plugin in
      let (ps, first, le) = index_of-append p c.before c.after in
      let found = ap (index_of p) c.split ∙ first in
      let behind : drop ps val ≡ drop ps c.before ++ (p ++ c.after) =
        ap (drop ps) c.split ∙ drop-append ps c.before (p ++ c.after) le in
      let (k, closes) = index-suffix b'>' p c.after c.place c.closes in
      let (pe, ends) = index-suffix b'>' (drop ps c.before) (p ++ c.after) k closes in
      let end = ap (index b'>') behind ∙ ends in
      let (n, skipped, fits) = (found_call plugin closed val ps pe found end).0 in
      rw (apply_plugin, found, end, skipped, fits)
        (apply_plugin_diverges_from fuel _
          (HasCall-around (take ps val) (drop (pe + ps + 1) val) _))

  -- If the name of the plugin has no '>' and every result of the function has a closed call of the
  -- plugin in it, ApplyPluginFunction does not end on a text that has one, whatever the fuel.
  pub apply_plugin_diverges :
      (val : Bytes) → HasCall plugin val → (fuel : ℕ) → apply_plugin plugin f fuel val ≡ out_of_fuel
  apply_plugin_diverges val c fuel = apply_plugin_diverges_from fuel val c
