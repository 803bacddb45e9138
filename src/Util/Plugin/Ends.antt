-- ===== src/Util/Plugin/Ends.antt =====
-- The loop of `ApplyPluginFunction` of util/utils.go ends where results hold no calls.
use sp0rkle.Prelude.{
  ℕ, zero, suc, ◌+◌, ◌≤◌, ◌<◌, ◌≡◌, refl, sym, ap, ◌∙◌, ◌⊎◌, inl, inr, Bool, true, none, some, [],
  ◌∷◌, ◌++◌, Bytes, length, take, drop, count, count-append, take-append-drop, drop-drop, ltb,
  false, ◌==◌, arith, Bool-cases, Option-cases,
}
use sp0rkle.Util.Lexer.{slice}
use sp0rkle.Util.Text.{has_prefix}
use sp0rkle.Util.Colours.{ok, index}
use sp0rkle.Util.Plugin.{index_of, spaces, start_of, apply_plugin}

has_prefix-append : (s p : Bytes) → has_prefix s p ≡ true → s ≡ p ++ drop (length p) s
unfolding has_prefix
has_prefix-append s [] h = refl
has_prefix-append [] (b ∷ p) h = cc
has_prefix-append (c ∷ s) (b ∷ p) h =
    let same : c ≡ b = ground arith in
    let rest = has_prefix-append s p (ground arith) in rw same (ap (◌∷◌ b) rest)

-- Where a text is found it stands.
pub index_of-has_prefix :
    (p s : Bytes) (i : ℕ) → index_of p s ≡ some i → has_prefix (drop i s) p ≡ true
unfolding index_of
index_of-has_prefix p [] i h = ground arith
index_of-has_prefix p (c ∷ s) zero h = ground arith
index_of-has_prefix p (c ∷ s) (suc i) h = index_of-has_prefix p s i (ground arith)

-- What stands at its place, with what is behind it.
pub index_of-drop :
    (p s : Bytes) (i : ℕ) → index_of p s ≡ some i → drop i s ≡ p ++ drop (i + length p) s
index_of-drop p s i h =
    has_prefix-append (drop i s) p (index_of-has_prefix p s i h)
    ∙ ap (λ t. p ++ t) (drop-drop i (length p) (i + length p) s refl)

-- A byte that is not in the first part is found in the second.
pub index-append :
    (b : ℕ) (p t : Bytes) (j : ℕ)
    → index b p ≡ none
    → index b (p ++ t) ≡ some j
    → (k : ℕ) × (index b t ≡ some k) × (j ≡ length p + k)
unfolding index
index-append b [] t j n h = (j, h, omega arith)
index-append b (c ∷ p) t zero n h = ground arith
index-append b (c ∷ p) t (suc j) n h =
    let (k, found, e) = index-append b p t j (ground arith) (ground arith) in
    (k, found, omega arith)

-- The spaces that are skipped stand before a byte that is none.
pub spaces-some :
    (t : Bytes) (k : ℕ) → index b'>' t ≡ some k → (n : ℕ) × (spaces t ≡ some n) × (n ≤ k)
unfolding index spaces
spaces-some [] k h = cc
spaces-some (c ∷ t) zero h = (0, ground arith, omega arith)
spaces-some (c ∷ t) (suc k) h = elim (Bool-cases (c == 32)) [
  | inr e ↦ (0, rw (e, spaces) refl, omega arith)
  | inl e ↦
      let (n, found, le) = spaces-some t k (ground arith) in
      (suc n, rw (e, spaces, found) refl, omega arith)
]

count-drop-le : (q : ℕ → Bool) (n : ℕ) (s : Bytes) → count q (drop n s) ≤ count q s
count-drop-le q zero s = omega arith
count-drop-le q (suc n) [] = omega arith
count-drop-le q (suc n) (c ∷ s) = omega (arith, count-drop-le q n s)

abbrev pub is_open : ℕ → Bool
is_open c = c == b'<'

-- There is no call in the text.
abbrev pub HasNone : Bytes → Bytes → Type 0
HasNone plugin out =
    (index_of (start_of plugin) out ≡ none)
    ⊎ ((ps : ℕ) × (index_of (start_of plugin) out ≡ some ps) × (index b'>' (drop ps out) ≡ none))

module _ (plugin : Bytes) (closed : index b'>' plugin ≡ none) where
  start-closed : index b'>' (start_of plugin) ≡ none
  unfolding index
  start-closed = rw closed refl

  -- The call that a round finds: its name is followed by something that is no space, and has a '<'.
  pub found_call :
      (val : Bytes) (ps pe : ℕ)
      → index_of (start_of plugin) val ≡ some ps
      → index b'>' (drop ps val) ≡ some pe
      → ((n : ℕ) × (spaces (drop (ps + length (start_of plugin)) val) ≡ some n)
          × (ltb (pe + ps) (ps + length (start_of plugin) + n) ≡ false))
        × (suc (count is_open (take ps val) + count is_open (drop (pe + ps + 1) val))
            ≤ count is_open val)
  found_call val ps pe h e =
      let p = start_of plugin in
      let t = drop (ps + length p) val in
      let stands = index_of-drop p val ps h in
      let (k, found, places) =
        index-append b'>' p t pe start-closed (ap (index b'>') (sym stands) ∙ e) in
      let behind : drop (pe + ps + 1) val ≡ drop (suc k) t =
        sym (drop-drop (ps + length p) (suc k) (pe + ps + 1) val (omega (arith, places))) in
      let whole : count is_open val
          ≡ count is_open (take ps val) + (count is_open p + count is_open t) =
        ap (count is_open) (sym (take-append-drop ps val) ∙ ap (λ s. take ps val ++ s) stands)
        ∙ count-append is_open (take ps val) (p ++ t)
        ∙ ap (λ n. count is_open (take ps val) + n) (count-append is_open p t) in
      let (n, skipped, le) = spaces-some t k found in
      (
        (n, skipped, ground (arith, le, places)),
        omega (arith, whole, ap (count is_open) behind, count-drop-le is_open (suc k) t),
      )

  module _ (f : Bytes → Bytes) (tame : (s : Bytes) → count is_open (f s) ≡ 0) where
    apply_plugin-Ends_from :
        (fuel : ℕ) (val : Bytes)
        → count is_open val < fuel
        → (out : Bytes) × (apply_plugin plugin f fuel val ≡ ok out) × HasNone plugin out
    unfolding apply_plugin
    apply_plugin-Ends_from zero val h = absurd (omega arith)
    apply_plugin-Ends_from (suc fuel) val h = elim (Option-cases (index_of (start_of plugin) val)) [
      | inl e ↦ (val, rw (e, apply_plugin) refl, inl e)
      | inr (ps, e) ↦ elim (Option-cases (index b'>' (drop ps val))) [
        | inl q ↦ (val, rw (e, apply_plugin, q) refl, inr (ps, e, q))
        | inr (pe, q) ↦
            let ((n, found, fits), fewer) = found_call val ps pe e q in
            let arg = slice val (ps + length (start_of plugin) + n) (pe + ps) in
            let val' = take ps val ++ (f arg ++ drop (pe + ps + 1) val) in
            let counts =
              count-append is_open (take ps val) (f arg ++ drop (pe + ps + 1) val)
              ∙ ap (λ n. count is_open (take ps val) + n)
                  (count-append is_open (f arg) (drop (pe + ps + 1) val)) in
            let (out, done, none_left) =
              apply_plugin-Ends_from fuel val' (omega (arith, counts, tame arg)) in
            (out, rw (e, apply_plugin, q, found, fits) done, none_left)
      ]
    ]

    -- If the name of the plugin has no '>' and no result of the function has a '<',
    -- ApplyPluginFunction ends after at most as many rounds as the text has '<', and one, without an
    -- index out of range, and leaves no call of the plugin that is closed.
    pub apply_plugin-Ends :
        (val : Bytes)
        → (out : Bytes) × (apply_plugin plugin f (suc (count is_open val)) val ≡ ok out)
          × HasNone plugin out
    apply_plugin-Ends val = apply_plugin-Ends_from (suc (count is_open val)) val (omega arith)
