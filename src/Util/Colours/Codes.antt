-- ===== src/Util/Colours/Codes.antt =====
-- What `RemoveColours` of util/utils.go removes.
use sp0rkle.Prelude.{
  ℕ, zero, suc, ◌+◌, ◌-◌, ◌≤◌, ◌<◌, ◌≡◌, refl, ap, sym, ◌∙◌, inl, inr, Bool, true, false, ◌&&◌,
  ◌||◌, Option, none, some, [], ◌∷◌, ◌++◌, Bytes, length, take, drop, get_elem?, ltb, ◌==◌, count,
  count-append, arith, Bool-cases, Option-cases, length-append, take-append-drop, length-drop,
  length-take,
}
use sp0rkle.Util.Colours.{
  Outcome, ok, index, is_digit, past_comma, is_none, colour_end, remove_colours_loop,
  remove_colours,
}

-- The bytes that a colour code may hold.
abbrev pub in_code : ℕ → Bool
in_code b = b == 3 || (b == b',' || is_digit b)

-- The text is empty, or its last byte cannot stand in a colour code.
abbrev pub EndsPlain : Bytes → Type 0
EndsPlain [] = Unit
EndsPlain (b ∷ []) = in_code b ≡ false
EndsPlain (b ∷ c ∷ s) = EndsPlain (c ∷ s)

-- A test that no byte of a colour code passes.
abbrev pub SkipsCodes : (ℕ → Bool) → Type 0
SkipsCodes p = (b : ℕ) → in_code b ≡ true → p b ≡ false

drop_one_more : (j : ℕ) (s : Bytes) → drop (j + 1) s ≡ drop (suc j) s
drop_one_more j s = let e : j + 1 ≡ suc j = omega arith in ap (λ k. drop k s) e

pub drop-get_elem? :
    (s : Bytes) (j : ℕ)
    → 0 < length (drop j s)
    → (b : ℕ) × (get_elem? s j ≡ some b) × (drop j s ≡ b ∷ drop (j + 1) s)
drop-get_elem? [] zero h = elim h [ ]
drop-get_elem? [] (suc j) h = elim h [ ]
drop-get_elem? (b ∷ s) zero h = (b, refl, refl)
drop-get_elem? (b ∷ s) (suc j) h =
    let (c, at, split) = drop-get_elem? s j h in
    (c, at, split ∙ ap (◌∷◌ c) (drop_one_more j s ∙ sym (drop_one_more (suc j) (b ∷ s))))

comma_in_code : (b : ℕ) → (b == b',') ≡ true → in_code b ≡ true
comma_in_code b h = ground arith

digit_in_code : (b : ℕ) → is_digit b ≡ true → in_code b ≡ true
digit_in_code b h = ground arith

EndsPlain-tail :
    (b : ℕ) (t : Bytes) → in_code b ≡ true → EndsPlain (b ∷ t) → (0 < length t) × EndsPlain t
EndsPlain-tail b [] code e = cc
EndsPlain-tail b (c ∷ t) code e = (omega arith, e)

module _ (p : ℕ → Bool) (skips : SkipsCodes p) (s : Bytes) (i : ℕ) where
  -- The code ends at `j'`, inside the text, and what it passed over is all of codes.
  record Ends (j : ℕ) (r : Outcome ℕ) : Type 0 where
    at : ℕ
    returned : r ≡ ok at
    forward : j ≤ at
    inside : 0 < length (drop at s)
    plain : EndsPlain (drop at s)
    kept : count p (drop j s) ≡ count p (drop at s)

  Ends-here : (j : ℕ) → 0 < length (drop j s) → EndsPlain (drop j s) → Ends j (ok j)
  Ends-here j h e = record {
    at = j;
    returned = refl;
    forward = omega arith;
    inside = h;
    plain = e;
    kept = refl;
  }

  -- One more byte of the code.
  Ends-more :
      (j b : ℕ) (r : Outcome ℕ)
      → drop j s ≡ b ∷ drop (j + 1) s
      → in_code b ≡ true
      → EndsPlain (drop j s)
      → (0 < length (drop (j + 1) s) → EndsPlain (drop (j + 1) s) → Ends (j + 1) r)
      → Ends j r
  Ends-more j b r split code e rest =
      let (h', e') = EndsPlain-tail b (drop (j + 1) s) code (rw split at e) in
      let m = rest h' e' in
      record {
        at = m.at;
        returned = m.returned;
        forward = omega (arith, m.forward);
        inside = m.inside;
        plain = m.plain;
        kept = rw split (ground (arith, skips b code, m.kept));
      }

  colour_end-Ends :
      (fuel j : ℕ) (c : Option ℕ)
      → length s < fuel + j
      → 0 < length (drop j s)
      → EndsPlain (drop j s)
      → Ends j (colour_end fuel s i j c)
  unfolding colour_end
  colour_end-Ends zero j c m h e = absurd (omega (arith, length-drop j s))
  colour_end-Ends (suc fuel) j c m h e =
      let (b, at, split) = drop-get_elem? s j h in
      elim (Bool-cases (past_comma c j)) [
        | inl past ↦ rw past (Ends-here j h e)
        | inr short ↦
            rw (short, at)
              (elim (Bool-cases (b == b',')) [
                | inl comma ↦ rw comma (
                    Ends-more j b _ split (comma_in_code b comma) e
                      (λ h' e'. colour_end-Ends fuel (j + 1) (some j) (omega arith) h' e'))
                | inr other ↦ rw other (elim (Bool-cases (is_none c && ltb 2 (j - i))) [
                  | inl two ↦ rw two (Ends-here j h e)
                  | inr one ↦ rw one (elim (Bool-cases (is_digit b)) [
                    | inl digit ↦ rw digit (
                        Ends-more j b _ split (digit_in_code b digit) e
                          (λ h' e'. colour_end-Ends fuel (j + 1) c (omega arith) h' e'))
                    | inr stop ↦ rw stop (Ends-here j h e)
                  ])
                ])
              ])
      ]

EndsPlain-append : (xs ys : Bytes) → 0 < length ys → EndsPlain ys → EndsPlain (xs ++ ys)
EndsPlain-append [] ys h e = e
EndsPlain-append (x ∷ []) [] h e = elim h [ ]
EndsPlain-append (x ∷ []) (y ∷ ys) h e = e
EndsPlain-append (x ∷ x' ∷ xs) ys h e = EndsPlain-append (x' ∷ xs) ys h e

EndsPlain-drop : (i : ℕ) (s : Bytes) → EndsPlain s → EndsPlain (drop i s)
EndsPlain-drop zero s e = e
EndsPlain-drop (suc i) [] e = e
EndsPlain-drop (suc zero) (b ∷ []) e = tt
EndsPlain-drop (suc (suc i)) (b ∷ []) e = tt
EndsPlain-drop (suc i) (b ∷ c ∷ s) e = EndsPlain-drop i (c ∷ s) e

index-later :
    (o : Option ℕ) {i : ℕ}
    → (let r : Option ℕ = elim o [ none ↦ none | some k ↦ some (suc k) ] in r) ≡ some i
    → (k : ℕ) × (o ≡ some k) × (i ≡ suc k)
index-later none h = cc
index-later (some k) h = (k, refl, ground arith)

pub index-eq-some :
    (b : ℕ) (s : Bytes) {i : ℕ}
    → index b s ≡ some i
    → (drop i s ≡ b ∷ drop (i + 1) s) × (i < length s)
unfolding index
index-eq-some b [] h = cc
index-eq-some b (c ∷ s) {i} h = elim (Bool-cases (c == b)) [
  | inl here ↦
      let e : 0 ≡ i = ground arith in rw (← e) (ap (λ d. d ∷ s) (ground arith), omega arith)
  | inr later ↦
      let (k, found, e) = index-later (index b s) (rw later at h) in
      let (split, within) = index-eq-some b s found in
      rw e
        (split ∙ ap (◌∷◌ b) (drop_one_more k s ∙ sym (drop_one_more (suc k) (c ∷ s))), omega arith)
]

length-cut : (s : Bytes) (i j : ℕ) → i < length s → i < j → length (take i s ++ drop j s) < length s
length-cut s i j h k =
    omega (arith, length-append (take i s) (drop j s), length-take i s, length-drop j s)

count-cut :
    (p : ℕ → Bool) (s : Bytes) (i j : ℕ)
    → count p (drop i s) ≡ count p (drop j s)
    → count p (take i s ++ drop j s) ≡ count p s
count-cut p s i j h =
    count-append p (take i s) (drop j s)
    ∙ ap (λ n. count p (take i s) + n) (sym h)
    ∙ sym (count-append p (take i s) (drop i s))
    ∙ ap (count p) (take-append-drop i s)

-- A round of the outer loop leaves a shorter text with the same bytes outside colour codes.
module _ (p : ℕ → Bool) (skips : SkipsCodes p) where
  record Removed (s : Bytes) (r : Outcome Bytes) : Type 0 where
    text : Bytes
    returned : r ≡ ok text
    no_code : index 3 text ≡ none
    plain : EndsPlain text
    kept : count p text ≡ count p s

  remove_colours_loop-Removed :
      (fuel : ℕ) (s : Bytes)
      → length s < fuel
      → EndsPlain s
      → Removed s (remove_colours_loop fuel s)
  unfolding remove_colours_loop
  remove_colours_loop-Removed zero s m e = elim m [ ]
  remove_colours_loop-Removed (suc fuel) s m e = elim (Option-cases (index 3 s)) [
    | inl none_left ↦
        rw (none_left, remove_colours_loop)
          (record { text = s; returned = refl; no_code = none_left; plain = e; kept = refl })
    | inr (i, found) ↦
        let (split, within) = index-eq-some 3 s found in
        let (h', e') =
          EndsPlain-tail 3 (drop (i + 1) s) refl (rw split at (EndsPlain-drop i s e)) in
        let code = colour_end-Ends p skips s i (suc (length s)) (i + 1) none (omega arith) h' e' in
        let s' = take i s ++ drop code.at s in
        let m =
          remove_colours_loop-Removed fuel s'
            (omega (arith, length-cut s i code.at within (omega (arith, code.forward))))
            (EndsPlain-append (take i s) (drop code.at s) code.inside code.plain) in
        rw (found, remove_colours_loop)
          (rw code.returned (record {
            text = m.text;
            returned = m.returned;
            no_code = m.no_code;
            plain = m.plain;
            kept =
                m.kept
                ∙ count-cut p s i code.at (rw split (ground (arith, skips 3 refl, code.kept)));
          }))
  ]

-- For a text that is empty or whose last byte is no `\003`, comma or digit, `RemoveColours` ends
-- with no index out of range, no `\003` is left, and the bytes that can stand in no colour code are
-- all there.
pub remove_colours_lem :
    (p : ℕ → Bool) (s : Bytes)
    → SkipsCodes p
    → EndsPlain s
    → (t : Bytes) × (remove_colours s ≡ ok t) × (index 3 t ≡ none) × (count p t ≡ count p s)
unfolding remove_colours
remove_colours_lem p s skips e =
    let m = remove_colours_loop-Removed p skips (suc (length s)) s (omega arith) e in
    (m.text, m.returned, m.no_code, m.kept)
