-- ===== src/Bot/Commands/Match.antt =====
-- The choice that `match` of bot/commandset.go makes.
use sp0rkle.Prelude.{
  ℕ, ◌≤◌, ◌≡◌, refl, sym, ap, ◌∙◌, ◌⊎◌, inl, inr, true, false, Option, none, some, List, [], ◌∷◌,
  Bytes, length, ltb, All, arith, Bool-cases,
}
use sp0rkle.Util.Text.Prefix.{has_prefix_unique}
use sp0rkle.Bot.Commands.{applies, match_loop, match}

abbrev pub In : {A : Type 0} → A → List A → Type 0
In e [] = ⊥
In e (x ∷ xs) = (e ≡ x) ⊎ In e xs

All-In : {A : Type 0} (P : A → Type 0) (xs : List A) (e : A) → All P xs → In e xs → P e
All-In P (x ∷ xs) e h (inl i) = rw i h.0
All-In P (x ∷ xs) e h (inr i) = All-In P xs e h.1 i
All-In P [] e h i = elim i [ ]

module _ (to_lower : Bytes → Bytes) {Runner : Type 0} where
  -- No entry that applies has a longer prefix than `n`.
  abbrev pub Bounds : Bytes → ℕ → List (Bytes × Runner) → Type 0
  Bounds low n = All (λ e. applies to_lower low e ≡ true → length e.0 ≤ n)

  abbrev pub AppliesNot : Bytes → List (Bytes × Runner) → Type 0
  AppliesNot low = All (λ e. applies to_lower low e ≡ false)

  -- The result is that of an entry with the longest prefix of those that apply.
  pub record Longest (low : Bytes) (set : List (Bytes × Runner)) (best : Option Runner × ℕ)
      : Type 0 where
    pub entry : Bytes × Runner
    pub registered : In entry set
    pub entry_applies : applies to_lower low entry ≡ true
    pub result : best ≡ (some entry.1, length entry.0)
    pub bounds : Bounds low (length entry.0) set

  first_or_later :
      (e₀ e entry : Bytes × Runner) (set : List (Bytes × Runner))
      → In entry (e₀ ∷ set)
      → In entry (e₀ ∷ e ∷ set)
  first_or_later e₀ e entry set (inl i) = inl i
  first_or_later e₀ e entry set (inr i) = inr (inr i)

  -- One more entry, which changes nothing.
  Longest-skip :
      (low : Bytes) (e₀ e : Bytes × Runner) (set : List (Bytes × Runner)) {best : Option Runner × ℕ}
      → (applies to_lower low e ≡ true → length e.0 ≤ length e₀.0)
      → applies to_lower low e₀ ≡ true
      → Longest low (e₀ ∷ set) best
      → Longest low (e₀ ∷ e ∷ set) best
  Longest-skip low e₀ e set short a m = record {
    entry = m.entry;
    registered = first_or_later e₀ e m.entry set m.registered;
    entry_applies = m.entry_applies;
    result = m.result;
    bounds = (m.bounds.0, (λ h. omega (arith, short h, m.bounds.0 a), m.bounds.1));
  }

  -- One more entry before, which is shorter than the first.
  Longest-cons :
      (low : Bytes) (e₀ e : Bytes × Runner) (set : List (Bytes × Runner)) {best : Option Runner × ℕ}
      → (applies to_lower low e₀ ≡ true → length e₀.0 ≤ length e.0)
      → applies to_lower low e ≡ true
      → Longest low (e ∷ set) best
      → Longest low (e₀ ∷ e ∷ set) best
  Longest-cons low e₀ e set short a m = record {
    entry = m.entry;
    registered = inr m.registered;
    entry_applies = m.entry_applies;
    result = m.result;
    bounds = (λ h. omega (arith, short h, m.bounds.0 a), m.bounds);
  }

  match_loop-Longest :
      (low : Bytes) (e₀ : Bytes × Runner) (set : List (Bytes × Runner))
      → applies to_lower low e₀ ≡ true
      → Longest low (e₀ ∷ set) (match_loop to_lower low set (some e₀.1, length e₀.0))
  unfolding match_loop
  match_loop-Longest low e₀ [] a = record {
    entry = e₀;
    registered = inl refl;
    entry_applies = a;
    result = refl;
    bounds = (λ h. omega arith, tt);
  }
  match_loop-Longest low e₀ (e ∷ set) a = elim (Bool-cases (applies to_lower low e)) [
    | inr not_e ↦ rw not_e (Longest-skip low e₀ e set (λ h. cc) a (match_loop-Longest low e₀ set a))
    | inl is_e ↦ rw is_e (elim (Bool-cases (ltb (length e₀.0) (length e.0))) [
      | inl longer ↦
          rw longer
            (Longest-cons low e₀ e set (λ h. ground arith) is_e (match_loop-Longest low e set is_e))
      | inr short ↦
          rw short
            (Longest-skip low e₀ e set (λ h. ground arith) a (match_loop-Longest low e₀ set a))
    ])
  ]

  -- Either no registered prefix applies to the text and nothing is found, or what is found is the
  -- runner of a registered prefix that applies, with its length, and no prefix that applies is longer.
  pub match-Longest :
      (set : List (Bytes × Runner)) (txt : Bytes)
      → ((match to_lower set txt ≡ (none, 0)) × AppliesNot (to_lower txt) set)
        ⊎ Longest (to_lower txt) set (match to_lower set txt)
  unfolding match match_loop
  match-Longest [] txt = inl (refl, tt)
  match-Longest (e ∷ set) txt = elim (Bool-cases (applies to_lower (to_lower txt) e)) [
    | inl is_e ↦ rw is_e (inr (match_loop-Longest (to_lower txt) e set is_e))
    | inr not_e ↦ rw not_e (elim (match-Longest set txt) [
      | inl (r, h) ↦ inl (r, (refl, h))
      | inr m ↦ inr (record {
        entry = m.entry;
        registered = inr m.registered;
        entry_applies = m.entry_applies;
        result = m.result;
        bounds = (λ h. cc, m.bounds);
      })
    ])
  ]

  -- A map has one value for a key.
  abbrev pub IsMap : List (Bytes × Runner) → Type 0
  IsMap set = (d e : Bytes × Runner) → In d set → In e set → d.0 ≡ e.0 → d ≡ e

  -- The same entries, in any order.
  abbrev pub SameEntries : List (Bytes × Runner) → List (Bytes × Runner) → Type 0
  SameEntries xs ys = (e : Bytes × Runner) → (In e xs → In e ys) × (In e ys → In e xs)

  -- In whatever order Go goes through the map, `match` finds the same, if every prefix is in lower
  -- case.
  pub match-order :
      (xs ys : List (Bytes × Runner)) (txt : Bytes)
      → IsMap ys
      → ((e : Bytes × Runner) → In e ys → to_lower e.0 ≡ e.0)
      → SameEntries xs ys
      → match to_lower xs txt ≡ match to_lower ys txt
  match-order xs ys txt map low same = elim (match-Longest xs txt) [
    | inl (r, none_x) ↦ elim (match-Longest ys txt) [
      | inl (s, none_y) ↦ r ∙ sym s
      | inr m ↦ cc (All-In _ xs m.entry none_x ((same m.entry).1 m.registered), m.entry_applies)
    ]
    | inr m ↦ elim (match-Longest ys txt) [
      | inl (s, none_y) ↦
          cc (All-In _ ys m.entry none_y ((same m.entry).0 m.registered), m.entry_applies)
      | inr n ↦
          let in_ys = (same m.entry).0 m.registered in
          let in_xs = (same n.entry).1 n.registered in
          let m-le-n = All-In _ ys m.entry n.bounds in_ys m.entry_applies in
          let n-le-m = All-In _ xs n.entry m.bounds in_xs n.entry_applies in
          let keys : m.entry.0 ≡ n.entry.0 =
            has_prefix_unique (to_lower txt) m.entry.0 n.entry.0
              (rw (low m.entry in_ys) at m.entry_applies)
              (rw (low n.entry n.registered) at n.entry_applies) (omega (arith, m-le-n, n-le-m)) in
          let entries = map m.entry n.entry in_ys n.registered keys in
          m.result
          ∙ ap (λ (e : Bytes × Runner). (let r : Option Runner × ℕ = (some e.1, length e.0) in r))
              entries
          ∙ sym n.result
    ]
  ]
