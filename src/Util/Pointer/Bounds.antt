-- ===== src/Util/Pointer/Bounds.antt =====
-- What `FactPointer` of util/utils.go finds stands in its text, and when it fails.
use sp0rkle.Prelude.{
  ℕ, ◌+◌, ◌-◌, ◌≤◌, ◌<◌, ◌≡◌, ◌↔◌, refl, ap, subst, sym, inl, inr, Bool, true, false, none, some,
  Bytes, length, drop, arith, ◌==◌, ltb, if_both, Option-cases, length-drop,
}
use sp0rkle.Util.Lexer.{Lexer, lexer, byte_at, slice, set_pos, peek, scan}
use sp0rkle.Util.Lexer.Scanning.{IsInside}
use sp0rkle.Util.Lexer.Moving.{scan-Moves}
use sp0rkle.Util.Text.{trim_space}
use sp0rkle.Util.Colours.{Outcome, ok, panic, out_of_fuel, index}
use sp0rkle.Util.Colours.Codes.{index-eq-some}
use sp0rkle.Util.Pointer.{Pointer, braced, bare, pointer_at, fact_pointer}

-- A pointer that is found starts at a `*` and ends in the text; there is nothing to run out of fuel.
abbrev pub IsWithin : Bytes → Outcome Pointer → Type 0
IsWithin val (ok (some (key, start, end))) =
    (index b'*' val ≡ some start) × (start < end) × (end ≤ length val)
IsWithin val (ok none) = Unit
IsWithin val panic = Unit
IsWithin val out_of_fuel = ⊥

-- The first `*` is before a brace, and there is none to close it.
abbrev pub IsUnclosed : Bytes → Type 0
IsUnclosed val =
    (start : ℕ) × (index b'*' val ≡ some start)
    × (start + 1 < length val)
    × (byte_at val (start + 1) ≡ b'{')
    × (index b'}' (drop start val) ≡ none)

module _ (to_lower : Bytes → Bytes) (is_alnum : ℕ → Bool) where
  braced-IsWithin :
      (start : ℕ) (val : Bytes)
      → index b'*' val ≡ some start
      → IsWithin val (braced to_lower is_alnum start val)
  unfolding braced
  braced-IsWithin start val h = elim (Option-cases (index b'}' (drop start val))) [
    | inl e ↦ rw (e, IsWithin) tt
    | inr (i, e) ↦
        let (_, room) = index-eq-some b'}' (drop start val) e in
        rw (e, IsWithin) (h, omega arith, omega (arith, room, length-drop start val))
  ]

  bare-IsWithin :
      (start : ℕ) (val : Bytes)
      → index b'*' val ≡ some start
      → start + 1 < length val
      → IsWithin val (ok (bare to_lower is_alnum start val))
  unfolding bare set_pos
  bare-IsWithin start val h room =
      let fits : ltb (start + 1) (length val) ≡ true = ground arith in
      let k : Lexer = record (lexer val) { eof = false; pos = start + 1 } in
      let inside : IsInside k = record {
        inside = omega arith;
        at_end = λ end. absurd (ground arith);
      } in
      let m = scan-Moves is_alnum k inside in
      let there = (scan is_alnum k).1 in
      rw fits (
        if_both (λ p. IsWithin val (ok p)) ((peek there).0 == b'*') none
          (some (to_lower (scan is_alnum k).0, start, there.pos)) (λ _. tt)
          (λ _. (
            h,
            omega (arith, m.forward),
            omega (arith, m.is_inside.inside, ap length m.same_input),
          )))

  pointer_at-IsWithin :
      (start : ℕ) (val : Bytes)
      → index b'*' val ≡ some start
      → start < length val
      → IsWithin val (pointer_at to_lower is_alnum start val)
  unfolding pointer_at
  pointer_at-IsWithin start val h room =
      if_both (IsWithin val) (start + 1 == length val) _ _ (λ _. tt)
        (λ more.
          if_both (IsWithin val) (byte_at val (start + 1) == b'{') _ _
            (λ _. braced-IsWithin start val h) (λ _. bare-IsWithin start val h (ground arith)))

  -- A pointer that `FactPointer` finds starts at the first `*` of the text, is not empty, and ends
  -- in the text.
  pub fact_pointer-IsWithin : (val : Bytes) → IsWithin val (fact_pointer to_lower is_alnum val)
  unfolding fact_pointer
  fact_pointer-IsWithin val = elim (Option-cases (index b'*' val)) [
    | inl e ↦ rw (e, IsWithin) tt
    | inr (start, e) ↦
        let (_, room) = index-eq-some b'*' val e in
        let same : fact_pointer to_lower is_alnum val ≡ pointer_at to_lower is_alnum start val =
          rw (e, fact_pointer) refl in
        subst (IsWithin val) (sym same) (pointer_at-IsWithin start val e room)
  ]

  braced-panic :
      (start : ℕ) (val : Bytes)
      → (braced to_lower is_alnum start val ≡ panic) ↔ (index b'}' (drop start val) ≡ none)
  unfolding braced
  braced-panic start val = elim (Option-cases (index b'}' (drop start val))) [
    | inl e ↦ ((λ _. e), (λ _. rw (e, braced) refl))
    | inr (i, e) ↦ (
      (λ h.
          let same : ok (
                some (
                  to_lower (trim_space (slice val (start + 2) (i + start + 1 - 1))),
                  start,
                  i + start + 1,
                ))
              ≡ panic =
            rw (e, braced) at h in
          cc),
      (λ h. cc),
    )
  ]

  pointer_at-panic :
      (start : ℕ) (val : Bytes)
      → start < length val
      → (pointer_at to_lower is_alnum start val ≡ panic) ↔ (
          (start + 1 < length val)
          × (byte_at val (start + 1) ≡ b'{')
          × (index b'}' (drop start val) ≡ none))
  unfolding pointer_at
  pointer_at-panic start val room = let open_brace = braced-panic start val in ground arith

  -- FactPointer panics just on the texts whose first * has a brace behind it and no closing brace
  -- after it.
  pub fact_pointer-panic :
      (val : Bytes) → (fact_pointer to_lower is_alnum val ≡ panic) ↔ IsUnclosed val
  unfolding fact_pointer
  fact_pointer-panic val = elim (Option-cases (index b'*' val)) [
    | inl e ↦ ((λ h. let same : ok none ≡ panic = rw (e, fact_pointer) at h in cc), (λ u. cc))
    | inr (start, e) ↦
        let (_, room) = index-eq-some b'*' val e in
        let (there, back) = pointer_at-panic start val room in
        (
          (λ h.
              let here : pointer_at to_lower is_alnum start val ≡ panic =
                rw (e, fact_pointer) at h in
              let (a, b, c) = there here in (start, e, a, b, c)),
          (λ u.
              let same : u.0 ≡ start = ground (arith, u.1, e) in
              rw (e, fact_pointer)
                (back (
                  subst
                    (λ s.
                      (s + 1 < length val)
                      × (byte_at val (s + 1) ≡ b'{')
                      × (index b'}' (drop s val) ≡ none))
                    same (u.2, u.3, u.4)))),
        )
  ]
