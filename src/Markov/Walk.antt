-- ===== src/Markov/Walk.antt =====
-- The words that `generate` of util/markov/markov.go returns.
use sp0rkle.Prelude.{
  pos, ltb_ℤ, eqb_ℤ, ℕ, zero, suc, ◌+◌, ◌-◌, ◌≤◌, ◌<◌, ◌≡◌, subst, ◌∙◌, inl, inr, true, false,
  Option, none, some, List, [], ◌∷◌, ◌++◌, append-nil, append_assoc, Bytes, bytes_eq, length,
  length-append, leb, arith, Bool-cases, Option-cases,
}
use sp0rkle.Markov.{
  Link, sentence_end, Ending, done, source_error, not_enough_data, too_much_data, panicked, is_late,
  Generated, is_end, generate_loop, generate,
}
use sp0rkle.Markov.Picks.{
  offers, may_end, total_uses, AreCounts, sum_uses-all, pick-offers, pick-may_end,
}

module _ (get_links : Bytes → Option (List Link)) where
  abbrev pub Offered : Bytes → Bytes → Type 0
  Offered current w =
      (ls : List Link) × (get_links current ≡ some ls)
      × (offers w ls ≡ true)
      × (bytes_eq w sentence_end ≡ false)

  -- Each word is offered by the one before it.
  abbrev pub IsWalk : Bytes → List Bytes → Type 0
  IsWalk current [] = Unit
  IsWalk current (w ∷ ws) = Offered current w × IsWalk w ws

  abbrev pub last : Bytes → List Bytes → Bytes
  last current [] = current
  last current (w ∷ ws) = last w ws

  -- Why the words end after the last one.
  abbrev pub EndsFor : Ending → ℕ → Bytes → List Bytes → Type 0
  EndsFor done limit start ws =
      (ls : List Link) × (get_links (last start ws) ≡ some ls) × (may_end ls ≡ true)
  EndsFor source_error limit start ws = get_links (last start ws) ≡ none
  EndsFor not_enough_data limit start ws =
      (ls : List Link) × (get_links (last start ws) ≡ some ls) × (total_uses ls ≡ 0)
  EndsFor too_much_data limit start ws = length ws ≡ limit
  EndsFor panicked limit start ws = ⊥

  -- What the source finds are counts.
  abbrev pub GivesCounts : Type 0
  GivesCounts = (w : Bytes) (ls : List Link) → get_links w ≡ some ls → AreCounts 0 ls

  record Walks (limit : ℕ) (current : Bytes) (out : List Bytes) (r : Option Generated)
      : Type 0 where
    words : List Bytes
    ending : Ending
    returned : r ≡ some (record { output = out ++ words; ending = ending })
    walk : IsWalk current words
    bound : length out + length words ≤ limit
    ends : EndsFor ending (limit - length out) current words

  Walks-stop :
      (limit : ℕ) (current : Bytes) (out : List Bytes) (ending : Ending)
      → length out ≤ limit
      → EndsFor ending (limit - length out) current []
      → Walks limit current out (some (record { output = out; ending = ending }))
  Walks-stop limit current out ending h e = record {
    words = [];
    ending = ending;
    returned = rw append-nil;
    walk = tt;
    bound = omega arith;
    ends = e;
  }

  later_ending :
      (ending : Ending) (n m : ℕ) (current w : Bytes) (ws : List Bytes)
      → n ≡ suc m
      → EndsFor ending m w ws
      → EndsFor ending n current (w ∷ ws)
  later_ending done n m current w ws e h = h
  later_ending source_error n m current w ws e h = h
  later_ending not_enough_data n m current w ws e h = h
  later_ending too_much_data n m current w ws e h = omega arith
  later_ending panicked n m current w ws e h = h

  Walks-word :
      (limit : ℕ) (current w : Bytes) (out : List Bytes) (r : Option Generated)
      → length out < limit
      → Offered current w
      → Walks limit w (out ++ w ∷ []) r
      → Walks limit current out r
  Walks-word limit current w out r h o m =
      let n = length-append out (w ∷ []) in
      record {
        words = w ∷ m.words;
        ending = m.ending;
        returned = m.returned ∙ rw append_assoc;
        walk = (o, m.walk);
        bound = omega (arith, m.bound, n);
        ends =
            later_ending m.ending _ (limit - length (out ++ w ∷ [])) current w m.words
              (omega (arith, n)) m.ends;
      }

module _ (get_links : Bytes → Option (List Link)) (intn : ℕ → ℕ → ℕ)
    (below : (k n : ℕ) → 0 < n → intn k n < n) (counts : GivesCounts get_links) where
  generate_loop-Walks :
      (fuel limit calls : ℕ) (current : Bytes) (out : List Bytes)
      → limit < fuel + length out
      → length out ≤ limit
      → Walks get_links limit current out
          (generate_loop get_links intn fuel limit calls current out)
  unfolding generate_loop
  generate_loop-Walks zero limit calls current out f h = absurd (omega arith)
  generate_loop-Walks (suc fuel) limit calls current out f h =
      elim (Bool-cases (leb limit (length out))) [
        | inl full ↦ rw full (Walks-stop get_links limit current out too_much_data h (ground arith))
        | inr room ↦ rw room (elim (Option-cases (get_links current)) [
          | inl missing ↦ rw missing (Walks-stop get_links limit current out source_error h missing)
          | inr (ls, found) ↦
              rw found
                (elim (sum_uses-all (is_late limit (length out)) ls (counts current ls found)) [
                  | inr (stops, may) ↦
                      rw stops (Walks-stop get_links limit current out done h (ls, found, may))
                  | inl total ↦ rw total (elim (Bool-cases (eqb_ℤ (pos (total_uses ls)) (pos 0))) [
                    | inl unused ↦ rw unused (
                        Walks-stop get_links limit current out not_enough_data h
                          (ls, found, ground arith))
                    | inr used ↦
                        let r = intn calls (total_uses ls) in
                        let (l, picked, o) =
                          pick-offers r 0 ls (counts current ls found)
                            (below calls (total_uses ls) (ground arith)) in
                        let counted : ltb_ℤ (pos (total_uses ls)) (pos 0) ≡ false = ground arith in
                        rw (used, counted, picked)
                          (elim (Bool-cases (is_end l)) [
                            | inl end ↦ rw end (
                                Walks-stop get_links limit current out done h
                                  (ls, found, pick-may_end (pos r) ls picked end))
                            | inr word ↦ rw word (
                                Walks-word get_links limit current l.value out _ (ground arith)
                                  (ls, found, o, word)
                                  (generate_loop-Walks fuel limit (suc calls) l.value
                                    (out ++ l.value ∷ [])
                                    (omega (arith, length-append out (l.value ∷ [])))
                                    (ground (arith, length-append out (l.value ∷ [])))))
                          ])
                  ])
                ])
        ])
      ]

  -- If `rand.Intn` returns a number below its argument, and the uses that the source gives are not
  -- negative and their sum fits into an int, `generate` ends without a panic, after at most `limit`
  -- words; each word is that of a link, used before and not to the end, from the word before it;
  -- and it ends with no error only where the last word has a link to the end, with a missing source
  -- only where the source fails, for want of data only where no link has been used, and for too
  -- much only after `limit` words.
  pub generate_lem :
      (start : Bytes) (limit : ℕ)
      → (g : Generated) × (generate get_links intn start limit ≡ some g)
        × IsWalk get_links start g.output
        × (length g.output ≤ limit)
        × EndsFor get_links g.ending limit start g.output
  unfolding generate
  generate_lem start limit =
      let m = generate_loop-Walks (suc limit) limit 0 start [] (omega arith) (omega arith) in
      (
        record { output = m.words; ending = m.ending },
        m.returned,
        m.walk,
        omega (arith, m.bound),
        subst (λ n. EndsFor get_links m.ending n start m.words)
            (let e : limit - 0 ≡ limit = omega arith in e) m.ends,
      )
