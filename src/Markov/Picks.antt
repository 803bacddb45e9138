-- ===== src/Markov/Picks.antt =====
-- The sum of the uses and the pick of a link in `generate` of util/markov/markov.go.
use sp0rkle.Prelude.{
  ℤ, pos, negsuc, wrap, ap, pos_part, ltb_ℤ, add_int, sub_int, ◌+ℤ◌, ◌-ℤ◌, ◌≤ℤ◌, wrap_fits,
  int_laws, -ℤ_parts, ◌^◌, ℕ, ◌+◌, ◌-◌, ◌≤◌, ◌<◌, ◌≡◌, ◌∙◌, ◌⊎◌, inl, inr, Bool, true, false, ◌&&◌,
  ◌||◌, none, some, List, [], ◌∷◌, Bytes, bytes_eq, bytes_eq_refl, leb, arith, Bool-cases,
}
use sp0rkle.Markov.{Link, is_end, sum_uses, pick}

-- A link with the value is among the links, and has been used.
abbrev pub offers : Bytes → List Link → Bool
offers w [] = false
offers w (l ∷ ls) = (bytes_eq l.value w && ltb_ℤ (pos 0) l.uses) || offers w ls

-- A link to the end is among the links.
abbrev pub may_end : List Link → Bool
may_end [] = false
may_end (l ∷ ls) = is_end l || may_end ls

abbrev pub total_uses : List Link → ℕ
total_uses [] = 0
total_uses (l ∷ ls) = pos_part l.uses + total_uses ls

-- The uses are counts, and an int can hold their sum.
abbrev pub AreCounts : ℕ → List Link → Type 0
AreCounts before [] = before ≤ 2 ^ 63 - 1
AreCounts before (l ∷ ls) = (pos 0 ≤ℤ l.uses) × AreCounts (before + pos_part l.uses) ls

total_uses-le : (n : ℕ) (ls : List Link) → AreCounts n ls → n + total_uses ls ≤ 2 ^ 63 - 1
total_uses-le n [] c = omega (arith, c)
total_uses-le n (l ∷ ls) c = omega (arith, total_uses-le (n + pos_part l.uses) ls c.1)

add_count :
    (n : ℕ) (u : ℤ)
    → pos 0 ≤ℤ u
    → n + pos_part u ≤ 2 ^ 63 - 1
    → add_int (pos n) u ≡ pos (n + pos_part u)
add_count n (pos u) h b =
    let sum : pos n +ℤ pos u ≡ pos (n + u) = omega int_laws in
    ap wrap sum ∙ wrap_fits (pos (n + u)) (omega arith) (omega (arith, b))
add_count n (negsuc u) h b = absurd (omega (arith, h))

sub_count :
    (r : ℕ) (u : ℤ)
    → pos 0 ≤ℤ u
    → pos_part u ≤ r
    → r ≤ 2 ^ 63 - 1
    → sub_int (pos r) u ≡ pos (r - pos_part u)
sub_count r (pos u) h le b =
    let rest : pos r -ℤ pos u ≡ pos (r - u) = omega int_laws in
    ap wrap rest ∙ wrap_fits (pos (r - u)) (omega arith) (omega (arith, b))
sub_count r (negsuc u) h le b = absurd (omega (arith, h))

sub_count_below :
    (r : ℕ) (u : ℤ)
    → pos 0 ≤ℤ u
    → r < pos_part u
    → pos_part u ≤ 2 ^ 63 - 1
    → ltb_ℤ (sub_int (pos r) u) (pos 0) ≡ true
sub_count_below r (pos u) h lt b =
    let fits = wrap_fits (pos r -ℤ pos u) (omega int_laws) (omega int_laws) in
    rw fits (ground (arith, -ℤ_parts (pos r) (pos u)))
sub_count_below r (negsuc u) h lt b = absurd (omega (arith, h))

sum_uses-cases :
    (late : Bool) (n : ℕ) (ls : List Link)
    → AreCounts n ls
    → (sum_uses late (pos n) ls ≡ some (pos (n + total_uses ls)))
      ⊎ ((sum_uses late (pos n) ls ≡ none) × (may_end ls ≡ true))
unfolding sum_uses
sum_uses-cases late n [] c = inl (ap (λ k. some (pos k)) (omega arith))
sum_uses-cases late n (l ∷ ls) c =
    let total = total_uses-le (n + pos_part l.uses) ls c.1 in
    let rest = sum_uses-cases late (n + pos_part l.uses) ls c.1 in
    rw (add_count n l.uses c.0 (omega (arith, total))) (ground (arith, rest))

pub sum_uses-all :
    (late : Bool) (ls : List Link)
    → AreCounts 0 ls
    → (sum_uses late (pos 0) ls ≡ some (pos (total_uses ls)))
      ⊎ ((sum_uses late (pos 0) ls ≡ none) × (may_end ls ≡ true))
sum_uses-all late ls c = elim (sum_uses-cases late 0 ls c) [
  | inl e ↦ inl (e ∙ ap (λ k. some (pos k)) (omega arith))
  | inr e ↦ inr e
]

pub pick-offers :
    (r n : ℕ) (ls : List Link)
    → AreCounts n ls
    → r < total_uses ls
    → (l : Link) × (pick (pos r) ls ≡ some l) × (offers l.value ls ≡ true)
unfolding pick
pick-offers r n [] c h = absurd (omega arith)
pick-offers r n (l ∷ ls) c h =
    let total = total_uses-le (n + pos_part l.uses) ls c.1 in
    elim (Bool-cases (leb (pos_part l.uses) r)) [
      | inl past ↦
          let down = sub_count r l.uses c.0 (ground (arith, past)) (omega (arith, total)) in
          let stays : ltb_ℤ (pos (r - pos_part l.uses)) (pos 0) ≡ false = ground arith in
          let (m, e, o) =
            pick-offers (r - pos_part l.uses) (n + pos_part l.uses) ls c.1 (ground (arith, past)) in
          (m, rw (down, stays) e, ground (arith, o))
      | inr here ↦
          let used : pos_part l.uses ≤ 2 ^ 63 - 1 = omega (arith, total) in
          let low = sub_count_below r l.uses c.0 (ground (arith, here)) used in
          (l, rw low, ground (arith, here, c.0, bytes_eq_refl l.value))
    ]

pub pick-may_end :
    (r : ℤ) (ls : List Link) {l : Link} → pick r ls ≡ some l → is_end l ≡ true → may_end ls ≡ true
unfolding pick
pick-may_end r [] h e = cc
pick-may_end r (m ∷ ls) h e = elim (Bool-cases (ltb_ℤ (sub_int r m.uses) (pos 0))) [
  | inr past ↦ ground (arith, pick-may_end (sub_int r m.uses) ls (rw past at h) e)
  | inl here ↦ ground arith
]
