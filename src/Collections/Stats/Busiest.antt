-- ===== src/Collections/Stats/Busiest.antt =====
-- The hour that MostActive of collections/stats/stats.go finds.
use sp0rkle.Prelude.{
  ◌≡◌, refl, sym, subst, ap, ◌∙◌, inl, inr, ◌⊎◌, ℕ, zero, suc, ◌+◌, Option, none, some, List, [],
  ◌∷◌, get_elem?, Bool-cases, arith, All, ℤ, pos, ◌≤ℤ◌, ltb_ℤ,
}
use sp0rkle.Collections.Stats.{NickStat, Peak, better, busiest_hour, busiest_day, most_active}

-- The count of an hour of a day.
abbrev pub count_at : List (List ℤ) → ℕ → ℕ → Option ℤ
count_at days d h = elim (get_elem? days d) [ none ↦ none | some times ↦ get_elem? times h ]

better_lem :
    (d h : ℕ) (c : ℤ) (p : Peak)
    → (p.count ≤ℤ (better d h c p).count)
      × (c ≤ℤ (better d h c p).count)
      × ((better d h c p ≡ p) ⊎ (better d h c p ≡ record { day = d; hour = h; count = c }))
unfolding better
better_lem d h c p = elim (Bool-cases (ltb_ℤ p.count c)) [
  | inl e ↦ rw e (ground (arith, e), omega arith, inr refl)
  | inr e ↦ rw e (omega arith, ground (arith, e), inl refl)
]

-- What the loop on the hours of a day has found.
record HourFound (d h : ℕ) (cs : List ℤ) (p r : Peak) : Type 0 where
  grows : p.count ≤ℤ r.count
  most : (i : ℕ) (c : ℤ) → get_elem? cs i ≡ some c → c ≤ℤ r.count
  attained :
      (r ≡ p) ⊎ ((r.day ≡ d) × ((i : ℕ) × (r.hour ≡ h + i) × (get_elem? cs i ≡ some r.count)))

busiest_hour-HourFound :
    (d h : ℕ) (cs : List ℤ) (p : Peak) → HourFound d h cs p (busiest_hour d h cs p)
unfolding busiest_hour
busiest_hour-HourFound d h [] p = record {
  grows = omega arith;
  most = λ i c e. absurd (ground arith);
  attained = inl refl;
}
busiest_hour-HourFound d h (c ∷ cs) p =
    let (below, here, either) = better_lem d h c p in
    let rest = busiest_hour-HourFound d (suc h) cs (better d h c p) in
    let up = rest.grows in
    record {
      grows = omega arith;
      most = each (busiest_hour d (suc h) cs (better d h c p)) (omega arith) rest.most;
      attained = reach _ either rest.attained;
    }
  where
    each :
        (r : Peak)
        → c ≤ℤ r.count
        → ((i : ℕ) (n : ℤ) → get_elem? cs i ≡ some n → n ≤ℤ r.count)
        → (i : ℕ) (n : ℤ) → get_elem? (c ∷ cs) i ≡ some n
        → n ≤ℤ r.count
    each r b m zero n e = let same : c ≡ n = cc in subst (λ z. z ≤ℤ r.count) same b
    each r b m (suc i) n e = m i n e

    reach :
        (r : Peak)
        → (better d h c p ≡ p) ⊎ (better d h c p ≡ record { day = d; hour = h; count = c })
        → (r ≡ better d h c p)
          ⊎ ((r.day ≡ d) × ((i : ℕ) × (r.hour ≡ suc h + i) × (get_elem? cs i ≡ some r.count)))
        → (r ≡ p)
          ⊎ ((r.day ≡ d) × ((i : ℕ) × (r.hour ≡ h + i) × (get_elem? (c ∷ cs) i ≡ some r.count)))
    reach r (inl e) (inl same) = inl (same ∙ e)
    reach r (inr e) (inl same) =
        let this : r ≡ record { day = d; hour = h; count = c } = same ∙ e in
        inr (
          ap (λ (q : Peak). q.day) this,
          (
            0,
            ap (λ (q : Peak). q.hour) this ∙ omega arith,
            ap (λ (q : Peak). some q.count) (sym this),
          ),
        )
    reach r e (inr (on, (i, at, g))) = inr (on, (suc i, omega arith, g))

-- What the loops have found on days from the `d`th on.
record DayFound (d : ℕ) (days : List (List ℤ)) (p r : Peak) : Type 0 where
  grows : p.count ≤ℤ r.count
  most : (i h : ℕ) (c : ℤ) → count_at days i h ≡ some c → c ≤ℤ r.count
  attained : (r ≡ p) ⊎ ((i : ℕ) × (r.day ≡ d + i) × (count_at days i r.hour ≡ some r.count))

busiest_day-DayFound :
    (d : ℕ) (days : List (List ℤ)) (p : Peak) → DayFound d days p (busiest_day d days p)
unfolding busiest_day
busiest_day-DayFound d [] p = record {
  grows = omega arith;
  most = λ i h c e. absurd (ground arith);
  attained = inl refl;
}
busiest_day-DayFound d (times ∷ days) p =
    let first = busiest_hour-HourFound d 0 times p in
    let rest = busiest_day-DayFound (suc d) days (busiest_hour d 0 times p) in
    let low = first.grows in
    let up = rest.grows in
    record {
      grows = omega arith;
      most =
          each (busiest_day (suc d) days (busiest_hour d 0 times p))
            (λ h c e. let under = first.most h c e in omega arith) rest.most;
      attained = reach _ first.attained rest.attained;
    }
  where
    each :
        (r : Peak)
        → ((h : ℕ) (c : ℤ) → get_elem? times h ≡ some c → c ≤ℤ r.count)
        → ((i h : ℕ) (c : ℤ) → count_at days i h ≡ some c → c ≤ℤ r.count)
        → (i h : ℕ) (c : ℤ) → count_at (times ∷ days) i h ≡ some c
        → c ≤ℤ r.count
    each r b m zero h c e = b h c e
    each r b m (suc i) h c e = m i h c e

    reach :
        {q : Peak} (r : Peak)
        → (q ≡ p)
          ⊎ ((q.day ≡ d) × ((i : ℕ) × (q.hour ≡ 0 + i) × (get_elem? times i ≡ some q.count)))
        → (r ≡ q) ⊎ ((i : ℕ) × (r.day ≡ suc d + i) × (count_at days i r.hour ≡ some r.count))
        → (r ≡ p) ⊎ ((i : ℕ) × (r.day ≡ d + i) × (count_at (times ∷ days) i r.hour ≡ some r.count))
    reach r e (inr (i, on, g)) = inr (suc i, omega arith, g)
    reach r (inl e) (inl same) = inl (same ∙ e)
    reach {q} r (inr (on, (i, at, g))) (inl same) =
        let at0 : q.hour ≡ i = omega arith in
        inr (
          subst
            (λ (r : Peak).
              (j : ℕ) × (r.day ≡ d + j) × (count_at (times ∷ days) j r.hour ≡ some r.count))
            (sym same)
            (0, on ∙ omega arith, subst (λ j. get_elem? times j ≡ some q.count) (sym at0) g))

module _ {A : Type 0} (P : A → Type 0) where
  from_elems : (xs : List A) → ((i : ℕ) (x : A) → get_elem? xs i ≡ some x → P x) → All P xs
  from_elems [] h = tt
  from_elems (x ∷ xs) h = (h 0 x refl, from_elems xs (λ i y e. h (suc i) y e))

module _ (m : ℤ) where
  rows_under :
      (days : List (List ℤ))
      → ((d h : ℕ) (c : ℤ) → count_at days d h ≡ some c → c ≤ℤ m)
      → All (λ times. All (λ c. c ≤ℤ m) times) days
  rows_under [] f = tt
  rows_under (times ∷ days) f = (
    from_elems (λ c. c ≤ℤ m) times (λ h c e. f 0 h c e),
    rows_under days (λ d h c e. f (suc d) h c e),
  )

-- No hour has a count above that of the hour that MostActive finds; and that hour has the count
-- that is returned with it, unless this is 0 and the hour is the first of a Sunday.
pub most_active-IsMost :
    (ns : NickStat)
    → let p = most_active ns in
      All (λ times. All (λ c. c ≤ℤ p.count) times) ns.active
      × ((p ≡ record { day = 0; hour = 0; count = pos 0 })
          ⊎ (count_at ns.active p.day p.hour ≡ some p.count))
unfolding most_active
most_active-IsMost ns =
    let start : Peak = record { day = 0; hour = 0; count = pos 0 } in
    let f = busiest_day-DayFound 0 ns.active start in
    (
      rows_under (busiest_day 0 ns.active start).count ns.active f.most,
      elim f.attained [
        | inl e ↦ inl e
        | inr (i, on, g) ↦
            let on0 : (busiest_day 0 ns.active start).day ≡ i = omega arith in
            inr (
              subst
                (λ j.
                  count_at ns.active j (busiest_day 0 ns.active start).hour
                  ≡ some (busiest_day 0 ns.active start).count)
                (sym on0) g)
      ],
    )
