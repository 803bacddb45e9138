-- ===== src/Drivers/Quotes/Limits.antt =====
-- How often RateLimit of drivers/quotedriver/quotedriver.go lets a nick ask.
use sp0rkle.Prelude.{
  ◌≡◌, refl, ap, ◌∙◌, inl, inr, ℕ, ◌+◌, ◌-◌, ◌*◌, ◌≤◌, Bool, true, false, some, List, [], ◌∷◌,
  Bytes, bytes_eq, bytes_eq_refl, length, ltb, if◌then◌else◌, Bool-cases, arith,
}
use sp0rkle.Drivers.Quotes.{
  RateLimit, interval, most_badness, grown, limit, Limits, limit_of, with_limit, rate_limit,
}

limit_of-with_limit :
    (nick : Bytes) (lim : RateLimit) (limits : Limits)
    → limit_of nick (with_limit nick lim limits) ≡ lim
unfolding limit_of with_limit
limit_of-with_limit nick lim [] = rw (bytes_eq_refl nick) refl
limit_of-with_limit nick lim ((n, old) ∷ limits) = elim (Bool-cases (bytes_eq n nick)) [
  | inl e ↦ rw (e, e) refl
  | inr e ↦ rw (e, e) (limit_of-with_limit nick lim limits)
]

-- The calls for one nick, by their two times, each of which lets it ask.
unfoldable pub all_let : Bytes → List (ℕ × ℕ) → Limits → Bool
unfolding rate_limit
all_let nick [] limits = true
all_let nick ((now, sent) ∷ calls) limits =
    let rest = all_let nick calls (rate_limit now sent nick limits).1 in
    if (rate_limit now sent nick limits).0 then false else rest

-- Times that do not go back.
abbrev pub InOrder : ℕ → List (ℕ × ℕ) → Type 0
InOrder t [] = Unit
InOrder t ((now, sent) ∷ calls) = (t ≤ now) × (now ≤ sent) × InOrder sent calls

abbrev pub end : ℕ → List (ℕ × ℕ) → ℕ
end t [] = t
end t ((now, sent) ∷ calls) = end sent calls

let_ask :
    (now sent : ℕ) (lim : RateLimit)
    → (limit now sent lim).0 ≡ false
    → (grown now lim ≤ most_badness)
      × ((limit now sent lim).1 ≡ record { badness = grown now lim; lastsent = some sent })
unfolding limit
let_ask now sent lim e = elim (Bool-cases (ltb most_badness (grown now lim))) [
  | inl h ↦ absurd (ground (arith, h))
  | inr h ↦ (ground (arith, h), rw h refl)
]

module _ (nick : Bytes) where
  -- One call that is let through, and the calls after it.
  step :
      (now sent : ℕ) (calls : List (ℕ × ℕ)) (limits : Limits)
      → all_let nick ((now, sent) ∷ calls) limits ≡ true
      → (grown now (limit_of nick limits) ≤ most_badness)
        × (limit_of nick (rate_limit now sent nick limits).1
            ≡ record { badness = grown now (limit_of nick limits); lastsent = some sent })
        × (all_let nick calls (rate_limit now sent nick limits).1 ≡ true)
  unfolding all_let rate_limit
  step now sent calls limits h =
      let through : (limit now sent (limit_of nick limits)).0 ≡ false = ground arith in
      let (few, now_is) = let_ask now sent (limit_of nick limits) through in
      (few, limit_of-with_limit nick _ limits ∙ now_is, ground (arith, through))

  spent :
      (calls : List (ℕ × ℕ)) (t : ℕ) (limits : Limits)
      → (limit_of nick limits).lastsent ≡ some t
      → (limit_of nick limits).badness ≤ most_badness
      → all_let nick calls limits ≡ true
      → InOrder t calls
      → (limit_of nick limits).badness + interval * length calls + t ≤ most_badness + end t calls
  unfolding grown
  spent [] t limits l b h o = omega arith
  spent ((now, sent) ∷ calls) t limits l b h o =
      let (few, now_is, more) = step now sent calls limits h in
      let next = (rate_limit now sent nick limits).1 in
      let last = ap (λ (lim : RateLimit). lim.lastsent) now_is in
      let grown_is : grown now (limit_of nick limits)
          ≡ (limit_of nick limits).badness + interval - (now - t) =
        rw l refl in
      let badness : (limit_of nick next).badness ≡ grown now (limit_of nick limits) =
        ap (λ (lim : RateLimit). lim.badness) now_is in
      let rest = spent calls sent next last (omega arith) more o.2 in omega arith

  -- However many calls for a nick, one after the other with times that do not go back, RateLimit
  -- lets ask, the calls after the first take 15 seconds each but for a minute in all.
  pub rate_limit-bounds :
      (now sent : ℕ) (calls : List (ℕ × ℕ)) (limits : Limits)
      → all_let nick ((now, sent) ∷ calls) limits ≡ true
      → InOrder sent calls
      → interval * length calls + sent ≤ most_badness + end sent calls
  rate_limit-bounds now sent calls limits h o =
      let (few, now_is, more) = step now sent calls limits h in
      let next = (rate_limit now sent nick limits).1 in
      let badness = ap (λ (lim : RateLimit). lim.badness) now_is in
      let rest =
        spent calls sent next (ap (λ (lim : RateLimit). lim.lastsent) now_is) (omega arith) more
          o in
      omega arith
