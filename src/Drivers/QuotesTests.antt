-- ===== src/Drivers/QuotesTests.antt =====
-- Runs of the model of RateLimit of drivers/quotedriver.
use sp0rkle.Prelude.{
  ◌≡◌, refl, ℕ, ◌+◌, ◌*◌, ◌≤◌, true, false, List, [], ◌∷◌, codes, bytes_eq, arith,
}
use sp0rkle.Drivers.Quotes.{interval, most_badness, grown, limit, limit_of, with_limit, rate_limit}
use sp0rkle.Drivers.Quotes.Limits.{all_let, rate_limit-bounds}

abbrev at_once : List (ℕ × ℕ)
at_once = (5, 5) ∷ (5, 5) ∷ (5, 5) ∷ (5, 5) ∷ []

-- Five are let through at one time, and no more.
five_let : all_let (codes "n") ((5, 5) ∷ at_once) [] ≡ true
unfolding all_let rate_limit limit limit_of with_limit grown bytes_eq
five_let = refl

six_held : all_let (codes "n") ((5, 5) ∷ (5, 5) ∷ at_once) [] ≡ false
unfolding all_let rate_limit limit limit_of with_limit grown bytes_eq
six_held = refl

rate_limit-bounds_example : interval * 4 + 5 ≤ most_badness + 5
rate_limit-bounds_example = rate_limit-bounds (codes "n") 5 5 at_once [] five_let (
  omega arith,
  omega arith,
  (omega arith, omega arith, (omega arith, omega arith, (omega arith, omega arith, tt))),
)
