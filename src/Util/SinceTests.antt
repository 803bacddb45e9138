-- ===== src/Util/SinceTests.antt =====
-- A run of `TimeSince`.
use sp0rkle.Prelude.{◌+◌, ◌≡◌, refl, [], ◌∷◌, Bytes, codes, ℤ, pos, pos_part, quot, rem}
use sp0rkle.Util.Since.{parts, time_since}

abbrev one_digit : ℤ → Bytes
one_digit z = (b'0' + pos_part z) ∷ []

-- An hour, two minutes and five seconds.
time_since_hour : time_since one_digit (pos 3725) ≡ codes "1h 2m 5s"
unfolding time_since parts quot rem
time_since_hour = refl
