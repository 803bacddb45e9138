-- ===== src/Drivers/Quotes.antt =====
-- drivers/quotedriver/quotedriver.go: RateLimit, which holds back the replies to a nick that asks for
-- quotes too often. Times and durations are in nanoseconds.
pub mod Limits
use sp0rkle.Prelude.{
  ℕ, ◌+◌, ◌-◌, Bool, true, false, Option, none, some, List, [], ◌∷◌, Bytes, bytes_eq, ltb,
  if◌then◌else◌,
}

-- No time stands for the zero time, which is longer ago than any duration tells.
pub record RateLimit : Type 0 where
  pub badness : ℕ
  pub lastsent : Option ℕ

abbrev pub new_limit : RateLimit
new_limit = record { badness = 0; lastsent = none }

-- What is limited to one in 15 seconds, and where the limit is.
abbrev pub interval : ℕ
interval = 15000000000

abbrev pub most_badness : ℕ
most_badness = 60000000000

-- The badness at a time that is not before the one that was sent last. It does not go below 0.
unfoldable pub grown : ℕ → RateLimit → ℕ
grown now lim = elim lim.lastsent [ none ↦ 0 | some sent ↦ lim.badness + interval - (now - sent) ]

-- What `RateLimit` does with the nick's limit; the two calls of `time.Now` are arguments.
unfoldable pub limit : ℕ → ℕ → RateLimit → Bool × RateLimit
unfolding grown
limit now sent lim =
    let badness = grown now lim in
    if ltb most_badness badness
    then (true, record lim { badness = badness })
    else (false, record { badness = badness; lastsent = some sent })

abbrev pub Limits : Type 0
Limits = List (Bytes × RateLimit)

unfoldable pub limit_of : Bytes → Limits → RateLimit
limit_of nick [] = new_limit
limit_of nick ((n, lim) ∷ limits) = if bytes_eq n nick then lim else limit_of nick limits

unfoldable pub with_limit : Bytes → RateLimit → Limits → Limits
with_limit nick lim [] = (nick, lim) ∷ []
with_limit nick lim ((n, old) ∷ limits) =
    if bytes_eq n nick then (n, lim) ∷ limits else (n, old) ∷ with_limit nick lim limits

-- `RateLimit`
unfoldable pub rate_limit : ℕ → ℕ → Bytes → Limits → Bool × Limits
unfolding limit limit_of with_limit
rate_limit now sent nick limits =
    let (held, lim) = limit now sent (limit_of nick limits) in (held, with_limit nick lim limits)
