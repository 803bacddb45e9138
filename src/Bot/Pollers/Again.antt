-- ===== src/Bot/Pollers/Again.antt =====
-- A poller that is added to the set of bot/pollerset.go a second time.
use sp0rkle.Prelude.{
  ℕ, ◌+◌, ◌<◌, ◌≡◌, true, false, Option, none, some, List, [], ◌∷◌, length, ◌==◌, if◌then◌else◌,
  arith,
}
use sp0rkle.Bot.Pollers.{PollerSet, put, start_one, add}
use sp0rkle.Bot.Pollers.Goroutines.{runs, one_if, owners}
use sp0rkle.Bot.Pollers.Running.{IsRunning}

-- The channel that the set holds for a poller.
abbrev pub quit_of : ℕ → List (ℕ × Option ℕ) → Option ℕ
quit_of p [] = none
quit_of p ((j, o) ∷ set) = if j == p then o else quit_of p set

owners-put_again :
    (p q r x : ℕ) (set : List (ℕ × Option ℕ))
    → quit_of p set ≡ some q
    → owners x (put p (some r) set) + one_if (q == x) ≡ owners x set + one_if (r == x)
unfolding put
owners-put_again p q r x [] h = cc
owners-put_again p q r x ((j, none) ∷ set) h = ground (arith, owners-put_again p q r x set)
owners-put_again p q r x ((j, some s) ∷ set) h = ground (arith, owners-put_again p q r x set)

-- While there is a connection, adding a poller that is registered already leaves its first
-- goroutine running with no poller that owns its channel, so that nothing can stop it.
pub add_again :
    {C : Type 0} (p q : ℕ) (ps : PollerSet C)
    → IsRunning ps
    → 0 < length ps.conns
    → quit_of p ps.set ≡ some q
    → (runs (add p ps).fresh (add p ps).closed q ≡ true) × (owners q (add p ps).set ≡ 0)
unfolding add start_one
add_again p q ps h on found =
    let some_conns : (length ps.conns == 0) ≡ false = ground arith in
    rw some_conns
      (ground (arith, owners-put_again p q ps.fresh q ps.set found, h.owned q, h.made q))
