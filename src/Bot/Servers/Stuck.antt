-- ===== src/Bot/Servers/Stuck.antt =====
-- A server of bot/serverset.go that cannot connect.
use sp0rkle.Prelude.{
  ℕ, zero, suc, ◌+◌, ◌≤◌, ◌<◌, ◌≡◌, refl, subst, ◌≢◌, Bool, true, false, some, List, [], ◌∷◌, count,
  if◌then◌else◌, arith, Option-cases, inl, inr,
}
use sp0rkle.Bot.Servers.{
  connecting, pausing, ended, Server, Happening, connect_ok, Outcome, ServerSet, happen, happen_at,
  shut, shut_at, Event, on, visit, leave, send, at_servers, step, run,
}

-- The loop is not behind its end.
abbrev pub goes_on : Server → Bool
goes_on s = elim s.phase [ ended ↦ false | _ ↦ true ]

-- The loop tries to connect, or waits to try again.
abbrev pub is_trying : Server → Bool
is_trying s =
    if s.online then false else elim s.phase [ connecting ↦ true | pausing ↦ true | _ ↦ false ]

-- No attempt to connect succeeds.
abbrev pub Fails : List Event → Type 0
Fails [] = Unit {0}
Fails (on i connect_ok ∷ es) = ⊥
Fails (e ∷ es) = Fails es

-- The wait group counts the loops that go on, while Shutdown has not come past its wait.
pub record IsStuck (ss : ServerSet) : Type 0 where
  pub counted : ss.wg ≡ count goes_on ss.servers
  pub trying : 0 < count is_trying ss.servers
  pub waits : ss.stage ≡ at_servers

-- A loop that ends is counted no more.
pub happen_counts :
    (h : Happening) (s : Server) (o : Outcome)
    → happen h s ≡ some o
    → (if goes_on o.server then 1 else 0) + (if o.has_ended then 1 else 0)
      ≡ (if goes_on s then 1 else 0)
unfolding happen
happen_counts connect_ok s o e = ground arith
happen_counts _ s o e = ground arith

happen_tries :
    (h : Happening) (s : Server) (o : Outcome)
    → h ≢ connect_ok
    → happen h s ≡ some o
    → (if is_trying s then 1 else 0) ≤ (if is_trying o.server then 1 else 0)
unfolding happen
happen_tries connect_ok s o n e = absurd (n refl)
happen_tries _ s o n e = ground arith

pub happen_at_counts :
    (i : ℕ) (h : Happening) (ss ss' : List Server) (o : Outcome)
    → happen_at i h ss ≡ some (ss', o)
    → count goes_on ss' + (if o.has_ended then 1 else 0) ≡ count goes_on ss
unfolding happen_at
happen_at_counts i h [] ss' o e = cc
happen_at_counts zero h (s ∷ ss) ss' o e = elim (Option-cases (happen h s)) [
  | inl n ↦ absurd (ground (arith, n))
  | inr (p, n) ↦ ground (arith, n, happen_counts h s p n)
]
happen_at_counts (suc i) h (s ∷ ss) ss' o e = elim (Option-cases (happen_at i h ss)) [
  | inl n ↦ absurd (ground (arith, n))
  | inr ((ts, p), n) ↦ ground (arith, n, happen_at_counts i h ss ts p n)
]

happen_at_tries :
    (i : ℕ) (h : Happening) (ss ss' : List Server) (o : Outcome)
    → h ≢ connect_ok
    → happen_at i h ss ≡ some (ss', o)
    → count is_trying ss ≤ count is_trying ss'
unfolding happen_at
happen_at_tries i h [] ss' o f e = cc
happen_at_tries zero h (s ∷ ss) ss' o f e = elim (Option-cases (happen h s)) [
  | inl n ↦ absurd (ground (arith, n))
  | inr (p, n) ↦ ground (arith, n, happen_tries h s p f n)
]
happen_at_tries (suc i) h (s ∷ ss) ss' o f e = elim (Option-cases (happen_at i h ss)) [
  | inl n ↦ absurd (ground (arith, n))
  | inr ((ts, p), n) ↦ ground (arith, n, happen_at_tries i h ss ts p f n)
]

-- Shutdown changes no phase and no connection.
pub shut_at_counts :
    (p : Server → Bool)
    → ((s : Server) → p (shut s) ≡ p s)
    → (k : ℕ) (ss ss' : List Server) (b : Bool) → shut_at k ss ≡ some (ss', b)
    → count p ss' ≡ count p ss
unfolding shut_at
shut_at_counts p same k [] ss' b e = cc
shut_at_counts p same zero (s ∷ ss) ss' b e = ground (arith, same s)
shut_at_counts p same (suc k) (s ∷ ss) ss' b e = elim (Option-cases (shut_at k ss)) [
  | inl n ↦ absurd (ground (arith, n))
  | inr ((ts, c), n) ↦ ground (arith, n, shut_at_counts p same k ss ts c n)
]

pub shut_phase : (s : Server) → (goes_on (shut s) ≡ goes_on s) × (is_trying (shut s) ≡ is_trying s)
unfolding shut
shut_phase s = ground arith

trying-le-goes_on : (ss : List Server) → count is_trying ss ≤ count goes_on ss
trying-le-goes_on [] = omega arith
trying-le-goes_on (s ∷ ss) = ground (arith, trying-le-goes_on ss)

step-IsStuck :
    (e : Event) (ss ss' : ServerSet)
    → Fails (e ∷ [])
    → step e ss ≡ some ss'
    → IsStuck ss
    → IsStuck ss'
unfolding step
step-IsStuck (on i connect_ok) ss ss' f e k = absurd f
step-IsStuck (on i h) ss ss' f e k = elim (Option-cases (happen_at i h ss.servers)) [
  | inl n ↦ absurd (ground (arith, n))
  | inr ((servers, o), n) ↦
      let counts = happen_at_counts i h ss.servers servers o n in
      let tries = happen_at_tries i h ss.servers servers o (cc) n in
      record {
        counted = ground (arith, n, counts, k.counted);
        trying = ground (arith, n, tries, k.trying);
        waits = ground (arith, n, k.waits);
      }
]
step-IsStuck visit ss ss' f e k = elim (Option-cases (shut_at ss.position ss.servers)) [
  | inl n ↦ absurd (ground (arith, n))
  | inr ((servers, b), n) ↦
      let going =
        shut_at_counts goes_on (λ s. (shut_phase s).0) ss.position ss.servers servers b n in
      let tries =
        shut_at_counts is_trying (λ s. (shut_phase s).1) ss.position ss.servers servers b n in
      record {
        counted = ground (arith, n, going, k.counted);
        trying = ground (arith, n, tries, k.trying);
        waits = ground (arith, n, k.waits);
      }
]
step-IsStuck leave ss ss' f e k =
    absurd (ground (arith, k.counted, k.trying, trying-le-goes_on ss.servers))
step-IsStuck send ss ss' f e k = absurd (ground (arith, k.waits))

-- If the loop of a server tries to connect, or waits to try again, while Shutdown has not come past
-- its wait and the wait group counts the loops, then as long as no attempt to connect succeeds Shutdown does
-- not come past it: the strobe that it sends to the loop in the select makes it try again.
pub run-IsStuck :
    (es : List Event) (ss ss' : ServerSet)
    → IsStuck ss
    → Fails es
    → run es ss ≡ some ss'
    → IsStuck ss'
unfolding run
run-IsStuck [] ss ss' k f e = let same : ss ≡ ss' = cc in subst IsStuck same k
run-IsStuck (ev ∷ es) ss ss' k f e = elim (Option-cases (step ev ss)) [
  | inl n ↦ absurd (ground (arith, n))
  | inr (mid, n) ↦
      run-IsStuck es mid ss' (step-IsStuck ev ss mid (first ev es f) n k) (later ev es f)
        (ground (arith, n))
]
  where
    first : (ev : Event) (es : List Event) → Fails (ev ∷ es) → Fails (ev ∷ [])
    first (on i connect_ok) es f = f
    first (on i _) es f = tt
    first visit es f = tt
    first leave es f = tt
    first send es f = tt

    later : (ev : Event) (es : List Event) → Fails (ev ∷ es) → Fails es
    later (on i connect_ok) es f = absurd f
    later (on i _) es f = f
    later visit es f = f
    later leave es f = f
    later send es f = f
