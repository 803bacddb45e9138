-- ===== src/Bot/Servers/Leaving.antt =====
-- The servers of bot/serverset.go of which Shutdown has told the first ones to quit.
use sp0rkle.Prelude.{
  ℕ, zero, suc, ◌+◌, ◌<◌, ◌≡◌, refl, subst, sym, ap, ◌∙◌, ◌⊎◌, Bool, true, false, some, List, [],
  ◌∷◌, ◌++◌, length, count, if◌then◌else◌, arith, Option-cases, inl, inr, Bool-cases,
}
use sp0rkle.Bot.Servers.{
  up, ended, Server, Happening, connect_ok, disconnected, receive, Outcome, happen, happen_at, shut,
  shut_at, by_handle,
}
use sp0rkle.Bot.Servers.Stuck.{goes_on}

-- A server that is connected, and that Shutdown has not come to.
pub record IsUp (s : Server) : Type 0 where
  pub phase_up : s.phase ≡ up
  pub online : s.online ≡ true
  pub not_shut : s.shutdown ≡ false
  pub no_senders : s.senders ≡ []

-- A server that Shutdown has told to quit: its connection is still there, or Handle has been called
-- for it, or its loop has ended.
pub record IsLeaving (s : Server) : Type 0 where
  pub shut_down : s.shutdown ≡ true
  pub stage :
      ((s.phase ≡ up) × (s.online ≡ true) × (s.senders ≡ []))
      ⊎ ((s.phase ≡ up) × (s.online ≡ false) × (s.senders ≡ by_handle ∷ []))
      ⊎ ((s.phase ≡ ended) × (s.online ≡ false) × (s.senders ≡ []))

-- Shutdown has come to so many servers.
abbrev pub Halved : ℕ → List Server → Type 0
Halved zero [] = Unit
Halved (suc k) [] = ⊥
Halved zero (s ∷ ss) = IsUp s × Halved zero ss
Halved (suc k) (s ∷ ss) = IsLeaving s × Halved k ss

-- The steps that a server has before it.
abbrev pub steps_left : Server → ℕ
steps_left s = if s.shutdown then (if s.online then 2 else if goes_on s then 1 else 0) else 3

abbrev pub total_left : List Server → ℕ
total_left [] = 0
total_left (s ∷ ss) = steps_left s + total_left ss

-- What can happen to a server that is closing brings it nearer to its end.
happen-IsLeaving :
    (h : Happening) (s : Server) (o : Outcome)
    → happen h s ≡ some o
    → IsLeaving s
    → IsLeaving o.server × (o.unblocks ≡ false) × (suc (steps_left o.server) ≡ steps_left s)
unfolding happen
happen-IsLeaving connect_ok s o e l = ground (arith, l.stage, l.shut_down)
happen-IsLeaving _ s o e l = ground (arith, l.stage, l.shut_down)

-- Nothing happens to one that is connected but that its connection closes.
happen-IsUp :
    (h : Happening) (s : Server) (o : Outcome) → happen h s ≡ some o → IsUp s → h ≡ disconnected
unfolding happen
happen-IsUp connect_ok s o e u = ground (arith, u.phase_up, u.no_senders)
happen-IsUp disconnected s o e u = refl
happen-IsUp _ s o e u = ground (arith, u.phase_up, u.no_senders)

pub happen_at-Halved :
    (i : ℕ) (h : Happening) (k : ℕ) (ss ss' : List Server) (o : Outcome)
    → happen_at i h ss ≡ some (ss', o)
    → Halved k ss
    → (h ≡ disconnected → i < k)
    → Halved k ss' × (o.unblocks ≡ false) × (suc (total_left ss') ≡ total_left ss)
unfolding happen_at
happen_at-Halved i h k [] ss' o e d f = cc
happen_at-Halved zero h zero (s ∷ ss) ss' o e d f = elim (Option-cases (happen h s)) [
  | inl n ↦ absurd (ground (arith, n))
  | inr (p, n) ↦ absurd (omega (arith, f (happen-IsUp h s p n d.0)))
]
happen_at-Halved zero h (suc k) (s ∷ ss) ss' o e d f = elim (Option-cases (happen h s)) [
  | inl n ↦ absurd (ground (arith, n))
  | inr (p, n) ↦
      let (l, u, w) = happen-IsLeaving h s p n d.0 in
      let same : p.server ∷ ss ≡ ss' = ground (arith, n) in
      let result : p ≡ o = ground (arith, n) in
      (
        subst (Halved (suc k)) same (l, d.1),
        ap (λ (q : Outcome). q.unblocks) (sym result) ∙ u,
        ap (λ (l : List Server). suc (total_left l)) (sym same) ∙ omega (arith, w),
      )
]
happen_at-Halved (suc i) h zero (s ∷ ss) ss' o e d f = elim (Option-cases (happen_at i h ss)) [
  | inl n ↦ absurd (ground (arith, n))
  | inr ((ts, p), n) ↦
      let (l, u, w) = happen_at-Halved i h zero ss ts p n d.1 (λ q. absurd (omega (arith, f q))) in
      let same : s ∷ ts ≡ ss' = ground (arith, n) in
      let result : p ≡ o = ground (arith, n) in
      (
        subst (Halved zero) same (d.0, l),
        ap (λ (q : Outcome). q.unblocks) (sym result) ∙ u,
        ap (λ (l : List Server). suc (total_left l)) (sym same) ∙ omega (arith, w),
      )
]
happen_at-Halved (suc i) h (suc k) (s ∷ ss) ss' o e d f = elim (Option-cases (happen_at i h ss)) [
  | inl n ↦ absurd (ground (arith, n))
  | inr ((ts, p), n) ↦
      let (l, u, w) = happen_at-Halved i h k ss ts p n d.1 (λ q. omega (arith, f q)) in
      let same : s ∷ ts ≡ ss' = ground (arith, n) in
      let result : p ≡ o = ground (arith, n) in
      (
        subst (Halved (suc k)) same (d.0, l),
        ap (λ (q : Outcome). q.unblocks) (sym result) ∙ u,
        ap (λ (l : List Server). suc (total_left l)) (sym same) ∙ omega (arith, w),
      )
]

shut-IsLeaving :
    (s : Server) → IsUp s → IsLeaving (shut s) × (suc (steps_left (shut s)) ≡ steps_left s)
unfolding shut
shut-IsLeaving s u = ground (arith, u.phase_up, u.online, u.no_senders, u.not_shut)

pub shut_at-Halved :
    (k : ℕ) (ss ss' : List Server) (b : Bool)
    → shut_at k ss ≡ some (ss', b)
    → Halved k ss
    → Halved (suc k) ss' × (b ≡ false) × (suc (total_left ss') ≡ total_left ss)
unfolding shut_at
shut_at-Halved k [] ss' b e d = cc
shut_at-Halved zero (s ∷ ss) ss' b e d =
    let (l, w) = shut-IsLeaving s d.0 in
    let same : shut s ∷ ss ≡ ss' = ground arith in
    (
      subst (Halved 1) same (l, d.1),
      ground (arith, d.0.online),
      ap (λ (l : List Server). suc (total_left l)) (sym same) ∙ omega (arith, w),
    )
shut_at-Halved (suc k) (s ∷ ss) ss' b e d = elim (Option-cases (shut_at k ss)) [
  | inl n ↦ absurd (ground (arith, n))
  | inr ((ts, c), n) ↦
      let (l, u, w) = shut_at-Halved k ss ts c n d.1 in
      let same : s ∷ ts ≡ ss' = ground (arith, n) in
      (
        subst (Halved (suc (suc k))) same (d.0, l),
        ground (arith, n, u),
        ap (λ (l : List Server). suc (total_left l)) (sym same) ∙ omega (arith, w),
      )
]

-- Shutdown has come to all of them, or there is one more.
pub next_server :
    (k : ℕ) (ss : List Server)
    → Halved k ss
    → (k ≡ length ss) ⊎ ((r : List Server × Bool) × (shut_at k ss ≡ some r))
unfolding shut_at
next_server zero [] d = inl refl
next_server zero (s ∷ ss) d = inr (_, refl)
next_server (suc k) (s ∷ ss) d = elim (next_server k ss d.1) [
  | inl e ↦ inl (omega arith)
  | inr ((ts, b), e) ↦ inr ((s ∷ ts, b), rw e refl)
]
next_server (suc k) [] d = absurd d

-- A server that goes on can take a step.
able :
    (s : Server)
    → IsLeaving s
    → goes_on s ≡ true
    → (h : Happening) × (o : Outcome) × (happen h s ≡ some o)
unfolding happen
able s l g = elim l.stage [
  | inl t ↦ (
    disconnected,
    record {
      server = record s { online = false; senders = s.senders ++ by_handle ∷ [] };
      has_ended = false;
      unblocks = false;
    },
    ground arith,
  )
  | inr (inl t) ↦ (
    receive,
    record {
      server = record s { phase = ended; senders = [] };
      has_ended = true;
      unblocks = false;
    },
    ground (arith, l.shut_down),
  )
  | inr (inr t) ↦ absurd (ground arith)
]

-- Where Shutdown has come to all servers, their loops have ended or something can happen to one.
pub some_server :
    (ss : List Server)
    → Halved (length ss) ss
    → (count goes_on ss ≡ 0)
      ⊎ ((i : ℕ) × (h : Happening) × (i < length ss)
          × ((r : List Server × Outcome) × (happen_at i h ss ≡ some r)))
unfolding happen_at
some_server [] d = inl refl
some_server (s ∷ ss) d = elim (Bool-cases (goes_on s)) [
  | inl g ↦
      let (h, o, e) = able s d.0 g in
      inr (0, h, omega arith, ((o.server ∷ ss, o), rw (e, happen_at) refl))
  | inr g ↦ elim (some_server ss d.1) [
    | inl z ↦ inl (rw g (omega arith))
    | inr (i, h, lt, ((ts, o), e)) ↦ inr (suc i, h, omega arith, ((s ∷ ts, o), rw e refl))
  ]
]
