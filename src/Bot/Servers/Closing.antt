-- ===== src/Bot/Servers/Closing.antt =====
-- Shutdown of bot/serverset.go while all servers are connected.
use sp0rkle.Prelude.{
  ℕ, zero, suc, ◌-◌, ◌+◌, ◌≤◌, ◌<◌, ◌≡◌, refl, subst, sym, ap, ◌∙◌, ◌⊎◌, true, false, some, List,
  [], ◌∷◌, length, count, if◌then◌else◌, arith, All, Option-cases, inl, inr,
}
use sp0rkle.Bot.Servers.{
  Server, Happening, disconnected, ServerSet, happen_at, shut_at, Event, on, visit, leave, send,
  Stage, at_servers, at_send, finished, step,
}
use sp0rkle.Bot.Servers.Stuck.{goes_on, happen_at_counts, shut_at_counts, shut_phase}
use sp0rkle.Bot.Servers.Leaving.{
  IsUp, Halved, total_left, happen_at-Halved, shut_at-Halved, next_server, some_server,
}

-- The steps that are left: those of the servers, and the end of the wait.
abbrev weight : Stage → ℕ
weight at_servers = 1
weight _ = 0

abbrev left_of : ServerSet → ℕ
left_of ss = weight ss.stage + total_left ss.servers

pub record IsClosing (ss : ServerSet) : Type 0 where
  pub halved : Halved ss.position ss.servers
  pub counted : ss.wg ≡ count goes_on ss.servers
  pub free : ss.blocked ≡ false
  pub heard : ss.main_waits ≡ true

-- A connection closes only after Shutdown has told its server to quit.
abbrev pub Allowed : Event → ServerSet → Type 0
Allowed (on i disconnected) ss = i < ss.position
Allowed e ss = Unit

-- Whatever steps are taken, Shutdown returns, and until then there is one to take.
pub data Returns : ServerSet → Type 0 where
  now : {ss : ServerSet} → ss.stage ≡ finished → Returns ss
  later :
      {ss : ServerSet} (e : Event) (ss' : ServerSet)
      → Allowed e ss
      → step e ss ≡ some ss'
      → ((f : Event) (t : ServerSet) → Allowed f ss → step f ss ≡ some t → Returns t)
      → Returns ss

stages : (g : Stage) → (g ≡ at_servers) ⊎ (g ≡ at_send) ⊎ (g ≡ finished)
stages at_servers = inl refl
stages at_send = inr (inl refl)
stages finished = inr (inr refl)

-- A step of a set that is closing: it has returned, or has a step less before it.
step-IsClosing :
    (e : Event) (ss ss' : ServerSet)
    → Allowed e ss
    → step e ss ≡ some ss'
    → IsClosing ss
    → (ss'.stage ≡ finished) ⊎ (IsClosing ss' × (suc (left_of ss') ≡ left_of ss))
unfolding step
step-IsClosing (on i h) ss ss' al e c = elim (Option-cases (happen_at i h ss.servers)) [
  | inl n ↦ absurd (ground (arith, n))
  | inr ((servers, o), n) ↦
      let (l, u, w) =
        happen_at-Halved i h ss.position ss.servers servers o n c.halved (allowed h al) in
      let counts = happen_at_counts i h ss.servers servers o n in
      let same : record ss { servers = servers; wg = if o.has_ended then ss.wg - 1 else ss.wg }
          ≡ ss' =
        ground (arith, n, u) in
      inr (
        subst IsClosing same (record {
          halved = l;
          counted = ground (arith, counts, c.counted);
          free = c.free;
          heard = c.heard;
        }),
        ap (λ (t : ServerSet). suc (left_of t)) (sym same) ∙ omega (arith, w),
      )
]
  where
    allowed : (h : Happening) → Allowed (on i h) ss → h ≡ disconnected → i < ss.position
    allowed disconnected al e = al
    allowed _ al e = cc
step-IsClosing visit ss ss' al e c = elim (Option-cases (shut_at ss.position ss.servers)) [
  | inl n ↦ absurd (ground (arith, n))
  | inr ((servers, b), n) ↦
      let (l, u, w) = shut_at-Halved ss.position ss.servers servers b n c.halved in
      let going =
        shut_at_counts goes_on (λ s. (shut_phase s).0) ss.position ss.servers servers b n in
      let same : record ss { servers = servers; position = suc ss.position; blocked = false }
          ≡ ss' =
        ground (arith, n, u, c.free) in
      inr (
        subst IsClosing same
            (record { halved = l; counted = c.counted ∙ sym going; free = refl; heard = c.heard }),
        ap (λ (t : ServerSet). suc (left_of t)) (sym same) ∙ omega (arith, w),
      )
]
step-IsClosing leave ss ss' al e c = elim (stages ss.stage) [
  | inl at ↦
      let same : record ss { stage = at_send } ≡ ss' = ground (arith, at) in
      inr (
        subst IsClosing same
            (record { halved = c.halved; counted = c.counted; free = c.free; heard = c.heard }),
        ap (λ (t : ServerSet). suc (left_of t)) (sym same) ∙ omega (arith, ap weight at),
      )
  | inr (inl at) ↦ absurd (ground (arith, at))
  | inr (inr at) ↦ absurd (ground (arith, at))
]
step-IsClosing send ss ss' al e c = inl (ground arith)

-- Until Shutdown has returned, a step can be taken.
ready :
    (ss : ServerSet)
    → IsClosing ss
    → (ss.stage ≡ at_servers) ⊎ (ss.stage ≡ at_send)
    → (e : Event) × (ss' : ServerSet) × Allowed e ss × (step e ss ≡ some ss')
unfolding step
ready ss c (inr at) =
    (send, record ss { stage = finished; main_waits = false }, tt, ground (arith, at, c.heard))
ready ss c (inl at) = elim (next_server ss.position ss.servers c.halved) [
  | inr ((servers, b), e) ↦ (
    visit,
    record ss {
      servers = servers;
      position = if b then ss.position else suc ss.position;
      blocked = b;
    },
    tt,
    ground (arith, e, c.free),
  )
  | inl done ↦ elim (some_server ss.servers (subst (λ k. Halved k ss.servers) done c.halved)) [
    | inl none_left ↦
        let zero_left : ss.wg ≡ 0 = c.counted ∙ none_left in
        (leave, record ss { stage = at_send }, tt, ground (arith, done, zero_left, at))
    | inr (i, h, lt, ((servers, o), e)) ↦ (
      on i h,
      record ss {
        servers = servers;
        wg = if o.has_ended then ss.wg - 1 else ss.wg;
        position = if o.unblocks then suc ss.position else ss.position;
        blocked = if o.unblocks then false else ss.blocked;
      },
      allowed h (omega (arith, done)),
      ground (arith, e),
    )
  ]
]
  where
    allowed : {i : ℕ} (h : Happening) → i < ss.position → Allowed (on i h) ss
    allowed disconnected lt = lt
    allowed _ lt = tt

Returns-next :
    (ss : ServerSet)
    → IsClosing ss
    → ((t : ServerSet) → IsClosing t → left_of t < left_of ss → Returns t)
    → Returns ss
Returns-next ss c rec = elim (stages ss.stage) [
  | inl at ↦ goes (inl at)
  | inr (inl at) ↦ goes (inr at)
  | inr (inr r) ↦ now r
]
  where
    goes : (ss.stage ≡ at_servers) ⊎ (ss.stage ≡ at_send) → Returns ss
    goes at =
        let (e, ss', al, st) = ready ss c at in
        later e ss' al st (λ f t al' st'. elim (step-IsClosing f ss t al' st' c) [
          | inl r' ↦ now r'
          | inr (c', w) ↦ rec t c' (omega (arith, w))
        ])

Returns-within : (m : ℕ) (ss : ServerSet) → IsClosing ss → left_of ss ≤ m → Returns ss
Returns-within zero ss c b = Returns-next ss c (λ t c' lt. absurd (omega arith))
Returns-within (suc m) ss c b = Returns-next ss c (λ t c' lt. Returns-within m t c' (omega arith))

up-Halved : (ss : List Server) → All IsUp ss → Halved 0 ss × (count goes_on ss ≡ length ss)
up-Halved [] a = (tt, refl)
up-Halved (s ∷ ss) a = ((a.0, (up-Halved ss a.1).0), ground (arith, up-Halved ss a.1, a.0.phase_up))

-- If Shutdown begins while every server is connected, with nobody waiting to send to its loop, main
-- waits on the channel that Connect has returned, and no connection closes before Shutdown has told
-- its server to quit, then whatever happens in whatever order Shutdown returns, its last send
-- included, and until then something can happen.
pub shutdown-Returns :
    (ss : ServerSet)
    → All IsUp ss.servers
    → ss.wg ≡ length ss.servers
    → ss.position ≡ 0
    → ss.blocked ≡ false
    → ss.main_waits ≡ true
    → Returns ss
shutdown-Returns ss a w p b m =
    let (h, n) = up-Halved ss.servers a in
    Returns-within (left_of ss) ss
      (record { halved = rw p h; counted = w ∙ sym n; free = b; heard = m }) (omega arith)
