-- ===== src/Bot/Pollers/Running.antt =====
-- When the goroutines of bot/pollerset.go run.
use sp0rkle.Prelude.{
  ℕ, ◌<◌, ◌≡◌, refl, ◌∙◌, inl, inr, true, ◌&&◌, Option, none, some, length, ◌==◌, All, arith,
  Bool-cases,
}
use sp0rkle.Bot.Pollers.{
  PollerSet, put, delete, new_poller_set, start_one, add, mem, Cmd, connected, disconnected, other,
  handle,
}
use sp0rkle.Bot.Pollers.Goroutines.{
  runs, one_if, owners, HasQuit, HasNone, IsNew, owners-put, owners-start_all, owners-HasNone,
  HasQuit-start_all, stop_all-Stopped, length-put, length-delete, All-put,
}

-- Every goroutine that runs is that of one registered poller; if there is a connection each poller
-- has one, and if there is none no poller has.
pub record IsRunning {C : Type 0} (ps : PollerSet C) : Type 0 where
  pub owned : (q : ℕ) → owners q ps.set ≡ one_if (runs ps.fresh ps.closed q)
  pub made : (q : ℕ) → mem q ps.closed ≡ true → q < ps.fresh
  pub started : 0 < length ps.conns → All HasQuit ps.set
  pub stopped : length ps.conns ≡ 0 → All HasNone ps.set

module _ {C : Type 0} where
  pub new_poller_set-IsRunning : IsRunning (new_poller_set C)
  unfolding new_poller_set mem
  new_poller_set-IsRunning = record {
    owned = λ q. ground arith;
    made = λ q e. cc;
    started = λ h. tt;
    stopped = λ h. tt;
  }

  pub add-IsRunning :
      (p : ℕ) (ps : PollerSet C) → IsNew p ps.set → IsRunning ps → IsRunning (add p ps)
  unfolding add start_one
  add-IsRunning p ps new h = elim (Bool-cases (length ps.conns == 0)) [
    | inl off ↦ rw off (record {
      owned = λ q. owners-put p none ps.set q new ∙ ground (arith, h.owned q);
      made = h.made;
      started = λ c. absurd (ground arith);
      stopped = λ c. All-put HasNone p none ps.set refl (h.stopped c);
    })
    | inr on ↦ rw on (record {
      owned = λ q. owners-put p (some ps.fresh) ps.set q new ∙ ground (arith, h.owned q, h.made q);
      made = λ q e. omega (arith, h.made q e);
      started = λ c. All-put HasQuit p (some ps.fresh) ps.set (λ e. cc) (h.started c);
      stopped = λ c. absurd (ground arith);
    })
  ]

  -- What a line's handling does with no panic.
  abbrev pub Keeps : Option (PollerSet C) → Type 0
  Keeps none = ⊥
  Keeps (some ps) = IsRunning ps

  of_Keeps :
      (r : Option (PollerSet C)) → Keeps r → (ps' : PollerSet C) × (r ≡ some ps') × IsRunning ps'
  of_Keeps none h = elim h [ ]
  of_Keeps (some ps) h = (ps, refl, h)

  connected-IsRunning :
      (conn : ℕ) (ctx : C) (ps : PollerSet C) → IsRunning ps → Keeps (handle connected conn ctx ps)
  unfolding handle
  connected-IsRunning conn ctx ps h =
      let n = length-put conn ctx ps.conns in
      elim (Bool-cases (length ps.conns == 0 && length (put conn ctx ps.conns) == 1)) [
        | inl first ↦ rw first (record {
          owned = λ q. ground (
            arith,
            owners-start_all ps.set ps.fresh q,
            h.owned q,
            h.made q,
            owners-HasNone ps.set q (h.stopped (ground arith)),
          );
          made = λ q e. omega (arith, h.made q e, owners-start_all ps.set ps.fresh q);
          started = λ c. HasQuit-start_all ps.set ps.fresh;
          stopped = λ c. absurd (ground (arith, n));
        })
        | inr later ↦ rw later (record {
          owned = h.owned;
          made = h.made;
          started = λ c. h.started (ground (arith, n));
          stopped = λ c. absurd (omega (arith, n));
        })
      ]

  disconnected-IsRunning :
      (conn : ℕ) (ctx : C) (ps : PollerSet C)
      → IsRunning ps
      → Keeps (handle disconnected conn ctx ps)
  unfolding handle
  disconnected-IsRunning conn ctx ps h =
      let n = length-delete conn ps.conns in
      elim (Bool-cases (length ps.conns == 1 && length (delete conn ps.conns) == 0)) [
        | inl last ↦
            let s = stop_all-Stopped ps.set ps.closed (λ q. ground (arith, h.owned q)) in
            rw (last, s.returned)
              (record {
                owned = λ q.
                    owners-HasNone s.set' q s.without
                    ∙ ground (arith, h.owned q, h.made q, s.marks q);
                made = λ q e. ground (arith, h.owned q, h.made q, s.marks q);
                started = λ c. absurd (ground arith);
                stopped = λ c. s.without;
              })
        | inr later ↦ rw later (record {
          owned = h.owned;
          made = h.made;
          started = λ c. h.started (omega (arith, n));
          stopped = λ c. h.stopped (ground (arith, n));
        })
      ]

  -- From a state in which the goroutines that run are just those of the pollers, any line is
  -- handled with no channel closed twice, to such a state again.
  pub handle-IsRunning :
      (cmd : Cmd) (conn : ℕ) (ctx : C) (ps : PollerSet C)
      → IsRunning ps
      → (ps' : PollerSet C) × (handle cmd conn ctx ps ≡ some ps') × IsRunning ps'
  handle-IsRunning connected conn ctx ps h = of_Keeps _ (connected-IsRunning conn ctx ps h)
  handle-IsRunning disconnected conn ctx ps h = of_Keeps _ (disconnected-IsRunning conn ctx ps h)
  handle-IsRunning other conn ctx ps h = (ps, unfold handle in refl, h)
