-- ===== src/Bot/Tests.antt =====
-- Runs of the model of bot/.
use sp0rkle.Prelude.{
  ℕ, ◌≡◌, refl, sym, ◌∙◌, ◌⊎◌, inl, inr, true, none, some, List, [], ◌∷◌, Bytes, codes, arith,
}
use sp0rkle.Bot.Pollers.{PollerSet, new_poller_set, add, mem, handle, connected}
use sp0rkle.Bot.Pollers.Goroutines.{runs, owners}
use sp0rkle.Bot.Pollers.Running.{
  IsRunning, new_poller_set-IsRunning, add-IsRunning, handle-IsRunning,
}
use sp0rkle.Bot.Pollers.Again.{add_again}
use sp0rkle.Bot.Commands.{match, match_loop}
use sp0rkle.Util.Text.{has_prefix}
use sp0rkle.Bot.Commands.Match.{
  IsMap, SameEntries, match-order, match-Longest, AppliesNot, Longest, In,
}

one_poller-IsRunning : IsRunning (add 7 (new_poller_set ℕ))
one_poller-IsRunning =
    add-IsRunning 7 (new_poller_set ℕ) (unfold new_poller_set in tt) new_poller_set-IsRunning

handle-IsRunning_example :
    (ps' : PollerSet ℕ) × (handle connected 5 0 (add 7 (new_poller_set ℕ)) ≡ some ps')
    × IsRunning ps'
handle-IsRunning_example =
    handle-IsRunning connected 5 0 (add 7 (new_poller_set ℕ)) one_poller-IsRunning

abbrev connected_once : PollerSet ℕ
connected_once = record { set = (7, some 0) ∷ []; conns = (5, 0) ∷ []; fresh = 1; closed = [] }

connected_once-IsRunning : IsRunning connected_once
unfolding mem
connected_once-IsRunning = record {
  owned = λ q. ground arith;
  made = λ q e. cc;
  started = λ h. ((λ e. cc), tt);
  stopped = λ h. absurd (omega arith);
}

-- Poller 7 is added again: its first goroutine, of channel 0, is nobody's.
add_again_example :
    (runs (add 7 connected_once).fresh (add 7 connected_once).closed 0 ≡ true)
    × (owners 0 (add 7 connected_once).set ≡ 0)
add_again_example = add_again 7 0 connected_once connected_once-IsRunning (omega arith) refl

abbrev commands : List (Bytes × ℕ)
commands = (codes "roll", 1) ∷ (codes "roll dice", 2) ∷ []

abbrev shuffled : List (Bytes × ℕ)
shuffled = (codes "roll dice", 2) ∷ (codes "roll", 1) ∷ []

abbrev lower_case : Bytes → Bytes
lower_case s = s

commands-match : match lower_case commands (codes "roll dice 2d6") ≡ (some 2, 9)
unfolding match match_loop has_prefix
commands-match = refl

match-Longest_example :
    ((match lower_case commands (codes "roll dice 2d6") ≡ (none, 0))
      × AppliesNot lower_case (codes "roll dice 2d6") commands)
    ⊎ Longest lower_case
        (codes "roll dice 2d6")
        commands
        (match lower_case commands (codes "roll dice 2d6"))
match-Longest_example = match-Longest lower_case commands (codes "roll dice 2d6")

shuffled-IsMap : IsMap lower_case shuffled
shuffled-IsMap d e (inl p) (inl q) k = p ∙ sym q
shuffled-IsMap d e (inl p) (inr (inl q)) k = cc
shuffled-IsMap d e (inr (inl p)) (inl q) k = cc
shuffled-IsMap d e (inr (inl p)) (inr (inl q)) k = p ∙ sym q
shuffled-IsMap d e (inl p) (inr (inr q)) k = elim q [ ]
shuffled-IsMap d e (inr (inl p)) (inr (inr q)) k = elim q [ ]
shuffled-IsMap d e (inr (inr p)) q k = elim p [ ]

swap_entries : (e x y : Bytes × ℕ) → In e (x ∷ y ∷ []) → In e (y ∷ x ∷ [])
swap_entries e x y (inl p) = inr (inl p)
swap_entries e x y (inr (inl p)) = inl p
swap_entries e x y (inr (inr p)) = elim p [ ]

same_entries : SameEntries lower_case commands shuffled
same_entries e = (swap_entries e _ _, swap_entries e _ _)

match-order_example :
    match lower_case commands (codes "roll dice 2d6")
    ≡ match lower_case shuffled (codes "roll dice 2d6")
match-order_example =
    match-order lower_case commands shuffled (codes "roll dice 2d6") shuffled-IsMap (λ e i. refl)
      same_entries
