-- ===== src/Bot/ServersTests.antt =====
-- Runs of the model of bot/serverset.go.
use sp0rkle.Prelude.{ℕ, ◌≡◌, refl, Bool, true, false, some, List, [], ◌∷◌, arith}
use sp0rkle.Bot.Servers.{
  Phase, up, pausing, ended, Server, connect_ok, connect_failed, disconnected, time_out, receive,
  ServerSet, received, happen, happen_at, shut, shut_at, Event, on, visit, leave, send, Stage,
  at_servers, finished, step, run, connect,
}
use sp0rkle.Bot.Servers.Stuck.{IsStuck, run-IsStuck}
use sp0rkle.Bot.Servers.Leaving.{IsUp}
use sp0rkle.Bot.Servers.Closing.{Returns, shutdown-Returns}

abbrev server_at : Phase → Bool → Bool → Server
server_at p shutdown online = record {
  phase = p;
  shutdown = shutdown;
  online = online;
  senders = [];
}

abbrev set_of : List Server → ℕ → ℕ → Stage → Bool → ServerSet
set_of servers wg position stage main_waits = record {
  servers = servers;
  wg = wg;
  position = position;
  blocked = false;
  stage = stage;
  main_waits = main_waits;
}

abbrev orderly : List Event
orderly = on 0 connect_ok ∷ visit ∷ on 0 disconnected ∷ on 0 receive ∷ leave ∷ send ∷ []

connect-run :
    run orderly (connect 1) ≡ some (set_of (server_at ended true false ∷ []) 0 1 finished false)
unfolding run step happen_at happen received shut_at shut connect
connect-run = refl

abbrev no_luck : List Event
no_luck = visit ∷ on 0 receive ∷ on 0 connect_failed ∷ on 0 time_out ∷ on 0 connect_failed ∷ []

abbrev waiting : ServerSet
waiting = set_of (server_at pausing false false ∷ []) 1 0 at_servers true

abbrev still_waiting : ServerSet
still_waiting = set_of (server_at pausing true false ∷ []) 1 1 at_servers true

no_luck-run : run no_luck waiting ≡ some still_waiting
unfolding run step happen_at happen received shut_at shut
no_luck-run = refl

-- A server that cannot be reached is strobed, tries again and fails again.
run-IsStuck_example : IsStuck still_waiting
run-IsStuck_example =
    run-IsStuck no_luck waiting still_waiting
      (record { counted = refl; trying = omega arith; waits = refl }) tt no_luck-run

abbrev both_up : ServerSet
both_up = set_of (server_at up false true ∷ server_at up false true ∷ []) 2 0 at_servers true

up-IsUp : IsUp (server_at up false true)
up-IsUp = record { phase_up = refl; online = refl; not_shut = refl; no_senders = refl }

shutdown-Returns_example : Returns both_up
shutdown-Returns_example = shutdown-Returns both_up (up-IsUp, (up-IsUp, tt)) refl refl refl refl
