-- ===== src/Bot/Servers.antt =====
-- bot/serverset.go: connectLoop, Connect, Shutdown and Handle of the servers of the bot.
-- The goroutines take turns in steps. A server's channel wait has no buffer, so that a send on it
-- waits until the loop receives; the senders stand in a queue. Whether a connection is made, and
-- when it closes, is goirc's. The channel that Connect returns has no buffer either: Shutdown's last
-- send on it waits for main, which receives from it once.
pub mod Stuck
pub mod Leaving
pub mod Closing
use sp0rkle.Prelude.{
  ℕ, zero, suc, ◌-◌, Bool, true, false, not, ◌&&◌, Option, none, some, List, [], ◌∷◌, ◌++◌, length,
  ◌==◌, if◌then◌else◌,
}

-- Where connectLoop is: in s.Connect(), waiting for a disconnect, in the select, or behind the loop.
pub data Phase : Type 0 where
  connecting up pausing ended : Phase

pub data Sender : Type 0 where
  by_handle by_shutdown : Sender

pub record Server : Type 0 where
  pub phase : Phase
  pub shutdown : Bool
  -- `Connected()`
  pub online : Bool
  pub senders : List Sender

-- What happens to one server: its attempt to connect ends, its connection closes and Handle is
-- called, `time.After` fires, or the loop receives from wait.
pub data Happening : Type 0 where
  connect_ok connect_failed disconnected time_out receive : Happening

-- A server after a step, and whether its loop has ended and whether Shutdown's send went through.
pub record Outcome : Type 0 where
  pub server : Server
  pub has_ended : Bool
  pub unblocks : Bool

abbrev quiet : Server → Option Outcome
quiet s = some (record { server = s; has_ended = false; unblocks = false })

abbrev pub is_by_shutdown : Sender → Bool
is_by_shutdown by_handle = false
is_by_shutdown by_shutdown = true

-- What connectLoop does with a strobe. The `break` in the select leaves the select alone.
unfoldable pub received : Phase → Sender → List Sender → Server → Option Outcome
received up w ws s = some (record {
  server = record s { phase = if s.shutdown then ended else connecting; senders = ws };
  has_ended = s.shutdown;
  unblocks = is_by_shutdown w;
})
received pausing w ws s = some (record {
  server = record s { phase = connecting; senders = ws };
  has_ended = false;
  unblocks = is_by_shutdown w;
})
received _ w ws s = none

-- `none`: this cannot happen in this state.
unfoldable pub happen : Happening → Server → Option Outcome
unfolding received
happen connect_ok s = elim s.phase [
  | connecting ↦ quiet (record s { phase = up; online = true })
  | _ ↦ none
]
happen connect_failed s = elim s.phase [
  | connecting ↦ quiet (record s { phase = pausing })
  | _ ↦ none
]
happen disconnected s =
    if s.online
    then quiet (record s { online = false; senders = s.senders ++ by_handle ∷ [] })
    else none
happen time_out s = elim s.phase [ pausing ↦ quiet (record s { phase = connecting }) | _ ↦ none ]
happen receive s = elim s.senders [ [] ↦ none | w ∷ ws ↦ received s.phase w ws s ]

-- Where Shutdown is: at the servers and its wait for the group, at its send on the channel that
-- Connect has returned, or behind that.
pub data Stage : Type 0 where
  at_servers at_send finished : Stage

abbrev pub is_at_servers : Stage → Bool
is_at_servers at_servers = true
is_at_servers _ = false

abbrev pub is_at_send : Stage → Bool
is_at_send at_send = true
is_at_send _ = false

-- How far Shutdown is: its stage, the server that it comes to, and whether it waits in its send to
-- it; and whether main waits in `<-botInst.Connect()`.
pub record ServerSet : Type 0 where
  pub servers : List Server
  pub wg : ℕ
  pub position : ℕ
  pub blocked : Bool
  pub stage : Stage
  pub main_waits : Bool

unfoldable pub connect_loops : ℕ → List Server
connect_loops zero = []
connect_loops (suc n) =
    record { phase = connecting; shutdown = false; online = false; senders = [] } ∷ connect_loops n

-- `Connect` of so many servers, on whose channel main waits; Shutdown has not been called.
unfoldable pub connect : ℕ → ServerSet
unfolding connect_loops
connect n = record {
  servers = connect_loops n;
  wg = n;
  position = 0;
  blocked = false;
  stage = at_servers;
  main_waits = true;
}

-- The body of the loop of Shutdown for a server that is connected, and for one that is not.
unfoldable pub shut : Server → Server
shut s =
    if s.online
    then record s { shutdown = true }
    else record s { shutdown = true; senders = s.senders ++ by_shutdown ∷ [] }

-- The loop of Shutdown at a position: the servers, and whether its send waits.
unfoldable pub shut_at : ℕ → List Server → Option (List Server × Bool)
unfolding shut
shut_at k [] = none
shut_at zero (s ∷ ss) = some (shut s ∷ ss, not s.online)
shut_at (suc k) (s ∷ ss) = elim (shut_at k ss) [ none ↦ none | some (ss', b) ↦ some (s ∷ ss', b) ]

unfoldable pub happen_at : ℕ → Happening → List Server → Option (List Server × Outcome)
unfolding happen
happen_at i h [] = none
happen_at zero h (s ∷ ss) = elim (happen h s) [ none ↦ none | some o ↦ some (o.server ∷ ss, o) ]
happen_at (suc i) h (s ∷ ss) = elim (happen_at i h ss) [
  | none ↦ none
  | some (ss', o) ↦ some (s ∷ ss', o)
]

-- A step: something happens to a server, Shutdown goes on to its next server, its wait for the
-- group ends, or its last send meets main's receive, after which it returns.
pub data Event : Type 0 where
  on : ℕ → Happening → Event
  visit : Event
  leave : Event
  send : Event

unfoldable pub step : Event → ServerSet → Option ServerSet
unfolding happen_at shut_at
step (on i h) ss = elim (happen_at i h ss.servers) [
  | none ↦ none
  | some (servers, o) ↦ some (record ss {
    servers = servers;
    wg = if o.has_ended then ss.wg - 1 else ss.wg;
    position = if o.unblocks then suc ss.position else ss.position;
    blocked = if o.unblocks then false else ss.blocked;
  })
]
step visit ss = elim (shut_at ss.position ss.servers) [
  | none ↦ none
  | some (servers, b) ↦
      if ss.blocked
      then none
      else some (record ss {
        servers = servers;
        position = if b then ss.position else suc ss.position;
        blocked = b;
      })
]
step leave ss =
    if ss.position == length ss.servers && (ss.wg == 0 && is_at_servers ss.stage)
    then some (record ss { stage = at_send })
    else none
step send ss =
    if is_at_send ss.stage && ss.main_waits
    then some (record ss { stage = finished; main_waits = false })
    else none

unfoldable pub run : List Event → ServerSet → Option ServerSet
run [] ss = some ss
run (e ∷ es) ss = elim (step e ss) [ none ↦ none | some ss' ↦ run es ss' ]
