-- ===== src/Drivers/Reminders.antt =====
-- drivers/reminddriver: the goroutines that wait for reminders: Remind and Forget of
-- reminddriver.go, snooze of commands.go, and unload of handlers.go.
-- A goroutine and its cancel function stand by a number. The collection stands by the ids in it; the
-- calls of it that change it succeed, and no time passes within a command. `target_of` is the target
-- of a reminder in lower case.
pub mod Cancelled
pub mod Tracked
use sp0rkle.Prelude.{
  ℕ, suc, Bool, true, false, not, Option, none, some, List, [], ◌∷◌, Bytes, bytes_eq, ltb, ◌==◌,
  if◌then◌else◌,
}

-- A goroutine that waits for its deadline, and the id of its reminder.
pub record Waiting : Type 0 where
  pub number : ℕ
  pub id : Bytes

pub record Reminders : Type 0 where
  pub waiting : List Waiting
  pub next : ℕ
  pub running : List (Bytes × ℕ)
  pub finished : List (Bytes × Bytes)
  pub stored : List Bytes
  -- The reminders that have been sent, the latest first.
  pub sent : List Bytes

unfoldable pub value_of : {A : Type 0} → Bytes → List (Bytes × A) → Option A
value_of k [] = none
value_of k ((j, v) ∷ m) = if bytes_eq j k then some v else value_of k m

unfoldable pub without : {A : Type 0} → Bytes → List (Bytes × A) → List (Bytes × A)
without k [] = []
without k ((j, v) ∷ m) = let rest = without k m in if bytes_eq j k then rest else (j, v) ∷ rest

unfoldable pub remove : Bytes → List Bytes → List Bytes
remove k [] = []
remove k (j ∷ js) = let rest = remove k js in if bytes_eq j k then rest else j ∷ rest

-- A goroutine ends: its context is cancelled or its deadline is there.
unfoldable pub ends : ℕ → List Waiting → List Waiting
ends n [] = []
ends n (w ∷ ws) = let rest = ends n ws in if w.number == n then rest else w ∷ rest

unfoldable pub waits : ℕ → List Waiting → Option Bytes
waits n [] = none
waits n (w ∷ ws) = if w.number == n then some w.id else waits n ws

-- `Remind`
unfoldable pub remind : ℕ → Bytes → ℕ → Reminders → Reminders
unfolding without
remind now id at st = if ltb at now then st else record st {
  waiting = record { number = st.next; id = id } ∷ st.waiting;
  next = suc st.next;
  running = (id, st.next) ∷ without id st.running;
}

-- `cancel()`, where there is a cancel function.
abbrev pub cancelled : Option ℕ → List Waiting → List Waiting
cancelled none ws = ws
cancelled (some n) ws = ends n ws

-- `Forget`
unfoldable pub forget : Bytes → Bool → Reminders → Reminders
unfolding value_of without ends remove
forget id stop st = record st {
  waiting = if stop then cancelled (value_of id st.running) st.waiting else st.waiting;
  running = without id st.running;
  stored = remove id st.stored;
}

-- The deadline of a goroutine is there; `none`: it has ended before.
unfoldable pub fire : (Bytes → Bytes) → ℕ → Reminders → Option Reminders
unfolding waits forget
fire target_of n st = elim (waits n st.waiting) [
  | none ↦ none
  | some id ↦ some (
      forget id false (record st {
        waiting = ends n st.waiting;
        finished = (target_of id, id) ∷ without (target_of id) st.finished;
        sent = id ∷ st.sent;
      }))
]

-- `snooze` of a nick in lower case to a time, which is not in the past.
unfoldable pub snooze : ℕ → Bytes → ℕ → Reminders → Option Reminders
unfolding remind
snooze now nick at st = elim (value_of nick st.finished) [
  | none ↦ none
  | some id ↦
      if ltb at now
      then none
      else some (remind now id at (record st { stored = id ∷ remove id st.stored }))
]

-- `unload`
unfoldable pub cancel_all : List (Bytes × ℕ) → List Waiting → List Waiting
cancel_all [] ws = ws
cancel_all ((id, n) ∷ running) ws = cancel_all running (ends n ws)

unfoldable pub unload : Reminders → Reminders
unfolding cancel_all
unload st = record st { waiting = cancel_all st.running st.waiting; running = [] }
