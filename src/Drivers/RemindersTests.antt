-- ===== src/Drivers/RemindersTests.antt =====
-- Runs of the model of drivers/reminddriver.
use sp0rkle.Prelude.{◌≡◌, ◌≢◌, refl, true, some, [], ◌∷◌, Bytes, codes, bytes_eq, arith}
use sp0rkle.Drivers.Reminders.{
  Reminders, value_of, without, ends, waits, remind, forget, fire, snooze, unload, cancel_all,
}
use sp0rkle.Drivers.Reminders.Cancelled.{snooze_again, forget-quiet}

abbrev nothing_set : Reminders
nothing_set = record {
  waiting = [];
  next = 0;
  running = [];
  finished = [];
  stored = codes "r" ∷ [];
  sent = [];
}

abbrev one_set : Reminders
one_set = record {
  waiting = record { number = 0; id = codes "r" } ∷ [];
  next = 1;
  running = (codes "r", 0) ∷ [];
  finished = [];
  stored = codes "r" ∷ [];
  sent = [];
}

one_reminded : remind 5 (codes "r") 9 nothing_set ≡ one_set
unfolding remind without
one_reminded = refl

all_unloaded : unload one_set ≡ record one_set { waiting = []; running = [] }
unfolding unload cancel_all ends
all_unloaded = refl

forget-quiet_example : waits 0 (forget (codes "r") true one_set).waiting ≢ some (codes "r")
forget-quiet_example = forget-quiet (codes "r") one_set 0 (unfold value_of bytes_eq in (refl, tt))

-- The reminder has fired and is snoozed.
abbrev one_snoozed : Reminders
one_snoozed = record one_set { finished = (codes "n", codes "r") ∷ [] }

abbrev target_of : Bytes → Bytes
target_of id = codes "n"

snooze_again_example :
    (st' : Reminders) × (snooze 10 (codes "n") 20 one_snoozed ≡ some st')
    × ((st'' : Reminders) × (fire target_of 0 (forget (codes "r") true st') ≡ some st'')
        × (st''.sent ≡ codes "r" ∷ []))
snooze_again_example =
    snooze_again target_of 10 20 0 (codes "n") (codes "r") one_snoozed
      (unfold value_of bytes_eq in refl) (omega arith) (unfold waits in refl) (omega arith)
