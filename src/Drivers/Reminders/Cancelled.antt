-- ===== src/Drivers/Reminders/Cancelled.antt =====
-- Which goroutines of drivers/reminddriver can be stopped.
use sp0rkle.Prelude.{
  ◌≡◌, ◌≢◌, refl, sym, subst, ap, ◌∙◌, inl, inr, ℕ, ◌≤◌, ◌<◌, true, false, none, some, List, [],
  ◌∷◌, Bytes, bytes_eq_refl, ltb, ◌==◌, Bool-cases, Option-cases, All, arith,
}
use sp0rkle.Drivers.Reminders.{
  Waiting, Reminders, value_of, without, remove, ends, waits, remind, cancelled, forget, fire,
  snooze,
}

waits-ends_other : (n k : ℕ) (ws : List Waiting) → n ≢ k → waits n (ends k ws) ≡ waits n ws
unfolding waits ends
waits-ends_other n k [] d = refl
waits-ends_other n k (w ∷ ws) d = ground (arith, waits-ends_other n k ws d)

-- The goroutine that Remind starts is the one that Forget stops.
waiting-forget :
    (now at : ℕ) (id : Bytes) (st : Reminders)
    → now ≤ at
    → (forget id true (remind now id at st)).waiting ≡ ends st.next st.waiting
unfolding forget remind value_of ends
waiting-forget now at id st l =
    let late : ltb at now ≡ false = ground arith in
    let same : (st.next == st.next) ≡ true = ground arith in rw (late, bytes_eq_refl id, same) refl

sent-remind :
    (now at : ℕ) (id : Bytes) (st : Reminders)
    → (forget id true (remind now id at st)).sent ≡ st.sent
unfolding forget remind
sent-remind now at id st = elim (Bool-cases (ltb at now)) [ inl e ↦ rw e refl | inr e ↦ rw e refl ]

fired :
    (target_of : Bytes → Bytes) (n : ℕ) (id : Bytes) (st : Reminders)
    → waits n st.waiting ≡ some id
    → (st' : Reminders) × (fire target_of n st ≡ some st') × (st'.sent ≡ id ∷ st.sent)
unfolding fire forget
fired target_of n id st w = (after, rw (w, fire) refl, refl)
  where
    after : Reminders
    after = forget id false (record st {
      waiting = ends n st.waiting;
      finished = (target_of id, id) ∷ without (target_of id) st.finished;
      sent = id ∷ st.sent;
    })

-- If the last reminder of a nick that has fired is waited for by a goroutine already, as after an
-- earlier snooze, and the number of this goroutine is below the next one, then snoozing it to a
-- time that is not in the past succeeds, and after Forget has been told to stop the reminder that
-- goroutine can still fire and sends it.
pub snooze_again :
    (target_of : Bytes → Bytes) (now at n : ℕ) (nick id : Bytes) (st : Reminders)
    → value_of nick st.finished ≡ some id
    → now ≤ at
    → waits n st.waiting ≡ some id
    → n < st.next
    → (st' : Reminders) × (snooze now nick at st ≡ some st')
      × ((st'' : Reminders) × (fire target_of n (forget id true st') ≡ some st'')
          × (st''.sent ≡ id ∷ st.sent))
unfolding snooze
snooze_again target_of now at n nick id st f l w lt =
    let late : ltb at now ≡ false = ground arith in
    let old = record st { stored = id ∷ remove id st.stored } in
    let st' = remind now id at old in
    let other : n ≢ st.next = λ e. absurd (omega arith) in
    let still =
      ap (waits n) (waiting-forget now at id old l)
      ∙ waits-ends_other n st.next st.waiting other
      ∙ w in
    let (st'', there, sent) = fired target_of n id (forget id true st') still in
    (
      st',
      rw (f, late, snooze) refl,
      (st'', there, sent ∙ ap (λ l. id ∷ l) (sent-remind now at id old)),
    )

waits-ends : (n : ℕ) (ws : List Waiting) → waits n (ends n ws) ≡ none
unfolding waits ends
waits-ends n [] = refl
waits-ends n (w ∷ ws) = ground (arith, waits-ends n ws)

-- A goroutine that waits is the one that `running` has for its reminder.
abbrev pub IsTracked : Reminders → Type 0
IsTracked st = All (λ w. value_of w.id st.running ≡ some w.number) st.waiting

tracked :
    (n : ℕ) (id : Bytes) (running : List (Bytes × ℕ)) (ws : List Waiting)
    → All (λ w. value_of w.id running ≡ some w.number) ws
    → waits n ws ≡ some id
    → value_of id running ≡ some n
unfolding waits
tracked n id running [] a e = absurd cc
tracked n id running (w ∷ ws) a e = elim (Bool-cases (w.number == n)) [
  | inl q ↦
      let number : w.number ≡ n = ground arith in
      let same : w.id ≡ id = ground (arith, q) in
      sym (ap (λ i. value_of i running) same) ∙ a.0 ∙ ap some number
  | inr q ↦ tracked n id running ws a.1 (ground (arith, q))
]

-- If each goroutine that waits is the one that `running` has for its reminder, then after Forget
-- has been told to stop a reminder no goroutine waits for it.
pub forget-quiet :
    (id : Bytes) (st : Reminders) (n : ℕ)
    → IsTracked st
    → waits n (forget id true st).waiting ≢ some id
unfolding forget
forget-quiet id st n t e = elim (Option-cases (value_of id st.running)) [
  | inl v ↦
      let there =
        tracked n id st.running st.waiting t
          (subst (λ o. waits n (cancelled o st.waiting) ≡ some id) v e) in
      absurd (cc (v, there))
  | inr (m, v) ↦
      let left = subst (λ o. waits n (cancelled o st.waiting) ≡ some id) v e in
      elim (Bool-cases (n == m)) [
        | inl q ↦
            let same : m ≡ n = ground arith in
            let gone = waits-ends n st.waiting in
            let left' = subst (λ k. waits n (ends k st.waiting) ≡ some id) same left in
            absurd (cc (gone, left'))
        | inr q ↦
            let other : n ≢ m = λ z. absurd (ground (arith, q, z)) in
            let there =
              tracked n id st.running st.waiting t
                (sym (waits-ends_other n m st.waiting other) ∙ left) in
            let same : m ≡ n = cc (v, there) in absurd (other (sym same))
      ]
]
