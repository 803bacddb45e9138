-- ===== src/Drivers/Reminders/Tracked.antt =====
-- What `running` of drivers/reminddriver has for the goroutines that wait.
use sp0rkle.Prelude.{
  ◌≡◌, ◌≢◌, refl, sym, ◌∙◌, inl, inr, ℕ, true, false, some, List, [], ◌∷◌, Bytes, bytes_eq,
  bytes_eq_refl, bytes_eq_iff, ltb, Bool-cases, All, arith,
}
use sp0rkle.Drivers.Reminders.{Waiting, Reminders, value_of, without, remind}
use sp0rkle.Drivers.Reminders.Cancelled.{IsTracked}

module _ (id j : Bytes) (other : j ≢ id) where
  not_same : (k : Bytes) → bytes_eq k id ≡ true → bytes_eq k j ≡ false
  not_same k e = elim (Bool-cases (bytes_eq k j)) [
    | inr n ↦ n
    | inl y ↦ absurd (other (sym ((bytes_eq_iff k j).0 y) ∙ (bytes_eq_iff k id).0 e))
  ]

  value_of-without_other : (m : List (Bytes × ℕ)) → value_of j (without id m) ≡ value_of j m
  unfolding value_of without
  value_of-without_other [] = refl
  value_of-without_other ((k, v) ∷ m) = elim (Bool-cases (bytes_eq k id)) [
    | inl e ↦ rw (e, not_same k e) (value_of-without_other m)
    | inr e ↦ rw e (ground (arith, value_of-without_other m))
  ]

-- If each goroutine that waits is the one that `running` has for its reminder, and none waits for a
-- reminder, then this is so after Remind of that reminder as well.
pub remind-IsTracked :
    (now at : ℕ) (id : Bytes) (st : Reminders)
    → IsTracked st
    → All (λ w. w.id ≢ id) st.waiting
    → IsTracked (remind now id at st)
unfolding remind
remind-IsTracked now at id st t n = elim (Bool-cases (ltb at now)) [
  | inl e ↦ rw e t
  | inr e ↦ rw e (mine, rest st.waiting t n)
]
  where
    mine : value_of id ((id, st.next) ∷ without id st.running) ≡ some st.next
    mine = unfold value_of in rw (bytes_eq_refl id) refl

    kept :
        (w : Waiting)
        → value_of w.id st.running ≡ some w.number
        → w.id ≢ id
        → value_of w.id ((id, st.next) ∷ without id st.running) ≡ some w.number
    kept w e d =
        let apart : bytes_eq id w.id ≡ false = (elim (Bool-cases (bytes_eq id w.id)) [
          | inr z ↦ z
          | inl y ↦ absurd (d (sym ((bytes_eq_iff id w.id).0 y)))
        ]) in
        unfold value_of in rw apart (value_of-without_other id w.id d st.running ∙ e)

    rest :
        (ws : List Waiting)
        → All (λ w. value_of w.id st.running ≡ some w.number) ws
        → All (λ w. w.id ≢ id) ws
        → All (λ w. value_of w.id ((id, st.next) ∷ without id st.running) ≡ some w.number) ws
    rest [] a d = tt
    rest (w ∷ ws) a d = (kept w a.0 d.0, rest ws a.1 d.1)
