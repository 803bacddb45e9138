-- ===== src/Collections/Newest.antt =====
-- The reference check of collections/seen/seen.go keeps the newest record of each nick and action.
use sp0rkle.Prelude.{
  ◌≡◌, refl, sym, ap, subst, ◌∙◌, ◌⊎◌, inl, inr, ℕ, ◌+◌, ◌≤◌, Bool, true, none, some, List, [], ◌∷◌,
  ◌++◌, bytes_eq, bytes_eq_iff, bytes_eq_refl, ltb, if◌then◌else◌, count, count-append, All,
  Bool-cases, Option-cases, arith,
}
use sp0rkle.Collections.Seen.{Nick, RefCheck, same_ref, seen_as, see, add, add_all}

count-see_new :
    (p : Nick → Bool) (n : Nick) (ms : List Nick)
    → seen_as n ms ≡ none
    → count p (see n ms) ≡ (if p n then 1 else 0) + count p ms
unfolding seen_as see
count-see_new p n [] h = omega arith
count-see_new p n (m ∷ ms) h = ground (arith, count-see_new p n ms)

count-see_again :
    (p : Nick → Bool) (n prev : Nick) (ms : List Nick)
    → seen_as n ms ≡ some prev
    → (if p prev then 1 else 0) + count p (see n ms) ≡ (if p n then 1 else 0) + count p ms
unfolding seen_as see
count-see_again p n prev [] h = absurd (cc h)
count-see_again p n prev (m ∷ ms) h = elim (Bool-cases (same_ref m n)) [
  | inl e ↦ let same : m ≡ prev = ground (arith, e) in ground (arith, e, ap p same)
  | inr e ↦ ground (arith, e, count-see_again p n prev ms)
]

add_new :
    (n : Nick) (rc : RefCheck)
    → seen_as n rc.seen ≡ none
    → add n rc ≡ record rc { seen = see n rc.seen }
unfolding add
add_new n rc e = rw (e, add) refl

add_seen :
    (n prev : Nick) (rc : RefCheck)
    → seen_as n rc.seen ≡ some prev
    → add n rc ≡ (
        if ltb prev.timestamp n.timestamp
        then record { del = rc.del ++ prev ∷ []; seen = see n rc.seen }
        else record rc { del = rc.del ++ n ∷ [] })
unfolding add
add_seen n prev rc e = rw (e, add) refl

abbrev total : (Nick → Bool) → RefCheck → ℕ
total p rc = count p rc.del + count p rc.seen

count-add :
    (p : Nick → Bool) (n : Nick) (rc : RefCheck)
    → total p (add n rc) ≡ (if p n then 1 else 0) + total p rc
count-add p n rc = elim (Option-cases (seen_as n rc.seen)) [
  | inl e ↦ ap (total p) (add_new n rc e) ∙ omega (arith, count-see_new p n rc.seen e)
  | inr (prev, e) ↦
      ap (total p) (add_seen n prev rc e) ∙ (elim (Bool-cases (ltb prev.timestamp n.timestamp)) [
        | inl t ↦
            rw t
              (omega (arith, count-see_again p n prev rc.seen e, count-append p rc.del (prev ∷ [])))
        | inr t ↦ rw t (omega (arith, count-append p rc.del (n ∷ [])))
      ])
]

-- Any test passes as many of the records to be deleted and of those in the map as of the records
-- that have been gone through and those of before.
pub count-add_all :
    (p : Nick → Bool) (ns : List Nick) (rc : RefCheck)
    → count p (add_all ns rc).del + count p (add_all ns rc).seen
      ≡ count p ns + (count p rc.del + count p rc.seen)
unfolding add_all
count-add_all p [] rc = omega arith
count-add_all p (n ∷ ns) rc = omega (arith, count-add_all p ns (add n rc), count-add p n rc)

-- The entry for the nick and the action of `n` is there and as new.
abbrev pub Covers : Nick → List Nick → Type 0
Covers n seen = (m : Nick) × (seen_as n seen ≡ some m) × (n.timestamp ≤ m.timestamp)

same_ref_refl : (n : Nick) → same_ref n n ≡ true
same_ref_refl n = ground (arith, bytes_eq_refl n.nick, bytes_eq_refl n.action)

same_ref_trans : (a b c : Nick) → same_ref a b ≡ true → same_ref a c ≡ same_ref b c
same_ref_trans a b c h = ground (
  arith,
  ap (λ s. bytes_eq s c.nick) ((bytes_eq_iff a.nick b.nick).0 (ground arith)),
  ap (λ s. bytes_eq s c.action) ((bytes_eq_iff a.action b.action).0 (ground arith)),
)

same_ref_right : (a b c : Nick) → same_ref b c ≡ true → same_ref a b ≡ same_ref a c
same_ref_right a b c h = ground (
  arith,
  ap (λ s. bytes_eq a.nick s) ((bytes_eq_iff b.nick c.nick).0 (ground arith)),
  ap (λ s. bytes_eq a.action s) ((bytes_eq_iff b.action c.action).0 (ground arith)),
)

-- The entry of `k` after `n` has been seen.
seen_as-see :
    (k n : Nick) (ms : List Nick)
    → seen_as k (see n ms) ≡ (if same_ref n k then some n else seen_as k ms)
unfolding seen_as see
seen_as-see k n [] = refl
seen_as-see k n (m ∷ ms) =
    ground (arith, seen_as-see k n ms, same_ref_trans m n k, same_ref_right m n k)

seen_as-same : (k n : Nick) (ms : List Nick) → same_ref n k ≡ true → seen_as n ms ≡ seen_as k ms
unfolding seen_as
seen_as-same k n [] h = refl
seen_as-same k n (m ∷ ms) h =
    rw (same_ref_right m n k h)
      (ap (λ o. if same_ref m k then some m else o) (seen_as-same k n ms h))

-- Either `n` becomes the entry and is as new as the last one, or the entry is as new as `n`.
add-cases :
    (n : Nick) (rc : RefCheck)
    → (((add n rc).seen ≡ see n rc.seen)
        × ((m : Nick) → seen_as n rc.seen ≡ some m → m.timestamp ≤ n.timestamp))
      ⊎ (((add n rc).seen ≡ rc.seen) × Covers n rc.seen)
add-cases n rc = elim (Option-cases (seen_as n rc.seen)) [
  | inl e ↦ inl (ap (λ r. r.seen) (add_new n rc e), λ m f. absurd (ground (arith, e, f)))
  | inr (prev, e) ↦
      let added = ap (λ r. r.seen) (add_seen n prev rc e) in
      elim (Bool-cases (ltb prev.timestamp n.timestamp)) [
        | inl t ↦ inl (
          added ∙ rw t refl,
          λ m f.
              (let same : prev ≡ m = cc (e, f) in
                let order : prev.timestamp ≤ n.timestamp = ground (arith, t) in
                subst (λ q. q.timestamp ≤ n.timestamp) same order),
        )
        | inr t ↦ inr (added ∙ rw t refl, (prev, e, ground (arith, t)))
      ]
]

see-Covers :
    (k n : Nick) (ms : List Nick)
    → ((m : Nick) → seen_as n ms ≡ some m → m.timestamp ≤ n.timestamp)
    → Covers k ms
    → Covers k (see n ms)
see-Covers k n ms newer (m, e, le) = elim (Bool-cases (same_ref n k)) [
  | inl t ↦
      let older = newer m (seen_as-same k n ms t ∙ e) in
      (n, seen_as-see k n ms ∙ rw t refl, omega arith)
  | inr t ↦ (m, seen_as-see k n ms ∙ rw t e, le)
]

add-Covers_new : (n : Nick) (rc : RefCheck) → Covers n (add n rc).seen
add-Covers_new n rc = elim (add-cases n rc) [
  | inl (e, newer) ↦
      subst (Covers n) (sym e) (n, seen_as-see n n rc.seen ∙ rw (same_ref_refl n) refl, omega arith)
  | inr (e, c) ↦ subst (Covers n) (sym e) c
]

add-Covers : (k n : Nick) (rc : RefCheck) → Covers k rc.seen → Covers k (add n rc).seen
add-Covers k n rc c = elim (add-cases n rc) [
  | inl (e, newer) ↦ subst (Covers k) (sym e) (see-Covers k n rc.seen newer c)
  | inr (e, _) ↦ subst (Covers k) (sym e) c
]

add_all-Covers :
    (k : Nick) (ns : List Nick) (rc : RefCheck) → Covers k rc.seen → Covers k (add_all ns rc).seen
unfolding add_all
add_all-Covers k [] rc c = c
add_all-Covers k (n ∷ ns) rc c = add_all-Covers k ns (add n rc) (add-Covers k n rc c)

-- For each record that is checked, the map has in the end a record of the same nick and action
-- that is as new.
pub add_all-All : (ns : List Nick) (rc : RefCheck) → All (λ n. Covers n (add_all ns rc).seen) ns
unfolding add_all
add_all-All [] rc = tt
add_all-All (n ∷ ns) rc =
    (add_all-Covers n ns (add n rc) (add-Covers_new n rc), add_all-All ns (add n rc))
