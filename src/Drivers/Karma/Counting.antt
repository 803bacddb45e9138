-- ===== src/Drivers/Karma/Counting.antt =====
-- What recordKarma of drivers/karmadriver/handlers.go leaves in the collection of karma.
use sp0rkle.Prelude.{
  ℕ, suc, ◌+◌, ◌≡◌, ap, subst, sym, ◌∙◌, inl, inr, Bool, false, Option, none, some, List, [], ◌∷◌,
  Bytes, arith, count, length, bytes_eq, bytes_eq_iff, if◌then◌else◌, Bool-cases, Option-cases, ℤ,
  pos, negsuc, ◌+ℤ◌, add_int, sub_int,
}
use sp0rkle.Db.Bolt.{ok, BucketPath, Bolt, Codec}
use sp0rkle.Db.Keyed.{get}
use sp0rkle.Db.Keyed.Stored.{Result-cases}
use sp0rkle.Collections.Karma.{
  Karma, found, key_of, key_for, new_karma, plus, minus, karma_for, put,
}
use sp0rkle.Collections.Karma.Stored.{karma_for-put, karma_for-put_other}
use sp0rkle.Drivers.Karma.{Thing, voted, record_karma}
use sp0rkle.Drivers.Karma.Bounds.{Fits, add_one-Fits, sub_one-Fits, +ℤ-zero, +ℤ_assoc}

abbrev pub score_of : Option Karma → ℤ
score_of none = pos 0
score_of (some k) = k.score

abbrev pub votes_of : Option Karma → ℤ
votes_of none = pos 0
votes_of (some k) = k.votes

-- What a vote counts.
abbrev pub worth : Thing → ℤ
worth t = if t.plus then pos 1 else negsuc 0

module _ (to_lower : Bytes → Bytes) where
  -- A vote for the same thing, whatever the case.
  abbrev pub is_for : Bytes → Thing → Bool
  is_for s t = bytes_eq (to_lower t.thing) (to_lower s)

  -- The votes for a thing, with their signs.
  abbrev pub net : Bytes → List Thing → ℤ
  net s [] = pos 0
  net s (t ∷ ts) = (if is_for s t then worth t else pos 0) +ℤ net s ts

module _ {Tx : Type 0} (bolt : Bolt Tx) (codec : Codec Karma) (root : BucketPath)
    (to_lower : Bytes → Bytes) (nick : Bytes) where
  abbrev pub score_in : Bytes → Tx → ℤ
  score_in s tx = score_of (karma_for bolt codec root to_lower s tx)

  abbrev pub votes_in : Bytes → Tx → ℤ
  votes_in s tx = votes_of (karma_for bolt codec root to_lower s tx)

  abbrev pub HasKey : Bytes → Option Karma → Type 0
  HasKey s none = Unit
  HasKey s (some k) = to_lower s ≡ k.key

  -- What is found for a thing has its key.
  abbrev pub IsConsistent : Tx → Type 0
  IsConsistent tx = (s : Bytes) → HasKey s (karma_for bolt codec root to_lower s tx)

  same_karma :
      (s t : Bytes) (tx : Tx)
      → to_lower s ≡ to_lower t
      → karma_for bolt codec root to_lower s tx ≡ karma_for bolt codec root to_lower t tx
  unfolding karma_for
  same_karma s t tx e = ap (λ q. found (get bolt codec key_of root (key_for q) tx)) e

  voted-key :
      (now : ℕ) (t : Thing) (tx : Tx)
      → IsConsistent tx
      → (voted bolt codec root to_lower nick now t tx).key ≡ to_lower t.thing
  unfolding voted plus minus new_karma
  voted-key now t tx c = elim (Option-cases (karma_for bolt codec root to_lower t.thing tx)) [
    | inl e ↦ rw e (ground arith)
    | inr (k, e) ↦
        let key : to_lower t.thing ≡ k.key = subst (HasKey t.thing) e (c t.thing) in
        rw e (ground (arith, key))
  ]

  voted-score :
      (now : ℕ) (t : Thing) (tx : Tx)
      → (voted bolt codec root to_lower nick now t tx).score ≡ (
          if t.plus
          then add_int (score_in t.thing tx) (pos 1)
          else sub_int (score_in t.thing tx) (pos 1))
  unfolding voted plus minus new_karma
  voted-score now t tx = elim (Option-cases (karma_for bolt codec root to_lower t.thing tx)) [
    | inl e ↦ rw e (ground arith)
    | inr (k, e) ↦ rw e (ground arith)
  ]

  voted-votes :
      (now : ℕ) (t : Thing) (tx : Tx)
      → (voted bolt codec root to_lower nick now t tx).votes ≡ add_int (votes_in t.thing tx) (pos 1)
  unfolding voted plus minus new_karma
  voted-votes now t tx = elim (Option-cases (karma_for bolt codec root to_lower t.thing tx)) [
    | inl e ↦ rw e (ground arith)
    | inr (k, e) ↦ rw e (ground arith)
  ]

  -- What one vote that is stored does to a thing's score and votes.
  record Voted (n : ℕ) (t : Thing) (s : Bytes) (tx tx' : Tx) : Type 0 where
    score : score_in s tx' ≡ score_in s tx +ℤ (if is_for to_lower s t then worth t else pos 0)
    votes : votes_in s tx' ≡ votes_in s tx +ℤ (if is_for to_lower s t then pos 1 else pos 0)
    score_fits : Fits n (score_in s tx')
    votes_fits : Fits n (votes_in s tx')

  module _ (now : ℕ) (t : Thing) (tx tx' : Tx) (c : IsConsistent tx)
      (done : put bolt codec root to_lower (voted bolt codec root to_lower nick now t tx) tx
        ≡ ok tx') where
    hit :
        (s : Bytes)
        → to_lower t.thing ≡ to_lower s
        → karma_for bolt codec root to_lower s tx'
          ≡ some (voted bolt codec root to_lower nick now t tx)
    hit s e =
        karma_for-put bolt codec root to_lower _ tx tx' done s (sym e ∙ sym (voted-key now t tx c))

    missed :
        (s : Bytes)
        → is_for to_lower s t ≡ false
        → karma_for bolt codec root to_lower s tx' ≡ karma_for bolt codec root to_lower s tx
    missed s e = karma_for-put_other bolt codec root to_lower _ tx tx' done s (λ same.
        let equal =
          (bytes_eq_iff (to_lower t.thing) (to_lower s)).1 (sym (same ∙ voted-key now t tx c)) in
        cc (e, equal))

    vote-IsConsistent : IsConsistent tx'
    vote-IsConsistent r = elim (Bool-cases (bytes_eq (to_lower t.thing) (to_lower r))) [
      | inl e ↦
          let lower = (bytes_eq_iff (to_lower t.thing) (to_lower r)).0 e in
          subst (HasKey r) (sym (hit r lower)) (sym lower ∙ sym (voted-key now t tx c))
      | inr e ↦ subst (HasKey r) (sym (missed r e)) (c r)
    ]

    moved :
        (n : ℕ) (z : ℤ)
        → Fits (suc n) z
        → ((if t.plus then add_int z (pos 1) else sub_int z (pos 1)) ≡ z +ℤ worth t)
          × Fits n (z +ℤ worth t)
    moved n z f = elim (Bool-cases t.plus) [
      | inl e ↦ rw e (add_one-Fits n z f)
      | inr e ↦ rw e (sub_one-Fits n z f)
    ]

    vote-Voted :
        (n : ℕ) (s : Bytes)
        → Fits (suc n) (score_in s tx)
        → Fits (suc n) (votes_in s tx)
        → Voted n t s tx tx'
    vote-Voted n s f g = elim (Bool-cases (is_for to_lower s t)) [
      | inl e ↦
          let lower = (bytes_eq_iff (to_lower t.thing) (to_lower s)).0 e in
          let old = same_karma t.thing s tx lower in
          let score =
            ap score_of (hit s lower)
            ∙ voted-score now t tx
            ∙ ap
                (λ o. if t.plus then add_int (score_of o) (pos 1) else sub_int (score_of o) (pos 1))
                old
            ∙ (moved n _ f).0 in
          let votes =
            ap votes_of (hit s lower)
            ∙ voted-votes now t tx
            ∙ ap (λ o. add_int (votes_of o) (pos 1)) old
            ∙ (add_one-Fits n _ g).0 in
          record {
            score = rw e score;
            votes = rw e votes;
            score_fits = subst (Fits n) (sym score) (moved n _ f).1;
            votes_fits = subst (Fits n) (sym votes) (add_one-Fits n _ g).1;
          }
      | inr e ↦
          let same = missed s e in
          record {
            score = rw e (ap score_of same ∙ sym (+ℤ-zero _));
            votes = rw e (ap votes_of same ∙ sym (+ℤ-zero _));
            score_fits = subst (λ o. Fits n (score_of o)) (sym same) (omega arith);
            votes_fits = subst (λ o. Fits n (votes_of o)) (sym same) (omega arith);
          }
    ]

  -- If recordKarma stores all votes of a line with no error, and no score or number of votes comes
  -- near the ends of an int, then the score of a thing afterwards is what it was with one more for
  -- each of the votes for it and one less for each against it, whatever the case of its letters, and
  -- its number of votes has grown by how many these are. Here the collection holds a thing's karma
  -- at its own key, before and afterwards.
  pub record_karma-score :
      (clock : ℕ → ℕ) (ts : List Thing) (tx tx' : Tx) (s : Bytes)
      → record_karma bolt codec root to_lower nick clock ts tx ≡ (tx', [])
      → IsConsistent tx
      → Fits (length ts) (score_in s tx)
      → Fits (length ts) (votes_in s tx)
      → (score_in s tx' ≡ score_in s tx +ℤ net to_lower s ts)
        × (votes_in s tx' ≡ votes_in s tx +ℤ pos (count (is_for to_lower s) ts))
        × IsConsistent tx'
  unfolding record_karma
  record_karma-score clock [] tx tx' s h c f g =
      let same : tx ≡ tx' = cc in
      subst
        (λ t.
          (score_in s t ≡ score_in s tx +ℤ pos 0)
          × (votes_in s t ≡ votes_in s tx +ℤ pos 0)
          × IsConsistent t)
        same (sym (+ℤ-zero _), sym (+ℤ-zero _), c)
  record_karma-score clock (t ∷ ts) tx tx' s h c f g =
      elim (Result-cases
        (put bolt codec root to_lower (voted bolt codec root to_lower nick (clock 0) t tx) tx)) [
          | inl (e, p) ↦ absurd (ground (arith, p))
          | inr (mid, p) ↦
              let v = vote-Voted (clock 0) t tx mid c p (length ts) s f g in
              let (score, votes, c') =
                record_karma-score (λ n. clock (suc n)) ts mid tx' s (ground (arith, p))
                  (vote-IsConsistent (clock 0) t tx mid c p) v.score_fits v.votes_fits in
              (
                score ∙ ap (λ z. z +ℤ net to_lower s ts) v.score ∙ +ℤ_assoc _ _ _,
                votes
                    ∙ ap (λ z. z +ℤ pos (count (is_for to_lower s) ts)) v.votes
                    ∙ +ℤ_assoc _ _ _
                    ∙ ap (λ z. votes_in s tx +ℤ z) (one_more _ _),
                c',
              )
        ]
    where
      one_more :
          (b : Bool) (n : ℕ)
          → (if b then pos 1 else pos 0) +ℤ pos n ≡ pos ((if b then 1 else 0) + n)
      one_more b n = unfold ◌+ℤ◌ in ground arith
