-- ===== src/Drivers/Stats/Counting.antt =====
-- What recordStats of drivers/statsdriver/handlers.go leaves in the collection.
use sp0rkle.Prelude.{
  ◌≡◌, refl, sym, subst, ap, ◌∙◌, inl, inr, ℕ, Bool, true, false, ◌++◌, Option, none, some, List,
  [], ◌∷◌, Bytes, length, Option-cases, if◌then◌else◌, ℤ, pos, add_int, wrap, ◌+ℤ◌,
}
use sp0rkle.Util.Text.{fields}
use sp0rkle.Db.Bolt.{Error, Result, ok, err, Bolt, Codec}
use sp0rkle.Collections.Stats.{NickStat, new_stat, update, stats_for, put}
use sp0rkle.Collections.Stats.Stored.{stats_for-put}
use sp0rkle.Drivers.Stats.{Said, many_lines, not_stored, has_error, is_round, counted, record_stats}

abbrev pub lines_of : Option NickStat → ℤ
lines_of none = pos 0
lines_of (some ns) = ns.lines

abbrev pub words_of : Option NickStat → ℤ
words_of none = pos 0
words_of (some ns) = ns.words

abbrev pub chars_of : Option NickStat → ℤ
chars_of none = pos 0
chars_of (some ns) = ns.chars

has_error-last : (e : Error) (said : List Said) → has_error (said ++ not_stored e ∷ []) ≡ true
has_error-last e [] = refl
has_error-last e (many_lines n ∷ said) = has_error-last e said
has_error-last e (not_stored f ∷ said) = refl

module _ {Tx : Type 0} (bolt : Bolt Tx) (codec : Codec NickStat) (vals idxs : Bytes)
    (to_lower : Bytes → Bytes) (id_is_valid : Bytes → Bool) (id : Bytes) (weekday hour : ℕ)
    (nick : Bytes) where
  abbrev pub HasKey : Bytes → Option NickStat → Type 0
  HasKey c none = Unit
  HasKey c (some ns) = (to_lower nick ≡ ns.key) × (c ≡ ns.chan)

  -- What is found for the nick in a channel has their key.
  abbrev pub IsOwn : Bytes → Tx → Type 0
  IsOwn c tx = HasKey c (stats_for bolt codec vals idxs to_lower nick c tx)

  -- A run that says nothing of an error has stored the value.
  said-put :
      (target args0 text : Bytes) (tx tx' : Tx) (said : List Said)
      → record_stats bolt codec vals idxs to_lower id_is_valid id weekday hour nick target args0
          text tx
        ≡ (tx', said)
      → has_error said ≡ false
      → put bolt codec vals idxs to_lower id_is_valid
          (counted bolt codec vals idxs to_lower id_is_valid id weekday hour nick target args0 text
            tx)
          tx
        ≡ ok tx'
  unfolding record_stats
  said-put target args0 text tx tx' said h n =
      go
        (put bolt codec vals idxs to_lower id_is_valid
          (counted bolt codec vals idxs to_lower id_is_valid id weekday hour nick target args0 text
            tx)
          tx)
        h
    where
      more : List Said
      more =
          let ns =
            counted bolt codec vals idxs to_lower id_is_valid id weekday hour nick target args0 text
              tx in
          if is_round ns.lines then many_lines ns.lines ∷ [] else []

      outcome : Result Tx → Tx × List Said
      outcome (ok t) = (t, more)
      outcome (err e) = (tx, more ++ not_stored e ∷ [])

      go : (r : Result Tx) → outcome r ≡ (tx', said) → r ≡ ok tx'
      go (ok t) e = let same : t ≡ tx' = cc in ap ok same
      go (err f) e =
          let same : more ++ not_stored f ∷ [] ≡ said = cc in
          absurd (cc (ap has_error same, has_error-last f more, n))

  stored :
      ¬ (vals ≡ idxs)
      → (target args0 text : Bytes) (tx tx' : Tx) (said : List Said)
      → record_stats bolt codec vals idxs to_lower id_is_valid id weekday hour nick target args0
          text tx
        ≡ (tx', said)
      → has_error said ≡ false
      → (v : NickStat)
      → counted bolt codec vals idxs to_lower id_is_valid id weekday hour nick target args0 text tx
        ≡ v
      → to_lower nick ≡ v.key
      → stats_for bolt codec vals idxs to_lower nick v.chan tx' ≡ some v
  stored d target args0 text tx tx' said h n v e key =
      stats_for-put bolt codec vals idxs to_lower id_is_valid d v nick tx tx' key (
        subst (λ w. put bolt codec vals idxs to_lower id_is_valid w tx ≡ ok tx') e
          (said-put target args0 text tx tx' said h n))

  -- If the values and the indexes have buckets of different names, recordStats stores a line that
  -- was said in a channel with no error, and what was found for the nick in the channel was their
  -- own, then what is found for them afterwards is their own and has one line more, and the words
  -- and the bytes of the text more.
  pub record_stats-counted :
      ¬ (vals ≡ idxs)
      → (c text : Bytes) (tx tx' : Tx) (said : List Said)
      → record_stats bolt codec vals idxs to_lower id_is_valid id weekday hour nick c c text tx
        ≡ (tx', said)
      → has_error said ≡ false
      → IsOwn c tx
      → let old = stats_for bolt codec vals idxs to_lower nick c tx in
        let new = stats_for bolt codec vals idxs to_lower nick c tx' in
        (lines_of new ≡ add_int (lines_of old) (pos 1))
        × (words_of new ≡ add_int (words_of old) (pos (length (fields text))))
        × (chars_of new ≡ add_int (chars_of old) (pos (length text)))
        × IsOwn c tx'
  unfolding counted update new_stat wrap ◌+ℤ◌
  record_stats-counted d c text tx tx' said h n own =
      elim (Option-cases (stats_for bolt codec vals idxs to_lower nick c tx)) [
        | inl e ↦
            let v = update weekday hour text (new_stat to_lower id nick c) in
            let found = stored d c c text tx tx' said h n v (rw e refl) refl in
            rw (e, found) (refl, refl, refl, (refl, refl))
        | inr (ns, e) ↦
            let v = update weekday hour text ns in
            let (key, chan) = subst (HasKey c) e own in
            let found =
              subst (λ k. stats_for bolt codec vals idxs to_lower nick k tx' ≡ some v) (sym chan)
                (stored d c c text tx tx' said h n v (rw e refl) key) in
            rw (e, found) (refl, refl, refl, (key, chan))
      ]

  -- If the values and the indexes have buckets of different names, and recordStats finds nothing
  -- for the target of a line and stores a value with no error, then whatever was stored for the
  -- nick with the one whom the line was sent to, what is found there afterwards has one line. The
  -- target of a private line is its sender.
  pub record_stats-private :
      ¬ (vals ≡ idxs)
      → (target args0 text : Bytes) (tx tx' : Tx) (said : List Said)
      → record_stats bolt codec vals idxs to_lower id_is_valid id weekday hour nick target args0
          text tx
        ≡ (tx', said)
      → has_error said ≡ false
      → stats_for bolt codec vals idxs to_lower nick target tx ≡ none
      → lines_of (stats_for bolt codec vals idxs to_lower nick args0 tx') ≡ pos 1
  unfolding counted update new_stat wrap ◌+ℤ◌
  record_stats-private d target args0 text tx tx' said h n e =
      let v = update weekday hour text (new_stat to_lower id nick args0) in
      let found = stored d target args0 text tx tx' said h n v (rw e refl) refl in
      ap lines_of found ∙ one
    where
      one : add_int (pos 0) (pos 1) ≡ pos 1
      one = refl
