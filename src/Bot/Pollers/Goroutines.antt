-- ===== src/Bot/Pollers/Goroutines.antt =====
-- The loops and maps of bot/pollerset.go, and the goroutines that belong to a poller.
use sp0rkle.Prelude.{
  ℕ, suc, ◌+◌, ◌≤◌, ◌≡◌, ◌≢◌, refl, inl, inr, Bool, false, not, ◌&&◌, Option, none, some, List, [],
  ◌∷◌, length, ltb, ◌==◌, if◌then◌else◌, All, arith, Bool-cases,
}
use sp0rkle.Bot.Pollers.{put, delete, start_all, mem, stop_all}

-- The goroutine of a channel runs.
abbrev pub runs : ℕ → List ℕ → ℕ → Bool
runs fresh closed q = ltb q fresh && not (mem q closed)

abbrev pub one_if : Bool → ℕ
one_if b = if b then 1 else 0

-- How many pollers have a channel as theirs.
abbrev pub owners : ℕ → List (ℕ × Option ℕ) → ℕ
owners q [] = 0
owners q ((p, none) ∷ set) = owners q set
owners q ((p, some r) ∷ set) = one_if (r == q) + owners q set

abbrev pub HasQuit : ℕ × Option ℕ → Type 0
HasQuit e = e.1 ≢ none

abbrev pub HasNone : ℕ × Option ℕ → Type 0
HasNone e = e.1 ≡ none

abbrev pub IsNew : ℕ → List (ℕ × Option ℕ) → Type 0
IsNew p = All (λ e. e.0 ≢ p)

pub owners-put :
    (p : ℕ) (quit : Option ℕ) (set : List (ℕ × Option ℕ)) (q : ℕ)
    → IsNew p set
    → owners q (put p quit set) ≡ owners q ((p, quit) ∷ []) + owners q set
unfolding put
owners-put p none [] q h = omega arith
owners-put p (some r) [] q h = omega arith
owners-put p none ((j, none) ∷ set) q h = ground (arith, h.0, owners-put p none set q h.1)
owners-put p none ((j, some s) ∷ set) q h = ground (arith, h.0, owners-put p none set q h.1)
owners-put p (some r) ((j, none) ∷ set) q h = ground (arith, h.0, owners-put p (some r) set q h.1)
owners-put p (some r) ((j, some s) ∷ set) q h = ground (arith, h.0, owners-put p (some r) set q h.1)

pub owners-start_all :
    (set : List (ℕ × Option ℕ)) (n q : ℕ)
    → (owners q (start_all set n).0 ≡ one_if (not (ltb q n) && ltb q (start_all set n).1))
      × (n ≤ (start_all set n).1)
unfolding start_all
owners-start_all [] n q = ground arith
owners-start_all ((p, o) ∷ set) n q = ground (arith, owners-start_all set (suc n) q)

pub HasQuit-start_all : (set : List (ℕ × Option ℕ)) (n : ℕ) → All HasQuit (start_all set n).0
unfolding start_all
HasQuit-start_all [] n = tt
HasQuit-start_all ((p, o) ∷ set) n = (λ e. cc, HasQuit-start_all set (suc n))

pub owners-HasNone : (set : List (ℕ × Option ℕ)) (q : ℕ) → All HasNone set → owners q set ≡ 0
owners-HasNone [] q h = refl
owners-HasNone ((p, none) ∷ set) q h = owners-HasNone set q h.1
owners-HasNone ((p, some r) ∷ set) q h = cc (h.0)

-- The loop of the last disconnection closes the channel of every poller, each for the first time.
pub record Stopped (set : List (ℕ × Option ℕ)) (closed : List ℕ) : Type 0 where
  pub set' : List (ℕ × Option ℕ)
  pub closed' : List ℕ
  pub returned : stop_all set closed ≡ some (set', closed')
  pub without : All HasNone set'
  pub marks : (q : ℕ) → one_if (mem q closed') ≡ owners q set + one_if (mem q closed)

pub stop_all-Stopped :
    (set : List (ℕ × Option ℕ)) (closed : List ℕ)
    → ((q : ℕ) → owners q set + one_if (mem q closed) ≤ 1)
    → Stopped set closed
unfolding stop_all mem
stop_all-Stopped [] closed h = record {
  set' = [];
  closed' = closed;
  returned = refl;
  without = tt;
  marks = λ q. omega arith;
}
stop_all-Stopped ((p, none) ∷ set) closed h =
    let s = stop_all-Stopped set closed h in
    record {
      set' = (p, none) ∷ s.set';
      closed' = s.closed';
      returned = rw s.returned;
      without = (refl, s.without);
      marks = s.marks;
    }
stop_all-Stopped ((p, some r) ∷ set) closed h =
    let first : mem r closed ≡ false = ground (arith, h r) in
    let s = stop_all-Stopped set (r ∷ closed) (λ q. ground (arith, h q, h r)) in
    record {
      set' = (p, none) ∷ s.set';
      closed' = s.closed';
      returned = rw (first, s.returned);
      without = (refl, s.without);
      marks = λ q. ground (arith, s.marks q, h q);
    }

pub length-put {ℓ} :
    {V : Type ℓ} (k : ℕ) (v : V) (m : List (ℕ × V))
    → (length m ≤ length (put k v m))
      × (length (put k v m) ≤ length m + 1)
      × (1 ≤ length (put k v m))
unfolding put
length-put k v [] = omega arith
length-put k v ((j, w) ∷ m) = ground (arith, length-put k v m)

pub length-delete {ℓ} :
    {V : Type ℓ} (k : ℕ) (m : List (ℕ × V))
    → (length (delete k m) ≤ length m) × (length m ≤ length (delete k m) + 1)
unfolding delete
length-delete k [] = omega arith
length-delete k ((j, w) ∷ m) = ground (arith, length-delete k m)

pub All-put :
    (P : ℕ × Option ℕ → Type 0) (p : ℕ) (quit : Option ℕ) (set : List (ℕ × Option ℕ))
    → P (p, quit)
    → All P set
    → All P (put p quit set)
unfolding put
All-put P p quit [] h a = (h, tt)
All-put P p quit ((j, o) ∷ set) h a = elim (Bool-cases (j == p)) [
  | inl e ↦ rw e (h, a.1)
  | inr e ↦ rw e (a.0, All-put P p quit set h a.1)
]
