-- ===== src/Collections/Stats.antt =====
-- collections/stats/stats.go: how much a nick has said in a channel, in an indexed collection.
-- The id of a new value and the day and hour of `time.Now` are arguments.
pub mod Busiest
pub mod Stored
use sp0rkle.Prelude.{
  ℕ, zero, suc, ◌+◌, ◌-◌, ◌%◌, ◌^◌, Bool, Option, none, some, List, [], ◌∷◌, Bytes, codes, length,
  take, ltb, if◌then◌else◌, ℤ, pos, negsuc, ltb_ℤ, add_int,
}
use sp0rkle.Util.Text.{fields}
use sp0rkle.Db.Key.{Key, elem_s, elem_i}
use sp0rkle.Db.Bolt.{Result, ok, err, Bolt, Codec}
use sp0rkle.Db.Indexed
use sp0rkle.Db.IndexedScan

pub record NickStat : Type 0 where
  pub nick : Bytes
  pub key : Bytes
  pub chan : Bytes
  pub lines : ℤ
  pub words : ℤ
  pub chars : ℤ
  pub active : List (List ℤ)
  pub id : Bytes

abbrev pub replicate : {A : Type 0} → ℕ → A → List A
replicate zero x = []
replicate (suc n) x = x ∷ replicate n x

module _ (to_lower : Bytes → Bytes) where
  unfoldable pub new_stat : Bytes → Bytes → Bytes → NickStat
  new_stat id n c = record {
    nick = n;
    key = to_lower n;
    chan = c;
    lines = pos 0;
    words = pos 0;
    chars = pos 0;
    active = replicate 7 (replicate 24 (pos 0));
    id = id;
  }

-- What is at an index is changed; there is a value at the indices of `Update`.
unfoldable pub change_at : {A : Type 0} → (A → A) → ℕ → List A → List A
change_at f i [] = []
change_at f zero (x ∷ xs) = f x ∷ xs
change_at f (suc i) (x ∷ xs) = x ∷ change_at f i xs

unfoldable pub update : ℕ → ℕ → Bytes → NickStat → NickStat
unfolding change_at fields
update weekday hour line ns = record ns {
  lines = add_int ns.lines (pos 1);
  words = add_int ns.words (pos (length (fields line)));
  chars = add_int ns.chars (pos (length line));
  active = change_at (change_at (λ n. add_int n (pos 1)) hour) weekday ns.active;
}

-- What `MostActive` returns.
pub record Peak : Type 0 where
  pub day : ℕ
  pub hour : ℕ
  pub count : ℤ

-- The hour that is the busiest of those before and this one.
unfoldable pub better : ℕ → ℕ → ℤ → Peak → Peak
better d h c p = if ltb_ℤ p.count c then record { day = d; hour = h; count = c } else p

-- The inner loop, on a day and from an hour.
unfoldable pub busiest_hour : ℕ → ℕ → List ℤ → Peak → Peak
unfolding better
busiest_hour d h [] p = p
busiest_hour d h (c ∷ cs) p = busiest_hour d (suc h) cs (better d h c p)

unfoldable pub busiest_day : ℕ → List (List ℤ) → Peak → Peak
unfolding busiest_hour
busiest_day d [] p = p
busiest_day d (times ∷ days) p = busiest_day (suc d) days (busiest_hour d 0 times p)

unfoldable pub most_active : NickStat → Peak
unfolding busiest_day
most_active ns = busiest_day 0 ns.active (record { day = 0; hour = 0; count = pos 0 })

-- `uint64` of an int.
abbrev pub unsigned : ℤ → ℕ
unsigned (pos n) = n % 2 ^ 64
unsigned (negsuc n) = 2 ^ 64 - 1 - n

abbrev pub by_key : Bytes → Bytes → Key
by_key c k = elem_s (codes "chan") c ∷ elem_s (codes "key") k ∷ []

unfoldable pub indexes : NickStat → List Key
indexes ns =
    by_key ns.chan ns.key
    ∷ (elem_s (codes "lines") ns.chan ∷ elem_i (codes "lines") (unsigned ns.lines) ∷ [])
    ∷ []

abbrev pub id_of : NickStat → Bytes
id_of ns = ns.id

-- What `Get` finds, unless it is an error.
abbrev pub found : Result (Option NickStat) → Option NickStat
found (ok o) = o
found (err e) = none

-- The first ten in the order of `sort.Slice`, and none in the case of an error.
abbrev pub top_of : (List NickStat → List NickStat) → Result (List NickStat) → List NickStat
top_of sort (err e) = []
top_of sort (ok all) = take 10 (sort all)

module _ {Tx : Type 0} (bolt : Bolt Tx) (codec : Codec NickStat) (vals idxs : Bytes)
    (to_lower : Bytes → Bytes) where
  unfoldable pub stats_for : Bytes → Bytes → Tx → Option NickStat
  stats_for n c tx = found (Indexed.get bolt codec vals idxs (by_key c (to_lower n)) tx)

  -- The fuel is that of the scan, which gives none if it was not enough.
  unfoldable pub top_ten : ℕ → (List NickStat → List NickStat) → Bytes → Tx → Option (List NickStat)
  top_ten fuel sort c tx =
      elim (IndexedScan.all bolt codec vals idxs fuel (elem_s (codes "lines") c ∷ []) tx) [
        | none ↦ none
        | some r ↦ some (top_of sort r)
      ]

  unfoldable pub put : (Bytes → Bool) → NickStat → Tx → Result Tx
  put id_is_valid = Indexed.put bolt codec vals idxs id_of indexes id_is_valid

  unfoldable pub del : NickStat → Tx → Result Tx
  del = Indexed.del bolt codec vals idxs id_of indexes
