-- ===== src/Drivers/StatsTests.antt =====
-- Runs of the model of drivers/statsdriver.
use sp0rkle.Prelude.{
  ◌≡◌, refl, ap₂, ◌⊎◌, Bool, true, false, ◌&&◌, none, some, List, [], ◌∷◌, Bytes, codes, bytes_eq,
  bytes_eq_iff, length, arith, All, ℤ, pos, eqb_ℤ, ◌≤ℤ◌, eq_of_parts, add_int, wrap, ◌+ℤ◌,
}
use sp0rkle.Util.Text.{fields, runes, is_space}
use sp0rkle.Util.Utf8.{decode_rune}
use sp0rkle.Db.Key.{
  bytes, name, value_bytes, to_buckets, split_last, is_valid, has_usep, big_endian,
}
use sp0rkle.Db.Bolt.{Codec}
use sp0rkle.Db.Bolt.Memory.{Memory, path_eq, is_within, value_at, create_in, put_in}
use sp0rkle.Db.Bolt.Memory.Laws.{memory}
use sp0rkle.Util.Utf8.{decode_rune}
use sp0rkle.Db.Keyed.{create, find, to_bson, is_pointer}
use sp0rkle.Db.Indexed
use sp0rkle.Collections.Stats.{
  NickStat, new_stat, change_at, update, most_active, indexes, stats_for, put,
}
use sp0rkle.Collections.Stats.Busiest.{count_at, most_active-IsMost}
use sp0rkle.Drivers.OneValue.{one_codec, vals, idxs, vals-ne-idxs, two_buckets, any_id}
use sp0rkle.Drivers.Stats.{counted, record_stats}
use sp0rkle.Drivers.Stats.Counting.{
  lines_of, words_of, chars_of, IsOwn, record_stats-counted, record_stats-private,
}

same_list : {A : Type 0} → (A → A → Bool) → List A → List A → Bool
same_list eq [] [] = true
same_list eq [] (y ∷ ys) = false
same_list eq (x ∷ xs) [] = false
same_list eq (x ∷ xs) (y ∷ ys) = eq x y && same_list eq xs ys

same_list-eq :
    {A : Type 0} (eq : A → A → Bool)
    → ((x y : A) → eq x y ≡ true → x ≡ y)
    → (xs ys : List A) → same_list eq xs ys ≡ true
    → xs ≡ ys
unfolding same_list
same_list-eq eq h [] [] e = refl
same_list-eq eq h [] (y ∷ ys) e = absurd cc
same_list-eq eq h (x ∷ xs) [] e = absurd cc
same_list-eq eq h (x ∷ xs) (y ∷ ys) e =
    ap₂ ◌∷◌ (h x y (ground arith)) (same_list-eq eq h xs ys (ground arith))

same_int : (x y : ℤ) → eqb_ℤ x y ≡ true → x ≡ y
same_int x y e = eq_of_parts x y (ground arith)

abbrev to_lower : Bytes → Bytes
to_lower s = s

abbrev one_line : NickStat
one_line = update 3 5 (codes "hi all") (new_stat to_lower (codes "ab") (codes "n") (codes "c"))

abbrev is_one_line : NickStat → Bool
is_one_line ns =
    bytes_eq ns.nick one_line.nick
    && (bytes_eq ns.key one_line.key
        && (bytes_eq ns.chan one_line.chan
            && (eqb_ℤ ns.lines one_line.lines
                && (eqb_ℤ ns.words one_line.words
                    && (eqb_ℤ ns.chars one_line.chars
                        && (same_list (same_list eqb_ℤ) ns.active one_line.active
                            && bytes_eq ns.id one_line.id))))))

is_one_line-same : (ns : NickStat) → is_one_line ns ≡ true → ns ≡ one_line
is_one_line-same ns e =
    let nick = (bytes_eq_iff ns.nick one_line.nick).0 (ground arith) in
    let key = (bytes_eq_iff ns.key one_line.key).0 (ground arith) in
    let chan = (bytes_eq_iff ns.chan one_line.chan).0 (ground arith) in
    let lines = same_int ns.lines one_line.lines (ground arith) in
    let words = same_int ns.words one_line.words (ground arith) in
    let chars = same_int ns.chars one_line.chars (ground arith) in
    let active =
      same_list-eq (same_list eqb_ℤ) (same_list-eq eqb_ℤ same_int) ns.active one_line.active
        (ground arith) in
    let id = (bytes_eq_iff ns.id one_line.id).0 (ground arith) in
    λ i. record {
      nick = nick i;
      key = key i;
      chan = chan i;
      lines = lines i;
      words = words i;
      chars = chars i;
      active = active i;
      id = id i;
    }

abbrev codec : Codec NickStat
codec = one_codec one_line is_one_line is_one_line-same

abbrev stored : Memory
stored =
    (record_stats memory codec vals idxs to_lower any_id (codes "ab") 3 5 (codes "n") (codes "c")
      (codes "c") (codes "hi all") two_buckets).0

stored_line :
    record_stats memory codec vals idxs to_lower any_id
      (codes "ab")
      3
      5
      (codes "n")
      (codes "c")
      (codes "c")
      (codes "hi all")
      two_buckets
    ≡ (stored, [])
unfolding record_stats counted update new_stat change_at fields runes is_space decode_rune wrap ◌+ℤ◌
    stats_for put indexes same_list memory Indexed.get Indexed.put Indexed.are_valid Indexed.put_tx
    Indexed.drop_old Indexed.put_index Indexed.to_pointer to_buckets split_last bytes name
    value_bytes is_valid has_usep to_bson create find is_pointer create_in put_in value_at path_eq
    is_within bytes_eq big_endian
stored_line = refl

-- A private line: its target is its sender.
private_line :
    record_stats memory codec vals idxs to_lower any_id
      (codes "ab")
      3
      5
      (codes "n")
      (codes "n")
      (codes "c")
      (codes "hi all")
      two_buckets
    ≡ (stored, [])
unfolding record_stats counted update new_stat change_at fields runes is_space decode_rune wrap ◌+ℤ◌
    stats_for put indexes same_list memory Indexed.get Indexed.put Indexed.are_valid Indexed.put_tx
    Indexed.drop_old Indexed.put_index Indexed.to_pointer to_buckets split_last bytes name
    value_bytes is_valid has_usep to_bson create find is_pointer create_in put_in value_at path_eq
    is_within bytes_eq big_endian
private_line = refl

nothing_yet :
    (c : Bytes) → stats_for memory codec vals idxs to_lower (codes "n") c two_buckets ≡ none
unfolding stats_for Indexed.get to_buckets split_last bytes name value_bytes find is_pointer memory
    value_at path_eq is_within bytes_eq
nothing_yet c = ground arith

nothing-IsOwn :
    IsOwn memory codec vals idxs to_lower any_id
      (codes "ab")
      3
      5
      (codes "n")
      (codes "c")
      two_buckets
nothing-IsOwn = rw (nothing_yet (codes "c")) tt

record_stats-counted_example :
    let old = stats_for memory codec vals idxs to_lower (codes "n") (codes "c") two_buckets in
    let new = stats_for memory codec vals idxs to_lower (codes "n") (codes "c") stored in
    (lines_of new ≡ add_int (lines_of old) (pos 1))
    × (words_of new ≡ add_int (words_of old) (pos (length (fields (codes "hi all")))))
    × (chars_of new ≡ add_int (chars_of old) (pos (length (codes "hi all"))))
    × IsOwn memory codec vals idxs to_lower any_id (codes "ab") 3 5 (codes "n") (codes "c") stored
record_stats-counted_example =
    record_stats-counted memory codec vals idxs to_lower any_id (codes "ab") 3 5 (codes "n")
      vals-ne-idxs (codes "c") (codes "hi all") two_buckets stored [] stored_line refl nothing-IsOwn

record_stats-private_example :
    lines_of (stats_for memory codec vals idxs to_lower (codes "n") (codes "c") stored) ≡ pos 1
record_stats-private_example =
    record_stats-private memory codec vals idxs to_lower any_id (codes "ab") 3 5 (codes "n")
      vals-ne-idxs (codes "n") (codes "c") (codes "hi all") two_buckets stored [] private_line refl
      (nothing_yet (codes "n"))

most_active-IsMost_example :
    All (λ times. All (λ c. c ≤ℤ (most_active one_line).count) times) one_line.active
    × ((most_active one_line ≡ record { day = 0; hour = 0; count = pos 0 })
        ⊎ (count_at one_line.active (most_active one_line).day (most_active one_line).hour
            ≡ some (most_active one_line).count))
most_active-IsMost_example = most_active-IsMost one_line
