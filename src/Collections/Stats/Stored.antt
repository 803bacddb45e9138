-- ===== src/Collections/Stats/Stored.antt =====
-- What StatsFor of collections/stats/stats.go finds after a Put.
use sp0rkle.Prelude.{◌≡◌, ap, ◌∙◌, Bool, true, some, Bytes, All, arith}
use sp0rkle.Db.Key.{Key, to_buckets, split_last, bytes, name, value_bytes}
use sp0rkle.Db.Bolt.{ok, Bolt, Codec}
use sp0rkle.Db.Indexed
use sp0rkle.Db.Indexed.Lookup.{is_index_key, get_index-put}
use sp0rkle.Collections.Stats.{NickStat, by_key, found, id_of, indexes, stats_for, put}

abbrev IsLooked : Key → Type 0
IsLooked key = is_index_key key ≡ true

IsLooked-indexes : (ns : NickStat) → All IsLooked (indexes ns)
unfolding indexes to_buckets split_last bytes name value_bytes
IsLooked-indexes ns = (ground arith, (ground arith, tt))

module _ {Tx : Type 0} (bolt : Bolt Tx) (codec : Codec NickStat) (vals idxs : Bytes)
    (to_lower : Bytes → Bytes) (id_is_valid : Bytes → Bool) where
  pub stats_for-put :
      ¬ (vals ≡ idxs)
      → (ns : NickStat) (n : Bytes) (tx tx' : Tx) → to_lower n ≡ ns.key
      → put bolt codec vals idxs to_lower id_is_valid ns tx ≡ ok tx'
      → stats_for bolt codec vals idxs to_lower n ns.chan tx' ≡ some ns
  unfolding stats_for put indexes
  stats_for-put d ns n tx tx' e h =
      let indexed =
        get_index-put bolt codec vals idxs id_of indexes id_is_valid d ns tx tx'
          (IsLooked-indexes ns) h in
      ap (λ k. found (Indexed.get bolt codec vals idxs (by_key ns.chan k) tx')) e
      ∙ ap found indexed.0
