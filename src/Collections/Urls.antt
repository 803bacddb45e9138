-- ===== src/Collections/Urls.antt =====
-- collections/urls/urls.go: the URLs that have been mentioned, in an indexed collection.
-- A time is in milliseconds. The id of a new URL and the time are arguments.
use sp0rkle.Prelude.{
  ℕ, Bool, not, ◌&&◌, Option, none, some, List, [], ◌∷◌, ◌++◌, Bytes, codes, length, map, bytes_eq,
  ltb, ◌==◌, if◌then◌else◌,
}
use sp0rkle.Db.Key.{Key, elem_s, elem_id}
use sp0rkle.Db.Bolt.{Result, ok, err, Bolt, Codec}
use sp0rkle.Db.Indexed
use sp0rkle.Collections.PseudoRand.{get_pseudo_rand}

pub record Url : Type 0 where
  pub nick : Bytes
  pub chan : Bytes
  pub timestamp : ℕ
  pub url : Bytes
  pub cached_as : Bytes
  pub cache_time : ℕ
  pub hash : Bytes
  pub mime_type : Bytes
  pub shortened : Bytes
  pub id : Bytes

unfoldable pub new_url : Bytes → ℕ → Bytes → Bytes → Bytes → Url
new_url id now u n c = record {
  nick = n;
  chan = c;
  timestamp = now;
  url = u;
  cached_as = [];
  cache_time = 0;
  hash = [];
  mime_type = [];
  shortened = [];
  id = id;
}

abbrev pub by_url : Bytes → Key
by_url u = elem_s (codes "url") u ∷ []

abbrev pub by_cached_as : Bytes → Key
by_cached_as c = elem_s (codes "cachedas") c ∷ []

abbrev pub by_shortened : Bytes → Key
by_shortened s = elem_s (codes "shortened") s ∷ []

-- A key for a field that has a value.
abbrev pub key_unless_empty : (Bytes → Key) → Bytes → List Key
key_unless_empty by [] = []
key_unless_empty by (b ∷ v) = by (b ∷ v) ∷ []

unfoldable pub indexes : Url → List Key
indexes u =
    by_url u.url
    ∷ (key_unless_empty by_cached_as u.cached_as ++ key_unless_empty by_shortened u.shortened)

abbrev pub id_of : Url → Bytes
id_of u = u.id

-- `Exists` of what is not nil.
abbrev pub exists : Url → Bool
exists u = ltb 0 (length u.id) && not (length u.url == 0)

-- What `Get` finds, unless it is an error or does not exist.
abbrev pub existing : Result (Option Url) → Option Url
existing (ok (some u)) = if exists u then some u else none
existing (ok none) = none
existing (err e) = none

module _ {Tx : Type 0} (bolt : Bolt Tx) (codec : Codec Url) (vals idxs : Bytes) where
  unfoldable pub get_by_id : Bytes → Tx → Option Url
  get_by_id id tx = existing (Indexed.get bolt codec vals idxs (elem_id id ∷ []) tx)

  unfoldable pub get_by_url : Bytes → Tx → Option Url
  get_by_url u tx = existing (Indexed.get bolt codec vals idxs (by_url u) tx)

  unfoldable pub get_cached : Bytes → Tx → Option Url
  get_cached c tx = existing (Indexed.get bolt codec vals idxs (by_cached_as c) tx)

  unfoldable pub get_shortened : Bytes → Tx → Option Url
  get_shortened s tx = existing (Indexed.get bolt codec vals idxs (by_shortened s) tx)

  unfoldable pub put : (Bytes → Bool) → Url → Tx → Result Tx
  put id_is_valid = Indexed.put bolt codec vals idxs id_of indexes id_is_valid

  unfoldable pub del : Url → Tx → Result Tx
  del = Indexed.del bolt codec vals idxs id_of indexes

unfoldable pub with_id : Bytes → List Url → Option Url
with_id i [] = none
with_id i (u ∷ us) = if bytes_eq u.id i then some u else with_id i us

-- `GetRand`, on the URLs that match; the ids that were seen for the expression are as in
-- `GetPseudoRand` of factoids.
unfoldable pub get_rand :
    (ℕ → ℕ) → Option (List Bytes) → List Url → Option Url × Option (List Bytes)
unfolding with_id get_pseudo_rand
get_rand intn seen urls =
    let (found, seen') = get_pseudo_rand intn seen (map id_of urls) in
    elim found [ none ↦ (none, seen') | some i ↦ (with_id i urls, seen') ]
