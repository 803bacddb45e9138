-- ===== src/Drivers/UrlsTests.antt =====
-- Runs of the model of drivers/urldriver.
use sp0rkle.Prelude.{
  ◌≡◌, refl, ◌⊎◌, ℕ, Bool, true, ◌&&◌, none, some, [], Bytes, codes, bytes_eq, bytes_eq_iff, ◌==◌,
  arith, if◌then◌else◌,
}
use sp0rkle.Db.Key.{bytes, name, value_bytes, to_buckets, split_last, is_valid, has_usep}
use sp0rkle.Db.Bolt.{Result, ok, err, Codec}
use sp0rkle.Db.Bolt.Memory.{Memory, path_eq, is_within, value_at, create_in, put_in}
use sp0rkle.Db.Bolt.Memory.Laws.{memory}
use sp0rkle.Db.Keyed.{create, find, to_bson, is_pointer}
use sp0rkle.Db.Indexed
use sp0rkle.Collections.Urls.{Url, indexes, get_shortened, get_cached, put}
use sp0rkle.Drivers.OneValue.{one_codec, vals, idxs, vals-ne-idxs, two_buckets, any_id}
use sp0rkle.Drivers.Urls.{
  Scanned, crc_bytes, bump, digit, base64, encode_loop, encode, shorten_url, url_scan,
}
use sp0rkle.Drivers.Urls.Codes.{IsFree, shorten_url-found}
use sp0rkle.Drivers.Urls.Scanning.{Remembers, url_scan-Remembers}

abbrev plain_url : Url
plain_url = record {
  nick = codes "n";
  chan = codes "c";
  timestamp = 0;
  url = codes "http://a";
  cached_as = [];
  cache_time = 0;
  hash = [];
  mime_type = [];
  shortened = [];
  id = codes "ab";
}

abbrev short_url : Url
short_url = record plain_url { shortened = codes "AAAAAA" }

abbrev is_short : Url → Bool
is_short u =
    bytes_eq u.nick (codes "n")
    && (bytes_eq u.chan (codes "c")
        && ((u.timestamp == 0)
            && (bytes_eq u.url (codes "http://a")
                && (bytes_eq u.cached_as []
                    && ((u.cache_time == 0)
                        && (bytes_eq u.hash []
                            && (bytes_eq u.mime_type []
                                && (bytes_eq u.shortened (codes "AAAAAA")
                                    && bytes_eq u.id (codes "ab")))))))))

is_short-same : (u : Url) → is_short u ≡ true → u ≡ short_url
is_short-same u e =
    let nick = (bytes_eq_iff u.nick (codes "n")).0 (ground arith) in
    let chan = (bytes_eq_iff u.chan (codes "c")).0 (ground arith) in
    let at : u.timestamp ≡ 0 = ground arith in
    let url = (bytes_eq_iff u.url (codes "http://a")).0 (ground arith) in
    let cached_as = (bytes_eq_iff u.cached_as []).0 (ground arith) in
    let cache_time : u.cache_time ≡ 0 = ground arith in
    let hash = (bytes_eq_iff u.hash []).0 (ground arith) in
    let mime_type = (bytes_eq_iff u.mime_type []).0 (ground arith) in
    let shortened = (bytes_eq_iff u.shortened (codes "AAAAAA")).0 (ground arith) in
    let id = (bytes_eq_iff u.id (codes "ab")).0 (ground arith) in
    λ i. record {
      nick = nick i;
      chan = chan i;
      timestamp = at i;
      url = url i;
      cached_as = cached_as i;
      cache_time = cache_time i;
      hash = hash i;
      mime_type = mime_type i;
      shortened = shortened i;
      id = id i;
    }

abbrev codec : Codec Url
codec = one_codec short_url is_short is_short-same

abbrev zeros : ℕ → ℕ
zeros i = 0

-- A checksum that is 2048 for one text and 0 for all others.
abbrev checksum : Bytes → ℕ
checksum s = if bytes_eq s (codes "b") then 2048 else 0

abbrev stored_in : Result (Url × Memory) → Memory
stored_in (ok (u, t)) = t
stored_in (err e) = two_buckets

abbrev stored : Memory
stored = stored_in (shorten_url memory codec vals idxs any_id checksum zeros plain_url two_buckets)

shortened :
    shorten_url memory codec vals idxs any_id checksum zeros plain_url two_buckets
    ≡ ok (short_url, stored)
unfolding shorten_url encode encode_loop crc_bytes base64 digit bump get_shortened get_cached put
    indexes memory Indexed.get Indexed.put Indexed.are_valid Indexed.put_tx Indexed.drop_old
    Indexed.put_index Indexed.to_pointer to_buckets split_last bytes name value_bytes is_valid
    has_usep to_bson create find is_pointer create_in put_in value_at path_eq is_within bytes_eq
shortened = refl

shorten_url-found_example :
    (short_url.url ≡ plain_url.url)
    × ((short_url.shortened ≡ [])
        ⊎ (IsFree memory codec vals idxs any_id checksum short_url.shortened two_buckets
            × (get_shortened memory codec vals idxs short_url.shortened stored ≡ some short_url)))
shorten_url-found_example =
    shorten_url-found memory codec vals idxs any_id checksum vals-ne-idxs zeros plain_url short_url
      two_buckets stored refl shortened

abbrev unread : Scanned Memory
unread = record { file = two_buckets; last_seen = none; said = [] }

abbrev each_id : ℕ → Bytes
each_id i = codes "ab"

nothing_seen : Remembers memory codec vals idxs any_id checksum unread
nothing_seen = tt

url_scan-Remembers_example : Remembers memory codec vals idxs any_id checksum (
    url_scan memory codec vals idxs any_id checksum
      (λ i. zeros)
      each_id
      0
      (codes "n")
      (codes "c")
      true
      (codes "see http://a")
      unread)
url_scan-Remembers_example =
    url_scan-Remembers memory codec vals idxs any_id checksum vals-ne-idxs (λ i. zeros) each_id 0
      (codes "n") (codes "c") true (codes "see http://a") unread (λ i. refl) nothing_seen
