-- ===== src/Drivers/Urls.antt =====
-- drivers/urldriver: the codes of URLs (Encode and Shorten of urldriver.go) and the commands and
-- handlers that store URLs (handlers.go and commands.go).
-- `checksum` is `crc32.ChecksumIEEE`; `rands` gives what the calls of `rand.Intn(4)` return.
pub mod Codes
pub mod Scanning
use sp0rkle.Prelude.{
  ℕ, zero, suc, ◌+◌, ◌*◌, ◌-◌, ◌/◌, ◌%◌, ◌^◌, Bool, true, false, not, ◌&&◌, ◌||◌, Option, none,
  some, List, [], ◌∷◌, ◌++◌, Bytes, codes, length, bytes_eq, ltb, leb, ◌==◌, if◌then◌else◌,
}
use sp0rkle.Util.Text.{trim_space, split_on}
use sp0rkle.Util.Lexer.{byte_at}
use sp0rkle.Db.Bolt.{Error, Result, ok, err, ◌>>=◌, Bolt, Codec}
use sp0rkle.Collections.Factoid.{looks_urlish}
use sp0rkle.Collections.Urls.{Url, new_url, get_by_id, get_by_url, get_cached, get_shortened, put}

-- The four bytes of crcb.
pub record Crc : Type 0 where
  pub b0 : ℕ
  pub b1 : ℕ
  pub b2 : ℕ
  pub b3 : ℕ

-- `byte((crc >> uint32(i)) & 0xff)`
abbrev pub crc_byte : ℕ → ℕ → ℕ
crc_byte crc i = crc / 2 ^ i % 256

unfoldable pub crc_bytes : ℕ → Crc
crc_bytes crc = record {
  b0 = crc_byte crc 0;
  b1 = crc_byte crc 1;
  b2 = crc_byte crc 2;
  b3 = crc_byte crc 3;
}

-- `crcb[i]++`
unfoldable pub bump : ℕ → Crc → Crc
bump i c =
    if i == 0
    then record c { b0 = (c.b0 + 1) % 256 }
    else if i == 1
    then record c { b1 = (c.b1 + 1) % 256 }
    else if i == 2
    then record c { b2 = (c.b2 + 1) % 256 }
    else record c { b3 = (c.b3 + 1) % 256 }

-- The alphabet of `base64.URLEncoding`.
unfoldable pub digit : ℕ → ℕ
digit n =
    if ltb n 26
    then n + b'A'
    else if ltb n 52
    then n + 71
    else if ltb n 62
    then n - 4
    else if n == 62
    then b'-'
    else b'_'

-- The first six characters of the encoding of four bytes.
unfoldable pub base64 : Crc → Bytes
unfolding digit
base64 c =
    digit (c.b0 / 4)
    ∷ digit (c.b0 % 4 * 16 + c.b1 / 16)
    ∷ digit (c.b1 % 16 * 4 + c.b2 / 64)
    ∷ digit (c.b2 % 64)
    ∷ digit (c.b3 / 4)
    ∷ digit (c.b3 % 4 * 16)
    ∷ []

abbrev pub is_nil : Option Url → Bool
is_nil none = true
is_nil (some u) = false

-- What the command shorten replies.
pub data Reply : Type 0 where
  forgotten : Reply
  already : Bytes → Reply
  not_urlish : Bytes → Reply
  failed : Error → Reply
  done : Bytes → Bytes → Reply

-- The first word of the text.
unfoldable pub first_word : Bytes → Bytes
first_word s = elim (split_on 32 (trim_space s)) [ [] ↦ [] | w ∷ ws ↦ w ]

-- What urlScan replies.
pub data Said : Type 0 where
  mentioned : Bytes → ℕ → Said
  not_inserted : Bytes → Error → Said
  shortened_as : Bytes → Said

-- The file, the id that `lastseen` has for the target, and the replies, the latest first.
pub record Scanned (Tx : Type 0) : Type 0 where
  pub file : Tx
  pub last_seen : Option Bytes
  pub said : List Said

module _ {Tx : Type 0} (bolt : Bolt Tx) (codec : Codec Url) (vals idxs : Bytes)
    (id_is_valid : Bytes → Bool) (checksum : Bytes → ℕ) where
  -- The loop of Encode, with the rounds that are left and the rounds that have been.
  unfoldable pub encode_loop : (ℕ → ℕ) → ℕ → ℕ → Crc → Tx → Bytes
  unfolding bump base64
  encode_loop rands zero i c tx = []
  encode_loop rands (suc n) i c tx =
      let s = base64 c in
      let again = encode_loop rands n (suc i) (bump (rands i) c) tx in
      let cached = get_cached bolt codec vals idxs s tx in
      let shortened = get_shortened bolt codec vals idxs s tx in
      if not (not (is_nil cached) || not (is_nil shortened)) then s else again

  unfoldable pub encode : (ℕ → ℕ) → Bytes → Tx → Bytes
  unfolding crc_bytes
  encode rands url tx = encode_loop rands 10 0 (crc_bytes (checksum url)) tx

  -- `Shorten`: the URL with its code, and the file with it.
  unfoldable pub shorten_url : (ℕ → ℕ) → Url → Tx → Result (Url × Tx)
  shorten_url rands u tx =
      let u' = record u { shortened = encode rands u.url tx } in
      put bolt codec vals idxs id_is_valid u' tx >>= λ tx'. ok (u', tx')

  abbrev pub stored : Result (Url × Tx) → Tx → Reply × Tx
  stored (err e) tx = (failed e, tx)
  stored (ok (u, tx')) tx = (done u.url u.shortened, tx')

  -- `shorten`, from the id of the URL that was last seen in the channel.
  unfoldable pub shorten : (ℕ → ℕ) → Bytes → Bytes → Bytes → ℕ → Bytes → Bytes → Tx → Reply × Tx
  shorten rands text last_seen id now n c tx =
      let of_url : Option Url → Reply × Tx = elim [
        | none ↦ (forgotten, tx)
        | some u ↦
            let coded = stored (shorten_url rands u tx) tx in
            if length u.shortened == 0 then coded else (already u.shortened, tx)
      ] in
      let url = first_word text in
      let known : Option Url = elim (get_by_url bolt codec vals idxs url tx) [
        | none ↦ some (new_url id now url n c)
        | some u ↦ some u
      ] in
      if length text == 0
      then of_url (get_by_id bolt codec vals idxs last_seen tx)
      else if looks_urlish url
      then of_url known
      else (not_urlish url, tx)

  -- What urlScan does with a URL that is not known: the new value, whose id and random numbers for
  -- the code are arguments, is stored.
  unfoldable pub store_url : Bytes → Url → Scanned Tx → Scanned Tx
  store_url w u st =
      let told = if length u.shortened == 0 then st.said else shortened_as u.shortened ∷ st.said in
      elim (put bolt codec vals idxs id_is_valid u st.file) [
        | err e ↦ record st { said = not_inserted w e ∷ st.said }
        | ok tx' ↦ record { file = tx'; last_seen = some u.id; said = told }
      ]

  unfoldable pub url_to_store : (ℕ → ℕ) → Bytes → ℕ → Bytes → Bytes → Bool → Bytes → Tx → Url
  unfolding new_url
  url_to_store rands id now n c public w tx =
      let u = new_url id now w n c in
      if ltb 120 (length w) && public then record u { shortened = encode rands w tx } else u

  unfoldable pub scan_word :
      (ℕ → ℕ) → Bytes → ℕ → Bytes → Bytes → Bool → Bytes → Scanned Tx → Scanned Tx
  scan_word rands id now n c public w st =
      let met : Option Url → Scanned Tx = elim [
        | none ↦ store_url w (url_to_store rands id now n c public w st.file) st
        | some u ↦
            if not (bytes_eq u.nick n) && ltb 7200000 (now - u.timestamp)
            then record st { said = mentioned u.nick (now - u.timestamp) ∷ st.said }
            else st
      ] in
      if looks_urlish w then met (get_by_url bolt codec vals idxs w st.file) else st

  -- The words of a line. `ids` and `rands` give each word an id and its random numbers.
  unfoldable pub scan_words :
      (ℕ → ℕ → ℕ)
      → (ℕ → Bytes)
      → ℕ
      → Bytes
      → Bytes
      → Bool
      → ℕ
      → List Bytes
      → Scanned Tx
      → Scanned Tx
  unfolding scan_word
  scan_words rands ids now n c public i [] st = st
  scan_words rands ids now n c public i (w ∷ ws) st =
      scan_words rands ids now n c public (suc i) ws
        (scan_word (rands i) (ids i) now n c public w st)

  unfoldable pub url_scan :
      (ℕ → ℕ → ℕ) → (ℕ → Bytes) → ℕ → Bytes → Bytes → Bool → Bytes → Scanned Tx → Scanned Tx
  unfolding scan_words
  url_scan rands ids now n c public text st =
      scan_words rands ids now n c public 0 (split_on 32 text) st
