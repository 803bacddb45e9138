-- ===== src/Drivers/Urls/Scanning.antt =====
-- What urlScan of drivers/urldriver/handlers.go leaves for `shorten that`.
use sp0rkle.Prelude.{
  ◌≡◌, refl, inl, inr, ℕ, suc, ◌-◌, Bool, true, not, ◌&&◌, none, some, List, [], ◌∷◌, Bytes, length,
  ltb, bytes_eq, ◌==◌, if◌then◌else◌, Bool-cases, Option-cases, arith,
}
use sp0rkle.Util.Text.{has_prefix, split_on}
use sp0rkle.Db.Bolt.{Result, ok, err, Bolt, Codec}
use sp0rkle.Db.Indexed.Lookup.{get_id-put}
use sp0rkle.Collections.Factoid.{looks_urlish}
use sp0rkle.Collections.Urls.{Url, new_url, id_of, indexes, exists, get_by_id, get_by_url, put}
use sp0rkle.Drivers.Urls.{
  Scanned, mentioned, not_inserted, shortened_as, store_url, url_to_store, scan_word, scan_words,
  url_scan,
}

module _ {Tx : Type 0} (bolt : Bolt Tx) (codec : Codec Url) (vals idxs : Bytes)
    (id_is_valid : Bytes → Bool) (checksum : Bytes → ℕ) where
  -- The id that is remembered for the channel, if there is one, is that of a URL in the file.
  abbrev pub Remembers : Scanned Tx → Type 0
  Remembers st = elim st.last_seen [
    | none ↦ Unit
    | some id ↦ (u : Url) × (get_by_id bolt codec vals idxs id st.file ≡ some u)
  ]

  get_by_id-put :
      ¬ (vals ≡ idxs)
      → (u : Url) (tx tx' : Tx) → exists u ≡ true
      → put bolt codec vals idxs id_is_valid u tx ≡ ok tx'
      → get_by_id bolt codec vals idxs u.id tx' ≡ some u
  unfolding put get_by_id
  get_by_id-put n u tx tx' ex h =
      rw (get_id-put bolt codec vals idxs id_of indexes id_is_valid n u tx tx' h, ex) refl

  store_url-Remembers :
      ¬ (vals ≡ idxs)
      → (w : Bytes) (u : Url) (st : Scanned Tx) → exists u ≡ true
      → Remembers st
      → Remembers (store_url bolt codec vals idxs id_is_valid checksum w u st)
  unfolding store_url
  store_url-Remembers d w u st ex r = go (put bolt codec vals idxs id_is_valid u st.file) refl
    where
      go :
          (res : Result Tx)
          → put bolt codec vals idxs id_is_valid u st.file ≡ res
          → Remembers (elim res [
            | err e ↦ record st { said = not_inserted w e ∷ st.said }
            | ok tx' ↦ record {
              file = tx';
              last_seen = some u.id;
              said =
                  if length u.shortened == 0 then st.said else shortened_as u.shortened ∷ st.said;
            }
          ])
      go (err e) p = r
      go (ok tx') p = (u, get_by_id-put d u st.file tx' ex p)

  exists-url_to_store :
      (rands : ℕ → ℕ) (id : Bytes) (now : ℕ) (n c : Bytes) (public : Bool) (w : Bytes) (tx : Tx)
      → ltb 0 (length id) ≡ true
      → looks_urlish w ≡ true
      → exists (url_to_store bolt codec vals idxs id_is_valid checksum rands id now n c public w tx)
        ≡ true
  unfolding url_to_store new_url looks_urlish has_prefix
  exists-url_to_store rands id now n c public [] tx i l = absurd (ground arith)
  exists-url_to_store rands id now n c public (b ∷ w) tx i l =
      elim (Bool-cases (ltb 120 (suc (length w)) && public)) [
        | inl e ↦ rw e (ground (arith, i))
        | inr e ↦ rw e (ground (arith, i))
      ]

  scan_word-Remembers :
      ¬ (vals ≡ idxs)
      → (rands : ℕ → ℕ) (id : Bytes) (now : ℕ) (n c : Bytes) (public : Bool) (w : Bytes)
      → (st : Scanned Tx) → ltb 0 (length id) ≡ true
      → Remembers st
      → Remembers (scan_word bolt codec vals idxs id_is_valid checksum rands id now n c public w st)
  unfolding scan_word
  scan_word-Remembers d rands id now n c public w st i r = elim (Bool-cases (looks_urlish w)) [
    | inr e ↦ rw e r
    | inl e ↦ elim (Option-cases (get_by_url bolt codec vals idxs w st.file)) [
      | inl g ↦
          rw (e, g)
            (store_url-Remembers d w _ st
              (exists-url_to_store rands id now n c public w st.file i e) r)
      | inr (u, g) ↦ rw (e, g) (late u)
    ]
  ]
    where
      late :
          (u : Url)
          → Remembers (
              if not (bytes_eq u.nick n) && ltb 7200000 (now - u.timestamp)
              then record st { said = mentioned u.nick (now - u.timestamp) ∷ st.said }
              else st)
      late u = elim (Bool-cases (not (bytes_eq u.nick n) && ltb 7200000 (now - u.timestamp))) [
        | inl e ↦ rw e r
        | inr e ↦ rw e r
      ]

  -- If the values and the indexes have buckets of different names and every id that is given out is
  -- not empty, then whatever the words of a line are, the id that urlScan remembers for the channel
  -- is that of a URL that the file then has, if this was so before.
  pub url_scan-Remembers :
      ¬ (vals ≡ idxs)
      → (rands : ℕ → ℕ → ℕ) (ids : ℕ → Bytes) (now : ℕ) (n c : Bytes) (public : Bool) (text : Bytes)
      → (st : Scanned Tx) → ((i : ℕ) → ltb 0 (length (ids i)) ≡ true)
      → Remembers st
      → Remembers
          (url_scan bolt codec vals idxs id_is_valid checksum rands ids now n c public text st)
  unfolding url_scan scan_words
  url_scan-Remembers d rands ids now n c public text st p r = go 0 (split_on 32 text) st r
    where
      go :
          (i : ℕ) (ws : List Bytes) (s : Scanned Tx)
          → Remembers s
          → Remembers
              (scan_words bolt codec vals idxs id_is_valid checksum rands ids now n c public i ws s)
      go i [] s q = q
      go i (w ∷ ws) s q =
          go (suc i) ws _ (scan_word-Remembers d (rands i) (ids i) now n c public w s (p i) q)
