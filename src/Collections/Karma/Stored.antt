-- ===== src/Collections/Karma/Stored.antt =====
-- What KarmaFor of collections/karma/karma.go finds after a Put.
use sp0rkle.Prelude.{◌≡◌, ◌≢◌, refl, ap, ◌∙◌, true, some, Bytes}
use sp0rkle.Db.Key.{name, value_bytes, is_valid, has_usep}
use sp0rkle.Db.Bolt.{ok, BucketPath, Bolt, Codec}
use sp0rkle.Db.Keyed.{get}
use sp0rkle.Db.Keyed.Mapping.{get-put, get-put_other}
use sp0rkle.Collections.Karma.{Karma, found, key_for, key_of, karma_for, put}

key_for-is_valid : (k : Bytes) → is_valid (key_for k) ≡ true
unfolding is_valid has_usep name
key_for-is_valid k = refl

module _ {Tx : Type 0} (bolt : Bolt Tx) (codec : Codec Karma) (root : BucketPath)
    (to_lower : Bytes → Bytes) (k : Karma) (tx tx' : Tx)
    (done : put bolt codec root to_lower k tx ≡ ok tx') (s : Bytes) where
  pub karma_for-put : to_lower s ≡ k.key → karma_for bolt codec root to_lower s tx' ≡ some k
  unfolding karma_for put
  karma_for-put e =
      ap (λ q. found (get bolt codec key_of root (key_for q) tx')) e
      ∙ ap found (get-put bolt codec key_of root k tx tx' done)

  pub karma_for-put_other :
      to_lower s ≢ k.key
      → karma_for bolt codec root to_lower s tx' ≡ karma_for bolt codec root to_lower s tx
  unfolding karma_for put name value_bytes
  karma_for-put_other n = ap found (
      get-put_other bolt codec key_of root k tx tx' (key_for (to_lower s)) done (key_for-is_valid _)
        (λ e. n (cc e)))
