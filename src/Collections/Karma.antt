-- ===== src/Collections/Karma.antt =====
-- collections/karma/karma.go: the karma of things, in a keyed collection of db/keyed.go.
-- A time stands by the milliseconds that the database keeps of it, and the call of `time.Now` is an
-- argument.
pub mod Stored
use sp0rkle.Prelude.{Option, none, some, [], ◌∷◌, Bytes, codes, ℕ, ℤ, pos, add_int, sub_int}
use sp0rkle.Db.Key.{Key, elem_s}
use sp0rkle.Db.Bolt.{Result, ok, err, BucketPath, Bolt, Codec}
use sp0rkle.Db.Keyed

pub record Karma : Type 0 where
  pub subject : Bytes
  pub key : Bytes
  pub score : ℤ
  pub votes : ℤ
  pub upvoter : Bytes
  pub upvtime : ℕ
  pub downvoter : Bytes
  pub downvtime : ℕ

module _ (to_lower : Bytes → Bytes) where
  unfoldable pub new_karma : Bytes → Karma
  new_karma thing = record {
    subject = thing;
    key = to_lower thing;
    score = pos 0;
    votes = pos 0;
    upvoter = [];
    upvtime = 0;
    downvoter = [];
    downvtime = 0;
  }

unfoldable pub plus : Bytes → ℕ → Karma → Karma
plus who now k = record k {
  score = add_int k.score (pos 1);
  votes = add_int k.votes (pos 1);
  upvoter = who;
  upvtime = now;
}

unfoldable pub minus : Bytes → ℕ → Karma → Karma
minus who now k = record k {
  score = sub_int k.score (pos 1);
  votes = add_int k.votes (pos 1);
  downvoter = who;
  downvtime = now;
}

abbrev pub key_for : Bytes → Key
key_for k = elem_s (codes "key") k ∷ []

-- `K`
abbrev pub key_of : Karma → Key
key_of k = key_for k.key

-- What `Get` finds, or nil in the case of an error.
abbrev pub found : Result (Option Karma) → Option Karma
found (ok k) = k
found (err e) = none

module _ {Tx : Type 0} (bolt : Bolt Tx) (codec : Codec Karma) (root : BucketPath)
    (to_lower : Bytes → Bytes) where
  unfoldable pub karma_for : Bytes → Tx → Option Karma
  karma_for sub tx = found (Keyed.get bolt codec key_of root (key_for (to_lower sub)) tx)

  unfoldable pub put : Karma → Tx → Result Tx
  put = Keyed.put bolt codec key_of root

  unfoldable pub del : Karma → Tx → Result Tx
  del = Keyed.del bolt codec key_of root
