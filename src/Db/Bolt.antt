-- ===== src/Db/Bolt.antt =====
-- What db/ uses of the BoltDB library go.etcd.io/bbolt, and of the encoding of values.
-- A transaction's view of the file is a value; a bucket is named by its path from the root. An
-- update whose function fails is rolled back, so that an error comes with no new state.
pub mod Memory
use sp0rkle.Prelude.{◌≡◌, ◌⊎◌, ℕ, Bool, true, false, Option, none, some, List, [], ◌∷◌, ◌++◌, Bytes}

pub data Error : Type 0 where
  zero_length_key invalid_key empty_key delete_everything invalid_id : Error
  bucket_not_found bolt_error marshal_error unmarshal_error : Error

pub data Result (A : Type 0) : Type 0 where
  ok : A → Result A
  err : Error → Result A

infixl 5 ◌>>=◌
abbrev pub ◌>>=◌ : {A B : Type 0} → Result A → (A → Result B) → Result B
ok a >>= f = f a
err e >>= f = err e

abbrev pub of_option : {A : Type 0} → Error → Option A → Result A
of_option e none = err e
of_option e (some a) = ok a

abbrev pub BucketPath : Type 0
BucketPath = List Bytes

-- The methods of buckets that db/ calls, and what their documentation says of them; `none` is an
-- error, and of `get` and `bucket` it is nil.
pub record Bolt (Tx : Type 0) : Type 0 where
  pub get : BucketPath → Bytes → Tx → Option Bytes
  pub is_bucket : BucketPath → Tx → Bool
  -- `CreateBucketIfNotExists`, `Put`, `Delete` and `DeleteBucket`.
  pub create_bucket : BucketPath → Bytes → Tx → Option Tx
  pub put : BucketPath → Bytes → Bytes → Tx → Option Tx
  pub delete : BucketPath → Bytes → Tx → Option Tx
  pub delete_bucket : BucketPath → Bytes → Tx → Option Tx
  -- What a cursor goes through, in the order of the keys; `none` stands for a nested bucket.
  pub entries : BucketPath → Tx → List (Bytes × Option Bytes)
  pub next_sequence : BucketPath → Tx → Option (ℕ × Tx)
  pub set_sequence : BucketPath → ℕ → Tx → Option Tx
  -- Only what is in a bucket can be found or be a bucket.
  pub get_outside :
      (p : BucketPath) (k : Bytes) (tx : Tx) → is_bucket p tx ≡ false → get p k tx ≡ none
  pub is_bucket_nested :
      (p : BucketPath) (e : Bytes) (tx : Tx)
      → is_bucket (p ++ e ∷ []) tx ≡ true
      → is_bucket p tx ≡ true
  pub create_is_bucket :
      (p : BucketPath) (e : Bytes) (tx tx' : Tx)
      → create_bucket p e tx ≡ some tx'
      → is_bucket (p ++ e ∷ []) tx' ≡ true
  pub create_get :
      (p : BucketPath) (e : Bytes) (tx tx' : Tx) (q : BucketPath) (k : Bytes)
      → create_bucket p e tx ≡ some tx'
      → get q k tx' ≡ get q k tx
  pub put_get :
      (p : BucketPath) (k v : Bytes) (tx tx' : Tx) → put p k v tx ≡ some tx' → get p k tx' ≡ some v
  pub put_get_other :
      (p : BucketPath) (k v : Bytes) (tx tx' : Tx) (q : BucketPath) (j : Bytes)
      → put p k v tx ≡ some tx'
      → ¬ ((q ≡ p) × (j ≡ k))
      → get q j tx' ≡ get q j tx
  pub delete_get :
      (p : BucketPath) (k : Bytes) (tx tx' : Tx) → delete p k tx ≡ some tx' → get p k tx' ≡ none
  pub delete_get_other :
      (p : BucketPath) (k : Bytes) (tx tx' : Tx) (q : BucketPath) (j : Bytes)
      → delete p k tx ≡ some tx'
      → ¬ ((q ≡ p) × (j ≡ k))
      → get q j tx' ≡ get q j tx
  pub delete_bucket_get :
      (p : BucketPath) (k : Bytes) (tx tx' : Tx)
      → delete_bucket p k tx ≡ some tx'
      → get p k tx' ≡ none
  -- Only what is inside a bucket goes with it.
  pub delete_bucket_get_other :
      (p : BucketPath) (k : Bytes) (tx tx' : Tx) (q : BucketPath) (j : Bytes)
      → delete_bucket p k tx ≡ some tx'
      → ¬ ((r : BucketPath) × (q ≡ p ++ k ∷ r))
      → get q j tx' ≡ get q j tx

-- The encoding of values, and that decoding brings back what was encoded.
pub record Codec (V : Type 0) : Type 0 where
  pub marshal : V → Option Bytes
  pub unmarshal : Bytes → Option V
  pub unmarshal_marshal : (v : V) (d : Bytes) → marshal v ≡ some d → unmarshal d ≡ some v
