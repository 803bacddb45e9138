-- ===== src/Db/Conf/Namespace.antt =====
-- db/conf/namespace.go: a namespace in the database. An error of the collection is logged and leaves
-- the database as it was. What bson leaves of a value is put into the collection, so that its codec
-- gives back what it is given.
use sp0rkle.Prelude.{Option, none, some, Bytes}
use sp0rkle.Db.Bolt.{Result, ok, err, BucketPath, Bolt, Codec}
use sp0rkle.Db.Keyed
use sp0rkle.Db.Conf.{
  Number, narrow, wide, Value, string, int, int64, float, Entry, entry_key, as_string, as_int,
  as_float,
}

-- What is left after a transaction.
abbrev pub settle : {Tx : Type 0} → Tx → Result Tx → Tx
settle tx (ok tx') = tx'
settle tx (err e) = tx

-- The value that `Get` found.
abbrev pub value_found :
    {Int Wide Float : Type 0}
    → Result (Option (Entry Int Wide Float))
    → Option (Value Int Wide Float)
value_found (ok (some e)) = e.value
value_found _ = none

abbrev pub stored_int : {Int Wide Float : Type 0} → Number Int Wide → Value Int Wide Float
stored_int (narrow i) = int i
stored_int (wide i) = int64 i

module _ {Tx Int Wide Float : Type 0} (bolt : Bolt Tx) (codec : Codec (Entry Int Wide Float))
    (root : BucketPath) (ns : Bytes) where
  abbrev pub entry : Bytes → Option (Value Int Wide Float) → Entry Int Wide Float
  entry key value = record { ns = ns; key = key; value = value }

  unfoldable pub set : Bytes → Value Int Wide Float → Tx → Tx
  set key value tx = settle tx (Keyed.put bolt codec entry_key root (entry key (some value)) tx)

  -- `get`, with nil where there is no entry or the collection fails.
  unfoldable pub get : Bytes → Tx → Option (Value Int Wide Float)
  get key tx = value_found (Keyed.get bolt codec entry_key root (entry_key (entry key none)) tx)

  unfoldable pub string_of : Bytes → Option Bytes → Tx → Bytes × Tx
  string_of key (some v) tx = (v, set key (string v) tx)
  string_of key none tx = (as_string (get key tx), tx)

  unfoldable pub int_of : Int → Bytes → Option (Number Int Wide) → Tx → Number Int Wide × Tx
  int_of zero_int key (some v) tx = (v, set key (stored_int v) tx)
  int_of zero_int key none tx = (narrow (as_int zero_int (get key tx)), tx)

  unfoldable pub float_of : Float → Bytes → Option Float → Tx → Float × Tx
  float_of zero_float key (some v) tx = (v, set key (float v) tx)
  float_of zero_float key none tx = (as_float zero_float (get key tx), tx)

  unfoldable pub remove : Bytes → Tx → Tx
  remove key tx = settle tx (Keyed.del bolt codec entry_key root (entry key none) tx)
