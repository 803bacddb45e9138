-- ===== src/Db/Conf/InMemory.antt =====
-- db/conf/inmemory.go: a namespace in memory. Its lock makes each method one step.
use sp0rkle.Prelude.{Option, none, some, Bytes, lookup}
use sp0rkle.Db.Conf.{string, int, float, Settings, as_string, as_int, as_float, insert, delete}

module _ {Int Wide Float : Type 0} where
  unfoldable pub string_of :
      Bytes → Option Bytes → Settings Int Wide Float → Bytes × Settings Int Wide Float
  string_of key (some v) m = (v, insert key (string v) m)
  string_of key none m = (as_string (lookup key m), m)

  unfoldable pub int_of :
      Int → Bytes → Option Int → Settings Int Wide Float → Int × Settings Int Wide Float
  int_of zero_int key (some v) m = (v, insert key (int v) m)
  int_of zero_int key none m = (as_int zero_int (lookup key m), m)

  unfoldable pub float_of :
      Float → Bytes → Option Float → Settings Int Wide Float → Float × Settings Int Wide Float
  float_of zero_float key (some v) m = (v, insert key (float v) m)
  float_of zero_float key none m = (as_float zero_float (lookup key m), m)

  unfoldable pub remove : Bytes → Settings Int Wide Float → Settings Int Wide Float
  remove key m = delete key m
