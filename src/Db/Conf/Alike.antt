-- ===== src/Db/Conf/Alike.antt =====
-- A namespace of db/conf in the database behaves as one in memory does.
use sp0rkle.Prelude.{
  ◌≡◌, refl, sym, ap, ap₂, ◌∙◌, Bool, true, false, Option, none, some, List, [], ◌∷◌, Bytes,
  bytes_eq, lookup, if◌then◌else◌,
}
use sp0rkle.Db.Bolt.{ok, BucketPath, Bolt, Codec}
use sp0rkle.Db.Keyed
use sp0rkle.Db.Conf.{
  Number, narrow, wide, Value, string, int, int64, float, Entry, entry_key, Settings, as_string,
  as_int, as_float, insert, delete,
}
use sp0rkle.Db.Conf.InMemory
use sp0rkle.Db.Conf.Namespace
use sp0rkle.Db.Conf.Namespace.{settle, entry, value_found, stored_int}
use sp0rkle.Db.Conf.Writes.{lookup-insert, lookup-delete, get-put_if, get-del_if}

-- A call of a method of `Namespace`.
pub data Call (Int Float : Type 0) : Type 0 where
  string_call : Bytes → Option Bytes → Call Int Float
  int_call : Bytes → Option Int → Call Int Float
  float_call : Bytes → Option Float → Call Int Float
  delete_call : Bytes → Call Int Float

-- What bson leaves of a value in memory.
abbrev pub in_bson :
    {Int Wide Float : Type 0} → Value (Number Int Wide) Wide Float → Value Int Wide Float
in_bson (string s) = string s
in_bson (int n) = stored_int n
in_bson (int64 i) = int64 i
in_bson (float f) = float f

abbrev pub read_back :
    {Int Wide Float : Type 0}
    → Option (Value (Number Int Wide) Wide Float)
    → Option (Value Int Wide Float)
read_back none = none
read_back (some v) = some (in_bson v)

-- A value in memory, and the settings there.
abbrev pub Any : Type 0 → Type 0 → Type 0 → Type 0
Any Int Wide Float = Value (Number Int Wide) Wide Float

abbrev pub Held : Type 0 → Type 0 → Type 0 → Type 0
Held Int Wide Float = Settings (Number Int Wide) Wide Float

module _ {Int Wide Float : Type 0} (zero_int : Int) (zero_float : Float) where
  -- What it returns, and what it leaves, in memory.
  unfoldable pub in_memory :
      Call (Number Int Wide) Float
      → Held Int Wide Float
      → Option (Any Int Wide Float) × Held Int Wide Float
  unfolding InMemory.string_of InMemory.int_of InMemory.float_of InMemory.remove
  in_memory (string_call k v) m = let (a, m') = InMemory.string_of k v m in (some (string a), m')
  in_memory (int_call k v) m =
      let (a, m') = InMemory.int_of (narrow zero_int) k v m in (some (int a), m')
  in_memory (float_call k v) m =
      let (a, m') = InMemory.float_of zero_float k v m in (some (float a), m')
  in_memory (delete_call k) m = (none, InMemory.remove k m)

  unfoldable pub all_in_memory :
      List (Call (Number Int Wide) Float)
      → Held Int Wide Float
      → List (Option (Any Int Wide Float)) × Held Int Wide Float
  all_in_memory [] m = ([], m)
  all_in_memory (c ∷ cs) m =
      let (a, m') = in_memory c m in let (as', m'') = all_in_memory cs m' in (a ∷ as', m'')

  module _ {Tx : Type 0} (bolt : Bolt Tx) (codec : Codec (Entry Int Wide Float)) (root : BucketPath)
      (ns : Bytes) where
    unfoldable pub in_database :
        Call (Number Int Wide) Float → Tx → Option (Any Int Wide Float) × Tx
    unfolding Namespace.string_of Namespace.int_of Namespace.float_of Namespace.remove Namespace.set
    in_database (string_call k v) tx =
        let (a, tx') = Namespace.string_of bolt codec root ns k v tx in (some (string a), tx')
    in_database (int_call k v) tx =
        let (a, tx') = Namespace.int_of bolt codec root ns zero_int k v tx in (some (int a), tx')
    in_database (float_call k v) tx =
        let (a, tx') = Namespace.float_of bolt codec root ns zero_float k v tx in
        (some (float a), tx')
    in_database (delete_call k) tx = (none, Namespace.remove bolt codec root ns k tx)

    unfoldable pub all_in_database :
        List (Call (Number Int Wide) Float) → Tx → List (Option (Any Int Wide Float)) × Tx
    all_in_database [] tx = ([], tx)
    all_in_database (c ∷ cs) tx =
        let (a, tx') = in_database c tx in
        let (as', tx'') = all_in_database cs tx' in (a ∷ as', tx'')

    -- What a call in the database returns, where one in memory returns the answer: 0 for an int that
    -- it reads and that does not have 32 bits.
    abbrev pub expected :
        Call (Number Int Wide) Float → Option (Any Int Wide Float) → Option (Any Int Wide Float)
    expected (int_call k none) (some (int (wide i))) = some (int (narrow zero_int))
    expected c a = a

    abbrev pub all_expected :
        List (Call (Number Int Wide) Float)
        → List (Option (Any Int Wide Float))
        → List (Option (Any Int Wide Float))
    all_expected (c ∷ cs) (a ∷ as') = expected c a ∷ all_expected cs as'
    all_expected cs as' = as'

    -- The transaction of a call succeeds, if it has one.
    abbrev Puts : Bytes → Value Int Wide Float → Tx → Type 0
    Puts k v tx =
        (tx' : Tx) × (Keyed.put bolt codec entry_key root (entry bolt codec root ns k (some v)) tx
          ≡ ok tx')

    abbrev pub Works : Call (Number Int Wide) Float → Tx → Type 0
    Works (string_call k (some v)) tx = Puts k (string v) tx
    Works (int_call k (some v)) tx = Puts k (stored_int v) tx
    Works (float_call k (some v)) tx = Puts k (float v) tx
    Works (delete_call k) tx =
        (tx' : Tx) × (Keyed.del bolt codec entry_key root (entry bolt codec root ns k none) tx
          ≡ ok tx')
    Works _ tx = Unit

    abbrev pub AllWork : List (Call (Number Int Wide) Float) → Tx → Type 0
    AllWork [] tx = Unit
    AllWork (c ∷ cs) tx = Works c tx × AllWork cs (in_database c tx).1

    -- The database holds the same settings.
    abbrev pub Mirrors : Tx → Held Int Wide Float → Type 0
    Mirrors tx m = (j : Bytes) → Namespace.get bolt codec root ns j tx ≡ read_back (lookup j m)

    read_back_if :
        (b : Bool) (x y : Option (Any Int Wide Float))
        → (if b then read_back x else read_back y) ≡ read_back (if b then x else y)
    read_back_if true x y = refl
    read_back_if false x y = refl

    put-Mirrors :
        (k : Bytes) (v : Any Int Wide Float) (tx : Tx) (m : Held Int Wide Float)
        → Puts k (in_bson v) tx
        → Mirrors tx m
        → Mirrors (Namespace.set bolt codec root ns k (in_bson v) tx) (insert k v m)
    unfolding Namespace.set
    put-Mirrors k v tx m (tx', e) same j = rw e (
        get-put_if bolt codec root ns k j tx tx' (in_bson v) e
        ∙ ap (λ o. if bytes_eq k j then some (in_bson v) else o) (same j)
        ∙ read_back_if (bytes_eq k j) (some v) (lookup j m)
        ∙ ap read_back (sym (lookup-insert k j v m)))

    del-Mirrors :
        (k : Bytes) (tx : Tx) (m : Held Int Wide Float)
        → Works (delete_call k) tx
        → Mirrors tx m
        → Mirrors (Namespace.remove bolt codec root ns k tx) (delete k m)
    unfolding Namespace.remove
    del-Mirrors k tx m (tx', e) same j = rw e (
        get-del_if bolt codec root ns k j tx tx' e
        ∙ ap (λ o. if bytes_eq k j then none else o) (same j)
        ∙ read_back_if (bytes_eq k j) none (lookup j m)
        ∙ ap read_back (sym (lookup-delete k j m)))

    string_back : (o : Option (Any Int Wide Float)) → as_string (read_back o) ≡ as_string o
    unfolding as_string
    string_back none = refl
    string_back (some (string s)) = refl
    string_back (some (int (narrow i))) = refl
    string_back (some (int (wide i))) = refl
    string_back (some (int64 i)) = refl
    string_back (some (float f)) = refl

    int_back :
        (k : Bytes) (o : Option (Any Int Wide Float))
        → some (int (narrow (as_int zero_int (read_back o))))
          ≡ expected (int_call k none) (some (int (as_int (narrow zero_int) o)))
    unfolding as_int
    int_back k none = refl
    int_back k (some (string s)) = refl
    int_back k (some (int (narrow i))) = refl
    int_back k (some (int (wide i))) = refl
    int_back k (some (int64 i)) = refl
    int_back k (some (float f)) = refl

    float_back :
        (o : Option (Any Int Wide Float))
        → as_float zero_float (read_back o) ≡ as_float zero_float o
    unfolding as_float
    float_back none = refl
    float_back (some (string s)) = refl
    float_back (some (int (narrow i))) = refl
    float_back (some (int (wide i))) = refl
    float_back (some (int64 i)) = refl
    float_back (some (float f)) = refl

    in_database-Mirrors :
        (c : Call (Number Int Wide) Float) (tx : Tx) (m : Held Int Wide Float)
        → Works c tx
        → Mirrors tx m
        → ((in_database c tx).0 ≡ expected c (in_memory c m).0)
          × Mirrors (in_database c tx).1 (in_memory c m).1
    unfolding in_database in_memory
    in_database-Mirrors (string_call k (some v)) tx m w same =
        (refl, put-Mirrors k (string v) tx m w same)
    in_database-Mirrors (string_call k none) tx m w same =
        (ap (λ a. some (string a)) (ap as_string (same k) ∙ string_back (lookup k m)), same)
    in_database-Mirrors (int_call k (some v)) tx m w same =
        (refl, put-Mirrors k (int v) tx m w same)
    in_database-Mirrors (int_call k none) tx m w same =
        (ap (λ o. some (int (narrow (as_int zero_int o)))) (same k) ∙ int_back k (lookup k m), same)
    in_database-Mirrors (float_call k (some v)) tx m w same =
        (refl, put-Mirrors k (float v) tx m w same)
    in_database-Mirrors (float_call k none) tx m w same = (
      ap (λ a. some (float a)) (ap (as_float zero_float) (same k) ∙ float_back (lookup k m)),
      same,
    )
    in_database-Mirrors (delete_call k) tx m w same = (refl, del-Mirrors k tx m w same)

    -- If a namespace in the database holds the settings of one in memory, any calls of both, of
    -- which those in the database have transactions that succeed, leave the same settings and return
    -- the same, but that the database reads an int that does not have 32 bits as 0.
    pub all_in_database-Mirrors :
        (cs : List (Call (Number Int Wide) Float)) (tx : Tx) (m : Held Int Wide Float)
        → AllWork cs tx
        → Mirrors tx m
        → ((all_in_database cs tx).0 ≡ all_expected cs (all_in_memory cs m).0)
          × Mirrors (all_in_database cs tx).1 (all_in_memory cs m).1
    unfolding all_in_database all_in_memory
    all_in_database-Mirrors [] tx m w same = (refl, same)
    all_in_database-Mirrors (c ∷ cs) tx m (w, ws) same =
        let (answer, same') = in_database-Mirrors c tx m w same in
        let (answers, same'') = all_in_database-Mirrors cs _ _ ws same' in
        (ap₂ (λ a as'. a ∷ as') answer answers, same'')
