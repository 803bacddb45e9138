-- ===== src/Collections/Factoid.antt =====
-- collections/factoids/factoids.go: factoids, what happens to them, and what is told of a key's.
-- A time is in nanoseconds, and the call of `time.Now` is an argument.
use sp0rkle.Prelude.{
  ℕ, suc, ◌+◌, Bool, true, false, not, ◌&&◌, ◌||◌, Option, none, some, List, [], ◌∷◌, Bytes, codes,
  drop, bytes_eq, ltb, ◌==◌, if◌then◌else◌,
}
use sp0rkle.Util.Text.{has_prefix}

pub data FactoidType : Type 0 where
  fact action url : FactoidType

pub record FactoidStat : Type 0 where
  pub timestamp : ℕ
  pub nick : Bytes
  pub chan : Bytes
  pub count : ℕ

-- `Chance`, `Perms` and `Id_` play no part in what is modelled.
pub record Factoid : Type 0 where
  pub key : Bytes
  pub value : Bytes
  pub kind : FactoidType
  pub created : FactoidStat
  pub modified : FactoidStat
  pub accessed : FactoidStat

abbrev touch : ℕ → Bytes → Bytes → FactoidStat → FactoidStat
touch now n c s = record { timestamp = now; nick = n; chan = c; count = suc s.count }

unfoldable pub access : ℕ → Bytes → Bytes → Factoid → Factoid
access now n c f = record f { accessed = touch now n c f.accessed }

unfoldable pub modify : ℕ → Bytes → Bytes → Factoid → Factoid
modify now n c f = record f { modified = touch now n c f.modified }

unfoldable pub holds_space : Bytes → Bool
holds_space [] = false
holds_space (c ∷ s) = c == 32 || holds_space s

-- `LooksURLish` of util/utils.go.
unfoldable pub looks_urlish : Bytes → Bool
unfolding has_prefix
looks_urlish s =
    (has_prefix s (codes "http://") || has_prefix s (codes "https://")) && not (holds_space s)

-- The value without its prefix, and its type but for links.
abbrev strip : Bytes → FactoidType × Bytes
strip v =
    if has_prefix v (codes "<me>")
    then (action, drop 4 v)
    else if has_prefix v (codes "<reply>")
    then (fact, drop 7 v)
    else (fact, v)

unfoldable pub parse_value : Bytes → FactoidType × Bytes
unfolding has_prefix
parse_value v = let (ft, fv) = strip v in if looks_urlish fv then (url, fv) else (ft, fv)

unfoldable pub new_factoid : ℕ → Bytes → Bytes → Bytes → Bytes → Factoid
unfolding parse_value
new_factoid now key value n c =
    let (ft, fv) = parse_value value in
    record {
      key = key;
      value = fv;
      kind = ft;
      created = record { timestamp = now; nick = n; chan = c; count = 1 };
      modified = record { timestamp = now; nick = n; chan = c; count = 0 };
      accessed = record { timestamp = now; nick = n; chan = c; count = 0 };
    }

-- A loop of `GetLast`: the factoid whose time is the last.
unfoldable pub latest : (Factoid → ℕ) → Option Factoid → List Factoid → Option Factoid
latest time c [] = c
latest time none (f ∷ fs) = latest time (some f) fs
latest time (some c) (f ∷ fs) =
    let newer = latest time (some f) fs in
    let older = latest time (some c) fs in if ltb (time c) (time f) then newer else older

unfoldable pub get_last : List Factoid → Option Factoid × Option Factoid × Option Factoid
get_last facts = (
  latest (λ f. f.created.timestamp) none facts,
  latest (λ f. f.modified.timestamp) none facts,
  latest (λ f. f.accessed.timestamp) none facts,
)

pub record FactoidInfo : Type 0 where
  pub created : ℕ
  pub modified : ℕ
  pub accessed : ℕ

-- `InfoMR`, from the factoids that `All` returns.
unfoldable pub info : List Factoid → FactoidInfo
info [] = record { created = 0; modified = 0; accessed = 0 }
info (f ∷ fs) =
    let i = info fs in
    record {
      created = f.created.count + i.created;
      modified = f.modified.count + i.modified;
      accessed = f.accessed.count + i.accessed;
    }

unfoldable pub is_key_of : Bytes → List Bytes → Bool
is_key_of k [] = false
is_key_of k (j ∷ js) = if bytes_eq j k then true else is_key_of k js

-- The loop of `GetKeysMatching` on the factoids that match, with the set of keys that it has met.
unfoldable pub keys_of : List Bytes → List Factoid → List Bytes
keys_of set [] = []
keys_of set (f ∷ fs) =
    let old = keys_of set fs in
    let new = f.key ∷ keys_of (f.key ∷ set) fs in if is_key_of f.key set then old else new
