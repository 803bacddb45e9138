-- ===== src/Bot/Pollers.antt =====
-- bot/pollerset.go: the pollers, which run while the bot has at least one connection.
-- Pollers, connections and quit channels are pointers, so numbers name them. A goroutine runs from
-- the making of its quit channel until that is closed; closing a channel twice panics. The maps are
-- association lists, in the order in which Go happens to go through them.
pub mod Goroutines
pub mod Running
pub mod Again
use sp0rkle.Prelude.{
  ℕ, zero, suc, ◌+◌, Bool, true, false, not, ◌&&◌, Option, none, some, List, [], ◌∷◌, length, count,
  ltb, ◌==◌, if◌then◌else◌,
}

pub record PollerSet (Context : Type 0) : Type 0 where
  pub set : List (ℕ × Option ℕ)
  pub conns : List (ℕ × Context)
  -- The next channel that `make` returns, and those that have been closed.
  pub fresh : ℕ
  pub closed : List ℕ

module _ {ℓ} {V : Type ℓ} where
  -- `m[k] = v`
  unfoldable pub put : ℕ → V → List (ℕ × V) → List (ℕ × V)
  put k v [] = (k, v) ∷ []
  put k v ((j, w) ∷ m) = if j == k then (k, v) ∷ m else (j, w) ∷ put k v m

  -- `delete(m, k)`
  unfoldable pub delete : ℕ → List (ℕ × V) → List (ℕ × V)
  delete k [] = []
  delete k ((j, w) ∷ m) = if j == k then m else (j, w) ∷ delete k m

module _ (Context : Type 0) where
  unfoldable pub new_poller_set : PollerSet Context
  new_poller_set = record { set = []; conns = []; fresh = 0; closed = [] }

module _ {Context : Type 0} where
  -- `startOne`: the quit channel, and the state with its goroutine.
  unfoldable pub start_one : PollerSet Context → Option ℕ × PollerSet Context
  start_one ps =
      if length ps.conns == 0
      then (none, ps)
      else (some ps.fresh, record ps { fresh = suc ps.fresh })

  unfoldable pub add : ℕ → PollerSet Context → PollerSet Context
  unfolding put
  add p ps = let (quit, ps') = start_one ps in record ps' { set = put p quit ps'.set }

-- The loop that starts the pollers, from the next fresh channel.
unfoldable pub start_all : List (ℕ × Option ℕ) → ℕ → List (ℕ × Option ℕ) × ℕ
start_all [] fresh = ([], fresh)
start_all ((p, _) ∷ set) fresh =
    let (set', fresh') = start_all set (suc fresh) in ((p, some fresh) ∷ set', fresh')

unfoldable pub mem : ℕ → List ℕ → Bool
mem q [] = false
mem q (r ∷ rs) = if r == q then true else mem q rs

-- The loop that closes the quit channels; `none` is the panic of a second close.
unfoldable pub stop_all : List (ℕ × Option ℕ) → List ℕ → Option (List (ℕ × Option ℕ) × List ℕ)
stop_all [] closed = some ([], closed)
stop_all ((p, none) ∷ set) closed = elim (stop_all set closed) [
  | none ↦ none
  | some (set', c) ↦ some ((p, none) ∷ set', c)
]
stop_all ((p, some q) ∷ set) closed =
    let rest = stop_all set (q ∷ closed) in
    if mem q closed
    then none
    else elim rest [ none ↦ none | some (set', c) ↦ some ((p, none) ∷ set', c) ]

pub data Cmd : Type 0 where
  connected disconnected other : Cmd

module _ {Context : Type 0} where
  -- `Handle`, from the line's command, its connection and the context that `newContext` makes.
  unfoldable pub handle : Cmd → ℕ → Context → PollerSet Context → Option (PollerSet Context)
  handle connected conn ctx ps =
      let conns = put conn ctx ps.conns in
      if length ps.conns == 0 && length conns == 1
      then (let (set, fresh) = start_all ps.set ps.fresh in
          some (record ps { set = set; conns = conns; fresh = fresh }))
      else some (record ps { conns = conns })
  handle disconnected conn ctx ps =
      let conns = delete conn ps.conns in
      if length ps.conns == 1 && length conns == 0
      then elim (stop_all ps.set ps.closed) [
        | none ↦ none
        | some (set, closed) ↦ some (record ps { set = set; conns = conns; closed = closed })
      ]
      else some (record ps { conns = conns })
  handle other conn ctx ps = some ps
