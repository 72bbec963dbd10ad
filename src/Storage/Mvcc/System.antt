-- ===== src/Storage/Mvcc/System.antt =====
-- Interleaved transactions over one store (`Mvcc` and the transactions that `begin` handed out).
-- Each call holds the engine's mutex from its start to its end, so a run is a sequence of calls.
pub mod Live
pub mod Invariant
pub mod Begins
pub mod Blocking
pub mod Kept
pub mod Writes
pub mod Finishes
pub mod Safety
pub mod Isolation
pub mod Durability
pub mod Tests
use sqlprimer.Prelude.{ℕ, ◌+◌, ◌^◌, ◌<◌, ◌≡◌, Option, List, [], ◌∷◌, Outcome, ok, All}
use sqlprimer.Bytes.{Bytes, IsBytes}
use sqlprimer.OrderedMap.{Map}
use sqlprimer.Storage.Memory.{MemoryEngine, new}
use sqlprimer.Storage.Mvcc.Bincode.{Bincode}
use sqlprimer.Storage.Mvcc.State.{TransactionState}
use sqlprimer.Storage.Mvcc.Txn.{begin, write_inner, commit, rollback}

-- The store, and the transactions that have neither committed nor rolled back.
pub record System : Type 0 where
  pub store : Map Bytes
  pub live : List TransactionState

abbrev pub initial : System
initial = record { store = new; live = [] }

-- `us` is `vs` with `t` somewhere in it.
pub data Picks (t : TransactionState) : List TransactionState → List TransactionState → Type 0 where
  here : {us : List TransactionState} → Picks t (t ∷ us) us
  there :
      {u : TransactionState} {us vs : List TransactionState}
      → Picks t us vs
      → Picks t (u ∷ us) (u ∷ vs)

module _ (b : Bincode) where
  -- One call. `begin` is made while versions last; a write may succeed or fail.
  pub data Step : System → System → Type 0 where
    begins :
        {s : System} (t : TransactionState) (m : Map Bytes)
        → begin MemoryEngine b s.store ≡ (ok t, m)
        → t.version + 1 < 2 ^ 64
        → Step s (record { store = m; live = t ∷ s.live })
    writes :
        {s : System} (t : TransactionState) {vs : List TransactionState} (key : Bytes)
        (value : Option Bytes) (r : Outcome (Unit {0})) (m : Map Bytes)
        → Picks t s.live vs
        → IsBytes key
        → write_inner MemoryEngine b t key value s.store ≡ (r, m)
        → Step s (record { store = m; live = s.live })
    commits :
        {s : System} (t : TransactionState) {vs : List TransactionState} (r : Outcome (Unit {0}))
        (m : Map Bytes)
        → Picks t s.live vs
        → commit MemoryEngine b t s.store ≡ (r, m)
        → Step s (record { store = m; live = vs })
    rolls_back :
        {s : System} (t : TransactionState) {vs : List TransactionState} (r : Outcome (Unit {0}))
        (m : Map Bytes)
        → Picks t s.live vs
        → rollback MemoryEngine b t s.store ≡ (r, m)
        → Step s (record { store = m; live = vs })

  pub data Reach : System → Type 0 where
    start : Reach initial
    next : {s u : System} → Reach s → Step s u → Reach u
