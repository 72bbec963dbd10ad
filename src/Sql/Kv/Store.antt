-- ===== src/Sql/Kv/Store.antt =====
-- What sql/engine/kv.rs uses of a storage transaction, and what it relies on.
use sqlprimer.Prelude.{ℕ, ◌≡◌, ◌≢◌, ◌⊎◌, Option, none, some, ok, err, write_conflict}
use sqlprimer.Bytes.{Bytes, IsBytes}
use sqlprimer.OrderedMap.{Map}
use sqlprimer.Storage.Mvcc.Monad.{Act}

-- The methods of `MvccTransaciton`.
pub record KeyValue : Type 1 where
  pub State : Type 0
  pub version : ℕ
  pub commit : Act State (Unit {0})
  pub rollback : Act State (Unit {0})
  pub get : Bytes → Act State (Option Bytes)
  pub set : Bytes → Bytes → Act State (Unit {0})
  pub delete : Bytes → Act State (Unit {0})
  pub scan_prefix : Bytes → Act State (Map Bytes)

module _ (x : KeyValue) where
  open x use {State, get, set, delete}

  -- `view` gives what a transaction reads; a write of a key changes what stands under it alone, or
  -- is a conflict.
  pub record IsKeyValue : Type 1 where
    pub IsGood : State → Type 0
    pub view : State → Bytes → Option Bytes
    pub get-view : (s : State) (k : Bytes) → IsGood s → get k s ≡ (ok (view s k), s)
    pub set_cases :
        (s : State) (k v : Bytes)
        → IsBytes k
        → IsGood s
        → (set k v s ≡ (err write_conflict, s))
          ⊎ ((s' : State) × (set k v s ≡ (ok tt, s'))
              × IsGood s'
              × (view s' k ≡ some v)
              × ((j : Bytes) → j ≢ k → view s' j ≡ view s j))
    pub delete_cases :
        (s : State) (k : Bytes)
        → IsBytes k
        → IsGood s
        → (delete k s ≡ (err write_conflict, s))
          ⊎ ((s' : State) × (delete k s ≡ (ok tt, s'))
              × IsGood s'
              × (view s' k ≡ none)
              × ((j : Bytes) → j ≢ k → view s' j ≡ view s j))
