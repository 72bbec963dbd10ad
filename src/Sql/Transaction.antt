-- ===== src/Sql/Transaction.antt =====
-- The trait `Transaction` of sql/engine/mod.rs.
use sqlprimer.Prelude.{ℕ, Option, none, some, List, err, internal}
use sqlprimer.Bytes.{Bytes}
use sqlprimer.Storage.Mvcc.Monad.{Act, pure, lift, ◌>>=◌}
use sqlprimer.Sql.Value.{Value, Row}
use sqlprimer.Sql.Expr.{Expression}
use sqlprimer.Sql.Schema.{Table}

-- The methods that an engine provides; an index is the list of the members of a `HashSet`.
pub record Transaction (State : Type 0) : Type 0 where
  pub commit : Act State (Unit {0})
  pub rollback : Act State (Unit {0})
  pub version : State → ℕ
  pub create_row : Bytes → Row → Act State (Unit {0})
  pub update_row : Table → Value → Row → Act State (Unit {0})
  pub delete_row : Table → Value → Act State (Unit {0})
  pub scan_table : Bytes → Option Expression → Act State (List Row)
  pub get_table_names : Act State (List Bytes)
  pub create_table : Table → Act State (Unit {0})
  pub get_table : Bytes → Act State (Option Table)
  pub drop_table : Bytes → Act State (Unit {0})
  pub load_index : Bytes → Bytes → Value → Act State (List Value)
  pub save_index : Bytes → Bytes → Value → List Value → Act State (Unit {0})
  pub read_by_id : Bytes → Value → Act State (Option Row)

abbrev pub found : {S : Type 0} → Option Table → Act S Table
found (some table) = pure table
found none = lift (err internal)

module _ {State : Type 0} (tx : Transaction State) where
  open tx use {get_table}

  -- The provided method `must_get_table`.
  unfoldable pub must_get_table : Bytes → Act State Table
  unfolding ◌>>=◌
  must_get_table table_name = do table ← get_table table_name; found table
