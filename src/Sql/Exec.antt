-- ===== src/Sql/Exec.antt =====
-- sql/executor/: the executors, each as a function of what its source gave.
pub mod Join
pub mod Query
pub mod Mutation
pub mod Sort
pub mod Order
pub mod Aggregate
pub mod Execute
pub mod Display
pub mod Tests
use sqlprimer.Prelude.{ℕ, List}
use sqlprimer.Bytes.{Bytes}
use sqlprimer.Sql.Value.{Row}

pub data ResultSet : Type 0 where
  create_table : Bytes → ResultSet
  insert : ℕ → ResultSet
  scan : List Bytes → List Row → ResultSet
  update : ℕ → ResultSet
  delete : ℕ → ResultSet
  begin : ℕ → ResultSet
  commit : ℕ → ResultSet
  rollback : ℕ → ResultSet
  explain : Bytes → ResultSet
  drop_table : Bytes → ResultSet
