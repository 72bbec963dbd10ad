-- ===== src/Sql/Exec/Mutation.antt =====
-- sql/executor/mutation.rs and schema.rs: what changes rows and tables.
pub mod Assign
use sqlprimer.Prelude.{ℕ, ◌+◌, none, some, List, [], ◌∷◌, Outcome, ok, err, panic, internal}
use sqlprimer.Bytes.{Bytes}
use sqlprimer.OrderedMap.{Map, lookup}
use sqlprimer.Storage.Mvcc.Monad.{Act, pure, lift, ◌>>=◌, ◌>>◌}
use sqlprimer.Sql.Value.{Row}
use sqlprimer.Sql.Expr.{Expression, from_expression}
use sqlprimer.Sql.Schema.{Table, get_primary_key}
use sqlprimer.Sql.Rows.{pad_row, make_row}
use sqlprimer.Sql.Transaction.{Transaction, must_get_table}
use sqlprimer.Sql.Exec.{ResultSet}

-- `exprs.into_iter().map(Value::from_expression).collect()`
unfoldable pub values_of : List Expression → Outcome Row
values_of [] = ok []
values_of (e ∷ es) = elim (from_expression e) [
  | ok v ↦ elim (values_of es) [ ok vs ↦ ok (v ∷ vs) | err x ↦ err x | panic ↦ panic ]
  | err x ↦ err x
  | panic ↦ panic
]

-- The row to insert: padded where no columns are named.
unfoldable pub insert_row : Table → List Bytes → Row → Outcome Row
insert_row table [] row = pad_row table row
insert_row table (c ∷ cs) row = make_row table (c ∷ cs) row

-- The loop of `Update::execute` over the columns; `new_row[i]` panics out of range.
unfoldable pub assign : Map Expression → List Bytes → Row → Outcome Row
assign changes [] row = ok row
assign changes (col ∷ cols) row = elim (lookup col changes) [
  | none ↦ elim row [
    | [] ↦ assign changes cols []
    | v ∷ vs ↦ elim (assign changes cols vs) [ ok ws ↦ ok (v ∷ ws) | err e ↦ err e | panic ↦ panic ]
  ]
  | some expr ↦ elim row [
    | [] ↦ panic
    | v ∷ vs ↦ elim (from_expression expr) [
      | ok w ↦ elim (assign changes cols vs) [ ok ws ↦ ok (w ∷ ws) | err e ↦ err e | panic ↦ panic ]
      | err e ↦ err e
      | panic ↦ panic
    ]
  ]
]

module _ {State : Type 0} (tx : Transaction State) where
  open tx use {create_row, update_row, delete_row, create_table, drop_table}

  -- The loop of `Insert::execute`.
  unfoldable pub insert_rows : Table → Bytes → List Bytes → List (List Expression) → ℕ → Act State ℕ
  unfolding ◌>>=◌ values_of insert_row
  insert_rows table table_name columns [] count = pure count
  insert_rows table table_name columns (exprs ∷ values) count =
      let rest = insert_rows table table_name columns values (count + 1) in
      lift (values_of exprs) >>= λ row.
      lift (insert_row table columns row) >>= λ new. create_row table_name new >>= λ _. rest

  -- `Insert::execute`.
  unfoldable pub insert : Bytes → List Bytes → List (List Expression) → Act State ResultSet
  unfolding ◌>>=◌ insert_rows
  insert table_name columns values = do
    table ← must_get_table tx table_name
    count ← insert_rows table table_name columns values 0
    pure (ResultSet.insert count)

  -- The loop of `Update::execute`.
  unfoldable pub update_rows : Table → Map Expression → List Bytes → List Row → ℕ → Act State ℕ
  unfolding ◌>>=◌ assign
  update_rows table changes columns [] updated = pure updated
  update_rows table changes columns (row ∷ rows) updated =
      let rest = update_rows table changes columns rows (updated + 1) in
      lift (get_primary_key table row) >>= λ pk.
      lift (assign changes columns row) >>= λ new_row. update_row table pk new_row >>= λ _. rest

  -- `Update::execute` on what its source gave.
  unfoldable pub update : Bytes → Map Expression → ResultSet → Act State ResultSet
  unfolding ◌>>=◌ update_rows
  update table_name changes (ResultSet.scan columns rows) = do
    table ← must_get_table tx table_name
    updated ← update_rows table changes columns rows 0
    pure (ResultSet.update updated)
  update table_name changes _ = lift (err internal)

  -- The loop of `Delete::execute`.
  unfoldable pub delete_rows : Table → List Row → ℕ → Act State ℕ
  unfolding ◌>>=◌
  delete_rows table [] deleted = pure deleted
  delete_rows table (row ∷ rows) deleted =
      let rest = delete_rows table rows (deleted + 1) in
      lift (get_primary_key table row) >>= λ pk. delete_row table pk >>= λ _. rest

  -- `Delete::execute` on what its source gave.
  unfoldable pub delete : Bytes → ResultSet → Act State ResultSet
  unfolding ◌>>=◌ delete_rows
  delete table_name (ResultSet.scan columns rows) = do
    table ← must_get_table tx table_name
    deleted ← delete_rows table rows 0
    pure (ResultSet.delete deleted)
  delete table_name _ = lift (err internal)

  -- `CreateTable::execute` and `DropTable::execute`.
  unfoldable pub create : Table → Act State ResultSet
  unfolding ◌>>=◌
  create schema = do create_table schema; pure (ResultSet.create_table schema.name)

  unfoldable pub drop : Bytes → Act State ResultSet
  unfolding ◌>>=◌
  drop table_name = do drop_table table_name; pure (ResultSet.drop_table table_name)
