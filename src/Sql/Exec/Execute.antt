-- ===== src/Sql/Exec/Execute.antt =====
-- sql/executor/mod.rs: the executor of each node of a plan.
use sqlprimer.Prelude.{List, Outcome, err, internal}
use sqlprimer.Storage.Mvcc.Monad.{Act, lift, ◌>>=◌}
use sqlprimer.Sql.Text.{Unicode}
use sqlprimer.Sql.Numbers.{Floats}
use sqlprimer.Sql.Value.{Value, Row}
use sqlprimer.Sql.Transaction.{Transaction}
use sqlprimer.Sql.Plan.{Node}
use sqlprimer.Sql.Exec.{ResultSet}
use sqlprimer.Sql.Exec.Join.{nested_loop_join, hash_join}
use sqlprimer.Sql.Exec.Query.{
  limit_rows, offset_rows, filter_rows, project, scan, index_scan, primary_key_scan,
}
use sqlprimer.Sql.Exec.Mutation.{insert, update, delete, create, drop}
use sqlprimer.Sql.Exec.Sort.{Sorter}
use sqlprimer.Sql.Exec.Order.{order_rows}
use sqlprimer.Sql.Exec.Aggregate.{aggregate}

-- A join executes its right source once its left source gave rows.
unfoldable pub with_right :
    {S : Type 0} → ResultSet → Act S ResultSet → (ResultSet → Outcome ResultSet) → Act S ResultSet
unfolding ◌>>=◌
with_right (ResultSet.scan columns rows) right join = do rows' ← right; lift (join rows')
with_right _ right join = lift (err internal)

module _ {State : Type 0} (tx : Transaction State) (f : Floats) (s : Sorter) (u : Unicode)
    (arrange : List (Value × List Row) → List (Value × List Row)) where
  -- `build` and `execute`: an executor with a source executes the source first.
  unfoldable pub execute : Node → Act State ResultSet
  unfolding ◌>>=◌
  execute (Node.create_table schema) = create tx schema
  execute (Node.insert table_name columns values) = insert tx table_name columns values
  execute (Node.scan table_name condition) = scan tx f table_name condition
  execute (Node.update table_name source columns) = do
    rows ← execute source
    update tx table_name columns rows
  execute (Node.delete table_name source) = do rows ← execute source; delete tx table_name rows
  execute (Node.order source order_by) = do
    rows ← execute source
    lift (order_rows f s order_by rows)
  execute (Node.limit source n) = do rows ← execute source; lift (limit_rows n rows)
  execute (Node.offset source n) = do rows ← execute source; lift (offset_rows n rows)
  execute (Node.projection source select) = do rows ← execute source; lift (project select rows)
  execute (Node.nested_loop_join l r predicate outer) = do
    left ← execute l
    with_right left (execute r) (nested_loop_join f predicate outer left)
  execute (Node.hash_join l r predicate outer) = do
    left ← execute l
    with_right left (execute r) (hash_join predicate outer left)
  execute (Node.aggregate source exprs group_by) = do
    rows ← execute source
    lift (aggregate f s u arrange exprs group_by rows)
  execute (Node.filter source predicate) = do
    rows ← execute source
    lift (filter_rows f predicate rows)
  execute (Node.index_scan table_name field value) = index_scan tx f s table_name field value
  execute (Node.primary_key_scan table_name value) = primary_key_scan tx f table_name value
  execute (Node.drop_table table_name) = drop tx table_name
