-- ===== src/Sql/Plan/Display.antt =====
-- `Display` of the nodes of a plan (sql/plan/mod.rs).
use sqlprimer.Prelude.{
  Bool, true, false, Option, none, some, [], ◌∷◌, ◌++◌, map, Outcome, ok, panic, ◌>>=◌,
}
use sqlprimer.Bytes.{Bytes}
use sqlprimer.Sql.Text.{ascii}
use sqlprimer.Sql.Numbers.{pos, F64}
use sqlprimer.Sql.Expr.{Expression}
use sqlprimer.Sql.Statement.{OrderDirection}
use sqlprimer.Sql.Display.{show_int, join_texts, show_value, show_expression}
use sqlprimer.Sql.Plan.{Node}

-- `show_float` is the standard library's text of an `f64`.
module _ (show_float : F64 → Bytes) where
  abbrev show_direction : Bytes × OrderDirection → Bytes
  show_direction (name, OrderDirection.asc) = name ++ ascii " asc"
  show_direction (name, OrderDirection.desc) = name ++ ascii " desc"

  abbrev show_selected : Expression × Option Bytes → Bytes
  show_selected (e, none) = show_expression show_float e
  show_selected (e, some alias) = show_expression show_float e ++ ascii " as " ++ alias

  abbrev show_predicate : Bytes → Option Expression → Bytes
  show_predicate before none = []
  show_predicate before (some e) = before ++ show_expression show_float e ++ ascii ")"

  -- What stands before the description of a node, and the prefix of its sources.
  abbrev intro : Bytes → Bool → Bytes
  intro prefix true =
      ascii "           SQL PLAN           "
      ++ 10 ∷ (ascii "------------------------------" ++ 10 ∷ prefix)
  intro prefix false = 10 ∷ prefix

  abbrev next_prefix : Bytes → Bytes
  next_prefix [] = ascii "  ->  "
  next_prefix (b ∷ prefix) = ascii "  " ++ b ∷ prefix

  -- `predicate.clone().unwrap()`
  abbrev show_unwrapped : Option Expression → Outcome Bytes
  show_unwrapped none = panic
  show_unwrapped (some e) = ok (show_expression show_float e)

  -- `Node::format`, as the text that it writes.
  unfoldable pub format : Node → Bytes → Bool → Outcome Bytes
  format (Node.create_table schema) prefix root =
      ok (intro prefix root ++ ascii "Create Table " ++ schema.name)
  format (Node.drop_table table_name) prefix root =
      ok (intro prefix root ++ ascii "Drop Table " ++ table_name)
  format (Node.insert table_name columns values) prefix root =
      ok (intro prefix root ++ ascii "Insert Into " ++ table_name)
  format (Node.scan table_name condition) prefix root = ok (
      intro prefix root
      ++ ascii "Seq Scan On "
      ++ table_name
      ++ show_predicate (ascii " (") condition)
  format (Node.update table_name source columns) prefix root = do
    rest ← format source (next_prefix prefix) false
    ok (intro prefix root ++ ascii "Update On " ++ table_name ++ rest)
  format (Node.delete table_name source) prefix root = do
    rest ← format source (next_prefix prefix) false
    ok (intro prefix root ++ ascii "Delete On " ++ table_name ++ rest)
  format (Node.order source order_by) prefix root = do
    rest ← format source (next_prefix prefix) false
    ok (
        intro prefix root
        ++ ascii "Order By ("
        ++ join_texts (ascii ",") (map show_direction order_by)
        ++ ascii ")"
        ++ rest)
  format (Node.limit source n) prefix root = do
    rest ← format source (next_prefix prefix) false
    ok (intro prefix root ++ ascii "Limit " ++ show_int (pos n) ++ rest)
  format (Node.offset source n) prefix root = do
    rest ← format source (next_prefix prefix) false
    ok (intro prefix root ++ ascii "Offset " ++ show_int (pos n) ++ rest)
  format (Node.projection source select) prefix root = do
    rest ← format source (next_prefix prefix) false
    ok (
        intro prefix root
        ++ ascii "Projection ("
        ++ join_texts (ascii ", ") (map show_selected select)
        ++ ascii ")"
        ++ rest)
  format (Node.nested_loop_join l r predicate outer) prefix root = do
    left ← format l (next_prefix prefix) false
    right ← format r (next_prefix prefix) false
    ok (
        intro prefix root
        ++ ascii "Nested Loop Join"
        ++ show_predicate (ascii "(") predicate
        ++ left
        ++ right)
  format (Node.hash_join l r predicate outer) prefix root = do
    left ← format l (next_prefix prefix) false
    right ← format r (next_prefix prefix) false
    ok (
        intro prefix root
        ++ ascii "Hash Join"
        ++ show_predicate (ascii "(") predicate
        ++ left
        ++ right)
  format (Node.aggregate source exprs group_by) prefix root = do
    rest ← format source (next_prefix prefix) false
    ok (
        intro prefix root
        ++ ascii "Aggregate ("
        ++ join_texts (ascii ", ") (map show_selected exprs)
        ++ ascii ")"
        ++ rest)
  format (Node.filter source predicate) prefix root = do
    shown ← show_unwrapped predicate
    rest ← format source (next_prefix prefix) false
    ok (intro prefix root ++ ascii "Filter (" ++ shown ++ ascii ")" ++ rest)
  format (Node.index_scan table_name field value) prefix root =
      ok (intro prefix root ++ ascii "Index Scan On " ++ table_name ++ ascii "." ++ field)
  format (Node.primary_key_scan table_name value) prefix root = ok (
      intro prefix root
      ++ ascii "Primary Key Scan On "
      ++ table_name
      ++ ascii "("
      ++ show_value show_float value
      ++ ascii ")")

  -- `to_string` of a plan.
  unfoldable pub show_plan : Node → Outcome Bytes
  show_plan node = format node [] true
