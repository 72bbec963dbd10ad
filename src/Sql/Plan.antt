-- ===== src/Sql/Plan.antt =====
-- sql/plan/: the nodes of a plan, and the planner.
pub mod ReadsOnly
pub mod Display
use sqlprimer.Prelude.{
  ℕ, Bool, true, false, ◌&&◌, ◌||◌, not, Option, none, some, List, [], ◌∷◌, Outcome, ok, err, panic,
  internal, if◌then◌else◌,
}
use sqlprimer.Bytes.{Bytes}
use sqlprimer.OrderedMap.{Map}
use sqlprimer.OrderedMap.Lookup.{same}
use sqlprimer.Storage.Mvcc.Monad.{Act, pure, lift, ◌>>=◌}
use sqlprimer.Sql.Numbers.{as_usize}
use sqlprimer.Sql.Value.{Value}
use sqlprimer.Sql.Expr.{Expression, from_expression}
use sqlprimer.Sql.Schema.{Column, Table}
use sqlprimer.Sql.Statement.{
  ColumnDef, OrderDirection, JoinType, FromItem, table, join, Selection, Statement,
}
use sqlprimer.Sql.Transaction.{Transaction, must_get_table}

pub data Node : Type 0 where
  create_table : Table → Node
  insert : Bytes → List Bytes → List (List Expression) → Node
  scan : Bytes → Option Expression → Node
  update : Bytes → Node → Map Expression → Node
  delete : Bytes → Node → Node
  order : Node → List (Bytes × OrderDirection) → Node
  limit : Node → ℕ → Node
  offset : Node → ℕ → Node
  projection : Node → List (Expression × Option Bytes) → Node
  nested_loop_join : Node → Node → Option Expression → Bool → Node
  hash_join : Node → Node → Option Expression → Bool → Node
  aggregate : Node → List (Expression × Option Bytes) → Option Expression → Node
  filter : Node → Option Expression → Node
  index_scan : Bytes → Bytes → Value → Node
  primary_key_scan : Bytes → Value → Node
  drop_table : Bytes → Node

-- `lv.unwrap().0` and `rv.unwrap().1`.
abbrev pub unwrap_both :
    {A B : Type 0} → Outcome (Option (A × B)) → Outcome (Option (A × B)) → Outcome (Option (A × B))
unwrap_both panic _ = panic
unwrap_both (err e) _ = err e
unwrap_both (ok _) panic = panic
unwrap_both (ok _) (err e) = err e
unwrap_both (ok none) (ok _) = panic
unwrap_both (ok (some _)) (ok none) = panic
unwrap_both (ok (some l)) (ok (some r)) = ok (some (l.0, r.1))

abbrev constant : Outcome Value → Outcome (Option (Bytes × Value))
constant (ok v) = ok (some ([], v))
constant (err e) = err e
constant panic = panic

unfoldable pub parse_filter_expr : Expression → Outcome (Option (Bytes × Value))
unfolding from_expression
parse_filter_expr (Expression.field f) = ok (some (f, Value.null))
parse_filter_expr (Expression.consts c) = constant (from_expression (Expression.consts c))
parse_filter_expr (Expression.equal l r) = unwrap_both (parse_filter_expr l) (parse_filter_expr r)
parse_filter_expr _ = ok none

unfoldable pub parse_scan_filter : Option Expression → Outcome (Option (Bytes × Value))
unfolding parse_filter_expr
parse_scan_filter none = ok none
parse_scan_filter (some expr) = parse_filter_expr expr

-- Whether some column has the name and passes the test.
unfoldable pub any_column : (Column → Bool) → Bytes → List Column → Bool
any_column test field [] = false
any_column test field (c ∷ cs) = (same c.name field && test c) || any_column test field cs

abbrev unwrap_or : {A : Type 0} → Option A → A → A
unwrap_or none d = d
unwrap_or (some x) d = x

-- How the table is read, by the kind of the column that the filter names.
unfoldable pub choose_scan : Bytes → Option Expression → Bytes → Value → Table → Node
choose_scan table_name condition field value t =
    if any_column (λ c. c.primary_key) field t.columns
    then Node.primary_key_scan table_name value
    else if any_column (λ c. c.index) field t.columns
    then Node.index_scan table_name field value
    else Node.scan table_name condition

-- The default of a column: as written, or NULL where the column may be null.
abbrev default_of : Option Expression → Bool → Outcome (Option Value)
default_of (some e) nullable = elim (from_expression e) [
  | ok v ↦ ok (some v)
  | err x ↦ err x
  | panic ↦ panic
]
default_of none true = ok (some Value.null)
default_of none false = ok none

unfoldable pub build_column : ColumnDef → Outcome Column
build_column c =
    let nullable = unwrap_or c.nullable (not c.primary_key) in
    elim (default_of c.default nullable) [
      | ok d ↦ ok (record {
        name = c.name;
        column_type = c.column_type;
        nullable = nullable;
        default = d;
        primary_key = c.primary_key;
        index = c.index && not c.primary_key;
      })
      | err x ↦ err x
      | panic ↦ panic
    ]

unfoldable pub build_columns : List ColumnDef → Outcome (List Column)
build_columns [] = ok []
build_columns (c ∷ cs) = elim (build_column c) [
  | ok d ↦ elim (build_columns cs) [ ok ds ↦ ok (d ∷ ds) | err x ↦ err x | panic ↦ panic ]
  | err x ↦ err x
  | panic ↦ panic
]

-- Whether some selected expression is a function.
unfoldable pub has_aggregate : List (Expression × Option Bytes) → Bool
has_aggregate [] = false
has_aggregate ((Expression.function name field, alias) ∷ select) = true
has_aggregate (_ ∷ select) = has_aggregate select

-- `Value::Integer(i) => i as usize`
unfoldable pub row_count : Outcome Value → Outcome ℕ
row_count (ok (Value.integer i)) = ok (as_usize i)
row_count (ok _) = err internal
row_count (err x) = err x
row_count panic = panic

abbrev with_aggregate : Selection → Node → Node
with_aggregate s node =
    if has_aggregate s.select then Node.aggregate node s.select s.group_by else node

abbrev with_having : Option Expression → Node → Node
with_having none node = node
with_having (some e) node = Node.filter node (some e)

abbrev with_order : List (Bytes × OrderDirection) → Node → Node
with_order [] node = node
with_order (o ∷ os) node = Node.order node (o ∷ os)

abbrev with_offset : Option Expression → Node → Outcome Node
with_offset none node = ok node
with_offset (some e) node = elim (row_count (from_expression e)) [
  | ok n ↦ ok (Node.offset node n)
  | err x ↦ err x
  | panic ↦ panic
]

abbrev with_limit : Option Expression → Outcome Node → Outcome Node
with_limit none node = node
with_limit (some e) panic = panic
with_limit (some e) (err x) = err x
with_limit (some e) (ok node) = elim (row_count (from_expression e)) [
  | ok n ↦ ok (Node.limit node n)
  | err x ↦ err x
  | panic ↦ panic
]

abbrev with_projection : List (Expression × Option Bytes) → Outcome Node → Outcome Node
with_projection [] node = node
with_projection (x ∷ xs) (ok node) =
    if has_aggregate (x ∷ xs) then ok node else ok (Node.projection node (x ∷ xs))
with_projection (x ∷ xs) (err e) = err e
with_projection (x ∷ xs) panic = panic

-- What `SELECT` puts around the node that reads its tables, from the inside out.
unfoldable pub wrap_selection : Selection → Node → Outcome Node
unfolding row_count
wrap_selection s node = with_projection s.select (
    with_limit s.limit
      (with_offset s.offset (with_order s.order_by (with_having s.having (with_aggregate s node)))))

-- The sides of a join: a right join is a left join with its sides exchanged.
abbrev pub sides : {A : Type 0} → JoinType → A → A → A × A
sides JoinType.right l r = (r, l)
sides _ l r = (l, r)

abbrev pub is_outer : JoinType → Bool
is_outer JoinType.cross = false
is_outer JoinType.inner = false
is_outer _ = true

unfoldable pub join_node : JoinType → Node → Node → Option Expression → Node
join_node JoinType.cross l r predicate =
    Node.nested_loop_join l r predicate (is_outer JoinType.cross)
join_node kind l r predicate = Node.hash_join l r predicate (is_outer kind)

module _ {State : Type 0} (tx : Transaction State) where
  plan_scan : Bytes → Option Expression → Option (Bytes × Value) → Act State Node
  unfolding ◌>>=◌
  plan_scan table_name condition none = pure (Node.scan table_name condition)
  plan_scan table_name condition (some (field, value)) = do
    t ← must_get_table tx table_name
    pure (choose_scan table_name condition field value t)

  unfoldable pub build_scan : Bytes → Option Expression → Act State Node
  unfolding ◌>>=◌ plan_scan
  build_scan table_name condition = do
    parsed ← lift (parse_scan_filter condition)
    plan_scan table_name condition parsed

  -- The condition goes to both sides of a join.
  unfoldable pub build_from_item : FromItem → Option Expression → Act State Node
  unfolding ◌>>=◌ build_scan
  build_from_item (table name) condition = build_scan name condition
  build_from_item (join l r kind predicate) condition =
      let (first, second) =
        sides kind (build_from_item l condition) (build_from_item r condition) in
      first >>= λ a. second >>= λ b. pure (join_node kind a b predicate)

  unfoldable pub build_statement : Statement → Act State Node
  unfolding ◌>>=◌
  build_statement (Statement.create_table name columns) = do
    cs ← lift (build_columns columns)
    pure (Node.create_table (record { name = name; columns = cs }))
  build_statement (Statement.insert table_name columns values) =
      pure (Node.insert table_name (unwrap_or columns []) values)
  build_statement (Statement.select s) = do
    node ← build_from_item s.from_item s.where_clause
    lift (wrap_selection s node)
  build_statement (Statement.update table_name columns where_clause) = do
    source ← build_scan table_name where_clause
    pure (Node.update table_name source columns)
  build_statement (Statement.delete table_name where_clause) = do
    source ← build_scan table_name where_clause
    pure (Node.delete table_name source)
  build_statement Statement.begin = lift (err internal)
  build_statement Statement.commit = lift (err internal)
  build_statement Statement.rollback = lift (err internal)
  build_statement (Statement.explain stmt) = lift (err internal)
  build_statement (Statement.drop_table table_name) = pure (Node.drop_table table_name)
