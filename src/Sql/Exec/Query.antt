-- ===== src/Sql/Exec/Query.antt =====
-- sql/executor/query.rs: scans, and what is done to the rows of a source.
use sqlprimer.Prelude.{
  ℕ, Option, none, some, List, [], ◌∷◌, map, take, drop, Outcome, ok, err, panic, internal,
  Ordering, if◌then◌else◌,
}
use sqlprimer.Bytes.{Bytes}
use sqlprimer.Storage.Mvcc.Monad.{Act, pure, lift, ◌>>=◌}
use sqlprimer.Sql.Numbers.{Floats}
use sqlprimer.Sql.Value.{Value, Row, partial_cmp}
use sqlprimer.Sql.Expr.{Expression, evaluate_expr, position, index_row}
use sqlprimer.Sql.Schema.{column_names}
use sqlprimer.Sql.Transaction.{Transaction, must_get_table}
use sqlprimer.Sql.Exec.{ResultSet}
use sqlprimer.Sql.Exec.Join.{decide}
use sqlprimer.Sql.Exec.Sort.{Sorter}

-- `Limit::execute` and `Offset::execute`.
unfoldable pub limit_rows : ℕ → ResultSet → Outcome ResultSet
limit_rows n (ResultSet.scan columns rows) = ok (ResultSet.scan columns (take n rows))
limit_rows n _ = err internal

unfoldable pub offset_rows : ℕ → ResultSet → Outcome ResultSet
offset_rows n (ResultSet.scan columns rows) = ok (ResultSet.scan columns (drop n rows))
offset_rows n _ = err internal

module _ (f : Floats) where
  -- The loop of `Filter::execute`; without a predicate no row is kept.
  unfoldable pub filter_loop : Option Expression → List Bytes → List Row → Outcome (List Row)
  unfolding decide
  filter_loop predicate columns [] = ok []
  filter_loop none columns (row ∷ rows) = filter_loop none columns rows
  filter_loop (some expr) columns (row ∷ rows) =
      elim (decide (evaluate_expr f expr columns row columns row)) [
        | ok keep ↦ elim (filter_loop (some expr) columns rows) [
          | ok kept ↦ ok (if keep then row ∷ kept else kept)
          | err e ↦ err e
          | panic ↦ panic
        ]
        | err e ↦ err e
        | panic ↦ panic
      ]

  unfoldable pub filter_rows : Option Expression → ResultSet → Outcome ResultSet
  unfolding filter_loop
  filter_rows predicate (ResultSet.scan columns rows) = elim (filter_loop predicate columns rows) [
    | ok kept ↦ ok (ResultSet.scan columns kept)
    | err e ↦ err e
    | panic ↦ panic
  ]
  filter_rows predicate _ = err internal

abbrev pub alias_or : Option Bytes → Bytes → Bytes
alias_or none name = name
alias_or (some alias) name = alias

-- The loop over the selected expressions; one that is no column is passed over.
unfoldable pub selected_columns :
    List Bytes → List (Expression × Option Bytes) → Outcome (List (ℕ × Bytes))
selected_columns columns [] = ok []
selected_columns columns ((Expression.field name, alias) ∷ select) = elim (position name columns) [
  | none ↦ err internal
  | some pos ↦ elim (selected_columns columns select) [
    | ok found ↦ ok ((pos, alias_or alias name) ∷ found)
    | err e ↦ err e
    | panic ↦ panic
  ]
]
selected_columns columns (_ ∷ select) = selected_columns columns select

unfoldable pub project_row : List (ℕ × Bytes) → Row → Outcome Row
project_row [] row = ok []
project_row ((pos, name) ∷ selected) row = elim (index_row row pos) [
  | ok v ↦ elim (project_row selected row) [ ok vs ↦ ok (v ∷ vs) | err e ↦ err e | panic ↦ panic ]
  | err e ↦ err e
  | panic ↦ panic
]

unfoldable pub project_rows : List (ℕ × Bytes) → List Row → Outcome (List Row)
unfolding project_row
project_rows selected [] = ok []
project_rows selected (row ∷ rows) = elim (project_row selected row) [
  | ok r ↦ elim (project_rows selected rows) [ ok rs ↦ ok (r ∷ rs) | err e ↦ err e | panic ↦ panic ]
  | err e ↦ err e
  | panic ↦ panic
]

-- `Projection::execute`.
unfoldable pub project : List (Expression × Option Bytes) → ResultSet → Outcome ResultSet
unfolding selected_columns project_rows
project select (ResultSet.scan columns rows) = elim (selected_columns columns select) [
  | ok selected ↦ elim (project_rows selected rows) [
    | ok new_rows ↦ ok (ResultSet.scan (map (λ s. s.1) selected) new_rows)
    | err e ↦ err e
    | panic ↦ panic
  ]
  | err e ↦ err e
  | panic ↦ panic
]
project select _ = err internal

module _ {State : Type 0} (tx : Transaction State) (f : Floats) where
  open tx use {scan_table, load_index, read_by_id}

  -- `Scan::execute`.
  unfoldable pub scan : Bytes → Option Expression → Act State ResultSet
  unfolding ◌>>=◌
  scan table_name condition = do
    table ← must_get_table tx table_name
    rows ← scan_table table_name condition
    pure (ResultSet.scan (column_names table) rows)

  -- Values that do not compare count as equal.
  abbrev by_value : Value → Value → Ordering
  by_value x y = elim (partial_cmp f x y) [ some o ↦ o | none ↦ Ordering.eq ]

  abbrev found_rows : Option Row → List Row → List Row
  found_rows none rows = rows
  found_rows (some row) rows = row ∷ rows

  -- The loop over the sorted members of the index; one without a row is passed over.
  unfoldable pub read_rows : Bytes → List Value → Act State (List Row)
  unfolding ◌>>=◌
  read_rows table_name [] = pure []
  read_rows table_name (pk ∷ pks) =
      let rest = read_rows table_name pks in
      read_by_id table_name pk >>= λ row. rest >>= λ rows. pure (found_rows row rows)

  -- `IndexScan::execute`.
  unfoldable pub index_scan : Sorter → Bytes → Bytes → Value → Act State ResultSet
  unfolding ◌>>=◌ read_rows
  index_scan s table_name field value = do
    table ← must_get_table tx table_name
    index ← load_index table_name field value
    pks ← lift (s.sort_by (λ x y. ok (by_value x y)) index)
    rows ← read_rows table_name pks
    pure (ResultSet.scan (column_names table) rows)

  -- A float without a fraction is looked up as an integer.
  unfoldable pub key_of : Value → Value
  key_of (Value.float v) = if f.is_whole v then Value.integer (f.to_int v) else Value.float v
  key_of v = v

  -- `PrimaryKeyScan::execute`.
  unfoldable pub primary_key_scan : Bytes → Value → Act State ResultSet
  unfolding ◌>>=◌ key_of
  primary_key_scan table_name value = do
    table ← must_get_table tx table_name
    row ← read_by_id table_name (key_of value)
    pure (ResultSet.scan (column_names table) (found_rows row []))
