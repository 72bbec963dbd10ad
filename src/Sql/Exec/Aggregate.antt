-- ===== src/Sql/Exec/Aggregate.antt =====
-- sql/executor/agg.rs: the aggregate functions, and `GROUP BY`.
pub mod Groups
use sqlprimer.Prelude.{
  ℕ, suc, Bool, true, false, ◌&&◌, not, Option, none, some, List, [], ◌∷◌, ◌++◌, length, Ordering,
  Outcome, ok, err, panic, internal, ◌>>=◌, ◌>>◌, if◌then◌else◌, ltb,
}
use sqlprimer.Bytes.{Bytes}
use sqlprimer.OrderedMap.Lookup.{same}
use sqlprimer.Sql.Text.{ascii, Unicode, to_uppercase}
use sqlprimer.Sql.Numbers.{pos, F64, Floats}
use sqlprimer.Sql.Value.{Value, Row, partial_cmp}
use sqlprimer.Sql.Expr.{Expression, position, index_row}
use sqlprimer.Sql.Exec.{ResultSet}
use sqlprimer.Sql.Exec.Join.{same_key}
use sqlprimer.Sql.Exec.Query.{alias_or}
use sqlprimer.Sql.Exec.Sort.{Sorter}

pub data Calculator : Type 0 where
  count : Calculator
  min : Calculator
  max : Calculator
  sum : Calculator
  avg : Calculator

-- `Calculator::build`
unfoldable pub build : Unicode → Bytes → Outcome Calculator
build u func_name =
    let name = to_uppercase u func_name in
    if same name (ascii "COUNT")
    then ok Calculator.count
    else if same name (ascii "MIN")
    then ok Calculator.min
    else if same name (ascii "MAX")
    then ok Calculator.max
    else if same name (ascii "SUM")
    then ok Calculator.sum
    else if same name (ascii "AVG")
    then ok Calculator.avg
    else err internal

unfoldable pub column_position : Bytes → List Bytes → Outcome ℕ
column_position col_name cols = elim (position col_name cols) [
  | some p ↦ ok p
  | none ↦ err internal
]

abbrev pub is_null : Value → Bool
is_null Value.null = true
is_null _ = false

-- The values of a column that are not NULL.
unfoldable pub values_at : ℕ → List Row → Outcome (List Value)
values_at p [] = ok []
values_at p (row ∷ rows) = do
  v ← index_row row p
  vs ← values_at p rows
  ok (if is_null v then vs else v ∷ vs)

-- `Count::calc`
unfoldable pub calc_count : Bytes → List Bytes → List Row → Outcome Value
calc_count col_name cols rows = do
  p ← column_position col_name cols
  values ← values_at p rows
  ok (Value.integer (pos (length values)))

-- `values[0]` after the sort, or NULL where there are no values.
abbrev first_or_null : List Value → Value
first_or_null [] = Value.null
first_or_null (v ∷ vs) = v

abbrev unwrap : Option Ordering → Outcome Ordering
unwrap none = panic
unwrap (some o) = ok o

module _ (f : Floats) where
  -- `sum.unwrap() + v`, from 0.0, whose bits are 0.
  abbrev add_to : Option F64 → F64 → Option F64
  add_to none v = some (f.add 0 v)
  add_to (some s) v = some (f.add s v)

  -- One round of the loop of `Sum::calc`.
  abbrev add_value : Option F64 → Value → Outcome (Option F64)
  add_value s Value.null = ok s
  add_value s (Value.integer v) = ok (add_to s (f.of_int v))
  add_value s (Value.float v) = ok (add_to s v)
  add_value s _ = err internal

  unfoldable pub sum_from : Option F64 → ℕ → List Row → Outcome (Option F64)
  sum_from s p [] = ok s
  sum_from s p (row ∷ rows) = do v ← index_row row p; s' ← add_value s v; sum_from s' p rows

  abbrev float_or_null : Option F64 → Value
  float_or_null none = Value.null
  float_or_null (some s) = Value.float s

  -- `Sum::calc`
  unfoldable pub calc_sum : Bytes → List Bytes → List Row → Outcome Value
  calc_sum col_name cols rows = do
    p ← column_position col_name cols
    s ← sum_from none p rows
    ok (float_or_null s)

  abbrev divide : Value → Value → Value
  divide (Value.float s) (Value.integer c) = Value.float (f.div s (f.of_int c))
  divide _ _ = Value.null

  -- `Avg::calc`
  unfoldable pub calc_avg : Bytes → List Bytes → List Row → Outcome Value
  calc_avg col_name cols rows = do
    s ← calc_sum col_name cols rows
    c ← calc_count col_name cols rows
    ok (divide s c)

module _ (f : Floats) (s : Sorter) where
  -- `Min::calc` and `Max::calc`
  unfoldable pub calc_min : Bytes → List Bytes → List Row → Outcome Value
  calc_min col_name cols rows = do
    p ← column_position col_name cols
    values ← values_at p rows
    sorted ← s.sort_by (λ a b. unwrap (partial_cmp f a b)) values
    ok (first_or_null sorted)

  unfoldable pub calc_max : Bytes → List Bytes → List Row → Outcome Value
  calc_max col_name cols rows = do
    p ← column_position col_name cols
    values ← values_at p rows
    sorted ← s.sort_by (λ a b. unwrap (partial_cmp f b a)) values
    ok (first_or_null sorted)

  unfoldable pub calc : Calculator → Bytes → List Bytes → List Row → Outcome Value
  calc Calculator.count = calc_count
  calc Calculator.min = calc_min
  calc Calculator.max = calc_max
  calc Calculator.sum = calc_sum f
  calc Calculator.avg = calc_avg f

-- `agg_map.entry(key).or_insert(..).push(row)`; the entries stand in the order of their insertion.
unfoldable pub push_group : Value → Row → List (Value × List Row) → List (Value × List Row)
push_group key row [] = (key, row ∷ []) ∷ []
push_group key row ((k, rows) ∷ groups) =
    let rest = push_group key row groups in
    if same_key k key then (k, rows ++ row ∷ []) ∷ groups else (k, rows) ∷ rest

unfoldable pub group_rows :
    ℕ → List (Value × List Row) → List Row → Outcome (List (Value × List Row))
group_rows p groups [] = ok groups
group_rows p groups (row ∷ rows) = do
  key ← index_row row p
  group_rows p (push_group key row groups) rows

-- A selected column that is not the one of the `GROUP BY`.
unfoldable pub check_grouped : Option Expression → Bytes → Outcome (Unit {0})
check_grouped (some (Expression.field group_col)) col_name =
    if same col_name group_col then ok tt else err internal
check_grouped _ col_name = ok tt

-- The names of the new columns are pushed until there are as many as expressions.
abbrev pub push_col : ℕ → List Bytes → Bytes → List Bytes
push_col n new_cols name = if ltb (length new_cols) n then new_cols ++ name ∷ [] else new_cols

-- `col_val.clone().unwrap()`
abbrev pub unwrap_value : Option Value → Outcome Value
unwrap_value none = panic
unwrap_value (some v) = ok v

module _ (f : Floats) (s : Sorter) (u : Unicode) (exprs : List (Expression × Option Bytes))
    (group_by : Option Expression) (columns : List Bytes) where
  -- The loop of the closure `calc`, over what is left of the expressions.
  unfoldable pub calc_row :
      Option Value
      → List Row
      → List (Expression × Option Bytes)
      → List Bytes
      → Outcome (Row × List Bytes)
  calc_row col_val rows [] new_cols = ok ([], new_cols)
  calc_row col_val rows ((Expression.function func_name col_name, alias) ∷ es) new_cols = do
    calculator ← build u func_name
    v ← calc f s calculator col_name columns rows
    (vs, cols) ←
        calc_row col_val rows es (push_col (length exprs) new_cols (alias_or alias func_name))
    ok (v ∷ vs, cols)
  calc_row col_val rows ((Expression.field col_name, alias) ∷ es) new_cols = do
    check_grouped group_by col_name
    v ← unwrap_value col_val
    (vs, cols) ←
        calc_row col_val rows es (push_col (length exprs) new_cols (alias_or alias col_name))
    ok (v ∷ vs, cols)
  calc_row col_val rows (_ ∷ es) new_cols = err internal

  -- The loop over the groups.
  unfoldable pub calc_groups :
      List (Value × List Row) → List Bytes → Outcome (List Row × List Bytes)
  calc_groups [] new_cols = ok ([], new_cols)
  calc_groups ((key, rows) ∷ groups) new_cols = do
    (row, cols) ← calc_row (some key) rows exprs new_cols
    (more, cols') ← calc_groups groups cols
    ok (row ∷ more, cols')

abbrev scan_of : List Row × List Bytes → Outcome ResultSet
scan_of (rows, cols) = ok (ResultSet.scan cols rows)

-- `Aggregate::execute` on what its source gave. The order of the iteration over the `HashMap` is
-- left open: `arrange` gives it.
module _ (f : Floats) (s : Sorter) (u : Unicode)
    (arrange : List (Value × List Row) → List (Value × List Row)) where
  unfoldable pub aggregate :
      List (Expression × Option Bytes) → Option Expression → ResultSet → Outcome ResultSet
  aggregate exprs (some (Expression.field group_col)) (ResultSet.scan columns rows) = do
    p ← column_position group_col columns
    groups ← group_rows p [] rows
    result ← calc_groups f s u exprs (some (Expression.field group_col)) columns (arrange groups) []
    scan_of result
  aggregate exprs group_by (ResultSet.scan columns rows) = do
    (row, cols) ← calc_row f s u exprs group_by columns none rows exprs []
    ok (ResultSet.scan cols (row ∷ []))
  aggregate exprs group_by _ = err internal
