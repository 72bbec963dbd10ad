-- ===== src/Sql/Rows.antt =====
-- The rows that an insert makes (sql/executor/mutation.rs), and their check (sql/engine/kv.rs).
pub mod Fill
use sqlprimer.Prelude.{
  ℕ, Bool, true, false, not, Option, none, some, List, [], ◌∷◌, ◌++◌, length, drop, Outcome, ok,
  err, panic, internal, ◌>>=◌, ◌>>◌, if◌then◌else◌, ◌==◌, map,
}
use sqlprimer.Bytes.{Bytes}
use sqlprimer.OrderedMap.Lookup.{same}
use sqlprimer.Sql.Value.{Value, Row, DataType, datatype, same_type}
use sqlprimer.Sql.Schema.{Column, Table}
use sqlprimer.Sql.Expr.{index_row}

-- The loop of `pad_row` over the columns that the row leaves.
unfoldable pub pad_from : List Column → Row → Outcome Row
pad_from [] results = ok results
pad_from (c ∷ cs) results = elim c.default [
  | some v ↦ pad_from cs (results ++ v ∷ [])
  | none ↦ err internal
]

unfoldable pub pad_row : Table → Row → Outcome Row
unfolding pad_from
pad_row table row = pad_from (drop (length row) table.columns) row

-- A `HashMap` from names to values, as a list in which a later entry replaces an earlier one.
unfoldable pub get_input : Bytes → List (Bytes × Value) → Option Value
get_input name [] = none
get_input name ((n, v) ∷ inputs) = elim (get_input name inputs) [
  | some w ↦ some w
  | none ↦ if same n name then some v else none
]

unfoldable pub zip_inputs : List Bytes → Row → List (Bytes × Value)
zip_inputs [] vs = []
zip_inputs (c ∷ cs) [] = []
zip_inputs (c ∷ cs) (v ∷ vs) = (c, v) ∷ zip_inputs cs vs

unfoldable pub column_value : List (Bytes × Value) → Column → Outcome Value
column_value inputs c = elim (get_input c.name inputs) [
  | some v ↦ ok v
  | none ↦ elim c.default [ some v ↦ ok v | none ↦ err internal ]
]

unfoldable pub make_from : List (Bytes × Value) → List Column → Outcome Row
make_from inputs [] = ok []
make_from inputs (c ∷ cs) = do v ← column_value inputs c; vs ← make_from inputs cs; ok (v ∷ vs)

unfoldable pub make_row : Table → List Bytes → Row → Outcome Row
make_row table columns values =
    if length columns == length values
    then make_from (zip_inputs columns values) table.columns
    else err internal

-- One round of the check of `create_row`.
unfoldable pub check_value : Column → Option DataType → Outcome (Unit {0})
check_value c none = if c.nullable then ok tt else err internal
check_value c (some dt) = if same_type dt c.column_type then ok tt else err internal

-- The check of `create_row`; `row[i]` panics where the row is too short.
unfoldable pub check_row : List Column → Row → Outcome (Unit {0})
check_row [] row = ok tt
check_row (c ∷ cs) [] = panic
check_row (c ∷ cs) (v ∷ vs) = do check_value c (datatype v); check_row cs vs
