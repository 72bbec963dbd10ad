-- ===== src/Sql/Schema.antt =====
-- sql/schema.rs: tables and their columns.
pub mod Valid
use sqlprimer.Prelude.{
  ℕ, suc, Bool, true, false, ◌&&◌, not, Option, none, some, List, [], ◌∷◌, map, Outcome, ok, err,
  panic, internal, ◌>>=◌, ◌>>◌, if◌then◌else◌, ◌==◌,
}
use sqlprimer.Bytes.{Bytes}
use sqlprimer.OrderedMap.Lookup.{same}
use sqlprimer.Sql.Value.{DataType, Value, Row, datatype, same_type}
use sqlprimer.Sql.Expr.{index_row, position}

pub record Column : Type 0 where
  pub name : Bytes
  pub column_type : DataType
  pub nullable : Bool
  pub default : Option Value
  pub primary_key : Bool
  pub index : Bool

pub record Table : Type 0 where
  pub name : Bytes
  pub columns : List Column

-- `filter(|c| c.primary_key).count()`
unfoldable pub count_primary_keys : List Column → ℕ
count_primary_keys [] = 0
count_primary_keys (c ∷ cs) =
    if c.primary_key then suc (count_primary_keys cs) else count_primary_keys cs

-- The default value of a column against the type of the column.
unfoldable pub check_default : Column → Option DataType → Outcome (Unit {0})
check_default c none = ok tt
check_default c (some dt) = if same_type dt c.column_type then ok tt else err internal

abbrev pub default_type : Option Value → Option DataType
default_type none = none
default_type (some v) = datatype v

unfoldable pub check_column : Column → Outcome (Unit {0})
unfolding check_default
check_column c =
    if c.primary_key && c.nullable then err internal else check_default c (default_type c.default)

unfoldable pub check_columns : List Column → Outcome (Unit {0})
unfolding check_column
check_columns [] = ok tt
check_columns (c ∷ cs) = do check_column c; check_columns cs

unfoldable pub validate : Table → Outcome (Unit {0})
validate table = elim table.columns [
  | [] ↦ err internal
  | c ∷ cs ↦
      if count_primary_keys table.columns == 1 then check_columns table.columns else err internal
]

-- `position(|c| c.primary_key)`
unfoldable pub primary_key_position : List Column → Option ℕ
primary_key_position [] = none
primary_key_position (c ∷ cs) = elim (primary_key_position cs) [
  | some i ↦ if c.primary_key then some 0 else some (suc i)
  | none ↦ if c.primary_key then some 0 else none
]

-- `expect` panics where no column is the primary key.
unfoldable pub get_primary_key : Table → Row → Outcome Value
get_primary_key table row = elim (primary_key_position table.columns) [
  | some pos ↦ index_row row pos
  | none ↦ panic
]

abbrev pub column_names : Table → List Bytes
column_names table = map (λ c. c.name) table.columns

unfoldable pub get_col_index : Table → Bytes → Outcome ℕ
get_col_index table col_name = elim (position col_name (column_names table)) [
  | some pos ↦ ok pos
  | none ↦ err internal
]
