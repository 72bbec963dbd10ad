-- ===== src/Sql/Display.antt =====
-- `Display` of values (sql/types/mod.rs), expressions (sql/parser/ast.rs), and columns and tables
-- (sql/schema.rs).
use sqlprimer.Prelude.{
  ℕ, zero, suc, ◌+◌, ◌/◌, ◌%◌, true, false, ◌&&◌, not, Option, none, some, List, [], ◌∷◌, ◌++◌, map,
  ltb, if◌then◌else◌,
}
use sqlprimer.Bytes.{Bytes}
use sqlprimer.Sql.Text.{ascii}
use sqlprimer.Sql.Numbers.{ℤ, pos, negsuc, F64}
use sqlprimer.Sql.Value.{DataType, Value}
use sqlprimer.Sql.Schema.{Column, Table}
use sqlprimer.Sql.Expr.{Expression, value_of}

-- The digits of a number below 10 ^ fuel.
digits : ℕ → ℕ → Bytes
digits zero n = []
digits (suc fuel) n =
    let more = digits fuel (n / 10) in
    if ltb n 10 then (48 + n) ∷ [] else more ++ (48 + n % 10) ∷ []

-- An `i64` has at most 19 digits, a `usize` 20.
unfoldable pub show_int : ℤ → Bytes
unfolding digits
show_int (pos n) = digits 20 n
show_int (negsuc n) = 45 ∷ digits 20 (suc n)

-- `join` of texts.
unfoldable pub join_texts : Bytes → List Bytes → Bytes
join_texts sep [] = []
join_texts sep (t ∷ []) = t
join_texts sep (t ∷ s ∷ ts) = t ++ sep ++ join_texts sep (s ∷ ts)

-- `show_float` is the standard library's text of an `f64`.
module _ (show_float : F64 → Bytes) where
  unfoldable pub show_value : Value → Bytes
  unfolding show_int
  show_value Value.null = ascii "NULL"
  show_value (Value.boolean true) = ascii "TRUE"
  show_value (Value.boolean false) = ascii "FALSE"
  show_value (Value.integer v) = show_int v
  show_value (Value.float v) = show_float v
  show_value (Value.string v) = v

  unfoldable pub show_expression : Expression → Bytes
  unfolding show_value
  show_expression (Expression.field v) = v
  show_expression (Expression.consts c) = show_value (value_of c)
  show_expression (Expression.equal l r) = show_expression l ++ ascii " = " ++ show_expression r
  show_expression (Expression.greater_than l r) =
      show_expression l ++ ascii " > " ++ show_expression r
  show_expression (Expression.less_than l r) = show_expression l ++ ascii " < " ++ show_expression r
  show_expression (Expression.function name field) = name ++ ascii "(" ++ field ++ ascii ")"

  -- The `Debug` text of a data type.
  abbrev show_type : DataType → Bytes
  show_type DataType.boolean = ascii "Boolean"
  show_type DataType.integer = ascii "Integer"
  show_type DataType.float = ascii "Float"
  show_type DataType.string = ascii "String"

  abbrev show_default : Option Value → Bytes
  show_default none = []
  show_default (some v) = ascii " DEFAULT " ++ show_value v

  unfoldable pub show_column : Column → Bytes
  unfolding show_value
  show_column c =
      ascii "     "
      ++ c.name
      ++ ascii " "
      ++ show_type c.column_type
      ++ (if c.primary_key then ascii " PRIMARY KEY" else [])
      ++ (if not c.nullable && not c.primary_key then ascii " NOT NULL" else [])
      ++ show_default c.default

  unfoldable pub show_table : Table → Bytes
  unfolding show_column join_texts
  show_table t =
      ascii "CREATE TABLE "
      ++ t.name
      ++ ascii " ("
      ++ 10 ∷ (join_texts (44 ∷ 10 ∷ []) (map show_column t.columns) ++ 10 ∷ 41 ∷ [])
