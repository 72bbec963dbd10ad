-- ===== src/Sql/Expr.antt =====
-- The expressions of sql/parser/ast.rs and their value.
pub mod Total
use sqlprimer.Prelude.{
  ℕ, suc, Bool, true, false, Option, none, some, List, [], ◌∷◌, get_elem?, Ordering, Outcome, ok,
  err, panic, internal, ◌>>=◌, if◌then◌else◌,
}
use sqlprimer.Bytes.{Bytes, cmp}
use sqlprimer.OrderedMap.Lookup.{same}
use sqlprimer.Sql.Numbers.{ℤ, F64, compare_int, compare_float, Floats}
use sqlprimer.Sql.Value.{Value, Row, compare_bool, is_eq}

pub data Consts : Type 0 where
  null : Consts
  boolean : Bool → Consts
  integer : ℤ → Consts
  float : F64 → Consts
  string : Bytes → Consts

-- `Expression`, with the cases of `Operation` among its own.
pub data Expression : Type 0 where
  field : Bytes → Expression
  consts : Consts → Expression
  equal : Expression → Expression → Expression
  greater_than : Expression → Expression → Expression
  less_than : Expression → Expression → Expression
  function : Bytes → Bytes → Expression

abbrev pub value_of : Consts → Value
value_of Consts.null = Value.null
value_of (Consts.boolean x) = Value.boolean x
value_of (Consts.integer x) = Value.integer x
value_of (Consts.float x) = Value.float x
value_of (Consts.string x) = Value.string x

-- `Value::from_expression`; the last case is `unreachable!()`.
unfoldable pub from_expression : Expression → Outcome Value
from_expression (Expression.consts c) = ok (value_of c)
from_expression (Expression.field s) = ok (Value.string s)
from_expression _ = panic

-- `iter().position(|c| *c == name)`
unfoldable pub position : Bytes → List Bytes → Option ℕ
position name [] = none
position name (c ∷ cs) = elim (position name cs) [
  | some i ↦ if same c name then some 0 else some (suc i)
  | none ↦ if same c name then some 0 else none
]

-- `row[pos]`, which panics out of range.
unfoldable pub index_row : Row → ℕ → Outcome Value
index_row row pos = elim (get_elem? row pos) [ none ↦ panic | some v ↦ ok v ]

unfoldable pub field_value : List Bytes → Row → Bytes → Outcome Value
field_value cols row name = elim (position name cols) [
  | some pos ↦ index_row row pos
  | none ↦ err internal
]

abbrev pub is_gt : Option Ordering → Bool
is_gt (some Ordering.gt) = true
is_gt _ = false

abbrev pub is_lt : Option Ordering → Bool
is_lt (some Ordering.lt) = true
is_lt _ = false

module _ (f : Floats) where
  -- The match that `Equal`, `GreaterThan` and `LessThan` share, for the test of each.
  unfoldable pub compare_values : (Option Ordering → Bool) → Value → Value → Outcome Value
  compare_values test Value.null _ = ok Value.null
  compare_values test _ Value.null = ok Value.null
  compare_values test (Value.boolean l) (Value.boolean r) =
      ok (Value.boolean (test (some (compare_bool l r))))
  compare_values test (Value.integer l) (Value.integer r) =
      ok (Value.boolean (test (some (compare_int l r))))
  compare_values test (Value.integer l) (Value.float r) =
      ok (Value.boolean (test (compare_float (f.of_int l) r)))
  compare_values test (Value.float l) (Value.integer r) =
      ok (Value.boolean (test (compare_float l (f.of_int r))))
  compare_values test (Value.float l) (Value.float r) =
      ok (Value.boolean (test (compare_float l r)))
  compare_values test (Value.string l) (Value.string r) = ok (Value.boolean (test (some (cmp l r))))
  compare_values test _ _ = err internal

  -- The right operand of a comparison is evaluated with the sides exchanged.
  unfoldable pub evaluate_expr : Expression → List Bytes → Row → List Bytes → Row → Outcome Value
  unfolding compare_values
  evaluate_expr (Expression.field name) lcols lrow rcols rrow = field_value lcols lrow name
  evaluate_expr (Expression.consts c) lcols lrow rcols rrow = ok (value_of c)
  evaluate_expr (Expression.equal l r) lcols lrow rcols rrow = do
    lv ← evaluate_expr l lcols lrow rcols rrow
    rv ← evaluate_expr r rcols rrow lcols lrow
    compare_values is_eq lv rv
  evaluate_expr (Expression.greater_than l r) lcols lrow rcols rrow = do
    lv ← evaluate_expr l lcols lrow rcols rrow
    rv ← evaluate_expr r rcols rrow lcols lrow
    compare_values is_gt lv rv
  evaluate_expr (Expression.less_than l r) lcols lrow rcols rrow = do
    lv ← evaluate_expr l lcols lrow rcols rrow
    rv ← evaluate_expr r rcols rrow lcols lrow
    compare_values is_lt lv rv
  evaluate_expr (Expression.function name argument) lcols lrow rcols rrow = err internal
