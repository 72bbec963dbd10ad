-- ===== src/Sql/Tests.antt =====
-- Tables, rows and expressions on concrete inputs.
use sqlprimer.Prelude.{
  ◌⊎◌, drop, err, internal, List, ℕ, ◌≡◌, ◌≢◌, refl, true, false, none, some, [], ◌∷◌, ◌++◌, length,
  get_elem?, arith, ok, panic,
}
use sqlprimer.Bytes.{Bytes, cmp}
use sqlprimer.Sql.Numbers.{pos, negsuc, Floats}
use sqlprimer.Sql.Value.{DataType, Value, Row, datatype, partial_cmp}
use sqlprimer.Sql.Value.Order.{flip_some, partial_cmp-flip}
use sqlprimer.Sql.Expr.{Expression, from_expression, Consts, evaluate_expr, position}
use sqlprimer.Sql.Expr.Total.{evaluate_expr_ok}
use sqlprimer.Sql.Schema.{
  Column, Table, validate, check_columns, check_column, check_default, count_primary_keys,
  get_primary_key,
}
use sqlprimer.Sql.Schema.Valid.{IsTable, validate-IsTable, get_primary_key-validate}
use sqlprimer.Sql.Exec.{ResultSet}
use sqlprimer.Sql.Exec.Join.{hash_join, nested_loop_join}
use sqlprimer.Sql.Exec.Join.Agree.{hash_join-nested_loop_join}
use sqlprimer.Sql.Statement.{Statement}
use sqlprimer.Sql.Transaction.{Transaction}
use sqlprimer.Sql.Plan.{build_statement}
use sqlprimer.Sql.Plan.ReadsOnly.{build_statement_state}
use sqlprimer.OrderedMap.{Map, lookup}
use sqlprimer.Sql.Exec.Mutation.{assign}
use sqlprimer.Sql.Exec.Mutation.Assign.{IsUpdated, assign-IsUpdated}
use sqlprimer.Sql.Rows.{pad_row, pad_from, make_row, check_row}
use sqlprimer.Sql.Rows.Fill.{
  pad_row_lem, AreDefaults, LacksDefault, LacksValue, IsMade, make_row_lem, RowSuits,
  check_row-RowSuits,
}

-- Floats for tests, of which only the shape matters.
abbrev pub plain_floats : Floats
plain_floats = record {
  of_int = λ i. 0;
  of_text = λ s. 0;
  add = λ x y. x;
  sub = λ x y. x;
  mul = λ x y. x;
  div = λ x y. x;
  is_whole = λ x. true;
  to_int = λ x. pos 0;
}

abbrev pub id_column : Column
id_column = record {
  name = 105 ∷ [];
  column_type = DataType.integer;
  nullable = false;
  default = none;
  primary_key = true;
  index = false;
}

abbrev pub name_column : Column
name_column = record {
  name = 110 ∷ [];
  column_type = DataType.string;
  nullable = true;
  default = some Value.null;
  primary_key = false;
  index = true;
}

abbrev pub users : Table
users = record { name = 117 ∷ []; columns = id_column ∷ name_column ∷ [] }

abbrev pub seven : Row
seven = Value.integer (pos 7) ∷ Value.string (98 ∷ []) ∷ []

partial_cmp-flip_example :
    partial_cmp plain_floats (Value.integer (pos 3)) (Value.integer (negsuc 0))
    ≡ flip_some (partial_cmp plain_floats (Value.integer (negsuc 0)) (Value.integer (pos 3)))
partial_cmp-flip_example =
    partial_cmp-flip plain_floats (Value.integer (negsuc 0)) (Value.integer (pos 3))

abbrev id_over_five : Expression
id_over_five =
    Expression.greater_than (Expression.field (105 ∷ []))
      (Expression.consts (Consts.integer (pos 5)))

evaluate_expr_ok_example :
    evaluate_expr plain_floats id_over_five ((105 ∷ []) ∷ []) seven ((105 ∷ []) ∷ []) seven ≢ panic
evaluate_expr_ok_example =
    evaluate_expr_ok plain_floats id_over_five ((105 ∷ []) ∷ []) seven ((105 ∷ []) ∷ []) seven
      (omega arith) (omega arith)

validate-IsTable_example :
    (validate users ≡ ok tt → IsTable users) × (IsTable users → validate users ≡ ok tt)
validate-IsTable_example = validate-IsTable users

users_valid : validate users ≡ ok tt
unfolding validate check_columns check_column check_default count_primary_keys datatype
users_valid = refl

get_primary_key-validate_example :
    (i : ℕ) × (c : Column) × (v : Value) × (get_elem? users.columns i ≡ some c)
    × (c.primary_key ≡ true)
    × (get_elem? seven i ≡ some v)
    × (get_primary_key users seven ≡ ok v)
get_primary_key-validate_example = get_primary_key-validate users seven users_valid (omega arith)

abbrev short : Row
short = Value.integer (pos 7) ∷ []

abbrev padded : Row
padded = Value.integer (pos 7) ∷ Value.null ∷ []

short-padded : pad_row users short ≡ ok padded
unfolding pad_row pad_from
short-padded = refl

pad_row_lem_example :
    ((added : Row) × (pad_row users short ≡ ok (short ++ added))
      × AreDefaults (drop (length short) users.columns) added)
    ⊎ (LacksDefault (drop (length short) users.columns) × (pad_row users short ≡ err internal))
pad_row_lem_example = pad_row_lem users short

make_row_lem_example :
    ((length {A = Bytes} ((105 ∷ []) ∷ []) ≢ length short)
      × (make_row users ((105 ∷ []) ∷ []) short ≡ err internal))
    ⊎ ((length {A = Bytes} ((105 ∷ []) ∷ []) ≡ length short)
        × ((out : Row) × (make_row users ((105 ∷ []) ∷ []) short ≡ ok out)
            × IsMade ((105 ∷ []) ∷ []) short users.columns out))
    ⊎ ((length {A = Bytes} ((105 ∷ []) ∷ []) ≡ length short)
        × LacksValue ((105 ∷ []) ∷ []) users.columns
        × (make_row users ((105 ∷ []) ∷ []) short ≡ err internal))
make_row_lem_example = make_row_lem users ((105 ∷ []) ∷ []) short

check_row-RowSuits_example :
    (check_row users.columns seven ≡ ok tt → RowSuits users.columns seven)
    × (RowSuits users.columns seven → check_row users.columns seven ≡ ok tt)
check_row-RowSuits_example = check_row-RowSuits users.columns seven

-- Two left rows, of which one has a partner.
abbrev left_rows : List Row
left_rows = seven ∷ (Value.integer (pos 8) ∷ Value.null ∷ []) ∷ []

abbrev right_rows : List Row
right_rows = (Value.integer (pos 7) ∷ []) ∷ (Value.null ∷ []) ∷ []

abbrev left_columns : List Bytes
left_columns = (105 ∷ []) ∷ (110 ∷ []) ∷ []

abbrev right_columns : List Bytes
right_columns = (106 ∷ []) ∷ []

left_at : position (105 ∷ []) left_columns ≡ some 0
unfolding position cmp
left_at = refl

right_at : position (106 ∷ []) right_columns ≡ some 0
unfolding position cmp
right_at = refl

hash_join-nested_loop_join_example :
    hash_join
      (some (Expression.equal (Expression.field (105 ∷ [])) (Expression.field (106 ∷ []))))
      true
      (ResultSet.scan left_columns left_rows)
      (ResultSet.scan right_columns right_rows)
    ≡ nested_loop_join plain_floats
        (some (Expression.equal (Expression.field (105 ∷ [])) (Expression.field (106 ∷ []))))
        true
        (ResultSet.scan left_columns left_rows)
        (ResultSet.scan right_columns right_rows)
hash_join-nested_loop_join_example =
    hash_join-nested_loop_join plain_floats (105 ∷ []) (106 ∷ []) left_columns right_columns 0 0
      left_at right_at true left_rows right_rows
      (
        (
          Value.integer (pos 7),
          refl,
          ((Value.integer (pos 7), refl, tt), ((Value.null, refl, tt), tt)),
        ),
        (
          (
            Value.integer (pos 8),
            refl,
            ((Value.integer (pos 7), refl, tt), ((Value.null, refl, tt), tt)),
          ),
          tt,
        ),
      )
      ((Value.integer (pos 7), refl), ((Value.null, refl), tt))

-- A transaction in which there is one table.
abbrev one_table : Transaction Table
one_table = record {
  commit = λ t. (ok tt, t);
  rollback = λ t. (ok tt, t);
  version = λ t. 1;
  create_row = λ name row t. (ok tt, t);
  update_row = λ u id row t. (ok tt, t);
  delete_row = λ u id t. (ok tt, t);
  scan_table = λ name condition t. (ok [], t);
  get_table_names = λ t. (ok (t.name ∷ []), t);
  create_table = λ u t. (ok tt, u);
  get_table = λ name t. (ok (some t), t);
  drop_table = λ name t. (ok tt, t);
  load_index = λ name column value t. (ok [], t);
  save_index = λ name column value index t. (ok tt, t);
  read_by_id = λ name id t. (ok none, t);
}

one_table_reads : (name : Bytes) (t : Table) → (one_table.get_table name t).1 ≡ t
one_table_reads name t = refl

abbrev delete_five : Statement
delete_five = Statement.delete (117 ∷ []) (
    some
      (Expression.equal (Expression.field (105 ∷ [])) (Expression.consts (Consts.integer (pos 5)))))

build_statement_state_example : (build_statement one_table delete_five users).1 ≡ users
build_statement_state_example = build_statement_state one_table one_table_reads delete_five users

abbrev rename : Map Expression
rename = (110 ∷ [], Expression.consts (Consts.string (99 ∷ []))) ∷ []

abbrev renamed : Row
renamed = Value.integer (pos 7) ∷ Value.string (99 ∷ []) ∷ []

seven-renamed : assign rename left_columns seven ≡ ok renamed
unfolding assign from_expression lookup cmp
seven-renamed = refl

assign-IsUpdated_example : IsUpdated rename left_columns seven renamed
assign-IsUpdated_example = assign-IsUpdated rename left_columns seven renamed seven-renamed
