-- ===== src/Sql/Exec/Tests.antt =====
-- Orders and groups of concrete rows, and a session over the memory engine.
use mathlib.Core.List.{Perm}
use sqlprimer.Prelude.{
  ℕ, ◌≡◌, ◌≢◌, ◌⊎◌, true, false, Option, none, some, List, [], ◌∷◌, All, arith, Outcome, ok, err,
  internal,
}
use sqlprimer.Bytes.{Bytes, cmp}
use sqlprimer.OrderedMap.{Map}
use sqlprimer.Storage.Memory.{MemoryEngine}
use sqlprimer.Storage.Mvcc.Bincode.{plain}
use sqlprimer.Storage.Mvcc.State.{TransactionState}
use sqlprimer.Sql.Numbers.{pos, negsuc}
use sqlprimer.Sql.Value.{DataType, Value, Row}
use sqlprimer.Sql.Expr.{position, index_row}
use sqlprimer.Sql.Statement.{OrderDirection, Statement}
use sqlprimer.Sql.Tests.{plain_floats, seven}
use sqlprimer.Sql.Exec.{ResultSet}
use sqlprimer.Sql.Exec.Display.{to_string}
use sqlprimer.Sql.Exec.Join.{same_key}
use sqlprimer.Sql.Exec.Order.{order_rows}
use sqlprimer.Sql.Exec.Order.Sorted.{Fits, AllInOrder, order_rows_lem}
use sqlprimer.Sql.Exec.Sort.Insertion.{insertion, insertion-IsSorter}
use sqlprimer.Sql.Value.Kinds.{OfKind}
use sqlprimer.Sql.Exec.Aggregate.{group_rows}
use sqlprimer.Sql.Exec.Aggregate.Groups.{concat, Apart, group_rows_lem}
use sqlprimer.Sql.Session.{Platform, execute_statement, execute_sql}
use sqlprimer.Sql.Text.{ascii}
use sqlprimer.Sql.Session.States.{IsControl, execute_statement_txn}
use sqlprimer.Sql.Kv.Codec.Plain.{plain_codec}
use sqlprimer.Sql.Kv.Database.{kv_engine}

abbrev minus_one : Row
minus_one = Value.integer (negsuc 0) ∷ Value.null ∷ []

abbrev three_rows : List Row
three_rows = seven ∷ minus_one ∷ seven ∷ []

abbrev id_and_name : List Bytes
id_and_name = (105 ∷ []) ∷ (110 ∷ []) ∷ []

abbrev by_id : List (Bytes × OrderDirection)
by_id = ((105 ∷ []), OrderDirection.asc) ∷ []

abbrev integers : Bytes → DataType
integers name = DataType.integer

three_fit : All (Fits plain_floats id_and_name integers by_id) three_rows
unfolding position cmp
three_fit = (
  (OfKind.integer (pos 7), tt),
  ((OfKind.integer (negsuc 0), tt), ((OfKind.integer (pos 7), tt), tt)),
)

order_rows_lem_example :
    ((¬ All (λ o. position o.0 id_and_name ≢ none) by_id)
      × (order_rows plain_floats insertion by_id (ResultSet.scan id_and_name three_rows)
          ≡ err internal))
    ⊎ (All (λ o. position o.0 id_and_name ≢ none) by_id
        × ((sorted : List Row) × (order_rows plain_floats insertion by_id
                (ResultSet.scan id_and_name three_rows)
              ≡ ok (ResultSet.scan id_and_name sorted))
            × Perm sorted three_rows
            × AllInOrder plain_floats id_and_name by_id sorted))
order_rows_lem_example =
    order_rows_lem plain_floats id_and_name insertion integers by_id three_rows insertion-IsSorter
      three_fit

group_rows_lem_example :
    (groups : List (Value × List Row)) × (group_rows 0 [] three_rows ≡ ok groups)
    × Perm (concat groups) three_rows
    × All
        (λ g.
          All
            (λ row. (v : Value) × (index_row row 0 ≡ ok v) × ((g.0 ≡ v) ⊎ (same_key g.0 v ≡ true)))
            g.1)
        groups
    × Apart groups
group_rows_lem_example = group_rows_lem 0 three_rows (omega arith, (omega arith, (omega arith, tt)))

abbrev platform : Platform
platform = record {
  floats = plain_floats;
  unicode = record {
    whitespace = λ c. false;
    alphabetic = λ c. false;
    numeric = λ c. false;
    upper = λ s. s;
    lower = λ s. s;
  };
  show_float = λ x. [];
  sorter = insertion;
  arrange = λ groups. groups;
}

abbrev run :
    Statement
    → Map Bytes × Option TransactionState
    → Outcome ResultSet × (Map Bytes × Option TransactionState)
run = execute_statement (kv_engine MemoryEngine plain plain_codec plain_floats) platform

execute_statement_txn_example :
    ((Statement.begin ≡ Statement.begin)
      × (◌≡◌ {A = Option TransactionState} none none)
      × ((h : TransactionState) × (v : ℕ) × ((run Statement.begin ([], none)).0
            ≡ ok (ResultSet.begin v))
          × ((run Statement.begin ([], none)).1.1 ≡ some h)))
    ⊎ (((Statement.begin ≡ Statement.commit) ⊎ (Statement.begin ≡ Statement.rollback))
        × (◌≢◌ {A = Option TransactionState} none none)
        × ((r : ResultSet) × ((run Statement.begin ([], none)).0 ≡ ok r))
        × ((run Statement.begin ([], none)).1.1 ≡ none))
    ⊎ (((run Statement.begin ([], none)).1.1 ≡ none)
        × (IsControl Statement.begin → (r : ResultSet) → (run Statement.begin ([], none)).0 ≢ ok r))
execute_statement_txn_example =
    execute_statement_txn (kv_engine MemoryEngine plain plain_codec plain_floats) platform
      Statement.begin [] none

abbrev shown_table : Outcome Bytes
shown_table = to_string (λ x. []) (ResultSet.scan id_and_name three_rows)

-- A session over an empty engine, statement by statement.
abbrev session_result : Outcome ResultSet
session_result =
    let db = kv_engine MemoryEngine plain plain_codec plain_floats in
    let s1 = (execute_sql db platform (ascii "create table t (a int primary key);") ([], none)).1 in
    let s2 = (execute_sql db platform (ascii "insert into t values (2), (1);") s1).1 in
    let s3 = (execute_sql db platform (ascii "begin;") s2).1 in
    let s4 = (execute_sql db platform (ascii "delete from t where a = 2;") s3).1 in
    let s5 = (execute_sql db platform (ascii "rollback;") s4).1 in
    (execute_sql db platform (ascii "select * from t order by a desc;") s5).0
