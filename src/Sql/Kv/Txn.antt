-- ===== src/Sql/Kv/Txn.antt =====
-- The methods of `KVTransaction` in sql/engine/kv.rs.
use sqlprimer.Prelude.{
  ℕ, suc, Bool, true, Option, none, some, List, [], ◌∷◌, map, Outcome, ok, err, panic, internal,
  if◌then◌else◌,
}
use sqlprimer.Bytes.{Bytes}
use sqlprimer.OrderedMap.{Map}
use sqlprimer.Storage.Mvcc.Monad.{Act, pure, lift, ◌>>=◌, ◌>>◌, for_each}
use sqlprimer.Sql.Numbers.{Floats}
use sqlprimer.Sql.Value.{Value, Row, equal}
use sqlprimer.Sql.Expr.{Expression, evaluate_expr, index_row}
use sqlprimer.Sql.Schema.{Column, Table, validate, get_primary_key, column_names}
use sqlprimer.Sql.Rows.{check_row}
use sqlprimer.Sql.Exec.Join.{decide, same_key}
use sqlprimer.Sql.Transaction.{Transaction, found}
use sqlprimer.Sql.Kv.Key.{Key, KeyPrefix, encode_key, encode_key_prefix}
use sqlprimer.Sql.Kv.Store.{KeyValue}
use sqlprimer.Sql.Kv.Codec.{Codec, is_member, decode_option}

-- `columns.iter().enumerate().filter(|c| c.1.index)`
unfoldable pub index_cols : ℕ → List Column → List (ℕ × Column)
index_cols i [] = []
index_cols i (c ∷ cs) = let rest = index_cols (suc i) cs in if c.index then (i, c) ∷ rest else rest

-- `insert` and `remove` of a `HashSet`.
unfoldable pub insert_member : Value → List Value → List Value
insert_member v ws = if is_member v ws then ws else v ∷ ws

unfoldable pub remove_member : Value → List Value → List Value
remove_member v [] = []
remove_member v (w ∷ ws) = let rest = remove_member v ws in if same_key w v then rest else w ∷ rest

-- `unwrap_or_default`
abbrev pub or_empty : Option (List Value) → List Value
or_empty none = []
or_empty (some index) = index

-- An error where the primary key is taken.
unfoldable pub reject_duplicate : Option Bytes → Outcome (Unit {0})
reject_duplicate none = ok tt
reject_duplicate (some value) = err internal

-- An error where the table exists.
unfoldable pub reject_table : Option Table → Outcome (Unit {0})
reject_table none = ok tt
reject_table (some table) = err internal

module _ (c : Codec) (f : Floats) where
  abbrev keeps : Table → Option Expression → Row → Outcome Bool
  keeps table none row = ok true
  keeps table (some expr) row =
      decide (evaluate_expr f expr (column_names table) row (column_names table) row)

  -- The loop of `scan_table`.
  unfoldable pub select_rows : Table → Option Expression → Map Bytes → Outcome (List Row)
  select_rows table condition [] = ok []
  select_rows table condition ((key, value) ∷ results) = elim (c.deserialize_row value) [
    | ok row ↦ elim (keeps table condition row) [
      | ok keep ↦ elim (select_rows table condition results) [
        | ok rows ↦ ok (if keep then row ∷ rows else rows)
        | err e ↦ err e
        | panic ↦ panic
      ]
      | err e ↦ err e
      | panic ↦ panic
    ]
    | err e ↦ err e
    | panic ↦ panic
  ]

  -- The loop of `get_table_names`.
  unfoldable pub table_names_of : Map Bytes → Outcome (List Bytes)
  table_names_of [] = ok []
  table_names_of ((key, value) ∷ results) = elim (c.deserialize_table value) [
    | ok table ↦ elim (table_names_of results) [
      | ok names ↦ ok (table.name ∷ names)
      | err e ↦ err e
      | panic ↦ panic
    ]
    | err e ↦ err e
    | panic ↦ panic
  ]

module _ (x : KeyValue) (c : Codec) (f : Floats) where
  open x use {State, get, set, delete, scan_prefix}

  unfoldable pub get_table : Bytes → Act State (Option Table)
  unfolding ◌>>=◌
  get_table table_name = do
    value ← get (encode_key (Key.table table_name))
    lift (decode_option c.deserialize_table value)

  -- `must_get_table` of the trait, for this implementation.
  unfoldable pub get_table_or_fail : Bytes → Act State Table
  unfolding ◌>>=◌
  get_table_or_fail table_name = do table ← get_table table_name; found table

  unfoldable pub read_by_id : Bytes → Value → Act State (Option Row)
  unfolding ◌>>=◌
  read_by_id table_name id = do
    value ← get (encode_key (Key.row table_name id))
    lift (decode_option c.deserialize_row value)

  unfoldable pub load_index : Bytes → Bytes → Value → Act State (List Value)
  unfolding ◌>>=◌
  load_index table_name col_name col_val = do
    value ← get (encode_key (Key.index table_name col_name col_val))
    index ← lift (decode_option c.deserialize_index value)
    pure (or_empty index)

  -- An empty index is deleted.
  unfoldable pub save_index : Bytes → Bytes → Value → List Value → Act State (Unit {0})
  save_index table_name col_name col_val [] =
      delete (encode_key (Key.index table_name col_name col_val))
  save_index table_name col_name col_val (v ∷ vs) =
      set (encode_key (Key.index table_name col_name col_val)) (c.serialize_index (v ∷ vs))

  unfoldable pub create_table : Table → Act State (Unit {0})
  unfolding ◌>>=◌
  create_table table = do
    old ← get_table table.name
    lift (reject_table old)
    lift (validate table)
    set (encode_key (Key.table table.name)) (c.serialize_table table)

  -- One round of the loop of `create_row` over the indexes.
  unfoldable pub add_to_index : Bytes → Value → Row → ℕ × Column → Act State (Unit {0})
  unfolding ◌>>=◌
  add_to_index table_name pk row (i, index_col) = do
    v ← lift (index_row row i)
    index ← load_index table_name index_col.name v
    save_index table_name index_col.name v (insert_member pk index)

  unfoldable pub create_row : Bytes → Row → Act State (Unit {0})
  unfolding ◌>>=◌
  create_row table_name row = do
    table ← get_table_or_fail table_name
    lift (check_row table.columns row)
    pk ← lift (get_primary_key table row)
    old ← get (encode_key (Key.row table_name pk))
    lift (reject_duplicate old)
    set (encode_key (Key.row table_name pk)) (c.serialize_row row)
    for_each (index_cols 0 table.columns) (add_to_index table_name pk row)

  unfoldable pub scan_table : Bytes → Option Expression → Act State (List Row)
  unfolding ◌>>=◌
  scan_table table_name condition = do
    table ← get_table_or_fail table_name
    results ← scan_prefix (encode_key_prefix (KeyPrefix.row table_name))
    lift (select_rows c f table condition results)

  unfoldable pub get_table_names : Act State (List Bytes)
  unfolding ◌>>=◌
  get_table_names = do
    results ← scan_prefix (encode_key_prefix KeyPrefix.table)
    lift (table_names_of c f results)

  -- One round of the loop of `delete_row` over the indexes: the index is loaded, the id is removed
  -- from what was loaded, and the index is loaded again.
  unfoldable pub remove_from_index : Bytes → Row → ℕ × Column → Act State (Unit {0})
  unfolding ◌>>=◌
  remove_from_index table_name row (i, index_col) = do
    v ← lift (index_row row i)
    index ← load_index table_name index_col.name v
    again ← load_index table_name index_col.name v
    pure tt

  unfoldable pub remove_from_indexes : Table → Option Row → Act State (Unit {0})
  remove_from_indexes table none = pure tt
  remove_from_indexes table (some row) =
      for_each (index_cols 0 table.columns) (remove_from_index table.name row)

  unfoldable pub delete_row : Table → Value → Act State (Unit {0})
  unfolding ◌>>=◌
  delete_row table id = do
    row ← read_by_id table.name id
    remove_from_indexes table row
    delete (encode_key (Key.row table.name id))

  -- The id moves from the index of the old value to that of the new one.
  unfoldable pub move_in_index : Bytes → Value → Column → Value → Value → Act State (Unit {0})
  unfolding ◌>>=◌
  move_in_index table_name id index_col old_val new_val = do
    old_index ← load_index table_name index_col.name old_val
    save_index table_name index_col.name old_val (remove_member id old_index)
    new_index ← load_index table_name index_col.name new_val
    save_index table_name index_col.name new_val (insert_member id new_index)

  unfoldable pub update_old : Bytes → Value → Row → ℕ × Column → Option Row → Act State (Unit {0})
  unfolding ◌>>=◌
  update_old table_name id row (i, index_col) none = pure tt
  update_old table_name id row (i, index_col) (some old_row) = do
    old_val ← lift (index_row old_row i)
    new_val ← lift (index_row row i)
    if equal old_val new_val then pure tt else move_in_index table_name id index_col old_val new_val

  -- One round of the loop of `update_row` over the indexes.
  unfoldable pub update_index : Bytes → Value → Row → ℕ × Column → Act State (Unit {0})
  unfolding ◌>>=◌
  update_index table_name id row col = do
    old_row ← read_by_id table_name id
    update_old table_name id row col old_row

  -- The primary key is kept.
  unfoldable pub update_in_place : Table → Value → Value → Row → Act State (Unit {0})
  unfolding ◌>>=◌
  update_in_place table id new_pk row = do
    for_each (index_cols 0 table.columns) (update_index table.name id row)
    set (encode_key (Key.row table.name new_pk)) (c.serialize_row row)

  unfoldable pub update_row : Table → Value → Row → Act State (Unit {0})
  unfolding ◌>>=◌
  update_row table id row = do
    new_pk ← lift (get_primary_key table row)
    if equal id new_pk
        then update_in_place table id new_pk row
        else (delete_row table id >> create_row table.name row)

  unfoldable pub drop_table : Bytes → Act State (Unit {0})
  unfolding ◌>>=◌
  drop_table table_name = do
    results ← scan_prefix (encode_key_prefix (KeyPrefix.row table_name))
    for_each (map (λ e. e.0) results) delete
    delete (encode_key (Key.table table_name))

  -- `KVTransaction` as an implementation of the trait.
  abbrev pub kv_transaction : Transaction State
  kv_transaction = record {
    commit = x.commit;
    rollback = x.rollback;
    version = λ s. x.version;
    create_row = create_row;
    update_row = update_row;
    delete_row = delete_row;
    scan_table = scan_table;
    get_table_names = get_table_names;
    create_table = create_table;
    get_table = get_table;
    drop_table = drop_table;
    load_index = load_index;
    save_index = save_index;
    read_by_id = read_by_id;
  }
