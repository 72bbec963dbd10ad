-- ===== src/Sql/Kv/Tests.antt =====
-- Tables and rows over a plain map, and over a transaction of the memory engine.
use sqlprimer.Prelude.{
  ℕ, get_elem?, ◌≡◌, ◌≢◌, ◌⊎◌, inr, refl, ap, ◌∙◌, true, Option, none, some, List, [], ◌∷◌, arith,
  Outcome, ok, err, internal, write_conflict,
}
use sqlprimer.Bytes.{Bytes, cmp, starts_with}
use sqlprimer.OrderedMap.{Map, lookup, insert, remove}
use sqlprimer.OrderedMap.Lookup.{
  lookup-insert_self, lookup-insert_ne, lookup-remove_self, lookup-remove_ne,
}
use sqlprimer.Storage.Memory.{MemoryEngine}
use sqlprimer.Storage.Mvcc.Bincode.{plain, plain-IsInverse}
use sqlprimer.Sql.Numbers.{pos, as_usize, compare_int}
use sqlprimer.Sql.Value.{Value, Row, datatype, equal}
use sqlprimer.Sql.Schema.{Table, Column}
use sqlprimer.Sql.Tests.{plain_floats, users, seven}
use sqlprimer.Storage.Keycode.{serialize_str, serialize_unit_variant, serialize_u64, to_be}
use sqlprimer.Sql.Schema.{validate, get_primary_key, primary_key_position}
use sqlprimer.Sql.Expr.{index_row}
use sqlprimer.Sql.Rows.{check_row, check_value}
use sqlprimer.Sql.Exec.Join.{same_key}
use sqlprimer.Sql.Kv.Codec.{decode_option, is_member}
use sqlprimer.Sql.Kv.Txn.{get_table, create_table, create_row, read_by_id, delete_row, load_index}
use sqlprimer.Sql.Kv.Indexes.{index_in, IsDb}
use sqlprimer.Sql.Kv.Tables.{create_table_lem}
use sqlprimer.Sql.Kv.Create.{create_row_lem}
use sqlprimer.Sql.Kv.Delete.{delete_row_lem}
use sqlprimer.Sql.Kv.Key.{Key, KeyPrefix, encode_key, encode_key_prefix, serialize_value}
use sqlprimer.Sql.Kv.Key.Distinct.{
  IsName, IsStorable, encode-table, encode-index, encode_key-row_injective, starts_with-encode_key,
}
use sqlprimer.Sql.Kv.Store.{KeyValue, IsKeyValue}
use sqlprimer.Sql.Kv.Codec.Plain.{plain_codec, plain_codec-IsCodec}
use sqlprimer.Sql.Kv.Mvcc.{mvcc_transaction, Writes, mvcc_transaction_lem}
use sqlprimer.Storage.Mvcc.Reads.{Reads}
use sqlprimer.Storage.Mvcc.System.Tests.{
  second, m3, IsStore-wrote, second-IsBounded, second_sees_itself,
}

-- A store that is a map.
abbrev map_store : KeyValue
map_store = record {
  State = Map Bytes;
  version = 1;
  commit = λ m. (ok tt, m);
  rollback = λ m. (ok tt, m);
  get = λ k m. (ok (lookup k m), m);
  set = λ k v m. (ok tt, insert k v m);
  delete = λ k m. (ok tt, remove k m);
  scan_prefix = λ p m. (ok m, m);
}

abbrev map_store-IsKeyValue : IsKeyValue map_store
map_store-IsKeyValue = record {
  IsGood = λ m. Unit;
  view = λ m k. lookup k m;
  get-view = λ m k h. refl;
  set_cases = λ m k v b h.
      inr (insert k v m, refl, tt, lookup-insert_self k v m, λ j n. lookup-insert_ne j k v m n);
  delete_cases = λ m k b h.
      inr (remove k m, refl, tt, lookup-remove_self k m, λ j n. lookup-remove_ne j k m n);
}

users_name : IsName users.name
users_name = ((omega arith, omega arith), tt)

mvcc_transaction_lem_example :
    ((r : Option Bytes) × ((mvcc_transaction MemoryEngine plain second).get (107 ∷ []) m3
        ≡ (ok r, m3))
      × Reads plain second (107 ∷ []) m3 r)
    × ((v : Bytes)
        → Writes plain second plain-IsInverse second-IsBounded second_sees_itself
            (107 ∷ [])
            (some v)
            m3
            ((mvcc_transaction MemoryEngine plain second).set (107 ∷ []) v m3))
    × Writes plain second plain-IsInverse second-IsBounded second_sees_itself
        (107 ∷ [])
        none
        m3
        ((mvcc_transaction MemoryEngine plain second).delete (107 ∷ []) m3)
mvcc_transaction_lem_example =
    mvcc_transaction_lem plain second plain-IsInverse second-IsBounded second_sees_itself m3
      (107 ∷ []) (omega arith, tt) IsStore-wrote

encode_key-row_injective_example :
    (users.name ≡ users.name) × (Value.integer (pos 7) ≡ Value.integer (pos 7))
encode_key-row_injective_example =
    encode_key-row_injective users.name users.name (Value.integer (pos 7)) (Value.integer (pos 7))
      users_name users_name (omega arith) (omega arith) refl

-- The rows of `us` are met by a scan of `u`.
starts_with-encode_key_example :
    starts_with
      (encode_key_prefix (KeyPrefix.row users.name))
      (encode_key (Key.row (117 ∷ 115 ∷ []) (Value.integer (pos 7))))
    ≡ starts_with users.name (117 ∷ 115 ∷ [])
starts_with-encode_key_example =
    starts_with-encode_key users.name (117 ∷ 115 ∷ []) (Value.integer (pos 7)) users_name

users-absent : get_table map_store plain_codec plain_floats users.name [] ≡ (ok none, [])
unfolding get_table decode_option lookup
users-absent = refl

create_table_lem_example :
    ((◌≡◌ {A = Option Table} none none → ⊥)
      × (create_table map_store plain_codec plain_floats users [] ≡ (err internal, [])))
    ⊎ ((◌≡◌ {A = Option Table} none none)
        × (validate users ≢ ok tt)
        × (create_table map_store plain_codec plain_floats users [] ≡ (validate users, [])))
    ⊎ ((◌≡◌ {A = Option Table} none none)
        × (validate users ≡ ok tt)
        × (create_table map_store plain_codec plain_floats users [] ≡ (err write_conflict, [])))
    ⊎ ((◌≡◌ {A = Option Table} none none)
        × (validate users ≡ ok tt)
        × ((m : Map Bytes) × (create_table map_store plain_codec plain_floats users [] ≡ (ok tt, m))
            × Unit {0}
            × (get_table map_store plain_codec plain_floats users.name m ≡ (ok (some users), m))
            × ((n : Bytes)
                → n ≢ users.name
                → get_table map_store plain_codec plain_floats n m
                  ≡ ((get_table map_store plain_codec plain_floats n []).0, m))))
create_table_lem_example =
    create_table_lem map_store map_store-IsKeyValue plain_codec plain_floats plain_codec-IsCodec
      users users_name [] tt none users-absent

-- A store with one table.
abbrev with_users : Map Bytes
with_users = insert (encode_key (Key.table users.name)) (plain_codec.serialize_table users) []

users-known :
    get_table map_store plain_codec plain_floats users.name with_users
    ≡ (ok (some users), with_users)
unfolding get_table decode_option lookup insert cmp encode_key serialize_str serialize_unit_variant
users-known = refl

nothing : (k : Bytes) → lookup {V = Bytes} k [] ≡ none
unfolding lookup
nothing k = refl

no_index :
    (n col : Bytes) (v : Value)
    → (ws : Option (List Value)) × (index_in map_store map_store-IsKeyValue plain_codec
          plain_codec-IsCodec plain_floats n col v with_users
        ≡ ok ws)
unfolding decode_option
no_index n col v = (
  none,
  ap (decode_option plain_codec.deserialize_index) (
      lookup-insert_ne (encode_key (Key.index n col v)) (encode_key (Key.table users.name))
        (plain_codec.serialize_table users) []
        (λ e. cc (e, encode-index n col v, encode-table users.name))
      ∙ nothing _),
)

with_users-IsDb :
    IsDb map_store map_store-IsKeyValue plain_codec plain_codec-IsCodec plain_floats with_users
with_users-IsDb = record { good = tt; readable = no_index }

seven-checked : check_row users.columns seven ≡ ok tt
unfolding check_row check_value datatype
seven-checked = refl

seven-key : get_primary_key users seven ≡ ok (Value.integer (pos 7))
unfolding get_primary_key primary_key_position index_row
seven-key = refl

seven-same : same_key (Value.integer (pos 7)) (Value.integer (pos 7)) ≡ true
unfolding same_key equal compare_int
seven-same = refl

seven-absent :
    read_by_id map_store plain_codec plain_floats users.name (Value.integer (pos 7)) with_users
    ≡ (ok none, with_users)
unfolding read_by_id decode_option lookup insert cmp encode_key serialize_str serialize_unit_variant
    serialize_value serialize_u64 to_be as_usize
seven-absent = refl

abbrev created : Outcome (Unit {0}) × Map Bytes
created = create_row map_store plain_codec plain_floats users.name seven with_users

create_row_lem_example :
    ((◌≡◌ {A = Option Row} none none → ⊥) × (created ≡ (err internal, with_users)))
    ⊎ ((◌≡◌ {A = Option Row} none none) × ((m : Map Bytes) × (created ≡ (err write_conflict, m))))
    ⊎ ((◌≡◌ {A = Option Row} none none)
        × ((m : Map Bytes) × (created ≡ (ok tt, m))
            × (read_by_id map_store plain_codec plain_floats users.name (Value.integer (pos 7)) m
                ≡ (ok (some seven), m))
            × ((n : Bytes) (id : Value)
                → IsName n
                → IsStorable id
                → ¬ ((n ≡ users.name) × (id ≡ Value.integer (pos 7)))
                → read_by_id map_store plain_codec plain_floats n id m
                  ≡ ((read_by_id map_store plain_codec plain_floats n id with_users).0, m))
            × ((i : ℕ) (d : Column)
                → get_elem? users.columns i ≡ some d
                → d.index ≡ true
                → (v : Value) × (get_elem? seven i ≡ some v)
                  × ((ws : List Value) × (load_index map_store plain_codec plain_floats users.name
                          d.name v m
                        ≡ (ok ws, m))
                      × (is_member (Value.integer (pos 7)) ws ≡ true)))))
create_row_lem_example =
    create_row_lem map_store map_store-IsKeyValue plain_codec plain_codec-IsCodec plain_floats
      users.name users_name users seven (Value.integer (pos 7))
      (((omega arith, omega arith), tt), (((omega arith, omega arith), tt), tt))
      (omega arith, ((omega arith, tt), tt)) (omega arith) seven-same seven-checked seven-key
      with_users with_users-IsDb users-known none seven-absent

abbrev deleted : Outcome (Unit {0}) × Map Bytes
deleted = delete_row map_store plain_codec plain_floats users (Value.integer (pos 7)) with_users

delete_row_lem_example :
    (deleted ≡ (err write_conflict, with_users))
    ⊎ ((m : Map Bytes) × (deleted ≡ (ok tt, m))
        × (read_by_id map_store plain_codec plain_floats users.name (Value.integer (pos 7)) m
            ≡ (ok none, m))
        × ((n : Bytes) (other : Value)
            → IsName n
            → IsStorable other
            → ¬ ((n ≡ users.name) × (other ≡ Value.integer (pos 7)))
            → read_by_id map_store plain_codec plain_floats n other m
              ≡ ((read_by_id map_store plain_codec plain_floats n other with_users).0, m))
        × ((n col : Bytes) (v : Value)
            → load_index map_store plain_codec plain_floats n col v m
              ≡ ((load_index map_store plain_codec plain_floats n col v with_users).0, m)))
delete_row_lem_example =
    delete_row_lem map_store map_store-IsKeyValue plain_codec plain_codec-IsCodec plain_floats users
      users_name (Value.integer (pos 7)) (omega arith) with_users with_users-IsDb none seven-absent
      (λ row e. cc)
