-- ===== src/Sql/Kv/Key.antt =====
-- `Key` and `KeyPrefix` of sql/engine/kv.rs and the derived serde code of theirs and of `Value`,
-- over the methods of storage/keycode.rs.
pub mod Distinct
use sqlprimer.Prelude.{List, []}
use sqlprimer.Bytes.{Bytes}
use sqlprimer.Storage.Keycode.{serialize_bool, serialize_u64, serialize_str, serialize_unit_variant}
use sqlprimer.Sql.Numbers.{as_usize}
use sqlprimer.Sql.Value.{Value}

pub data Key : Type 0 where
  table : Bytes → Key
  row : Bytes → Value → Key
  index : Bytes → Bytes → Value → Key

pub data KeyPrefix : Type 0 where
  table : KeyPrefix
  row : Bytes → KeyPrefix

-- An `i64` is written as the `u64` of its bits.
unfoldable pub serialize_value : Value → Bytes → Bytes
unfolding serialize_bool serialize_u64 serialize_str serialize_unit_variant
serialize_value Value.null output = serialize_unit_variant 0 output
serialize_value (Value.boolean v) output = serialize_bool v (serialize_unit_variant 1 output)
serialize_value (Value.integer v) output =
    serialize_u64 (as_usize v) (serialize_unit_variant 2 output)
serialize_value (Value.float v) output = serialize_u64 v (serialize_unit_variant 3 output)
serialize_value (Value.string v) output = serialize_str v (serialize_unit_variant 4 output)

-- `Key::encode`; no method that it calls fails.
unfoldable pub encode_key : Key → Bytes
unfolding serialize_str serialize_unit_variant
encode_key (Key.table name) = serialize_str name (serialize_unit_variant 0 [])
encode_key (Key.row name id) = serialize_value id (serialize_str name (serialize_unit_variant 1 []))
encode_key (Key.index name column value) =
    serialize_value value (serialize_str column (serialize_str name (serialize_unit_variant 2 [])))

-- `KeyPrefix::encode`
unfoldable pub encode_key_prefix : KeyPrefix → Bytes
unfolding serialize_str serialize_unit_variant
encode_key_prefix KeyPrefix.table = serialize_unit_variant 0 []
encode_key_prefix (KeyPrefix.row name) = serialize_str name (serialize_unit_variant 1 [])
