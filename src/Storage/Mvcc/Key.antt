-- ===== src/Storage/Mvcc/Key.antt =====
-- The keys of storage/mvcc.rs and their derived serde code, over the methods of keycode.rs.
pub mod Codec
use sqlprimer.Prelude.{ℕ, List, [], ◌∷◌, ◌==◌, if◌then◌else◌, Outcome, ok, err, internal, ◌>>=◌}
use sqlprimer.Bytes.{Bytes}
use sqlprimer.Storage.Keycode.{
  serialize_u64, serialize_bytes, serialize_unit_variant, Take, take_byte, deserialize_u64,
  deserialize_byte_buf,
}

pub data MvccKey : Type 0 where
  next_version : MvccKey
  txn_active : ℕ → MvccKey
  txn_write : ℕ → Bytes → MvccKey
  version : Bytes → ℕ → MvccKey

pub data MvccKeyPrefix : Type 0 where
  next_version : MvccKeyPrefix
  txn_active : MvccKeyPrefix
  txn_write : ℕ → MvccKeyPrefix
  version : Bytes → MvccKeyPrefix

-- `encode`; no method that it calls fails.
unfoldable pub encode : MvccKey → Bytes
unfolding serialize_u64 serialize_bytes serialize_unit_variant
encode MvccKey.next_version = serialize_unit_variant 0 []
encode (MvccKey.txn_active v) = serialize_u64 v (serialize_unit_variant 1 [])
encode (MvccKey.txn_write v k) = serialize_bytes k (serialize_u64 v (serialize_unit_variant 2 []))
encode (MvccKey.version k v) = serialize_u64 v (serialize_bytes k (serialize_unit_variant 3 []))

unfoldable pub encode_prefix : MvccKeyPrefix → Bytes
unfolding serialize_u64 serialize_bytes serialize_unit_variant
encode_prefix MvccKeyPrefix.next_version = serialize_unit_variant 0 []
encode_prefix MvccKeyPrefix.txn_active = serialize_unit_variant 1 []
encode_prefix (MvccKeyPrefix.txn_write v) = serialize_u64 v (serialize_unit_variant 2 [])
encode_prefix (MvccKeyPrefix.version k) = serialize_bytes k (serialize_unit_variant 3 [])

take_txn_active : Bytes → Outcome MvccKey
take_txn_active input = do (v, rest) ← deserialize_u64 input; ok (MvccKey.txn_active v)

take_txn_write : Bytes → Outcome MvccKey
take_txn_write input = do
  (v, rest) ← deserialize_u64 input
  (k, rest') ← deserialize_byte_buf rest
  ok (MvccKey.txn_write v k)

take_version : Bytes → Outcome MvccKey
take_version input = do
  (k, rest) ← deserialize_byte_buf input
  (v, rest') ← deserialize_u64 rest
  ok (MvccKey.version k v)

-- Any other index is an error of the derived code.
decode_variant : ℕ → Bytes → Outcome MvccKey
unfolding take_txn_active take_txn_write take_version
decode_variant i rest =
    if i == 0
    then ok MvccKey.next_version
    else if i == 1
    then take_txn_active rest
    else if i == 2
    then take_txn_write rest
    else if i == 3
    then take_version rest
    else err internal

-- `decode`; what is left of the input is not looked at.
unfoldable pub decode : Bytes → Outcome MvccKey
unfolding take_byte decode_variant
decode input = do (i, rest) ← take_byte input; decode_variant i rest
