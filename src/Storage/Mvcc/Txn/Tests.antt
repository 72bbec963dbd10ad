-- ===== src/Storage/Mvcc/Txn/Tests.antt =====
-- A run of the methods over the engine in memory, from the tests of storage/mvcc.rs.
use sqlprimer.Prelude.{[], ◌∷◌, ◌≡◌, refl, err, write_conflict}
use sqlprimer.Bytes.{Bytes, cmp}
use sqlprimer.Storage.Engine.{scan_prefix}
use sqlprimer.Storage.Mvcc.State.{is_visible, insert_version}
use sqlprimer.OrderedMap.{bad_range, keep, above, below, Map, lookup, insert, range}
use sqlprimer.Storage.Memory.{MemoryEngine, new}
use sqlprimer.Storage.Keycode.{
  to_be, from_be, escape, deserialize_u64, deserialize_byte_buf, next_bytes,
}
use sqlprimer.Storage.Mvcc.Key.{encode, encode_prefix, decode}
use sqlprimer.Storage.Mvcc.Monad.{Act, ◌>>=◌, ◌>>◌}
use sqlprimer.Storage.Mvcc.Bincode.{plain}
use sqlprimer.Storage.Mvcc.Txn.{begin, set_value, collect_active, check_conflict, last}

-- "set_conflict": two transactions write one key.
conflict : Act (Map Bytes) (Unit {0})
unfolding ◌>>=◌
conflict = do
  t1 ← begin MemoryEngine plain
  t2 ← begin MemoryEngine plain
  set_value MemoryEngine plain t1 (107 ∷ []) (1 ∷ [])
  set_value MemoryEngine plain t2 (107 ∷ []) (2 ∷ [])

conflict_run : (conflict new).0 ≡ err write_conflict
unfolding conflict begin set_value encode encode_prefix decode lookup insert range cmp to_be from_be
    escape deserialize_u64 deserialize_byte_buf scan_prefix bad_range collect_active keep above
    below check_conflict last insert_version next_bytes is_visible
conflict_run = refl
