-- ===== src/Sql/Kv/Database.antt =====
-- `KVEngine` of sql/engine/kv.rs.
use sqlprimer.Storage.Engine.{Engine}
use sqlprimer.Storage.Mvcc.State.{TransactionState}
use sqlprimer.Storage.Mvcc.Bincode.{Bincode}
use sqlprimer.Storage.Mvcc.Txn.{begin}
use sqlprimer.Sql.Numbers.{Floats}
use sqlprimer.Sql.Session.{Database}
use sqlprimer.Sql.Kv.Codec.{Codec}
use sqlprimer.Sql.Kv.Txn.{kv_transaction}
use sqlprimer.Sql.Kv.Mvcc.{mvcc_transaction}

abbrev pub kv_engine : (e : Engine) → Bincode → Codec → Floats → Database e.State
kv_engine e b c f = record {
  Handle = TransactionState;
  begin = begin e b;
  transaction = λ t. kv_transaction (mvcc_transaction e b t) c f;
}
