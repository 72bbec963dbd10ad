-- ===== src/Sql/Kv.antt =====
-- sql/engine/kv.rs: the tables, rows and indexes of the SQL engine as entries of the storage.
pub mod Key
pub mod Store
pub mod Codec
pub mod Txn
pub mod Mvcc
pub mod Tables
pub mod Indexes
pub mod Reads
pub mod Create
pub mod Delete
pub mod Database
pub mod Tests
