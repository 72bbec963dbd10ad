-- ===== src/Storage/Mvcc.antt =====
-- storage/mvcc.rs: transactions over an engine, for any implementation of the engine.
pub mod Key
pub mod Monad
pub mod State
pub mod Bincode
pub mod Txn
pub mod Store
pub mod Versions
pub mod Reads
pub mod Read
pub mod Write
pub mod Finish
pub mod Begin
pub mod System
