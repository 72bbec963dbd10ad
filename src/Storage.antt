-- ===== src/Storage.antt =====
-- storage/: the key-value engines, the key encoding and the transactions over them.
pub mod Engine
pub mod Memory
pub mod Keycode
pub mod Mvcc
pub mod Disk
pub mod Tests
