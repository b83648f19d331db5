-- ===== src/Calvin.antt =====
-- protocol/Calvin: a baseline protocol.
pub mod Helper
pub mod Locks
pub mod Manager
pub mod Partitioner
