-- ===== src/Bohm.antt =====
-- protocol/Bohm: a baseline protocol.
pub mod Helper
pub mod Transaction
pub mod Partitioner
pub mod Message
pub mod Executor
pub mod Serial
pub mod Insert
pub mod Run
