-- ===== src/Prodcc.antt =====
-- protocol/Prodcc: the PRDCC protocol.
pub mod Transaction
pub mod Message
pub mod Snapshot
pub mod Executor
pub mod Finalize
pub mod Cleared
pub mod Installed
pub mod Reserve
pub mod Rows
pub mod Analysis
pub mod Ops
pub mod Block
pub mod Precedence
pub mod Serial
pub mod Order
pub mod Serializable
pub mod MicroBlock
pub mod L1Filter
pub mod L2Verifier
pub mod DataSummary
pub mod ConflictPredictor
pub mod Schedule
pub mod Worker
pub mod Dependency
pub mod Phases
pub mod Align
pub mod Cleanup
pub mod KeyConverter
