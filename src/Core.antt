-- ===== src/Core.antt =====
-- core: what the protocols share.
pub mod MvccTable
pub mod Partitioner
