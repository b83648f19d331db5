-- ===== src/TwoPl.antt =====
-- protocol/TwoPL: two-phase locking without waiting.
pub mod Helper
pub mod Transaction
pub mod Commit
pub mod Message
