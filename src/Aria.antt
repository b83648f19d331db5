-- ===== src/Aria.antt =====
-- protocol/Aria: the metadata word of a row and its reservations, which PRDCC shares.
pub mod Helper
pub mod Fields
pub mod Least
pub mod Reservation
pub mod Executor
