-- ===== src/Common.antt =====
-- common: the data structures that the protocols share.
pub mod MvccHashMap
