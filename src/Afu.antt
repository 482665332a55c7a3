-- ===== src/Afu.antt =====
-- src/afu.c: the life of an AFU, from its allocation to its close.
pub mod Ledger
pub mod Open
pub mod Close
pub mod Search
pub mod Alloc
