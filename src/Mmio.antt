-- ===== src/Mmio.antt =====
-- src/mmio.c: the table of mapped areas, mapping, regions and accesses.
pub mod Register
pub mod Map
pub mod Region
pub mod Access
