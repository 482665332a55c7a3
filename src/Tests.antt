-- ===== src/Tests.antt =====
-- A kernel that answers every call, states to start from, and the theorems applied to them.
mod Setup
mod Buffers
mod Mmio
mod Irq
mod Events
mod Afu
mod Session
mod Weq
mod Memcpy
mod Submit
