-- ===== src/Tests/Aarch64.antt =====
-- Examples for the AArch64 hypervisor.
pub mod Core
pub mod Examples
mod Whole
