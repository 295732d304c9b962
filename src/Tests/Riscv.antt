-- ===== src/Tests/Riscv.antt =====
-- Examples for the RISC-V hypervisor.
pub mod Hart
pub mod Examples
pub mod Words
pub mod Whole
mod Boot
mod Setup
