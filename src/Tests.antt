-- ===== src/Tests.antt =====
-- Concrete parameters and the theorems applied to them.
pub mod X86
pub mod Riscv
pub mod Aarch64
pub mod Images
mod Xtask
