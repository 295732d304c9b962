-- ===== src/Riscv.antt =====
-- The RISC-V (H-extension) hypervisor.
pub mod Regs
pub mod Csrs
pub mod Sbi
pub mod Vcpu
pub mod Setup
pub mod Run
pub mod Guest
pub mod Main
pub mod Switch
