-- ===== src/Aarch64.antt =====
-- The AArch64 hypervisor, at EL1 with the guest at EL0.
pub mod Regs
pub mod Hvc
pub mod Vcpu
pub mod Switch
pub mod Run
pub mod Guest
pub mod Main
