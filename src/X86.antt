-- ===== src/X86.antt =====
-- The x86_64 (AMD SVM) hypervisor.
pub mod Vmcb
pub mod Setup
pub mod Memory
pub mod Svm
pub mod Run
pub mod Guest
pub mod Main
pub mod Switch
