-- ===== src/Tests/X86.antt =====
-- The x86_64 hypervisor at concrete inputs.
mod Processor
mod Examples
mod Whole
