-- ===== src/Riscv/Main/Boot.antt =====
-- The RISC-V hypervisor from its start to the guest's shutdown.
use app_guestaspace.AddrSpace.{AddrSpace}
use app_guestaspace.Riscv.Csrs.{Csrs}
use app_guestaspace.Riscv.Vcpu
