-- ===== src/Riscv/Setup.antt =====
-- `riscv64_main` of src/main.rs before the loop: the delegation and timer registers, the context that
-- the guest starts from, and the G-stage page table.
pub mod Context
pub mod Traps
use app_guestaspace.Base.{ℕ, ◌+◌, ◌*◌, ◌/◌, ◌^◌, bit_or}
use app_guestaspace.Base.Bytes.{u64}
use app_guestaspace.Riscv.Csrs.{
  Csrs, csr, get_value, write_value, read_and_clear_bits, csr_sstatus, csr_hgatp,
  virtual_supervisor_soft, virtual_supervisor_timer, virtual_supervisor_external, supervisor_timer,
  inst_addr_misalign, illegal_inst, breakpoint, env_call_from_u_or_vu, inst_page_fault,
  load_page_fault, store_page_fault,
}
use app_guestaspace.Riscv.Csrs.Fields.{Field, spv, spvp, spv_guest, spvp_supervisor}
use app_guestaspace.Riscv.Vcpu.{VmCpuRegisters}

-- The guest-physical address at which the guest starts.
abbrev pub vm_entry : ℕ
vm_entry = 0x8020_0000

-- The guest memory that is allocated up front.
abbrev pub phy_mem_start : ℕ
phy_mem_start = 0x8000_0000

abbrev pub phy_mem_size : ℕ
phy_mem_size = 0x100_0000

-- The exceptions that the guest handles itself.
unfoldable pub delegated_exceptions : ℕ
delegated_exceptions =
    bit_or
      (bit_or
        (bit_or
          (bit_or (bit_or (bit_or inst_addr_misalign breakpoint) env_call_from_u_or_vu)
            inst_page_fault)
          load_page_fault)
        store_page_fault)
      illegal_inst

-- The three interrupts of VS mode.
unfoldable pub virtual_interrupts : ℕ
virtual_interrupts =
    bit_or (bit_or virtual_supervisor_timer virtual_supervisor_external) virtual_supervisor_soft

-- Step 0 of `riscv64_main`.
unfoldable pub setup_csrs : Csrs → Csrs
setup_csrs c0 =
    let c1 = write_value csr.hedeleg delegated_exceptions c0 in
    let c2 = write_value csr.hideleg virtual_interrupts c1 in
    let c3 = (read_and_clear_bits csr.hvip virtual_interrupts c2).1 in
    let c4 = write_value csr.hcounteren 0xffff_ffff c3 in
    (read_and_clear_bits csr.sie supervisor_timer c4).1

-- What the crates `tock_registers` and `riscv` do here: `modify` of a field to a value, and
-- `sstatus::set_spp(Supervisor)`.
pub record Crates : Type 0 where
  pub modify : Field → ℕ → ℕ → ℕ
  pub set_spp : Csrs → Csrs

unfoldable pub prepare_guest_context : Crates → Csrs → VmCpuRegisters → Csrs × VmCpuRegisters
prepare_guest_context K c0 ctx =
    let hstatus_reg =
      K.modify spvp spvp_supervisor (K.modify spv spv_guest (get_value csr.hstatus c0)) in
    let c1 = write_value csr.hstatus hstatus_reg c0 in
    let c2 = K.set_spp c1 in
    (
      c2,
      record ctx {
        guest_regs = record ctx.guest_regs {
          hstatus = hstatus_reg;
          sstatus = get_value csr_sstatus c2;
          sepc = vm_entry;
        };
      },
    )

-- `8usize << 60 | usize::from(ept_root) >> 12`
unfoldable pub prepare_vm_pgtable : ℕ → Csrs → Csrs
prepare_vm_pgtable ept_root c =
    write_value csr_hgatp (bit_or (u64 (8 * 2 ^ 60)) (ept_root / 2 ^ 12)) c
