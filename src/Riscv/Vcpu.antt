-- ===== src/Riscv/Vcpu.antt =====
-- src/vcpu.rs: the registers that are saved and restored around a run of the guest, and the offsets
-- at which guest.S finds them. The offsets follow from the order of the fields (`repr(C)`), all of
-- which are words of 8 bytes.
pub mod Offsets
use app_guestaspace.Base.{ℕ, ◌+◌, ◌*◌}
use app_guestaspace.Riscv.Regs
use app_guestaspace.Riscv.Regs.{GeneralPurposeRegisters, GprIndex, as_usize}

pub record HypervisorCpuState : Type 0 where
  pub gprs : GeneralPurposeRegisters
  pub sstatus : ℕ
  pub scounteren : ℕ
  pub stvec : ℕ
  pub sscratch : ℕ

pub record GuestCpuState : Type 0 where
  pub gprs : GeneralPurposeRegisters
  pub sstatus : ℕ
  pub hstatus : ℕ
  pub scounteren : ℕ
  pub sepc : ℕ

-- The registers of VS mode, which are saved where the hart goes from one guest to another.
pub record GuestVsCsrs : Type 0 where
  pub htimedelta : ℕ
  pub vsstatus : ℕ
  pub vsie : ℕ
  pub vstvec : ℕ
  pub vsscratch : ℕ
  pub vsepc : ℕ
  pub vscause : ℕ
  pub vstval : ℕ
  pub vsatp : ℕ
  pub vstimecmp : ℕ

-- The registers of HS mode that a guest would be given.
pub record GuestVirtualHsCsrs : Type 0 where
  pub hie : ℕ
  pub hgeie : ℕ
  pub hgatp : ℕ

pub record VmCpuTrapState : Type 0 where
  pub scause : ℕ
  pub stval : ℕ
  pub htval : ℕ
  pub htinst : ℕ

pub record VmCpuRegisters : Type 0 where
  pub hyp_regs : HypervisorCpuState
  pub guest_regs : GuestCpuState
  pub vs_csrs : GuestVsCsrs
  pub virtual_hs_csrs : GuestVirtualHsCsrs
  pub trap_csrs : VmCpuTrapState

unfoldable pub default : VmCpuRegisters
default = record {
  hyp_regs = record { gprs = Regs.default; sstatus = 0; scounteren = 0; stvec = 0; sscratch = 0 };
  guest_regs = record { gprs = Regs.default; sstatus = 0; hstatus = 0; scounteren = 0; sepc = 0 };
  vs_csrs = record {
    htimedelta = 0;
    vsstatus = 0;
    vsie = 0;
    vstvec = 0;
    vsscratch = 0;
    vsepc = 0;
    vscause = 0;
    vstval = 0;
    vsatp = 0;
    vstimecmp = 0;
  };
  virtual_hs_csrs = record { hie = 0; hgeie = 0; hgatp = 0 };
  trap_csrs = record { scause = 0; stval = 0; htval = 0; htinst = 0 };
}

-- `size_of::<u64>()`
abbrev pub word : ℕ
word = 8

-- 32 general-purpose registers and four more words.
abbrev pub size_of_hypervisor_cpu_state : ℕ
size_of_hypervisor_cpu_state = (32 + 4) * word

abbrev pub size_of_guest_cpu_state : ℕ
size_of_guest_cpu_state = (32 + 4) * word

abbrev pub offset_of_hyp_regs : ℕ
offset_of_hyp_regs = 0

abbrev pub offset_of_guest_regs : ℕ
offset_of_guest_regs = offset_of_hyp_regs + size_of_hypervisor_cpu_state

-- The fields behind the general-purpose registers, in the order of `HypervisorCpuState`.
pub data HypCsr : Type 0 where
  sstatus scounteren stvec sscratch : HypCsr

-- The same for `GuestCpuState`.
pub data GuestCsr : Type 0 where
  sstatus hstatus scounteren sepc : GuestCsr

abbrev hyp_field : HypCsr → ℕ
hyp_field HypCsr.sstatus = 32
hyp_field HypCsr.scounteren = 33
hyp_field HypCsr.stvec = 34
hyp_field HypCsr.sscratch = 35

abbrev guest_field : GuestCsr → ℕ
guest_field GuestCsr.sstatus = 32
guest_field GuestCsr.hstatus = 33
guest_field GuestCsr.scounteren = 34
guest_field GuestCsr.sepc = 35

unfoldable pub hyp_gpr_offset : GprIndex → ℕ
hyp_gpr_offset index = offset_of_hyp_regs + 0 + as_usize index * word

unfoldable pub guest_gpr_offset : GprIndex → ℕ
guest_gpr_offset index = offset_of_guest_regs + 0 + as_usize index * word

unfoldable pub hyp_csr_offset : HypCsr → ℕ
hyp_csr_offset r = offset_of_hyp_regs + hyp_field r * word

unfoldable pub guest_csr_offset : GuestCsr → ℕ
guest_csr_offset r = offset_of_guest_regs + guest_field r * word
