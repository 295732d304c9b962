-- ===== src/Aarch64/Vcpu.antt =====
-- src/aarch64/vcpu.rs: the registers that are saved around a run of the guest, and the offsets at
-- which guest.S finds them. The offsets follow from the order of the fields (`repr(C)`), all of which
-- are words of 8 bytes.
use app_guestaspace.Base.{ℕ, ◌+◌, ◌*◌, List, replicate}
use app_guestaspace.Aarch64.Regs
use app_guestaspace.Aarch64.Regs.{GuestState, TrapState}

-- x19 to x30, the stack pointer, VBAR_EL1 and DAIF.
pub record HostState : Type 0 where
  pub regs : List ℕ
  pub sp : ℕ
  pub vbar : ℕ
  pub daif : ℕ

pub record VmCpuRegisters : Type 0 where
  pub host : HostState
  pub guest : GuestState
  pub trap : TrapState

unfoldable pub default : VmCpuRegisters
default = record {
  host = record { regs = replicate 12 0; sp = 0; vbar = 0; daif = 0 };
  guest = record { gprs = Regs.default; sp = 0; elr = 0; spsr = 0 };
  trap = record { esr = 0; far = 0; is_irq = 0 };
}

-- `size_of::<u64>()`
abbrev pub word : ℕ
word = 8

abbrev pub offset_of_host : ℕ
offset_of_host = 0

-- Behind twelve registers and three more words.
abbrev pub offset_of_guest : ℕ
offset_of_guest = offset_of_host + (12 + 3) * word

-- Behind 31 registers and three more words.
abbrev pub offset_of_trap : ℕ
offset_of_trap = offset_of_guest + (31 + 3) * word

unfoldable pub host_reg_offset : ℕ → ℕ
host_reg_offset index = offset_of_host + 0 + index * word

unfoldable pub guest_gpr_offset : ℕ → ℕ
guest_gpr_offset index = offset_of_guest + 0 + index * word

-- The offsets of the other fields.
abbrev pub host_sp : ℕ
host_sp = offset_of_host + 12 * word

abbrev pub host_vbar : ℕ
host_vbar = offset_of_host + 13 * word

abbrev pub host_daif : ℕ
host_daif = offset_of_host + 14 * word

abbrev pub guest_sp : ℕ
guest_sp = offset_of_guest + 31 * word

abbrev pub guest_elr : ℕ
guest_elr = offset_of_guest + 32 * word

abbrev pub guest_spsr : ℕ
guest_spsr = offset_of_guest + 33 * word

abbrev pub trap_esr : ℕ
trap_esr = offset_of_trap + 0 * word

abbrev pub trap_far : ℕ
trap_far = offset_of_trap + 1 * word

abbrev pub trap_is_irq : ℕ
trap_is_irq = offset_of_trap + 2 * word
