-- ===== src/X86/Vmcb.antt =====
-- src/x86_64/vmcb.rs: the Virtual Machine Control Block as a buffer of 4096 bytes. An access past
-- the end of the buffer panics.
pub mod Fields
pub mod Table
use app_guestaspace.Base.{
  ℕ, ◌+◌, ◌^◌, List, Outcome, ok, panic, ◌>>=◌, leb, if◌then◌else◌, length, replicate, slice,
  splice,
}
use app_guestaspace.Base.Bytes.{to_le_bytes, from_le_bytes}

-- Offsets in the control area.
abbrev pub ctrl_intercept_misc2 : ℕ
ctrl_intercept_misc2 = 0x010

abbrev pub ctrl_iopm_base : ℕ
ctrl_iopm_base = 0x040

abbrev pub ctrl_msrpm_base : ℕ
ctrl_msrpm_base = 0x048

abbrev pub ctrl_guest_asid : ℕ
ctrl_guest_asid = 0x058

abbrev pub ctrl_exit_code : ℕ
ctrl_exit_code = 0x070

abbrev pub ctrl_exit_info1 : ℕ
ctrl_exit_info1 = 0x078

abbrev pub ctrl_exit_info2 : ℕ
ctrl_exit_info2 = 0x080

abbrev pub ctrl_np_enable : ℕ
ctrl_np_enable = 0x090

abbrev pub ctrl_ncr3 : ℕ
ctrl_ncr3 = 0x0B0

-- Offsets in the save area.
abbrev pub save_es : ℕ
save_es = 0x400

abbrev pub save_cs : ℕ
save_cs = 0x410

abbrev pub save_ss : ℕ
save_ss = 0x420

abbrev pub save_ds : ℕ
save_ds = 0x430

abbrev pub save_fs : ℕ
save_fs = 0x440

abbrev pub save_gs : ℕ
save_gs = 0x450

abbrev pub save_gdtr : ℕ
save_gdtr = 0x460

abbrev pub save_ldtr : ℕ
save_ldtr = 0x470

abbrev pub save_idtr : ℕ
save_idtr = 0x480

abbrev pub save_tr : ℕ
save_tr = 0x490

abbrev pub save_efer : ℕ
save_efer = 0x4D0

abbrev pub save_cr4 : ℕ
save_cr4 = 0x548

abbrev pub save_cr3 : ℕ
save_cr3 = 0x550

abbrev pub save_cr0 : ℕ
save_cr0 = 0x558

abbrev pub save_dr7 : ℕ
save_dr7 = 0x560

abbrev pub save_dr6 : ℕ
save_dr6 = 0x568

abbrev pub save_rflags : ℕ
save_rflags = 0x570

abbrev pub save_rip : ℕ
save_rip = 0x578

abbrev pub save_rsp : ℕ
save_rsp = 0x5D8

abbrev pub save_rax : ℕ
save_rax = 0x5F8

-- Intercept bits and exit codes.
abbrev pub intercept_vmrun : ℕ
intercept_vmrun = 2 ^ 0

abbrev pub intercept_vmmcall : ℕ
intercept_vmmcall = 2 ^ 1

abbrev pub vmexit_vmmcall : ℕ
vmexit_vmmcall = 0x81

abbrev pub vmexit_npf : ℕ
vmexit_npf = 0x400

pub record Vmcb : Type 0 where
  pub data_bytes : List ℕ

unfoldable pub new : Vmcb
new = record { data_bytes = replicate 4096 0 }

-- The `n` bytes from `off` on, as a little-endian number.
unfoldable pub read_field : ℕ → ℕ → Vmcb → Outcome ℕ
read_field n off vm =
    if leb (off + n) (length vm.data_bytes)
    then ok (from_le_bytes (slice off n vm.data_bytes))
    else panic

-- The value as `n` little-endian bytes, stored from `off` on.
unfoldable pub write_field : ℕ → ℕ → ℕ → Vmcb → Outcome Vmcb
write_field n off v vm =
    if leb (off + n) (length vm.data_bytes)
    then ok (record { data_bytes = splice off (to_le_bytes n v) vm.data_bytes })
    else panic

abbrev pub read_u16 : ℕ → Vmcb → Outcome ℕ
read_u16 off vm = read_field 2 off vm

abbrev pub write_u16 : ℕ → ℕ → Vmcb → Outcome Vmcb
write_u16 off v vm = write_field 2 off v vm

abbrev pub read_u32 : ℕ → Vmcb → Outcome ℕ
read_u32 off vm = read_field 4 off vm

abbrev pub write_u32 : ℕ → ℕ → Vmcb → Outcome Vmcb
write_u32 off v vm = write_field 4 off v vm

abbrev pub read_u64 : ℕ → Vmcb → Outcome ℕ
read_u64 off vm = read_field 8 off vm

abbrev pub write_u64 : ℕ → ℕ → Vmcb → Outcome Vmcb
write_u64 off v vm = write_field 8 off v vm

-- selector, attributes, limit and base
unfoldable pub set_segment : ℕ → ℕ → ℕ → ℕ → ℕ → Vmcb → Outcome Vmcb
set_segment off sel attr limit base vm = do
  vm1 ← write_u16 off sel vm
  vm2 ← write_u16 (off + 2) attr vm1
  vm3 ← write_u32 (off + 4) limit vm2
  write_u64 (off + 8) base vm3

abbrev pub exit_code : Vmcb → Outcome ℕ
exit_code vm = read_u64 ctrl_exit_code vm

abbrev pub exit_info1 : Vmcb → Outcome ℕ
exit_info1 vm = read_u64 ctrl_exit_info1 vm

abbrev pub exit_info2 : Vmcb → Outcome ℕ
exit_info2 vm = read_u64 ctrl_exit_info2 vm

abbrev pub guest_rax : Vmcb → Outcome ℕ
guest_rax vm = read_u64 save_rax vm

abbrev pub guest_rip : Vmcb → Outcome ℕ
guest_rip vm = read_u64 save_rip vm
