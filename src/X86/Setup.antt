-- ===== src/X86/Setup.antt =====
-- `x86_64_main` of src/main.rs, from the VMCB on: the control block that the guest is started with.
pub mod Control
use app_guestaspace.Base.{ℕ, ◌^◌, Outcome, ◌>>=◌, bit_or}
use app_guestaspace.X86.Svm.{efer_svme}
use app_guestaspace.X86.Vmcb.{
  Vmcb, new, write_u32, write_u64, set_segment, ctrl_intercept_misc2, ctrl_iopm_base,
  ctrl_msrpm_base, ctrl_guest_asid, ctrl_np_enable, ctrl_ncr3, save_es, save_cs, save_ss, save_ds,
  save_fs, save_gs, save_gdtr, save_ldtr, save_idtr, save_tr, save_efer, save_cr4, save_cr3,
  save_cr0, save_dr7, save_dr6, save_rflags, save_rip, save_rsp, intercept_vmrun, intercept_vmmcall,
}

-- `VM_ENTRY`
abbrev pub vm_entry : ℕ
vm_entry = 0x10000

-- `EFER_SVME | (1 << 8) | (1 << 10) | (1 << 11)`
abbrev pub guest_efer : ℕ
guest_efer = bit_or (bit_or (bit_or efer_svme (2 ^ 8)) (2 ^ 10)) (2 ^ 11)

-- The control area: intercepts, permission maps and nested paging.
write_control : ℕ → ℕ → ℕ → Vmcb → Outcome Vmcb
write_control iopm_pa msrpm_pa npt_root_pa vm = do
  a1 ← write_u32 ctrl_intercept_misc2 (bit_or intercept_vmrun intercept_vmmcall) vm
  a2 ← write_u64 ctrl_iopm_base iopm_pa a1
  a3 ← write_u64 ctrl_msrpm_base msrpm_pa a2
  a4 ← write_u32 ctrl_guest_asid 1 a3
  a5 ← write_u64 ctrl_np_enable 1 a4
  write_u64 ctrl_ncr3 npt_root_pa a5

-- The segment registers and descriptor tables of the guest.
write_segments : Vmcb → Outcome Vmcb
write_segments vm = do
  b1 ← set_segment save_cs 0x10 0x0A9B 0xFFFF_FFFF 0 vm
  b2 ← set_segment save_ds 0x18 0x0C93 0xFFFF_FFFF 0 b1
  b3 ← set_segment save_es 0x18 0x0C93 0xFFFF_FFFF 0 b2
  b4 ← set_segment save_ss 0x18 0x0C93 0xFFFF_FFFF 0 b3
  b5 ← set_segment save_fs 0 0 0 0 b4
  b6 ← set_segment save_gs 0 0 0 0 b5
  b7 ← set_segment save_gdtr 0 0 31 0x5000 b6
  b8 ← set_segment save_idtr 0 0 0xFFF 0 b7
  b9 ← set_segment save_tr 0 0x008B 0x67 0 b8
  set_segment save_ldtr 0 0x0082 0 0 b9

-- The control registers and the start of the guest.
write_registers : Vmcb → Outcome Vmcb
write_registers vm = do
  c1 ← write_u64 save_cr0 0x8001_0011 vm
  c2 ← write_u64 save_cr3 0x1000 c1
  c3 ← write_u64 save_cr4 0x00A0 c2
  c4 ← write_u64 save_efer guest_efer c3
  c5 ← write_u64 save_dr6 0xFFFF_0FF0 c4
  c6 ← write_u64 save_dr7 0x0400 c5
  c7 ← write_u64 save_rflags 0x2 c6
  c8 ← write_u64 save_rip vm_entry c7
  write_u64 save_rsp 0x80000 c8

unfoldable pub build_vmcb : ℕ → ℕ → ℕ → Outcome Vmcb
unfolding write_control write_segments write_registers
build_vmcb iopm_pa msrpm_pa npt_root_pa = do
  a ← write_control iopm_pa msrpm_pa npt_root_pa new
  b ← write_segments a
  write_registers b
