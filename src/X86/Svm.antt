-- ===== src/X86/Svm.antt =====
-- src/x86_64/svm.rs: the save area for the guest registers that the VMCB does not hold, and the
-- halves of a model-specific register.
pub mod Halves
use app_guestaspace.Base.{ℕ, ◌+◌, ◌*◌, ◌/◌, ◌^◌, ◌==◌, if◌then◌else◌, bit_or}
use app_guestaspace.Base.Bytes.{u32}

pub record SvmGuestGprs : Type 0 where
  pub rcx : ℕ
  pub rdx : ℕ
  pub rbx : ℕ
  pub rsi : ℕ
  pub rdi : ℕ
  pub rbp : ℕ
  pub r8 : ℕ
  pub r9 : ℕ
  pub r10 : ℕ
  pub r11 : ℕ
  pub r12 : ℕ
  pub r13 : ℕ
  pub r14 : ℕ
  pub r15 : ℕ

abbrev pub new : SvmGuestGprs
new = record {
  rcx = 0;
  rdx = 0;
  rbx = 0;
  rsi = 0;
  rdi = 0;
  rbp = 0;
  r8 = 0;
  r9 = 0;
  r10 = 0;
  r11 = 0;
  r12 = 0;
  r13 = 0;
  r14 = 0;
  r15 = 0;
}

abbrev pub msr_efer : ℕ
msr_efer = 0xC000_0080

abbrev pub msr_vm_hsave_pa : ℕ
msr_vm_hsave_pa = 0xC001_0117

abbrev pub efer_svme : ℕ
efer_svme = 2 ^ 12

-- EAX, EBX, ECX and EDX that CPUID gives for a function.
abbrev pub Cpuid : Type 0
Cpuid = ℕ → ℕ × ℕ × ℕ × ℕ

-- The model-specific registers, each of 64 bits. RDMSR gives the upper half of a register in EDX and
-- the lower in EAX, and WRMSR takes them from there.
abbrev pub Msrs : Type 0
Msrs = ℕ → ℕ

unfoldable pub rdmsr : ℕ → Msrs → ℕ
rdmsr msr f = let lo = u32 (f msr) in let hi = u32 (f msr / 2 ^ 32) in bit_or (hi * 2 ^ 32) lo

unfoldable pub wrmsr : ℕ → ℕ → Msrs → Msrs
wrmsr msr val f =
    let lo = u32 val in
    let hi = u32 (val / 2 ^ 32) in λ m. if m == msr then hi * 2 ^ 32 + lo else f m
