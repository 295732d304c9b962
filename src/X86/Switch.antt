-- ===== src/X86/Switch.antt =====
-- src/x86_64/svm.rs, the assembly of `_run_guest`: a machine that executes its instructions, and the
-- code. The stack holds words of 8 bytes, and the save area the 14 words of `SvmGuestGprs`. The three
-- arguments are addresses of which the code only uses what they refer to, so they are values of their
-- own; a memory access with another value in the base register, and a guest that would be entered
-- with one of these addresses in a register, stop the machine.
pub mod Code
pub mod Correct
use app_guestaspace.Base.Options.{◌>>=◌}
use app_guestaspace.Base.{
  ℕ, ◌/◌, Bool, true, false, List, [], ◌∷◌, Option, none, some, ◌==◌, if◌then◌else◌, get_elem?, set,
  drop,
}
use app_guestaspace.X86.Svm.{SvmGuestGprs}

pub data Reg : Type 0 where
  rax rcx rdx rbx rbp rsi rdi r8 r9 r10 r11 r12 r13 r14 r15 : Reg

abbrev number : Reg → ℕ
number rax = 0
number rcx = 1
number rdx = 2
number rbx = 3
number rbp = 5
number rsi = 6
number rdi = 7
number r8 = 8
number r9 = 9
number r10 = 10
number r11 = 11
number r12 = 12
number r13 = 13
number r14 = 14
number r15 = 15

-- A number, the address of the save area, or the physical address of the guest's or the host's VMCB.
pub data Value : Type 0 where
  num : ℕ → Value
  gprs_ptr guest_vmcb_pa host_vmcb_pa : Value

-- A word of memory: at an offset from RSP or from another register.
pub data Operand : Type 0 where
  at_rsp : ℕ → Operand
  at : Reg → ℕ → Operand

pub data Instr : Type 0 where
  push pop : Reg → Instr
  mov : Reg → Reg → Instr
  load : Reg → Operand → Instr
  store : Operand → Reg → Instr
  xchg : Reg → Operand → Instr
  add_rsp : ℕ → Instr
  cli sti vmsave vmload vmrun ret : Instr

-- `hidden` stands for FS, GS, TR and LDTR, and `saved` for what the host's VMCB holds of them.
-- `returned` is the address that `ret` has jumped to.
pub record Machine (H : Type 0) : Type 0 where
  pub regs : Reg → Value
  pub stack : List Value
  pub area : List Value
  pub interrupts : Bool
  pub hidden : H
  pub saved : Option H
  pub returned : Option Value

abbrev pub assign : Reg → Value → (Reg → Value) → Reg → Value
assign d v f r = if number r == number d then v else f r

-- The guest's registers as the save area lists them.
abbrev pub words : SvmGuestGprs → List Value
words g =
    num g.rcx
    ∷ num g.rdx
    ∷ num g.rbx
    ∷ num g.rsi
    ∷ num g.rdi
    ∷ num g.rbp
    ∷ num g.r8
    ∷ num g.r9
    ∷ num g.r10
    ∷ num g.r11
    ∷ num g.r12
    ∷ num g.r13
    ∷ num g.r14
    ∷ num g.r15
    ∷ []

abbrev as_number : Value → Option ℕ
as_number (num n) = some n
as_number _ = none

-- The registers with which the guest is entered.
unfoldable pub guest_entry : (Reg → Value) → Option SvmGuestGprs
guest_entry f = do
  x1 ← as_number (f rcx)
  x2 ← as_number (f rdx)
  x3 ← as_number (f rbx)
  x4 ← as_number (f rsi)
  x5 ← as_number (f rdi)
  x6 ← as_number (f rbp)
  x7 ← as_number (f r8)
  x8 ← as_number (f r9)
  x9 ← as_number (f r10)
  x10 ← as_number (f r11)
  x11 ← as_number (f r12)
  x12 ← as_number (f r13)
  x13 ← as_number (f r14)
  x14 ← as_number (f r15)
  some (record {
    rcx = x1;
    rdx = x2;
    rbx = x3;
    rsi = x4;
    rdi = x5;
    rbp = x6;
    r8 = x7;
    r9 = x8;
    r10 = x9;
    r11 = x10;
    r12 = x11;
    r13 = x12;
    r14 = x13;
    r15 = x14;
  })

-- The registers that the guest leaves; RAX is the host's again.
abbrev pub guest_exit : SvmGuestGprs → Value → Reg → Value
guest_exit g host_rax rax = host_rax
guest_exit g host_rax rcx = num g.rcx
guest_exit g host_rax rdx = num g.rdx
guest_exit g host_rax rbx = num g.rbx
guest_exit g host_rax rbp = num g.rbp
guest_exit g host_rax rsi = num g.rsi
guest_exit g host_rax rdi = num g.rdi
guest_exit g host_rax r8 = num g.r8
guest_exit g host_rax r9 = num g.r9
guest_exit g host_rax r10 = num g.r10
guest_exit g host_rax r11 = num g.r11
guest_exit g host_rax r12 = num g.r12
guest_exit g host_rax r13 = num g.r13
guest_exit g host_rax r14 = num g.r14
guest_exit g host_rax r15 = num g.r15

-- `s[i] = v`, if there is such an entry.
abbrev replace : ℕ → Value → List Value → Option (List Value)
replace i v s = do _ ← get_elem? s i; some (set s i v)

-- The entry of the save area that an address names.
abbrev in_area : Value → List Value → Option (List Value)
in_area gprs_ptr area = some area
in_area _ area = none

-- The operand of VMSAVE and VMLOAD, and that of VMRUN.
abbrev host_vmcb : Value → Option Value
host_vmcb host_vmcb_pa = some host_vmcb_pa
host_vmcb _ = none

abbrev guest_vmcb : Value → Option Value
guest_vmcb guest_vmcb_pa = some guest_vmcb_pa
guest_vmcb _ = none

module _ (H : Type 0) where
  unfoldable pub read : Operand → Machine H → Option Value
  read (at_rsp off) m = get_elem? m.stack (off / 8)
  read (at base off) m = do area ← in_area (m.regs base) m.area; get_elem? area (off / 8)

  unfoldable pub write : Operand → Value → Machine H → Option (Machine H)
  write (at_rsp off) v m = do stack ← replace (off / 8) v m.stack; some (record m { stack = stack })
  write (at base off) v m = do
    area ← in_area (m.regs base) m.area
    area ← replace (off / 8) v area
    some (record m { area = area })

  -- What a guest does with its registers and with the hidden ones, until it exits.
  module _ (guest : SvmGuestGprs → SvmGuestGprs) (guest_hidden : H → H) where
    unfoldable pub step : Instr → Machine H → Option (Machine H)
    step (push r) m = some (record m { stack = m.regs r ∷ m.stack })
    step (pop r) m = elim m.stack [
      | [] ↦ none
      | v ∷ s ↦ some (record m { stack = s; regs = assign r v m.regs })
    ]
    step (mov d s) m = some (record m { regs = assign d (m.regs s) m.regs })
    step (load d o) m = do v ← read o m; some (record m { regs = assign d v m.regs })
    step (store o s) m = write o (m.regs s) m
    step (xchg r o) m = do
      v ← read o m
      m' ← write o (m.regs r) m
      some (record m' { regs = assign r v m'.regs })
    step (add_rsp n) m = some (record m { stack = drop (n / 8) m.stack })
    step cli m = some (record m { interrupts = false })
    step sti m = some (record m { interrupts = true })
    step vmsave m = do _ ← host_vmcb (m.regs rax); some (record m { saved = some m.hidden })
    step vmload m = do _ ← host_vmcb (m.regs rax); h ← m.saved; some (record m { hidden = h })
    step vmrun m = do
      _ ← guest_vmcb (m.regs rax)
      g ← guest_entry m.regs
      some (record m { regs = guest_exit (guest g) (m.regs rax); hidden = guest_hidden m.hidden })
    step ret m = elim m.stack [
      | [] ↦ none
      | v ∷ s ↦ some (record m { stack = s; returned = some v })
    ]

    unfoldable pub exec : List Instr → Machine H → Option (Machine H)
    exec [] m = some m
    exec (i ∷ code) m = step i m >>= exec code
