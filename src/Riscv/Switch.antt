-- ===== src/Riscv/Switch.antt =====
-- src/guest.S: a machine that executes its instructions, and the code. The structure `VmCpuRegisters`
-- is an area of words of 8 bytes, of which the code only uses the address. The guest is entered only
-- with stvec at `_guest_exit` and the address of the area in sscratch, since its trap returns there.
pub mod Code
pub mod Correct
use app_guestaspace.Base.Options.{◌>>=◌}
use app_guestaspace.Base.{
  ℕ, zero, suc, ◌/◌, List, [], ◌∷◌, ◌++◌, map, Option, none, some, ◌==◌, if◌then◌else◌, get_or,
}
use app_guestaspace.Riscv.Regs.{GprIndex, as_usize, a0}
use app_guestaspace.Riscv.Vcpu.{GuestCpuState}

-- A number, the address of the area, or the address of `_guest_exit`.
pub data Value : Type 0 where
  num : ℕ → Value
  area_ptr guest_exit_ptr : Value

pub data Csr : Type 0 where
  sstatus hstatus scounteren sepc stvec sscratch : Csr

abbrev number : Csr → ℕ
number Csr.sstatus = 0
number Csr.hstatus = 1
number Csr.scounteren = 2
number Csr.sepc = 3
number Csr.stvec = 4
number Csr.sscratch = 5

-- `sd r, off(base)` and `ld r, off(base)`; `csrrw rd, csr, rs`.
pub data Instr : Type 0 where
  sd ld : GprIndex → ℕ → GprIndex → Instr
  csrrw : GprIndex → Csr → GprIndex → Instr
  csrr : GprIndex → Csr → Instr
  csrw : Csr → GprIndex → Instr
  la_guest_exit : GprIndex → Instr
  sret ret : Instr

-- `returned` is the address that `ret` has jumped to.
pub record Machine : Type 0 where
  pub regs : ℕ → Value
  pub area : ℕ → Value
  pub csrs : Csr → Value
  pub returned : Option Value

abbrev pub assign : ℕ → Value → (ℕ → Value) → ℕ → Value
assign d v f r = if r == d then v else f r

abbrev assign_csr : Csr → Value → (Csr → Value) → Csr → Value
assign_csr d v f r = if number r == number d then v else f r

-- `n` words from the word `i` on.
abbrev pub words_from : (ℕ → Value) → ℕ → ℕ → List Value
words_from f i zero = []
words_from f i (suc n) = f i ∷ words_from f (suc i) n

abbrev pub gpr_values : GuestCpuState → ℕ → ℕ → List ℕ
gpr_values g i zero = []
gpr_values g i (suc n) = get_or g.gprs.values i 0 ∷ gpr_values g (suc i) n

-- The guest's control and status registers in the area.
abbrev pub csr_words : GuestCpuState → List Value
csr_words g = num g.sstatus ∷ num g.hstatus ∷ num g.scounteren ∷ num g.sepc ∷ []

abbrev as_number : Value → Option ℕ
as_number (num n) = some n
as_number _ = none

abbrev as_numbers : List Value → Option (List ℕ)
as_numbers [] = some []
as_numbers (v ∷ vs) = do n ← as_number v; ns ← as_numbers vs; some (n ∷ ns)

abbrev in_area : Value → Option Value
in_area area_ptr = some area_ptr
in_area _ = none

abbrev at_guest_exit : Value → Option Value
at_guest_exit guest_exit_ptr = some guest_exit_ptr
at_guest_exit _ = none

-- The registers with which the guest is entered; x0 is zero.
unfoldable pub guest_entry : Machine → Option GuestCpuState
guest_entry m = do
  xs ← as_numbers (words_from m.regs 1 31)
  x1 ← as_number (m.csrs Csr.sstatus)
  x2 ← as_number (m.csrs Csr.hstatus)
  x3 ← as_number (m.csrs Csr.scounteren)
  x4 ← as_number (m.csrs Csr.sepc)
  some (record {
    gprs = record { values = 0 ∷ xs };
    sstatus = x1;
    hstatus = x2;
    scounteren = x3;
    sepc = x4;
  })

abbrev guest_trap : GuestCpuState → Machine → Machine
guest_trap g m = record m {
  regs = λ r. num (get_or g.gprs.values r 0);
  csrs = assign_csr Csr.sstatus (num g.sstatus) (
      assign_csr Csr.hstatus (num g.hstatus)
        (assign_csr Csr.scounteren (num g.scounteren) (assign_csr Csr.sepc (num g.sepc) m.csrs)));
}

abbrev set_reg : GprIndex → Value → Machine → Machine
set_reg r v m = record m { regs = assign (as_usize r) v m.regs }

abbrev set_csr : Csr → Value → Machine → Machine
set_csr r v m = record m { csrs = assign_csr r v m.csrs }

-- What a guest does with its registers, until it traps.
module _ (guest : GuestCpuState → GuestCpuState) where
  unfoldable pub step : Instr → Machine → Option Machine
  step (sd r off base) m = do
    _ ← in_area (m.regs (as_usize base))
    some (record m { area = assign (off / 8) (m.regs (as_usize r)) m.area })
  step (ld r off base) m = do
    _ ← in_area (m.regs (as_usize base))
    some (set_reg r (m.area (off / 8)) m)
  step (csrrw rd csr rs) m = some (set_reg rd (m.csrs csr) (set_csr csr (m.regs (as_usize rs)) m))
  step (csrr rd csr) m = some (set_reg rd (m.csrs csr) m)
  step (csrw csr rs) m = some (set_csr csr (m.regs (as_usize rs)) m)
  step (la_guest_exit rd) m = some (set_reg rd guest_exit_ptr m)
  step sret m = do
    _ ← at_guest_exit (m.csrs Csr.stvec)
    _ ← in_area (m.csrs Csr.sscratch)
    g ← guest_entry m
    some (guest_trap (guest g) m)
  step ret m = some (record m { returned = some (m.regs 1) })

  unfoldable pub exec : List Instr → Machine → Option Machine
  exec [] m = some m
  exec (i ∷ code) m = step i m >>= exec code
