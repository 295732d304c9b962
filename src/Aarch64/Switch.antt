-- ===== src/Aarch64/Switch.antt =====
-- src/aarch64/guest.S: a machine that executes its instructions, and the code. The structure
-- `VmCpuRegisters` is an area of words of 8 bytes, of which the code only uses the address. The stack
-- is what the code has pushed since its call; an access behind that stops the machine. The exception
-- vectors are an address, to which VBAR_EL1 must be set when the guest is entered.
pub mod Code
pub mod Correct
use app_guestaspace.Base.Options.{◌>>=◌}
use app_guestaspace.Base.{
  ℕ, zero, suc, ◌+◌, ◌-◌, ◌/◌, Bool, true, false, List, [], ◌∷◌, ◌++◌, map, Option, none, some,
  ◌==◌, if◌then◌else◌, get_or, ltb, leb,
}
use app_guestaspace.Aarch64.Regs.{GuestState}

-- A number, the address of the area, the stack pointer after so many words were pushed, or the
-- address of the vectors.
pub data Value : Type 0 where
  num stack_ptr : ℕ → Value
  area_ptr guest_vectors : Value

pub data SysReg : Type 0 where
  daif vbar_el1 elr_el1 spsr_el1 sp_el0 esr_el1 far_el1 : SysReg

abbrev number : SysReg → ℕ
number daif = 0
number vbar_el1 = 1
number elr_el1 = 2
number spsr_el1 = 3
number sp_el0 = 4
number esr_el1 = 5
number far_el1 = 6

-- `[x, #off]` and `[sp, #off]`
pub data Operand : Type 0 where
  at : ℕ → ℕ → Operand
  at_sp : ℕ → Operand

-- A register is given by its number. `push_pair` and `pop_pair` are STP with pre-index and LDP with
-- post-index on SP.
pub data Instr : Type 0 where
  mrs : ℕ → SysReg → Instr
  msr : SysReg → ℕ → Instr
  mask_all isb eret ret : Instr
  mov : ℕ → ℕ → Instr
  mov_from_sp mov_to_sp adr_vectors : ℕ → Instr
  str ldr : ℕ → Operand → Instr
  str_zero : Operand → Instr
  stp ldp : ℕ → ℕ → Operand → Instr
  push_pair pop_pair : ℕ → ℕ → Instr
  sub_sp add_sp : ℕ → Instr

-- `asynchronous` is which vector the guest has left by, `returned` the address that `ret` has jumped
-- to.
pub record Machine : Type 0 where
  pub regs : ℕ → Value
  pub pushed : List Value
  pub area : ℕ → Value
  pub sys : SysReg → Value
  pub asynchronous : Bool
  pub returned : Option Value

abbrev pub assign : ℕ → Value → (ℕ → Value) → ℕ → Value
assign d v f r = if r == d then v else f r

abbrev assign_sys : SysReg → Value → (SysReg → Value) → SysReg → Value
assign_sys d v f r = if number r == number d then v else f r

-- `n` words from the word `i` on.
abbrev pub words_from : (ℕ → Value) → ℕ → ℕ → List Value
words_from f i zero = []
words_from f i (suc n) = f i ∷ words_from f (suc i) n

abbrev pub gpr_values : GuestState → ℕ → ℕ → List ℕ
gpr_values g i zero = []
gpr_values g i (suc n) = get_or g.gprs.values i 0 ∷ gpr_values g (suc i) n

-- The guest's part of the area.
abbrev pub guest_words : GuestState → List Value
guest_words g = map num (gpr_values g 0 31) ++ num g.sp ∷ num g.elr ∷ num g.spsr ∷ []

-- How the guest comes back: its registers, what the core says of the exception, and whether it was an
-- interrupt.
pub record Exception : Type 0 where
  pub state : GuestState
  pub esr : ℕ
  pub far : ℕ
  pub asynchronous : Bool

abbrev as_number : Value → Option ℕ
as_number (num n) = some n
as_number _ = none

abbrev as_numbers : List Value → Option (List ℕ)
as_numbers [] = some []
as_numbers (v ∷ vs) = do n ← as_number v; ns ← as_numbers vs; some (n ∷ ns)

-- The registers with which the guest is entered.
unfoldable pub guest_entry : Machine → Option GuestState
guest_entry m = do
  xs ← as_numbers (words_from m.regs 0 31)
  sp ← as_number (m.sys sp_el0)
  elr ← as_number (m.sys elr_el1)
  spsr ← as_number (m.sys spsr_el1)
  some (record { gprs = record { values = xs }; sp = sp; elr = elr; spsr = spsr })

abbrev guest_exit : Exception → Machine → Machine
guest_exit e m = record m {
  regs = λ r. num (get_or e.state.gprs.values r 0);
  sys = assign_sys sp_el0 (num e.state.sp) (
      assign_sys elr_el1 (num e.state.elr) (
        assign_sys spsr_el1 (num e.state.spsr)
          (assign_sys esr_el1 (num e.esr) (assign_sys far_el1 (num e.far) m.sys))));
  asynchronous = e.asynchronous;
}

abbrev get_elem : ℕ → List Value → Option Value
get_elem i [] = none
get_elem zero (v ∷ vs) = some v
get_elem (suc i) (v ∷ vs) = get_elem i vs

abbrev replace : ℕ → Value → List Value → Option (List Value)
replace i v [] = none
replace zero v (x ∷ xs) = some (v ∷ xs)
replace (suc i) v (x ∷ xs) = do ys ← replace i v xs; some (x ∷ ys)

abbrev depth : List Value → ℕ
depth [] = 0
depth (v ∷ vs) = suc (depth vs)

-- New words on the stack; the code writes them before it reads them.
abbrev reserve : ℕ → List Value → List Value
reserve zero vs = vs
reserve (suc n) vs = num 0 ∷ reserve n vs

abbrev drop_some : ℕ → List Value → Option (List Value)
drop_some zero vs = some vs
drop_some (suc n) [] = none
drop_some (suc n) (v ∷ vs) = drop_some n vs

-- The code only moves SP back by `mov sp, x`.
abbrev move_sp : Value → List Value → Option (List Value)
move_sp (stack_ptr n) vs = if leb n (depth vs) then drop_some (depth vs - n) vs else none
move_sp _ vs = none

abbrev in_area : Value → Option Value
in_area area_ptr = some area_ptr
in_area _ = none

abbrev at_vectors : Value → Option Value
at_vectors guest_vectors = some guest_vectors
at_vectors _ = none

unfoldable pub read : Operand → ℕ → Machine → Option Value
read (at base off) i m = do _ ← in_area (m.regs base); some (m.area (off / 8 + i))
read (at_sp off) i m = get_elem (off / 8 + i) m.pushed

unfoldable pub write : Operand → ℕ → Value → Machine → Option Machine
write (at base off) i v m = do
  _ ← in_area (m.regs base)
  some (record m { area = assign (off / 8 + i) v m.area })
write (at_sp off) i v m = do vs ← replace (off / 8 + i) v m.pushed; some (record m { pushed = vs })

abbrev set_reg : ℕ → Value → Machine → Machine
set_reg r v m = record m { regs = assign r v m.regs }

module _ (guest : GuestState → Exception) where
  unfoldable pub step : Instr → Machine → Option Machine
  step (mrs r s) m = some (set_reg r (m.sys s) m)
  step (msr s r) m = some (record m { sys = assign_sys s (m.regs r) m.sys })
  step mask_all m = some (record m { sys = assign_sys daif (num 0x3C0) m.sys })
  step isb m = some m
  step eret m = do _ ← at_vectors (m.sys vbar_el1); g ← guest_entry m; some (guest_exit (guest g) m)
  step ret m = some (record m { returned = some (m.regs 30) })
  step (mov r n) m = some (set_reg r (num n) m)
  step (mov_from_sp r) m = some (set_reg r (stack_ptr (depth m.pushed)) m)
  step (mov_to_sp r) m = do vs ← move_sp (m.regs r) m.pushed; some (record m { pushed = vs })
  step (adr_vectors r) m = some (set_reg r guest_vectors m)
  step (str r o) m = write o 0 (m.regs r) m
  step (ldr r o) m = do v ← read o 0 m; some (set_reg r v m)
  step (str_zero o) m = write o 0 (num 0) m
  step (stp r q o) m = do m1 ← write o 0 (m.regs r) m; write o 1 (m.regs q) m1
  step (ldp r q o) m = do v ← read o 0 m; w ← read o 1 m; some (set_reg q w (set_reg r v m))
  step (push_pair r q) m = some (record m { pushed = m.regs r ∷ m.regs q ∷ m.pushed })
  step (pop_pair r q) m = do
    v ← get_elem 0 m.pushed
    w ← get_elem 1 m.pushed
    vs ← drop_some 2 m.pushed
    some (set_reg q w (set_reg r v (record m { pushed = vs })))
  step (sub_sp n) m = some (record m { pushed = reserve (n / 8) m.pushed })
  step (add_sp n) m = do vs ← drop_some (n / 8) m.pushed; some (record m { pushed = vs })

  unfoldable pub exec : List Instr → Machine → Option Machine
  exec [] m = some m
  exec (i ∷ code) m = step i m >>= exec code
