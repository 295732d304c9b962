-- ===== src/Riscv/Regs/Laws.antt =====
-- Reading and writing registers.
use app_guestaspace.Base.{
  ℕ, ◌+◌, ◌≤◌, ◌<◌, ◌≡◌, ◌≢◌, refl, ◌∙◌, ap, true, false, none, some, arith, if◌then◌else◌, length,
  get_or, get_or-set_self, get_or-set_ne, get_or-slice, length-set, sym, Bool-cases, inl, inr,
}
use mathlib.Core.Option.{some-injective}
use app_guestaspace.Riscv.Regs.{
  GprIndex, as_usize, from_raw, GeneralPurposeRegisters, reg, set_reg, a_regs, is_zero, default,
}

-- The array has its 32 registers, and the first of them reads as zero.
pub record IsGprs (g : GeneralPurposeRegisters) : Type 0 where
  pub sized : length g.values ≡ 32
  pub hardwired : get_or g.values 0 0 ≡ 0

-- Raw numbers and names of registers correspond one to one: the number of a name gives the name.
pub from_raw-as_usize : (i : GprIndex) → from_raw (as_usize i) ≡ some i
unfolding as_usize from_raw
from_raw-as_usize GprIndex.zero = refl
from_raw-as_usize _ = refl

-- A number that has a name is the number of that name.
pub as_usize-from_raw : (n : ℕ) (i : GprIndex) → from_raw n ≡ some i → as_usize i ≡ n
unfolding as_usize from_raw
as_usize-from_raw n i h = ground arith

-- Numbers from 32 on have no name, and only those.
pub from_raw-eq-none : (n : ℕ) → from_raw n ≡ none → 32 ≤ n
unfolding from_raw
from_raw-eq-none n h = ground arith

pub as_usize-lt : (i : GprIndex) → as_usize i < 32
unfolding as_usize
as_usize-lt GprIndex.zero = omega arith
as_usize-lt _ = omega arith

pub as_usize_injective : (i j : GprIndex) → as_usize i ≡ as_usize j → i ≡ j
as_usize_injective i j e =
    some-injective i j (sym (from_raw-as_usize i) ∙ ap from_raw e ∙ from_raw-as_usize j)

pub set_reg-IsGprs :
    (i : GprIndex) (v : ℕ) (g : GeneralPurposeRegisters) → IsGprs g → IsGprs (set_reg i v g)
unfolding set_reg as_usize
set_reg-IsGprs GprIndex.zero v g valid = valid
set_reg-IsGprs _ v g valid = record {
  sized = length-set g.values _ v ∙ valid.sized;
  hardwired = get_or-set_ne g.values _ 0 v 0 (omega arith) ∙ valid.hardwired;
}

pub reg-set_reg_ne :
    (i j : GprIndex) (v : ℕ) (g : GeneralPurposeRegisters) → i ≢ j → reg (set_reg i v g) j ≡ reg g j
unfolding set_reg reg
reg-set_reg_ne i j v g h = elim (Bool-cases (is_zero i)) [
  | inl p ↦ rw p
  | inr p ↦
      rw p
        (get_or-set_ne g.values (as_usize i) (as_usize j) v 0 (λ e. h (as_usize_injective i j e)))
]

reg_written :
    (i : GprIndex) (v : ℕ) (g : GeneralPurposeRegisters)
    → IsGprs g
    → is_zero i ≡ false
    → reg (set_reg i v g) i ≡ v
unfolding set_reg reg
reg_written i v g valid p =
    rw p (get_or-set_self g.values (as_usize i) v 0 (omega (arith, as_usize-lt i, valid.sized)))

as_usize-zero : (i : GprIndex) → is_zero i ≡ true → as_usize i ≡ 0
unfolding as_usize
as_usize-zero GprIndex.zero p = refl
as_usize-zero _ p = cc

written_or_zero :
    (i : GprIndex) (v : ℕ) (g : GeneralPurposeRegisters)
    → IsGprs g
    → reg (set_reg i v g) i ≡ (if is_zero i then 0 else v)
unfolding set_reg reg
written_or_zero i v g valid = elim (Bool-cases (is_zero i)) [
  | inl p ↦ rw (p, as_usize-zero i p) valid.hardwired
  | inr p ↦ reg_written i v g valid p ∙ rw p
]

-- A write leaves the registers well formed, is read back unless it goes to `zero`, which stays 0,
-- and leaves every other register alone.
pub set_reg_lem :
    (i j : GprIndex) (v : ℕ) (g : GeneralPurposeRegisters)
    → IsGprs g
    → i ≢ j
    → IsGprs (set_reg i v g)
      × (reg (set_reg i v g) i ≡ (if is_zero i then 0 else v))
      × (reg (set_reg i v g) j ≡ reg g j)
set_reg_lem i j v g valid h =
    (set_reg-IsGprs i v g valid, written_or_zero i v g valid, reg-set_reg_ne i j v g h)

pub default-IsGprs : IsGprs default
unfolding default
default-IsGprs = record { sized = refl; hardwired = refl }

-- Entry `k` of the argument registers is register `a0 + k`.
pub get_or-a_regs :
    (k : ℕ) (g : GeneralPurposeRegisters)
    → k < 8
    → get_or (a_regs g) k 0 ≡ get_or g.values (10 + k) 0
unfolding a_regs
get_or-a_regs k g h = get_or-slice 10 8 k g.values 0 h
