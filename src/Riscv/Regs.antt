-- ===== src/Riscv/Regs.antt =====
-- src/regs.rs: the general-purpose registers of a hart, indexed by their ABI names.
pub mod Laws
use app_guestaspace.Base.{
  ℕ, Bool, true, false, List, Option, none, some, ◌==◌, if◌then◌else◌, get_or, set, slice,
  replicate,
}

pub data GprIndex : Type 0 where
  zero ra sp gp tp t0 t1 t2 s0 s1 a0 a1 a2 a3 a4 a5 : GprIndex
  a6 a7 s2 s3 s4 s5 s6 s7 s8 s9 s10 s11 t3 t4 t5 t6 : GprIndex

-- `index as usize`
unfoldable pub as_usize : GprIndex → ℕ
as_usize zero = 0
as_usize ra = 1
as_usize sp = 2
as_usize gp = 3
as_usize tp = 4
as_usize t0 = 5
as_usize t1 = 6
as_usize t2 = 7
as_usize s0 = 8
as_usize s1 = 9
as_usize a0 = 10
as_usize a1 = 11
as_usize a2 = 12
as_usize a3 = 13
as_usize a4 = 14
as_usize a5 = 15
as_usize a6 = 16
as_usize a7 = 17
as_usize s2 = 18
as_usize s3 = 19
as_usize s4 = 20
as_usize s5 = 21
as_usize s6 = 22
as_usize s7 = 23
as_usize s8 = 24
as_usize s9 = 25
as_usize s10 = 26
as_usize s11 = 27
as_usize t3 = 28
as_usize t4 = 29
as_usize t5 = 30
as_usize t6 = 31

-- `GprIndex::from_raw`
unfoldable pub from_raw : ℕ → Option GprIndex
from_raw raw =
    if raw == 0
    then some zero
    else if raw == 1
    then some ra
    else if raw == 2
    then some sp
    else if raw == 3
    then some gp
    else if raw == 4
    then some tp
    else if raw == 5
    then some t0
    else if raw == 6
    then some t1
    else if raw == 7
    then some t2
    else if raw == 8
    then some s0
    else if raw == 9
    then some s1
    else if raw == 10
    then some a0
    else if raw == 11
    then some a1
    else if raw == 12
    then some a2
    else if raw == 13
    then some a3
    else if raw == 14
    then some a4
    else if raw == 15
    then some a5
    else if raw == 16
    then some a6
    else if raw == 17
    then some a7
    else if raw == 18
    then some s2
    else if raw == 19
    then some s3
    else if raw == 20
    then some s4
    else if raw == 21
    then some s5
    else if raw == 22
    then some s6
    else if raw == 23
    then some s7
    else if raw == 24
    then some s8
    else if raw == 25
    then some s9
    else if raw == 26
    then some s10
    else if raw == 27
    then some s11
    else if raw == 28
    then some t3
    else if raw == 29
    then some t4
    else if raw == 30
    then some t5
    else if raw == 31
    then some t6
    else none

pub record GeneralPurposeRegisters : Type 0 where
  pub values : List ℕ

unfoldable pub default : GeneralPurposeRegisters
default = record { values = replicate 32 0 }

-- The indices lie in the array of 32, so the default of `get_or` is never taken.
unfoldable pub reg : GeneralPurposeRegisters → GprIndex → ℕ
unfolding as_usize
reg g i = get_or g.values (as_usize i) 0

-- `reg_index == GprIndex::Zero`
abbrev is_zero : GprIndex → Bool
is_zero zero = true
is_zero _ = false

unfoldable pub set_reg : GprIndex → ℕ → GeneralPurposeRegisters → GeneralPurposeRegisters
unfolding as_usize
set_reg i v g = if is_zero i then g else record { values = set g.values (as_usize i) v }

-- The argument registers, `a0` to `a7`.
unfoldable pub a_regs : GeneralPurposeRegisters → List ℕ
a_regs g = slice 10 8 g.values
