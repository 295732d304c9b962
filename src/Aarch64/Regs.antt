-- ===== src/Aarch64/Regs.antt =====
-- src/aarch64/regs.rs and the register structures of src/aarch64/vcpu.rs.
use app_guestaspace.Base.{
  ℕ, ◌<◌, ◌≡◌, ◌≢◌, List, Outcome, ok, panic, if◌then◌else◌, ltb, length, get_or, set, replicate,
  arith, get_or-set_self, get_or-set_ne, length-set, ◌∙◌,
}

-- x0 to x30.
pub record GeneralPurposeRegisters : Type 0 where
  pub values : List ℕ

unfoldable pub default : GeneralPurposeRegisters
default = record { values = replicate 31 0 }

-- `assert!(n < 31)` comes before the access.
unfoldable pub x : ℕ → GeneralPurposeRegisters → Outcome ℕ
x n g = if ltb n 31 then ok (get_or g.values n 0) else panic

unfoldable pub set_x : ℕ → ℕ → GeneralPurposeRegisters → Outcome GeneralPurposeRegisters
set_x n val g = if ltb n 31 then ok (record { values = set g.values n val }) else panic

pub record GuestState : Type 0 where
  pub gprs : GeneralPurposeRegisters
  pub sp : ℕ
  pub elr : ℕ
  pub spsr : ℕ

pub record TrapState : Type 0 where
  pub esr : ℕ
  pub far : ℕ
  pub is_irq : ℕ

-- A register is written and read back, the others are kept, and there are still 31 of them.
pub x-set_x :
    (n k val : ℕ) (g : GeneralPurposeRegisters)
    → length g.values ≡ 31
    → n < 31
    → n ≢ k
    → (h : GeneralPurposeRegisters) × (set_x n val g ≡ ok h)
      × (x n h ≡ ok val)
      × (x k h ≡ x k g)
      × (length h.values ≡ 31)
unfolding x set_x
x-set_x n k val g sized h ne = (
  record { values = set g.values n val },
  ground arith,
  ground (arith, get_or-set_self g.values n val 0 (omega arith)),
  rw (get_or-set_ne g.values n k val 0 ne),
  length-set g.values n val ∙ sized,
)
