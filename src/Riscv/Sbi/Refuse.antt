-- ===== src/Riscv/Sbi/Refuse.antt =====
-- The calls that the SBI decoder does not decode.
use app_guestaspace.Base.{ℕ, ◌<◌, ◌≡◌, ◌≢◌, ◌↔◌, ◌⊎◌, List, [], ◌∷◌, panic, arith, map_ok}
use app_guestaspace.Riscv.Sbi.{
  SbiSpec, SbiMessage, from_regs, base_from_regs, reset_from_regs, fence_from_args, pmu_from_regs,
  type_from_reg, reason_from_reg,
}
use app_guestaspace.Riscv.Sbi.Encode.{standard}

module _ (a0 a1 a2 a3 a4 a5 a6 a7 : ℕ) where
  abbrev regs : List ℕ
  regs = a0 ∷ a1 ∷ a2 ∷ a3 ∷ a4 ∷ a5 ∷ a6 ∷ a7 ∷ []

  base_no_panic : map_ok SbiMessage.base (base_from_regs regs) ≢ panic
  unfolding base_from_regs
  base_no_panic = ground arith

  reset_no_panic : map_ok SbiMessage.system_reset (reset_from_regs regs) ≢ panic
  unfolding reset_from_regs type_from_reg reason_from_reg
  reset_no_panic = ground arith

  fence_panics : (map_ok SbiMessage.remote_fence (fence_from_args standard regs) ≡ panic) ↔ (1 < a6)
  unfolding fence_from_args
  fence_panics = ground arith

  pmu_panics :
      (map_ok SbiMessage.pmu (pmu_from_regs regs) ≡ panic) ↔ ((a6 ≢ 0) × (a6 ≢ 1) × (a6 ≢ 4))
  unfolding pmu_from_regs
  pmu_panics = ground arith

  -- The decoder panics exactly on the remote fences other than FENCE.I and SFENCE.VMA, and on the
  -- counter functions other than 0, 1 and 4; every other call gives a message or an error value.
  pub from_regs-eq-panic :
      (spec : SbiSpec)
      → spec ≡ standard
      → (from_regs spec regs ≡ panic)
        ↔ (((a7 ≡ 0x52464E43) × (1 < a6)) ⊎ ((a7 ≡ 0x504D55) × (a6 ≢ 0) × (a6 ≢ 1) × (a6 ≢ 4)))
  unfolding from_regs
  from_regs-eq-panic spec e =
      rw e (ground (arith, base_no_panic, reset_no_panic, fence_panics, pmu_panics))
