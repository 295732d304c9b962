-- ===== src/Tests/Riscv/Words.antt =====
-- The theorems about registers, setup and SBI calls at concrete inputs.
use app_guestaspace.Base.{ℕ, ◌+◌, ◌≤◌, ◌<◌, ◌≡◌, ◌≢◌, ◌↔◌, ◌⊎◌, refl, [], ◌∷◌, ok, panic}
use app_guestaspace.Riscv.Regs.{a0}
use app_guestaspace.Riscv.Sbi.{remote_fence, fence_i, from_regs}
use app_guestaspace.Riscv.Sbi.Encode.{standard, from_regs-to_regs}
use app_guestaspace.Riscv.Sbi.Refuse.{from_regs-eq-panic}
use app_guestaspace.Riscv.Vcpu.{word, sepc, size_of_hypervisor_cpu_state, size_of_guest_cpu_state}
use app_guestaspace.Riscv.Vcpu.Offsets.{hyp_gpr, guest_csr, offset, offset_apart}

from_regs-to_regs_example :
    from_regs standard (3 ∷ 0 ∷ 0 ∷ 0 ∷ 0 ∷ 0 ∷ 0 ∷ 0x52464E43 ∷ [])
    ≡ ok (remote_fence (fence_i 3 0))
from_regs-to_regs_example =
    from_regs-to_regs standard (remote_fence (fence_i 3 0))
      (3 ∷ 0 ∷ 0 ∷ 0 ∷ 0 ∷ 0 ∷ 0 ∷ 0x52464E43 ∷ []) refl refl

from_regs-eq-panic_example :
    (from_regs standard (0 ∷ 0 ∷ 0 ∷ 0 ∷ 0 ∷ 0 ∷ 2 ∷ 0x52464E43 ∷ []) ≡ panic) ↔ (
      ((◌≡◌ {A = ℕ} 0x52464E43 0x52464E43) × (◌<◌ 1 2))
      ⊎ ((◌≡◌ {A = ℕ} 0x52464E43 0x504D55)
          × (◌≢◌ {A = ℕ} 2 0)
          × (◌≢◌ {A = ℕ} 2 1)
          × (◌≢◌ {A = ℕ} 2 4)))
from_regs-eq-panic_example = from_regs-eq-panic 0 0 0 0 0 0 2 0x52464E43 standard refl

different : hyp_gpr a0 ≢ guest_csr sepc
different h = cc

offset_apart_example :
    ((offset (hyp_gpr a0) + word ≤ offset (guest_csr sepc))
      ⊎ (offset (guest_csr sepc) + word ≤ offset (hyp_gpr a0)))
    × (offset (hyp_gpr a0) + word ≤ size_of_hypervisor_cpu_state + size_of_guest_cpu_state)
offset_apart_example = offset_apart (hyp_gpr a0) (guest_csr sepc) different
