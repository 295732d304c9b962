-- ===== src/Tests/Aarch64/Examples.antt =====
-- The theorems about the AArch64 hypervisor at concrete inputs.
use app_guestaspace.Base.{
  ℕ, ◌*◌, ◌/◌, ◌%◌, ◌≡◌, ◌≢◌, ◌↔◌, ◌⊎◌, refl, none, some, [], ◌∷◌, ok, err, arith, unsupported,
  get_or,
}
use app_guestaspace.AddrSpace.Flat.{flat, flat-IsLawful, Space}
use app_guestaspace.Aarch64.Hvc.{from_esr_and_regs, from_esr_and_regs_lem, psci_system_off}
use app_guestaspace.Aarch64.Run.{State, resume, stop, shutdown, handle_exit, exception_class}
use app_guestaspace.Aarch64.Run.Exits.{handle_exit-svc_shutdown_iff, handle_exit-data_abort}
use app_guestaspace.Tests.Aarch64.Core.{svc_regs}

abbrev empty : Space
empty = record { areas = []; bytes = λ a. 0 }

abbrev with_pflash : Space
with_pflash = record {
  areas = record { start = 0x0400_0000; size = 4096; paddr = 0x0400_0000 } ∷ [];
  bytes = λ a. 0;
}

-- The guest stopped with an exception class, a fault address and a register x8.
abbrev stopped : ℕ → ℕ → ℕ → ℕ → State flat ℕ
stopped irq ec far x8 = record {
  running = 7;
  guest = record { gprs = svc_regs b'k' x8; sp = 0; elr = 0x4020_0010; spsr = 0x3C0 };
  trap = record { esr = ec * 0x400_0000; far = far; is_irq = irq };
  uspace = empty;
  console = [];
}

handle_exit-svc_shutdown_iff_example :
    (handle_exit flat ℕ (stopped 0 0x15 0 2) ≡ stop shutdown (stopped 0 0x15 0 2)) ↔ (
      ((stopped 0 0x15 0 2).trap.is_irq ≡ 0)
      × ((stopped 0 0x15 0 2).trap.esr / 0x400_0000 % 64 ≡ 0x15)
      × (get_or (stopped 0 0x15 0 2).guest.gprs.values 8 0 ≡ 2))
handle_exit-svc_shutdown_iff_example = handle_exit-svc_shutdown_iff flat ℕ (stopped 0 0x15 0 2)

aborted : exception_class (stopped 0 0x24 0x0400_0004 0).trap.esr ≡ 0x24
unfolding exception_class
aborted = refl

handle_exit-data_abort_example :
    (t : State flat ℕ) × (handle_exit flat ℕ (stopped 0 0x24 0x0400_0004 0) ≡ resume t)
    × (t ≡ record (stopped 0 0x24 0x0400_0004 0) { uspace = t.uspace })
    × (flat.query t.uspace 0x0400_0004 ≡ some 0x0400_0004)
    × (flat.query t.uspace 0x1000 ≡ none)
    × (flat.byte_at t.uspace 0x1000 ≡ 0)
handle_exit-data_abort_example =
    handle_exit-data_abort flat ℕ (stopped 0 0x24 0x0400_0004 0) refl 0x0400_0004 with_pflash 0x1000
      flat-IsLawful aborted refl (omega arith) refl refl

from_esr_and_regs_lem_example :
    ((from_esr_and_regs 0x5400_0000 (0x84000008 ∷ []) ≡ err unsupported)
      ↔ ((0x5400_0000 / 0x400_0000 % 64 ≢ 0x15) × (0x5400_0000 / 0x400_0000 % 64 ≢ 0x16)))
    × ((from_esr_and_regs 0x5400_0000 (0x84000008 ∷ []) ≡ ok psci_system_off) ↔ (
        ((0x5400_0000 / 0x400_0000 % 64 ≡ 0x15) ⊎ (0x5400_0000 / 0x400_0000 % 64 ≡ 0x16))
        × (◌≡◌ {A = ℕ} (get_or (0x84000008 ∷ []) 0 0) 0x84000008)))
from_esr_and_regs_lem_example = from_esr_and_regs_lem 0x5400_0000 (0x84000008 ∷ [])
