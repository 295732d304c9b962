-- ===== src/Riscv/Run/Timer.antt =====
-- The timer of the guest in the RISC-V loop: the guest's timer interrupt is pending (bit 6 of `hvip`)
-- or the host timer is on (bit 5 of `sie`), but not both.
use app_guestaspace.Base.{ℕ, ◌+◌, ◌≤◌, ◌≡◌, refl, ap, ◌∙◌, arith, ◌≢◌}
use app_guestaspace.Base.Bits.{bit, bit-le-one}
use app_guestaspace.AddrSpace.{AddrSpace}
use app_guestaspace.Riscv.Csrs.{
  Csrs, get_value, read_and_set_bits, read_and_clear_bits, csr_sstatus, csr_sie, csr_hvip,
  csr_scause, supervisor_timer, virtual_supervisor_timer,
}
use app_guestaspace.Riscv.Csrs.Masks.{
  bit-read_and_set_bits, bit-read_and_clear_bits, read_and_set_bits-ne, read_and_clear_bits-ne,
}
use app_guestaspace.Riscv.Vcpu.{GuestCpuState}
use app_guestaspace.Riscv.Run.Preserve.{IsKept, Reach, Reach-Holds}
use app_guestaspace.Riscv.Run.{
  Machine, State, a_reg, handle_interrupt, handle_putchar, handle_getchar, handle_set_timer,
  forward, enter,
}

abbrev pub pending : Csrs → ℕ
pending c = bit 6 (get_value csr_hvip c)

abbrev pub timer_on : Csrs → ℕ
timer_on c = bit 5 (get_value csr_sie c)

abbrev pub TimerOnce : Csrs → Type 0
TimerOnce c = pending c + timer_on c ≤ 1

-- A hart in VS mode has no way to write `hvip` and `sie`.
pub record IsHart (A : AddrSpace) (M : Machine A) : Type 0 where
  pub keeps_hvip :
      (g : M.Guest) (r : GuestCpuState) (c : Csrs) (n : A.Space)
      → get_value csr_hvip (M.run_guest g r c n).2 ≡ get_value csr_hvip c
  pub keeps_sie :
      (g : M.Guest) (r : GuestCpuState) (c : Csrs) (n : A.Space)
      → get_value csr_sie (M.run_guest g r c n).2 ≡ get_value csr_sie c

module _ (A : AddrSpace) (M : Machine A) where
  -- The supervisor timer interrupt.
  fires :
      (s : State A M)
      → M.code (get_value csr_scause s.csrs) ≡ 5
      → (pending (handle_interrupt A M s).csrs ≡ 1) × (timer_on (handle_interrupt A M s).csrs ≡ 0)
  unfolding handle_interrupt
  fires s h = rw h (hvip_set, sie_clear)
    where
      set : Csrs
      set = (read_and_set_bits csr_hvip virtual_supervisor_timer s.csrs).1

      hvip_set : pending (read_and_clear_bits csr_sie supervisor_timer set).1 ≡ 1
      hvip_set =
          ap (bit 6) (read_and_clear_bits-ne csr_sie supervisor_timer set csr_hvip (omega arith))
          ∙ bit-read_and_set_bits csr_hvip virtual_supervisor_timer s.csrs 6
          ∙ omega (arith, bit-le-one 6 (get_value csr_hvip s.csrs))

      sie_clear : timer_on (read_and_clear_bits csr_sie supervisor_timer set).1 ≡ 0
      sie_clear =
          bit-read_and_clear_bits csr_sie supervisor_timer set 5 (omega arith) (omega arith)
          ∙ omega arith

  -- The call that sets the timer.
  arms :
      (s : State A M)
      → (pending (handle_set_timer A M s).csrs ≡ 0) × (timer_on (handle_set_timer A M s).csrs ≡ 1)
  unfolding handle_set_timer
  arms s = (hvip_clear, sie_set)
    where
      clear : Csrs
      clear = (read_and_clear_bits csr_hvip virtual_supervisor_timer s.csrs).1

      hvip_clear : pending (read_and_set_bits csr_sie supervisor_timer clear).1 ≡ 0
      hvip_clear =
          ap (bit 6) (read_and_set_bits-ne csr_sie supervisor_timer clear csr_hvip (omega arith))
          ∙ bit-read_and_clear_bits csr_hvip virtual_supervisor_timer s.csrs 6 (omega arith)
              (omega arith)
          ∙ omega arith

      sie_set : timer_on (read_and_set_bits csr_sie supervisor_timer clear).1 ≡ 1
      sie_set =
          bit-read_and_set_bits csr_sie supervisor_timer clear 5
          ∙ omega (arith, bit-le-one 5 (get_value csr_sie clear))

  module _ (H : IsHart A M) where
    -- No register but `sstatus` differs from what the hart left.
    csr-enter :
        (c : ℕ)
        → c ≢ csr_sstatus
        → ((g : M.Guest) (r : GuestCpuState) (f : Csrs) (n : A.Space)
            → get_value c (M.run_guest g r f n).2 ≡ get_value c f)
        → (s : State A M) → get_value c (enter A M s).csrs ≡ get_value c s.csrs
    unfolding enter
    csr-enter c apart keeps s =
        read_and_set_bits-ne csr_sstatus _ _ c apart
        ∙ keeps s.guest s.guest_regs _ s.uspace
        ∙ read_and_clear_bits-ne csr_sstatus 0x2 s.csrs c apart

    enter-TimerOnce : (s : State A M) → TimerOnce s.csrs → TimerOnce (enter A M s).csrs
    enter-TimerOnce s once =
        rw
          (
            csr-enter csr_hvip (omega arith) H.keeps_hvip s,
            csr-enter csr_sie (omega arith) H.keeps_sie s,
          )
          once

    handlers-IsKept : IsKept A M (λ s. TimerOnce s.csrs)
    unfolding handle_interrupt handle_putchar handle_getchar forward
    handlers-IsKept = record {
      by_interrupt = λ s once. ground (arith, fires s);
      by_putchar = λ s once. once;
      by_getchar = λ s once. once;
      by_set_timer = λ s once. omega (arith, arms s);
      by_forward = λ s once. once;
      by_map = λ s t once. once;
      by_enter = enter-TimerOnce;
    }

    -- From a state in which the guest's timer interrupt is not pending together with an armed host
    -- timer, the loop reaches no state in which both hold, on a hart that leaves `hvip` and `sie`
    -- to the hypervisor.
    pub Reach-TimerOnce : {s t : State A M} → Reach A M s t → TimerOnce s.csrs → TimerOnce t.csrs
    Reach-TimerOnce = Reach-Holds A M (λ s. TimerOnce s.csrs) handlers-IsKept

  -- A timer interrupt makes the guest's timer pending and turns the host timer off; the guest's
  -- next call that sets the timer reverses both and passes the deadline to the firmware.
  pub timer_cycle :
      (s t : State A M)
      → M.code (get_value csr_scause s.csrs) ≡ 5
      → (pending (handle_interrupt A M s).csrs ≡ 1)
        × (timer_on (handle_interrupt A M s).csrs ≡ 0)
        × (pending (handle_set_timer A M t).csrs ≡ 0)
        × (timer_on (handle_set_timer A M t).csrs ≡ 1)
        × ((handle_set_timer A M t).firmware ≡ M.set_timer (a_reg 0 t.guest_regs) t.firmware)
  unfolding handle_set_timer
  timer_cycle s t h = ((fires s h).0, (fires s h).1, (arms t).0, (arms t).1, refl)
