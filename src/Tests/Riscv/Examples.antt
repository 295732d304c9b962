-- ===== src/Tests/Riscv/Examples.antt =====
-- The theorems about the RISC-V hypervisor at concrete inputs.
use app_guestaspace.Base.{
  ℕ, ◌+◌, ◌*◌, ◌%◌, ◌^◌, ◌≡◌, ◌≢◌, ◌⊎◌, inl, inr, refl, false, none, some, List, [], ◌∷◌, arith,
  if◌then◌else◌, ◌==◌,
}
use app_guestaspace.AddrSpace.Flat.{flat, flat-IsLawful, Space}
use app_guestaspace.Riscv.Regs.{a0, a1, s0, a_regs}
use app_guestaspace.Riscv.Csrs.{
  Csrs, get_value, read_and_set_bits, write_value, csr_htval, csr_stval, csr_scause,
}
use app_guestaspace.Riscv.Run.{
  State, resume, a_reg, handle_ecall, handle_exit, handle_interrupt, handle_set_timer,
  handle_putchar, enter,
}
use app_guestaspace.Riscv.Run.Calls.{Returned, handle_ecall-frame}
use app_guestaspace.Riscv.Run.Console.{Event, tick}
use app_guestaspace.Riscv.Run.Mmio.{handle_exit-passthrough}
use app_guestaspace.Riscv.Run.Preserve.{start, next}
use app_guestaspace.Riscv.Run.Timer.{TimerOnce, pending, timer_on, Reach-TimerOnce, timer_cycle}
use app_guestaspace.Tests.Riscv.Hart.{hart, hart-IsHart, call_regs}

abbrev empty : Space
empty = record { areas = []; bytes = λ a. 0 }

abbrev with_device : Space
with_device = record {
  areas = record { start = 0x2200_0000; size = 4096; paddr = 0x2200_0000 } ∷ [];
  bytes = λ a. 0;
}

-- A guest that stands before these events, with registers of a call.
abbrev at : List Event → ℕ → ℕ → Csrs → State flat hart
at es x0 x7 c = record {
  guest = es;
  guest_regs = record {
    gprs = call_regs x0 x7;
    sstatus = 0;
    hstatus = 0;
    scounteren = 0;
    sepc = 0x8020_0000;
  };
  csrs = c;
  uspace = empty;
  firmware = [];
  uart = [];
}

ticked : State flat hart
ticked = handle_interrupt flat hart (enter flat hart (at (tick ∷ []) 0 0 (λ c. 0)))

tick_taken : handle_exit flat hart (enter flat hart (at (tick ∷ []) 0 0 (λ c. 0))) ≡ resume ticked
unfolding handle_exit ticked get_value enter read_and_set_bits write_value
tick_taken = refl

Reach-TimerOnce_example : TimerOnce ticked.csrs
unfolding get_value
Reach-TimerOnce_example =
    Reach-TimerOnce flat hart hart-IsHart {s = at (tick ∷ []) 0 0 (λ c. 0)} {t = ticked}
      (next start tick_taken) (omega arith)

-- `scause` holds an exception or interrupt, `htval` and `stval` an address.
abbrev trapped : ℕ → ℕ → ℕ → Csrs
trapped cause high low = λ c.
    if c == csr_scause
    then cause
    else if c == csr_htval
    then high
    else if c == csr_stval
    then low
    else 0

cause_five : hart.code (get_value csr_scause (trapped (2 ^ 63 + 5) 0 0)) ≡ 5
unfolding get_value
cause_five = refl

timer_cycle_example :
    (pending (handle_interrupt flat hart (at [] 0 0 (trapped (2 ^ 63 + 5) 0 0))).csrs ≡ 1)
    × (timer_on (handle_interrupt flat hart (at [] 0 0 (trapped (2 ^ 63 + 5) 0 0))).csrs ≡ 0)
    × (pending (handle_set_timer flat hart (at [] 99 0 (λ c. 0))).csrs ≡ 0)
    × (timer_on (handle_set_timer flat hart (at [] 99 0 (λ c. 0))).csrs ≡ 1)
    × ((handle_set_timer flat hart (at [] 99 0 (λ c. 0))).firmware
        ≡ hart.set_timer (a_reg 0 (at [] 99 0 (λ c. 0)).guest_regs) [])
timer_cycle_example =
    timer_cycle flat hart (at [] 0 0 (trapped (2 ^ 63 + 5) 0 0)) (at [] 99 0 (λ c. 0)) cause_five

served_putchar :
    handle_ecall flat hart (at [] b'k' 1 (λ c. 0))
    ≡ resume (handle_putchar flat hart (at [] b'k' 1 (λ c. 0)))
unfolding handle_ecall a_reg a_regs
served_putchar = refl

a0-ne-s0 : a0 ≢ s0
a0-ne-s0 h = cc

a1-ne-s0 : a1 ≢ s0
a1-ne-s0 h = cc

handle_ecall-frame_example :
    Returned s0
      (at [] b'k' 1 (λ c. 0)).guest_regs
      (handle_putchar flat hart (at [] b'k' 1 (λ c. 0))).guest_regs
    × ((handle_putchar flat hart (at [] b'k' 1 (λ c. 0))).uspace ≡ empty)
    × ((handle_putchar flat hart (at [] b'k' 1 (λ c. 0))).guest ≡ [])
handle_ecall-frame_example =
    handle_ecall-frame flat hart (at [] b'k' 1 (λ c. 0)) s0 a0-ne-s0 a1-ne-s0
      (handle_putchar flat hart (at [] b'k' 1 (λ c. 0))) served_putchar

abbrev faulting : State flat hart
faulting = at [] 0 0 (trapped 21 0x880_0001 2)

fault_value :
    get_value csr_htval faulting.csrs * 4 + get_value csr_stval faulting.csrs % 4 ≡ 0x2200_0006
unfolding get_value
fault_value = refl

no_interrupt : hart.is_interrupt (get_value csr_scause faulting.csrs) ≡ false
unfolding get_value
no_interrupt = refl

load_fault :
    (hart.code (get_value csr_scause faulting.csrs) ≡ 20)
    ⊎ (hart.code (get_value csr_scause faulting.csrs) ≡ 21)
    ⊎ (hart.code (get_value csr_scause faulting.csrs) ≡ 23)
unfolding get_value
load_fault = inr (inl refl)

handle_exit-passthrough_example :
    (t : State flat hart) × (handle_exit flat hart faulting ≡ resume t)
    × (t ≡ record faulting { uspace = t.uspace })
    × (flat.query t.uspace 0x2200_0006 ≡ some 0x2200_0006)
    × (flat.query t.uspace 0x1000 ≡ none)
    × (flat.byte_at t.uspace 0x1000 ≡ 0)
handle_exit-passthrough_example =
    handle_exit-passthrough flat hart faulting 0x2200_0006 fault_value (omega arith) no_interrupt
      load_fault flat-IsLawful with_device refl 0x1000 refl
