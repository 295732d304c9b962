-- ===== src/Riscv/Run.antt =====
-- `riscv64_main` of src/main.rs, the loop over VM exits. The hart, the SBI firmware below the
-- hypervisor, and the `riscv` crate's reading of `scause` are parameters.
pub mod Calls
pub mod Console
pub mod Delegation
pub mod Ends
pub mod Mmio
pub mod Preserve
pub mod Timer
use app_guestaspace.Base.{
  ℕ, zero, suc, ◌+◌, ◌-◌, ◌*◌, ◌^◌, List, [], ◌∷◌, ◌++◌, Bool, ◌&&◌, ◌||◌, Option, none, some,
  Outcome, ok, out_of_fuel, ◌==◌, if◌then◌else◌, bit_and, bit_or, get_or,
}
use app_guestaspace.Base.Bits.{bit_not}
use app_guestaspace.Base.Bytes.{u8, u64}
use app_guestaspace.AddrSpace.{AddrSpace, guest_flags}
use app_guestaspace.Riscv.Regs.{GprIndex, a_regs, set_reg}
use app_guestaspace.Riscv.Csrs.{
  Csrs, csr, get_value, read_and_set_bits, read_and_clear_bits, csr_sstatus, csr_scause, csr_stval,
  csr_htval, supervisor_timer, virtual_supervisor_timer,
}
use app_guestaspace.Riscv.Vcpu.{GuestCpuState}

abbrev pub page_size_4k : ℕ
page_size_4k = 0x1000

-- What lies outside the repository. `Firmware` is the state of the SBI below the hypervisor, and
-- `Guest` what the hart runs.
pub record Machine (A : AddrSpace) : Type 1 where
  pub Firmware : Type 0
  pub Guest : Type 0
  -- `ecall` with `a0` to `a7`: the values of `a0` and `a1` afterwards.
  pub ecall : List ℕ → Firmware → ℕ × ℕ × Firmware
  -- `sbi_rt::set_timer`
  pub set_timer : ℕ → Firmware → Firmware
  -- `sbi_rt::legacy::console_getchar`
  pub console_getchar : Firmware → ℕ × Firmware
  -- `scause.is_interrupt()` and `scause.code()`
  pub is_interrupt : ℕ → Bool
  pub code : ℕ → ℕ
  -- `_run_guest(&mut ctx)`: to the next trap.
  pub run_guest : Guest → GuestCpuState → Csrs → A.Space → Guest × GuestCpuState × Csrs

-- What the loop works on; `uart` holds the characters that were written to the UART.
pub record State (A : AddrSpace) (M : Machine A) : Type 0 where
  pub guest : M.Guest
  pub guest_regs : GuestCpuState
  pub csrs : Csrs
  pub uspace : A.Space
  pub firmware : M.Firmware
  pub uart : List ℕ

-- The three ways out of the loop.
pub data Ending : Type 0 where
  legacy_shutdown srst_shutdown unhandled : Ending

pub data Step (A : AddrSpace) (M : Machine A) : Type 0 where
  resume : State A M → Step A M
  stop : Ending → State A M → Step A M

-- `ctx.guest_regs.gprs.a_regs()[k]`, for `k` below 8.
unfoldable pub a_reg : ℕ → GuestCpuState → ℕ
a_reg k r = get_or (a_regs r.gprs) k 0

-- `set_reg(i, v)`
unfoldable pub with_reg : GprIndex → ℕ → GuestCpuState → GuestCpuState
with_reg i v r = record r { gprs = set_reg i v r.gprs }

-- `sepc += 4`
unfoldable pub advance : GuestCpuState → GuestCpuState
advance r = record r { sepc = u64 (r.sepc + 4) }

-- The test for a call that sets the timer.
abbrev pub is_set_timer : ℕ → ℕ → Bool
is_set_timer a7 a6 = (a7 == 0x54494D45) || ((a7 == 0) && (a6 == 0))

-- The address of a guest page fault: `(htval << 2) | (stval & 0x3)`.
unfoldable pub fault_addr : Csrs → ℕ
fault_addr c = bit_or (u64 (get_value csr_htval c * 2 ^ 2)) (bit_and (get_value csr_stval c) 0x3)

-- `fault_addr & !0xFFF`
unfoldable pub fault_page : Csrs → ℕ
fault_page c = bit_and (fault_addr c) (bit_not 64 0xFFF)

module _ (A : AddrSpace) (M : Machine A) where
  -- `scause.is_interrupt()`
  unfoldable pub handle_interrupt : State A M → State A M
  handle_interrupt s =
      if M.code (get_value csr_scause s.csrs) == 5
      then (let c = (read_and_set_bits csr.hvip virtual_supervisor_timer s.csrs).1 in
          record s { csrs = (read_and_clear_bits csr.sie supervisor_timer c).1 })
      else s

  -- The legacy putchar.
  unfoldable pub handle_putchar : State A M → State A M
  handle_putchar s = record s {
    uart = s.uart ++ (u8 (a_reg 0 s.guest_regs) ∷ []);
    guest_regs = advance s.guest_regs;
  }

  -- The legacy getchar.
  unfoldable pub handle_getchar : State A M → State A M
  handle_getchar s =
      let r = M.console_getchar s.firmware in
      record s { firmware = r.1; guest_regs = advance (with_reg GprIndex.a0 r.0 s.guest_regs) }

  -- The call that sets the timer.
  unfoldable pub handle_set_timer : State A M → State A M
  handle_set_timer s =
      let c = (read_and_clear_bits csr.hvip virtual_supervisor_timer s.csrs).1 in
      record s {
        firmware = M.set_timer (a_reg 0 s.guest_regs) s.firmware;
        csrs = (read_and_set_bits csr.sie supervisor_timer c).1;
        guest_regs = advance (with_reg GprIndex.a0 0 s.guest_regs);
      }

  -- A call that goes on to the firmware below.
  unfoldable pub forward : State A M → State A M
  forward s =
      let r = M.ecall (a_regs s.guest_regs.gprs) s.firmware in
      record s {
        firmware = r.2;
        guest_regs = advance (with_reg GprIndex.a1 r.1 (with_reg GprIndex.a0 r.0 s.guest_regs));
      }

  -- `VirtualSupervisorEnvCall`
  unfoldable pub handle_ecall : State A M → Step A M
  handle_ecall s =
      let a7 = a_reg 7 s.guest_regs in
      let a6 = a_reg 6 s.guest_regs in
      if a7 == 8
      then stop legacy_shutdown s
      else if a7 == 0x53525354
      then stop srst_shutdown s
      else if a7 == 1
      then resume (handle_putchar s)
      else if is_set_timer a7 a6
      then resume (handle_set_timer s)
      else if a7 == 2
      then resume (handle_getchar s)
      else resume (forward s)

  -- `let _ = …`: an error of the mapping is dropped.
  abbrev pub after_map : State A M → Option A.Space → State A M
  after_map s (some t) = record s { uspace = t }
  after_map s none = s

  unfoldable pub handle_page_fault : State A M → State A M
  handle_page_fault s =
      let page_addr = fault_page s.csrs in
      after_map s (A.map_linear page_addr page_addr page_size_4k (guest_flags A) s.uspace)

  -- The `match` on the code of an exception.
  unfoldable pub handle_exception : State A M → Step A M
  handle_exception s =
      let code = M.code (get_value csr_scause s.csrs) in
      if code == 10
      then handle_ecall s
      else if (code == 20) || (code == 21) || (code == 23)
      then resume (handle_page_fault s)
      else stop unhandled s

  unfoldable pub handle_exit : State A M → Step A M
  handle_exit s =
      if M.is_interrupt (get_value csr_scause s.csrs)
      then resume (handle_interrupt s)
      else handle_exception s

  -- `csrrci`, the run of the guest, and `csrs`: host interrupts are off while the guest runs.
  unfoldable pub enter : State A M → State A M
  enter s =
      let off = read_and_clear_bits csr_sstatus 0x2 s.csrs in
      let e = M.run_guest s.guest s.guest_regs off.1 s.uspace in
      record s {
        guest = e.0;
        guest_regs = e.1;
        csrs = (read_and_set_bits csr_sstatus (bit_and off.0 0x2) e.2).1;
      }

  -- The loop, for at most so many exits.
  unfoldable pub run : ℕ → State A M → Outcome (Ending × State A M)
  run zero s = out_of_fuel
  run (suc fuel) s = elim (handle_exit (enter s)) [ resume t ↦ run fuel t | stop e t ↦ ok (e, t) ]
