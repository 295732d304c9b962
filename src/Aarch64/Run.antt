-- ===== src/Aarch64/Run.antt =====
-- `aarch64_main` of src/main.rs, the loop over exits of the guest. The core that runs the guest is a
-- parameter; it reports asynchronous exceptions in `is_irq`.
pub mod Exits
use app_guestaspace.Base.{
  ℕ, zero, suc, ◌/◌, ◌*◌, ◌+◌, ◌%◌, ◌^◌, ◌<◌, ◌≡◌, ◌≢◌, refl, ◌∙◌, List, [], ◌∷◌, ◌++◌, Option,
  none, some, Outcome, ok, out_of_fuel, ◌==◌, if◌then◌else◌, bit_and, get_or, arith, false, true,
}
use app_guestaspace.Base.Bits.{bit_not, bit_and_low, bit_and_high}
use app_guestaspace.Base.Bytes.{u8}
use app_guestaspace.AddrSpace.{AddrSpace, guest_flags, in_range}
use app_guestaspace.Aarch64.Regs
use app_guestaspace.Aarch64.Regs.{GuestState, TrapState}

abbrev pub page_size_4k : ℕ
page_size_4k = 0x1000

abbrev pub vm_entry : ℕ
vm_entry = 0x4020_0000

abbrev pub stack_size : ℕ
stack_size = 0x8000

abbrev pub stack_base : ℕ
stack_base = 0x4100_0000

abbrev pub stack_top : ℕ
stack_top = stack_base + stack_size

pub record State (A : AddrSpace) (G : Type 0) : Type 0 where
  pub running : G
  pub guest : GuestState
  pub trap : TrapState
  pub uspace : A.Space
  pub console : List ℕ

pub data Ending : Type 0 where
  shutdown unhandled : Ending

pub data Step (A : AddrSpace) (G : Type 0) : Type 0 where
  resume : State A G → Step A G
  stop : Ending → State A G → Step A G

-- `ctx` as the loop is first entered.
unfoldable pub guest_context : GuestState
guest_context = record { gprs = Regs.default; sp = stack_top; elr = vm_entry; spsr = 0x3C0 }

-- `(esr >> 26) & 0x3F`
unfoldable pub exception_class : ℕ → ℕ
exception_class esr = bit_and (esr / 2 ^ 26) 0x3F

abbrev pub RunGuest : AddrSpace → Type 0 → Type 0
RunGuest A G = G → GuestState → A.Space → G × GuestState × TrapState

module _ (A : AddrSpace) (G : Type 0) where
  -- SVC from EL0; ELR points behind the instruction already.
  unfoldable pub handle_svc : State A G → Step A G
  handle_svc s =
      let func = get_or s.guest.gprs.values 8 0 in
      if func == 1
      then resume (record s { console = s.console ++ (u8 (get_or s.guest.gprs.values 0 0) ∷ []) })
      else if func == 2
      then stop shutdown s
      else resume s

  -- `let _ = …`: an error of the mapping is dropped.
  abbrev pub after_map : State A G → Option A.Space → State A G
  after_map s (some t) = record s { uspace = t }
  after_map s none = s

  -- Data abort from EL0.
  unfoldable pub handle_data_abort : State A G → State A G
  handle_data_abort s =
      let page_addr = bit_and s.trap.far (bit_not 64 0xFFF) in
      after_map s (A.map_linear page_addr page_addr page_size_4k (guest_flags A) s.uspace)

  -- One round of the loop behind `_run_guest`.
  unfoldable pub handle_exit : State A G → Step A G
  handle_exit s =
      if s.trap.is_irq == 0
      then (let ec = exception_class s.trap.esr in
          if ec == 0x15
          then handle_svc s
          else if ec == 0x24
          then resume (handle_data_abort s)
          else stop unhandled s)
      else resume s

module _ (A : AddrSpace) (G : Type 0) (run_guest : RunGuest A G) where
  -- `_run_guest(&mut ctx)`
  unfoldable pub enter : State A G → State A G
  enter s =
      let e = run_guest s.running s.guest s.uspace in
      record s { running = e.0; guest = e.1; trap = e.2 }

  -- The loop, for at most so many exits.
  unfoldable pub run : ℕ → State A G → Outcome (Ending × State A G)
  run zero s = out_of_fuel
  run (suc fuel) s = elim (handle_exit A G (enter s)) [
    | resume t ↦ run fuel t
    | stop e t ↦ ok (e, t)
  ]
