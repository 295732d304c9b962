-- ===== src/Riscv/Run/Console.antt =====
-- A guest that prints by the legacy SBI call, with timer interrupts in between, and then shuts down:
-- what the whole RISC-V loop makes of it.
use app_guestaspace.Base.{
  ℕ, zero, suc, ◌≤◌, ◌≡◌, ◌≢◌, ap, sym, ◌∙◌, true, false, List, [], ◌∷◌, ◌++◌, length, ok, arith,
}
use mathlib.Core.List.{append_assoc, append-nil}
use app_guestaspace.Base.Bytes.{u8}
use app_guestaspace.AddrSpace.{AddrSpace}
use app_guestaspace.Riscv.Csrs.{Csrs, get_value, csr_scause, csr_sstatus, read_and_clear_bits}
use app_guestaspace.Riscv.Csrs.Masks.{read_and_set_bits-ne}
use mathlib.Core.Path.{subst}
use app_guestaspace.Riscv.Vcpu.{GuestCpuState}
use app_guestaspace.Riscv.Run.{
  Machine, State, resume, stop, Ending, legacy_shutdown, a_reg, handle_interrupt, handle_putchar,
  handle_ecall, handle_exception, handle_exit, enter, run,
}

-- What the guest does next: a character printed, or an interrupt that stops it.
pub data Event : Type 0 where
  print : ℕ → Event
  tick : Event

abbrev pub printed : List Event → List ℕ
printed [] = []
printed (Event.print c ∷ es) = u8 c ∷ printed es
printed (Event.tick ∷ es) = printed es

module _ (A : AddrSpace) (M : Machine A) where
  -- The guest stops at an ecall with this extension in `a7` and argument in `a0`.
  abbrev pub AtCall : ℕ → ℕ → M.Guest × GuestCpuState × Csrs → Type 0
  AtCall a7 a0 e =
      (M.is_interrupt (get_value csr_scause e.2) ≡ false)
      × (M.code (get_value csr_scause e.2) ≡ 10)
      × (a_reg 7 e.1 ≡ a7)
      × (a_reg 0 e.1 ≡ a0)

  -- A guest `g` for which `P g es` holds goes on with the events `es` and then asks for the shutdown.
  pub record IsScript (P : M.Guest → List Event → Type 0) : Type 0 where
    pub prints :
        (g : M.Guest) (c : ℕ) (es : List Event) (r : GuestCpuState) (f : Csrs) (n : A.Space)
        → P g (Event.print c ∷ es)
        → P (M.run_guest g r f n).0 es × AtCall 1 c (M.run_guest g r f n)
    pub ticks :
        (g : M.Guest) (es : List Event) (r : GuestCpuState) (f : Csrs) (n : A.Space)
        → P g (Event.tick ∷ es)
        → P (M.run_guest g r f n).0 es
          × (M.is_interrupt (get_value csr_scause (M.run_guest g r f n).2) ≡ true)
    pub ends :
        (g : M.Guest) (r : GuestCpuState) (f : Csrs) (n : A.Space)
        → P g []
        → AtCall 8 0 (M.run_guest g r f n)

  module _ (s : State A M) where
    pub serves_print :
        (c : ℕ)
        → M.is_interrupt (get_value csr_scause s.csrs) ≡ false
        → M.code (get_value csr_scause s.csrs) ≡ 10
        → a_reg 7 s.guest_regs ≡ 1
        → handle_exit A M s ≡ resume (handle_putchar A M s)
    unfolding handle_exit handle_exception handle_ecall
    serves_print c i e k = rw (i, e, k)

    pub serves_tick :
        M.is_interrupt (get_value csr_scause s.csrs) ≡ true
        → handle_exit A M s ≡ resume (handle_interrupt A M s)
    unfolding handle_exit
    serves_tick i = rw i

    pub serves_shutdown :
        M.is_interrupt (get_value csr_scause s.csrs) ≡ false
        → M.code (get_value csr_scause s.csrs) ≡ 10
        → a_reg 7 s.guest_regs ≡ 8
        → handle_exit A M s ≡ stop legacy_shutdown s
    unfolding handle_exit handle_exception handle_ecall
    serves_shutdown i e k = rw (i, e, k)

    pub tick-uart : (handle_interrupt A M s).uart ≡ s.uart
    unfolding handle_interrupt
    tick-uart = ground arith

    pub tick-guest : (handle_interrupt A M s).guest ≡ s.guest
    unfolding handle_interrupt
    tick-guest = ground arith

  -- The hart as the loop enters it.
  abbrev pub entered : State A M → M.Guest × GuestCpuState × Csrs
  entered s =
      M.run_guest s.guest s.guest_regs (read_and_clear_bits csr_sstatus 0x2 s.csrs).1 s.uspace

  -- Behind the guest's exit only sstatus is written.
  pub enter-csr :
      (s : State A M) (csr : ℕ)
      → csr ≢ csr_sstatus
      → get_value csr (enter A M s).csrs ≡ get_value csr (entered s).2
  unfolding enter
  enter-csr s csr h = read_and_set_bits-ne csr_sstatus _ _ csr h

  pub scause-enter :
      (s : State A M) → get_value csr_scause (enter A M s).csrs ≡ get_value csr_scause (entered s).2
  scause-enter s = enter-csr s csr_scause (omega arith)

  pub run-resume :
      (fuel : ℕ) (s t : State A M)
      → handle_exit A M (enter A M s) ≡ resume t
      → run A M (suc fuel) s ≡ run A M fuel t
  unfolding run
  run-resume fuel s t h = ap (λ x. elim x [ resume u ↦ run A M fuel u | stop e u ↦ ok (e, u) ]) h

  pub run-stop :
      (fuel : ℕ) (e : Ending) (s t : State A M)
      → handle_exit A M (enter A M s) ≡ stop e t
      → run A M (suc fuel) s ≡ ok (e, t)
  unfolding run
  run-stop fuel e s t h = ap (λ x. elim x [ resume u ↦ run A M fuel u | stop e u ↦ ok (e, u) ]) h

  module _ (P : M.Guest → List Event → Type 0) (K : IsScript P) where
    -- One round of the loop for each event.
    print_step :
        (s : State A M) (c : ℕ) (es : List Event)
        → P s.guest (Event.print c ∷ es)
        → (u : State A M) × (handle_exit A M (enter A M s) ≡ resume u)
          × P u.guest es
          × (u.uart ≡ s.uart ++ (u8 c ∷ []))
    unfolding enter handle_putchar
    print_step s c es p = (
      handle_putchar A M (enter A M s),
      serves_print (enter A M s) c (ap M.is_interrupt (scause-enter s) ∙ now.1.0)
          (ap M.code (scause-enter s) ∙ now.1.1) now.1.2,
      now.0,
      ap (λ a. s.uart ++ (u8 a ∷ [])) now.1.3,
    )
      where
        now : P (entered s).0 es × AtCall 1 c (entered s)
        now = K.prints s.guest c es s.guest_regs _ s.uspace p

    tick_step :
        (s : State A M) (es : List Event)
        → P s.guest (Event.tick ∷ es)
        → (u : State A M) × (handle_exit A M (enter A M s) ≡ resume u)
          × P u.guest es
          × (u.uart ≡ s.uart)
    unfolding enter
    tick_step s es p = (
      handle_interrupt A M (enter A M s),
      serves_tick (enter A M s) (ap M.is_interrupt (scause-enter s) ∙ now.1),
      subst (λ g. P g es) (sym (tick-guest (enter A M s))) now.0,
      tick-uart (enter A M s),
    )
      where
        now : P (entered s).0 es × (M.is_interrupt (get_value csr_scause (entered s).2) ≡ true)
        now = K.ticks s.guest es s.guest_regs _ s.uspace p

    end_step :
        (s : State A M)
        → P s.guest []
        → handle_exit A M (enter A M s) ≡ stop legacy_shutdown (enter A M s)
    unfolding enter
    end_step s p =
        serves_shutdown (enter A M s) (ap M.is_interrupt (scause-enter s) ∙ now.0)
          (ap M.code (scause-enter s) ∙ now.1) now.2
      where
        now : AtCall 8 0 (entered s)
        now = K.ends s.guest s.guest_regs _ s.uspace p

    -- A guest that prints characters, whatever timer interrupts stop it in between, and then asks
    -- for the shutdown has all its characters, as bytes, on the UART in their order, and the loop
    -- ends by the legacy shutdown, in one round for each event and one more.
    pub run-prints :
        (es : List Event) (s : State A M) (fuel : ℕ)
        → P s.guest es
        → suc (length es) ≤ fuel
        → (t : State A M) × (run A M fuel s ≡ ok (legacy_shutdown, t))
          × (t.uart ≡ s.uart ++ printed es)
    unfolding enter
    run-prints es s zero p h = absurd (omega arith)
    run-prints [] s (suc fuel) p h = (
      enter A M s,
      run-stop fuel legacy_shutdown s (enter A M s) (end_step s p),
      sym (append-nil s.uart),
    )
    run-prints (Event.print c ∷ es) s (suc fuel) p h =
        let (u, served, q, shown) = print_step s c es p in
        let (t, done, text) = run-prints es u fuel q (omega arith) in
        (
          t,
          run-resume fuel s u served ∙ done,
          text ∙ ap (λ l. l ++ printed es) shown ∙ append_assoc s.uart (u8 c ∷ []) (printed es),
        )
    run-prints (Event.tick ∷ es) s (suc fuel) p h =
        let (u, served, q, shown) = tick_step s es p in
        let (t, done, text) = run-prints es u fuel q (omega arith) in
        (t, run-resume fuel s u served ∙ done, text ∙ ap (λ l. l ++ printed es) shown)
