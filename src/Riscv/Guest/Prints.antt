-- ===== src/Riscv/Guest/Prints.antt =====
-- Guest and hypervisor together on RISC-V: one round of the loop for each exit of the guest.
use app_guestaspace.Base.{
  ℕ, zero, suc, ◌+◌, ◌≤◌, ◌<◌, ◌≡◌, ◌≢◌, ◌⊎◌, inl, inr, refl, ◌∙◌, sym, ap, true, false, none, some,
  ok, Bool, List, [], ◌∷◌, ◌++◌, arith, bit_and, ==_ne, if◌then◌else◌, ◌==◌,
}
use mathlib.Core.List.{append_assoc, append-nil}
use mathlib.Core.Path.{subst}
use app_guestaspace.Base.Bytes.{u8}
use app_guestaspace.AddrSpace.{AddrSpace, IsLawful, guest_flags}
use app_guestaspace.Payload.{Program, putchar, load, exit}
use app_guestaspace.Payload.Loads.{LoadsFrom, exits, exits_pos}
use app_guestaspace.Payload.Text.{transcript}
use app_guestaspace.Riscv.Csrs.{
  Csrs, get_value, read_and_set_bits, read_and_clear_bits, csr_sstatus, csr_scause, csr_stval,
  csr_htval, csr_hgatp, csr_hvip, csr_sie, supervisor_timer, virtual_supervisor_timer,
}
use app_guestaspace.AddrSpace.Passed.{map_linear-IsPassed}
use app_guestaspace.Riscv.Csrs.Masks.{read_and_set_bits-ne, read_and_clear_bits-ne}
use app_guestaspace.Riscv.Run.Calls.{Returns, Returned-a0, Returned-with_reg}
use app_guestaspace.Riscv.Vcpu.{GuestCpuState}
use app_guestaspace.Riscv.Run.{
  Machine, State, resume, stop, Ending, legacy_shutdown, srst_shutdown, unhandled, a_reg, advance,
  is_set_timer, handle_interrupt, handle_putchar, handle_set_timer, handle_getchar, forward,
  handle_ecall, handle_exception, handle_exit, page_size_4k, enter, run,
}
use app_guestaspace.Riscv.Run.Console.{
  entered, enter-csr, scause-enter, run-resume, run-stop, tick-uart, tick-guest, serves_print,
  serves_tick, serves_shutdown,
}
use app_guestaspace.Riscv.Run.Mmio.{faulted}
use app_guestaspace.Riscv.Guest.{
  pflash, Exit, AtCode, AtAside, AtPutchar, AtShutdown, AtFault, IsGuest,
}

module _ (A : AddrSpace) (M : Machine A) where
  abbrev hgatp : State A M → ℕ
  hgatp s = get_value csr_hgatp s.csrs

  -- The guest, the UART, the address space and hgatp are as they were, and the registers as after a
  -- call.
  abbrev Kept : State A M → State A M → Type 0
  Kept s u =
      (u.guest ≡ s.guest)
      × (u.uart ≡ s.uart)
      × (u.uspace ≡ s.uspace)
      × (hgatp u ≡ hgatp s)
      × Returns s.guest_regs u.guest_regs

  module _ (s : State A M) where
    tick-uspace : (handle_interrupt A M s).uspace ≡ s.uspace
    unfolding handle_interrupt
    tick-uspace = ground arith

    tick-guest_regs : (handle_interrupt A M s).guest_regs ≡ s.guest_regs
    unfolding handle_interrupt
    tick-guest_regs = ground arith

    tick-hgatp : hgatp (handle_interrupt A M s) ≡ hgatp s
    unfolding handle_interrupt
    tick-hgatp = by_test (M.code (get_value csr_scause s.csrs) == 5)
      where
        by_test :
            (b : Bool)
            → hgatp (
                if b
                then record s {
                  csrs =
                      (read_and_clear_bits csr_sie supervisor_timer
                        (read_and_set_bits csr_hvip virtual_supervisor_timer s.csrs).1).1;
                }
                else s)
              ≡ hgatp s
        by_test true =
            read_and_clear_bits-ne csr_sie supervisor_timer _ csr_hgatp (omega arith)
            ∙ read_and_set_bits-ne csr_hvip virtual_supervisor_timer s.csrs csr_hgatp (omega arith)
        by_test false = refl

    Kept-call :
        (timer getchar : Bool)
        → (u : State A M) × ((if timer
              then resume (handle_set_timer A M s)
              else if getchar
              then resume (handle_getchar A M s)
              else resume (forward A M s))
            ≡ resume u)
          × Kept s u
    unfolding handle_set_timer handle_getchar forward
    Kept-call true getchar = (
      handle_set_timer A M s,
      refl,
      (
        refl,
        refl,
        refl,
        read_and_set_bits-ne csr_sie supervisor_timer _ csr_hgatp (omega arith)
            ∙ read_and_clear_bits-ne csr_hvip virtual_supervisor_timer s.csrs csr_hgatp
                (omega arith),
        λ i p q. Returned-a0 A M s i p q 0,
      ),
    )
    Kept-call false true =
        (handle_getchar A M s, refl, (refl, refl, refl, refl, λ i p q. Returned-a0 A M s i p q _))
    Kept-call false false =
        (forward A M s, refl, (refl, refl, refl, refl, λ i p q. Returned-with_reg A M s i p q _ _))

    serves_call :
        M.is_interrupt (get_value csr_scause s.csrs) ≡ false
        → M.code (get_value csr_scause s.csrs) ≡ 10
        → a_reg 7 s.guest_regs ≢ 1
        → a_reg 7 s.guest_regs ≢ 8
        → a_reg 7 s.guest_regs ≢ 0x53525354
        → (u : State A M) × (handle_exit A M s ≡ resume u) × Kept s u
    unfolding handle_exit handle_exception handle_ecall
    serves_call i e not_print not_legacy not_srst =
        rw (i, e, ==_ne _ _ not_print, ==_ne _ _ not_legacy, ==_ne _ _ not_srst)
          (Kept-call (is_set_timer (a_reg 7 s.guest_regs) (a_reg 6 s.guest_regs))
            (a_reg 7 s.guest_regs == 2))

    serves_srst :
        M.is_interrupt (get_value csr_scause s.csrs) ≡ false
        → M.code (get_value csr_scause s.csrs) ≡ 10
        → a_reg 7 s.guest_regs ≡ 0x53525354
        → handle_exit A M s ≡ stop srst_shutdown s
    unfolding handle_exit handle_exception handle_ecall
    serves_srst i e k = rw (i, e, k)

  -- The registers of the hart when the guest is entered.
  abbrev masked : State A M → Csrs
  masked s = (read_and_clear_bits csr_sstatus 0x2 s.csrs).1

  masked-hgatp : (s : State A M) → get_value csr_hgatp (masked s) ≡ hgatp s
  masked-hgatp s = read_and_clear_bits-ne csr_sstatus 0x2 s.csrs csr_hgatp (omega arith)

  -- A round of the loop that goes on, with this text on the UART, this address space, and registers of
  -- which `Q` holds.
  abbrev Round : State A M → List ℕ → A.Space → (GuestCpuState → Type 0) → Type 0
  Round s text n Q =
      (u : State A M) × (handle_exit A M (enter A M s) ≡ resume u)
      × (u.guest ≡ (entered A M s).0)
      × (u.uart ≡ text)
      × (u.uspace ≡ n)
      × (hgatp u ≡ hgatp (enter A M s))
      × Q u.guest_regs

  -- What the guest does at an exit, as the loop finds it.
  module _ (s : State A M) where
    enters-code :
        (code : ℕ)
        → AtCode A M code (entered A M s)
        → (M.is_interrupt (get_value csr_scause (enter A M s).csrs) ≡ false)
          × (M.code (get_value csr_scause (enter A M s).csrs) ≡ code)
    enters-code code e =
        (ap M.is_interrupt (scause-enter A M s) ∙ e.0, ap M.code (scause-enter A M s) ∙ e.1)

    aside-Round :
        (Q : GuestCpuState → Type 0) → AtAside A M Q (entered A M s) → Round s s.uart s.uspace Q
    unfolding enter
    aside-Round Q (inl (i, q)) = (
      handle_interrupt A M (enter A M s),
      serves_tick A M (enter A M s) (ap M.is_interrupt (scause-enter A M s) ∙ i),
      tick-guest A M (enter A M s),
      tick-uart A M (enter A M s),
      tick-uspace (enter A M s),
      tick-hgatp (enter A M s),
      subst Q (sym (tick-guest_regs (enter A M s))) q,
    )
    aside-Round Q (inr c) =
        let now = enters-code 10 c.0 in
        let (u, served, kept) = serves_call (enter A M s) now.0 now.1 c.1 c.2 c.3 in
        (u, served, kept.0, kept.1, kept.2, kept.3, c.4 u.guest_regs kept.4)

    putchar-Round :
        (Q : GuestCpuState → Type 0) (c : ℕ)
        → c < 256
        → AtPutchar A M Q c (entered A M s)
        → Round s (s.uart ++ (c ∷ [])) s.uspace Q
    unfolding enter handle_putchar advance
    putchar-Round Q c byte e =
        let now = enters-code 10 e.0 in
        (
          handle_putchar A M (enter A M s),
          serves_print A M (enter A M s) c now.0 now.1 e.1,
          refl,
          ap (λ b. s.uart ++ (b ∷ [])) (ap u8 e.2 ∙ omega arith),
          refl,
          refl,
          e.3,
        )

    shutdown_round :
        AtShutdown A M (entered A M s)
        → (e : Ending) × (handle_exit A M (enter A M s) ≡ stop e (enter A M s)) × (e ≢ unhandled)
    unfolding enter
    shutdown_round (c, inl k) =
        let now = enters-code 10 c in
        (legacy_shutdown, serves_shutdown A M (enter A M s) now.0 now.1 k, λ p. cc)
    shutdown_round (c, inr k) =
        let now = enters-code 10 c in
        (srst_shutdown, serves_srst (enter A M s) now.0 now.1 k, λ p. cc)

    fault-Round :
        (n1 : A.Space)
        → A.map_linear pflash pflash page_size_4k (guest_flags A) s.uspace ≡ some n1
        → AtFault A M pflash (entered A M s)
        → Round s s.uart n1 (λ r. r ≡ (entered A M s).1)
    unfolding enter
    fault-Round n1 maps e =
        let now = enters-code 21 e.0 in
        (
          record (enter A M s) { uspace = n1 },
          faulted A M (enter A M s) pflash
                (rw
                  (enter-csr A M s csr_htval (omega arith), enter-csr A M s csr_stval (omega arith))
                  e.1)
                (omega arith) now.0 (inr (inl now.1))
              ∙ rw maps,
          refl,
          refl,
          refl,
          refl,
          refl,
        )

  -- Two guests that run to the same exit.
  enters_alike :
      (s : State A M) (g : M.Guest) (r : GuestCpuState)
      → M.run_guest s.guest s.guest_regs (masked s) s.uspace ≡ M.run_guest g r (masked s) s.uspace
      → enter A M s ≡ enter A M (record s { guest = g; guest_regs = r })
  unfolding enter
  enters_alike s g r same =
      ap
        (λ (e : Exit A M). record s {
          guest = e.0;
          guest_regs = e.1;
          csrs =
              (read_and_set_bits csr_sstatus
                (bit_and (read_and_clear_bits csr_sstatus 0x2 s.csrs).0 0x2) e.2).1;
        })
        same

  run-enter :
      (fuel : ℕ) (s u : State A M) → enter A M s ≡ enter A M u → run A M fuel s ≡ run A M fuel u
  unfolding run
  run-enter zero s u h = refl
  run-enter (suc fuel) s u h =
      ap (λ x. elim (handle_exit A M x) [ resume t ↦ run A M fuel t | stop e t ↦ ok (e, t) ]) h

  module _ (L : IsLawful A) (va word : ℕ) (image : List ℕ) (first : M.Guest) (asides0 : ℕ)
      (start : Program) (P : M.Guest → GuestCpuState → ℕ → A.Space → ℕ → Program → Type 0)
      (G : IsGuest A M va word image first asides0 start P) where
    -- The loop ends by a shutdown, and `text` has been added to the UART.
    abbrev pub Prints : ℕ → State A M → List ℕ → Type 0
    Prints fuel s text =
        (e : Ending) × (t : State A M) × (run A M fuel s ≡ ok (e, t))
        × (e ≢ unhandled)
        × (t.uart ≡ s.uart ++ text)

    -- The guest, entered from this state, is about to do `p`.
    abbrev pub At : State A M → ℕ → Program → Type 0
    At s asides p = P s.guest s.guest_regs (hgatp s) s.uspace asides p

    -- The page of pflash is passed through, or can be.
    abbrev pub Ready : A.Space → Type 0
    Ready n =
        (A.query n pflash ≡ some pflash)
        ⊎ ((n1 : A.Space) × (A.query n pflash ≡ none)
            × (A.map_linear pflash pflash page_size_4k (guest_flags A) n ≡ some n1))

    -- What the guest waits for, in the registers that the hart is entered with.
    At-masked :
        (s : State A M) (asides : ℕ) (p : Program)
        → At s asides p
        → P s.guest s.guest_regs (get_value csr_hgatp (masked s)) s.uspace asides p
    At-masked s asides p at =
        subst (λ h. P s.guest s.guest_regs h s.uspace asides p) (sym (masked-hgatp s)) at

    hgatp-enter : (s : State A M) → hgatp (enter A M s) ≡ get_value csr_hgatp (masked s)
    hgatp-enter s =
        enter-csr A M s csr_hgatp (omega arith)
        ∙ G.keeps_hgatp s.guest s.guest_regs (masked s) s.uspace

    -- A round that goes on, and what is printed from its end on.
    goes_on :
        (fuel : ℕ) (s : State A M) (front text : List ℕ) (n : A.Space) (asides : ℕ) (p : Program)
        → Round s
            (s.uart ++ front)
            n
            (λ q. P (entered A M s).0 q (get_value csr_hgatp (masked s)) n asides p)
        → ((u : State A M) → At u asides p → u.uspace ≡ n → Prints fuel u text)
        → Prints (suc fuel) s (front ++ text)
    goes_on fuel s front text n asides p (u, served, guest, shown, space, root, at) next =
        let at1 : P u.guest u.guest_regs (get_value csr_hgatp (masked s)) n asides p =
          subst (λ g. P g u.guest_regs (get_value csr_hgatp (masked s)) n asides p) (sym guest)
            at in
        let at2 : P u.guest u.guest_regs (hgatp u) n asides p =
          subst (λ h. P u.guest u.guest_regs h n asides p) (sym (root ∙ hgatp-enter s)) at1 in
        let at3 : At u asides p =
          subst (λ m. P u.guest u.guest_regs (hgatp u) m asides p) (sym space) at2 in
        let (e, t, ends, fine, more) = next u at3 space in
        (
          e,
          t,
          run-resume A M fuel s u served ∙ ends,
          fine,
          more ∙ ap (λ l. l ++ text) shown ∙ append_assoc s.uart front text,
        )

    quietly :
        (fuel : ℕ) (s : State A M) (text : List ℕ) (n : A.Space) (asides : ℕ) (p : Program)
        → Round s s.uart n (λ q. P (entered A M s).0 q (get_value csr_hgatp (masked s)) n asides p)
        → ((u : State A M) → At u asides p → u.uspace ≡ n → Prints fuel u text)
        → Prints (suc fuel) s text
    quietly fuel s text n asides p (u, served, guest, shown, space, root, rest) next =
        goes_on fuel s [] text n asides p
          (u, served, guest, shown ∙ sym (append-nil s.uart), space, root, rest) next

    after_aside :
        (fuel : ℕ) (p : Program) (asides : ℕ) (s : State A M) (text : List ℕ)
        → Ready s.uspace
        → ((m : ℕ) × (asides ≡ suc m)
            × AtAside A M
                (λ q. P (entered A M s).0 q (get_value csr_hgatp (masked s)) s.uspace m p)
                (entered A M s))
        → ((u : State A M) (m : ℕ)
            → asides ≡ suc m
            → At u m p
            → Ready u.uspace
            → Prints fuel u text)
        → Prints (suc fuel) s text
    after_aside fuel p asides s text ready (m, more, aside) next =
        quietly fuel s text s.uspace m p (aside-Round s _ aside)
          (λ u at space. next u m more at (subst Ready (sym space) ready))

    serves_load :
        (fuel asides : ℕ) (k : ℕ → Program) (s : State A M) (text : List ℕ)
        → At s asides (load va k)
        → A.query s.uspace pflash ≡ some pflash
        → ((u : State A M) → At u asides (k word) → u.uspace ≡ s.uspace → Prints fuel u text)
        → Prints fuel s text
    serves_load fuel asides k s text at mapped next =
        let (g, r, at', same) =
          G.on_mapped s.guest asides k s.guest_regs (masked s) s.uspace
            (At-masked s asides (load va k) at) mapped in
        let u : State A M = record s { guest = g; guest_regs = r } in
        let (e, t, ends, fine, shown) =
          next u (subst (λ h. P g r h s.uspace asides (k word)) (masked-hgatp s) at') refl in
        (e, t, run-enter fuel s u (enters_alike s g r same) ∙ ends, fine, shown)

    -- A guest whose program prints bytes and loads from pflash only, with the page of pflash passed
    -- through already or not mapped and free to be, runs to its shutdown within one round of the loop
    -- for each of its other exits and for each exit that its program counts; the UART has then grown
    -- by just what the program prints when its loads read the device.
    pub run-Prints :
        (fuel : ℕ) (p : Program) (asides : ℕ) (s : State A M)
        → LoadsFrom va word p
        → At s asides p
        → Ready s.uspace
        → asides + exits word p ≤ fuel
        → Prints fuel s (transcript (λ a. word) p)
    unfolding enter
    run-Prints zero p asides s loads at ready enough = absurd (omega (arith, exits_pos word p))
    run-Prints (suc fuel) (putchar c k) asides s loads at ready enough =
        elim (G.on_putchar s.guest asides c k s.guest_regs (masked s) s.uspace
          (At-masked s asides (putchar c k) at)) [
            | inl aside ↦
                after_aside fuel (putchar c k) asides s _ ready aside (λ u m less at' ready'.
                  run-Prints fuel (putchar c k) m u loads at' ready' (omega arith))
            | inr call ↦
                goes_on fuel s (c ∷ []) _ s.uspace asides k (putchar-Round s _ c loads.0 call)
                  (λ u at' space.
                    run-Prints fuel k asides u loads.1 at' (subst Ready (sym space) ready)
                      (omega arith))
          ]
    run-Prints (suc fuel) (load a k) asides s loads at (inl mapped) enough =
        serves_load (suc fuel) asides k s _ (subst (λ b. At s asides (load b k)) loads.0 at) mapped
          (λ u at' space.
            run-Prints (suc fuel) (k word) asides u loads.1 at'
              (subst Ready (sym space) (inl mapped)) (omega arith))
    run-Prints (suc fuel) (load a k) asides s loads at (inr (n1, free, maps)) enough =
        elim (G.on_unmapped s.guest asides k s.guest_regs (masked s) s.uspace
          (At-masked s asides (load va k) (subst (λ b. At s asides (load b k)) loads.0 at)) free) [
            | inl aside ↦
                after_aside fuel (load va k) asides s _ (inr (n1, free, maps)) aside
                  (λ u m less at' ready'.
                    run-Prints fuel (load va k) m u (refl, loads.1) at' ready' (omega arith))
            | inr (fault, again) ↦
                let (u', served, guest, shown, space', root, regs) = fault-Round s n1 maps fault in
                quietly fuel s _ n1 asides (load va k)
                  (
                    u',
                    served,
                    guest,
                    shown,
                    space',
                    root,
                    subst
                        (λ q.
                          P (entered A M s).0 q (get_value csr_hgatp (masked s)) n1 asides
                            (load va k))
                        (sym regs) (again n1 (map_linear-IsPassed A L pflash s.uspace n1 maps)),
                  )
                  (λ u at' space.
                    let mapped : A.query n1 pflash ≡ some pflash =
                      L.linear_inside pflash pflash page_size_4k (guest_flags A) s.uspace n1 pflash
                        maps refl in
                    serves_load fuel asides k u _ at'
                      (subst (λ n. A.query n pflash ≡ some pflash) (sym space) mapped)
                      (λ v at'' same.
                        run-Prints fuel (k word) asides v loads.1 at''
                          (subst Ready (sym (same ∙ space)) (inl mapped)) (omega arith)))
          ]
    run-Prints (suc fuel) exit asides s loads at ready enough =
        elim (G.on_exit s.guest asides s.guest_regs (masked s) s.uspace
          (At-masked s asides exit at)) [
            | inl aside ↦
                after_aside fuel exit asides s _ ready aside
                  (λ u m less at' ready'. run-Prints fuel exit m u loads at' ready' (omega arith))
            | inr down ↦
                let (e, served, fine) = shutdown_round s down in
                (
                  e,
                  enter A M s,
                  run-stop A M fuel e s (enter A M s) served,
                  fine,
                  sym (append-nil s.uart),
                )
          ]
