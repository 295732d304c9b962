-- ===== src/Riscv/Run/Calls.antt =====
-- What the handlers of the RISC-V loop do with the registers of the guest.
use app_guestaspace.Base.{
  ℕ, ◌+◌, ◌≡◌, ◌≢◌, ◌⊎◌, refl, ◌∙◌, Bool, true, false, arith, ◌==◌, if◌then◌else◌,
}
use mathlib.Core.Path.{subst}
use app_guestaspace.Base.Bytes.{u64}
use app_guestaspace.AddrSpace.{AddrSpace}
use app_guestaspace.Riscv.Regs.{GprIndex, reg}
use app_guestaspace.Riscv.Regs.Laws.{reg-set_reg_ne}
use app_guestaspace.Riscv.Vcpu.{GuestCpuState}
use app_guestaspace.Riscv.Run.{
  Machine, State, Step, resume, stop, Ending, a_reg, with_reg, advance, handle_putchar,
  handle_getchar, handle_set_timer, forward, handle_ecall, is_set_timer, legacy_shutdown,
  srst_shutdown,
}

-- The registers after a call that returns to the instruction behind the ecall: nothing but `a0`
-- and `a1` may have changed; `i` is another register.
abbrev pub Returned : GprIndex → GuestCpuState → GuestCpuState → Type 0
Returned i r q =
    (q.sepc ≡ u64 (r.sepc + 4))
    × (reg q.gprs i ≡ reg r.gprs i)
    × (q.sstatus ≡ r.sstatus)
    × (q.hstatus ≡ r.hstatus)
    × (q.scounteren ≡ r.scounteren)

-- The same of all registers.
abbrev pub Returns : GuestCpuState → GuestCpuState → Type 0
Returns r q = (i : GprIndex) → GprIndex.a0 ≢ i → GprIndex.a1 ≢ i → Returned i r q

module _ (A : AddrSpace) (M : Machine A) (s : State A M) where
  -- What a step of the loop at an ecall may do.
  unfoldable Served : GprIndex → Step A M → Type 0
  Served i (resume t) =
      Returned i s.guest_regs t.guest_regs × (t.uspace ≡ s.uspace) × (t.guest ≡ s.guest)
  Served i (stop e t) = Unit

  module _ (i : GprIndex) (not_a0 : GprIndex.a0 ≢ i) (not_a1 : GprIndex.a1 ≢ i) where
    Returned-advance : Returned i s.guest_regs (advance s.guest_regs)
    unfolding advance
    Returned-advance = (refl, refl, refl, refl, refl)

    pub Returned-a0 :
        (v : ℕ) → Returned i s.guest_regs (advance (with_reg GprIndex.a0 v s.guest_regs))
    unfolding advance with_reg
    Returned-a0 v =
        (refl, reg-set_reg_ne GprIndex.a0 i v s.guest_regs.gprs not_a0, refl, refl, refl)

    pub Returned-with_reg :
        (v w : ℕ)
        → Returned i s.guest_regs
            (advance (with_reg GprIndex.a1 w (with_reg GprIndex.a0 v s.guest_regs)))
    unfolding advance with_reg
    Returned-with_reg v w = (
      refl,
      reg-set_reg_ne GprIndex.a1 i w _ not_a1
          ∙ reg-set_reg_ne GprIndex.a0 i v s.guest_regs.gprs not_a0,
      refl,
      refl,
      refl,
    )

    serve :
        (t : State A M)
        → Returned i s.guest_regs t.guest_regs × (t.uspace ≡ s.uspace) × (t.guest ≡ s.guest)
        → Served i (resume t)
    unfolding Served
    serve t h = h

    -- The end of the loop claims nothing.
    ends : (e : Ending) → Served i (stop e s)
    unfolding Served
    ends e = tt

    by_if : (b : Bool) (x y : Step A M) → Served i x → Served i y → Served i (if b then x else y)
    by_if true x y p q = p
    by_if false x y p q = q

    served : Served i (handle_ecall A M s)
    unfolding handle_ecall handle_putchar handle_set_timer handle_getchar forward
    served = by_if (a_reg 7 s.guest_regs == 8) _ _ (ends legacy_shutdown) (
        by_if (a_reg 7 s.guest_regs == 0x53525354) _ _ (ends srst_shutdown) (
          by_if (a_reg 7 s.guest_regs == 1) _ _
            (serve (handle_putchar A M s) (Returned-advance, refl, refl))
            (by_if (is_set_timer (a_reg 7 s.guest_regs) (a_reg 6 s.guest_regs)) _ _
              (serve (handle_set_timer A M s) (Returned-a0 0, refl, refl))
              (by_if (a_reg 7 s.guest_regs == 2) _ _
                (serve (handle_getchar A M s) (Returned-a0 _, refl, refl))
                (serve (forward A M s) (Returned-with_reg _ _, refl, refl))))))

    -- A call that the loop serves returns to the instruction behind the ecall, with every register
    -- but `a0` and `a1`, the status registers and the guest's memory mappings as they were.
    pub handle_ecall-frame :
        (t : State A M)
        → handle_ecall A M s ≡ resume t
        → Returned i s.guest_regs t.guest_regs × (t.uspace ≡ s.uspace) × (t.guest ≡ s.guest)
    unfolding Served
    handle_ecall-frame t h = subst (Served i) h served

  -- The loop ends at a call only for the legacy shutdown or the reset extension.
  pub handle_ecall-stops :
      (e : Ending) (t : State A M)
      → handle_ecall A M s ≡ stop e t
      → (a_reg 7 s.guest_regs ≡ 8) ⊎ (a_reg 7 s.guest_regs ≡ 0x53525354)
  unfolding handle_ecall
  handle_ecall-stops e t h = ground arith
