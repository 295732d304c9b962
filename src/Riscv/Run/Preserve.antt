-- ===== src/Riscv/Run/Preserve.antt =====
-- A predicate on states that each handler of the RISC-V loop preserves holds in every state that the
-- loop reaches.
use app_guestaspace.Base.{
  ℕ, zero, suc, ◌≡◌, ap, Outcome, ok, Bool, true, false, ◌==◌, if◌then◌else◌, none, some, Option,
}
use mathlib.Core.Path.{subst}
use app_guestaspace.AddrSpace.{AddrSpace}
use app_guestaspace.Riscv.Csrs.{get_value, csr_scause}
use app_guestaspace.Riscv.Run.{
  Machine, State, Step, resume, stop, Ending, legacy_shutdown, srst_shutdown, unhandled, a_reg,
  is_set_timer, handle_interrupt, handle_putchar, handle_getchar, handle_set_timer, forward,
  handle_ecall, handle_page_fault, handle_exception, handle_exit, enter, after_map, run,
}

module _ (A : AddrSpace) (M : Machine A) where
  -- The states before an entry of the guest, from a first one on.
  pub data Reach (s : State A M) : State A M → Type 0 where
    start : Reach s s
    next : {t u : State A M} → Reach s t → handle_exit A M (enter A M t) ≡ resume u → Reach s u

  module _ (Q : State A M → Type 0) where
    -- What each handler that resumes the guest does, from a state in which it is called.
    pub record IsKept : Type 0 where
      pub by_interrupt : (s : State A M) → Q s → Q (handle_interrupt A M s)
      pub by_putchar : (s : State A M) → Q s → Q (handle_putchar A M s)
      pub by_getchar : (s : State A M) → Q s → Q (handle_getchar A M s)
      pub by_set_timer : (s : State A M) → Q s → Q (handle_set_timer A M s)
      pub by_forward : (s : State A M) → Q s → Q (forward A M s)
      pub by_map : (s : State A M) (t : A.Space) → Q s → Q (record s { uspace = t })
      pub by_enter : (s : State A M) → Q s → Q (enter A M s)

    -- The state of a step, whether the loop goes on or not.
    unfoldable Holds : Step A M → Type 0
    Holds (resume t) = Q t
    Holds (stop e t) = Q t

    going_on : (t : State A M) → Q t → Holds (resume t)
    unfolding Holds
    going_on t h = h

    at_end : (e : Ending) (t : State A M) → Q t → Holds (stop e t)
    unfolding Holds
    at_end e t h = h

    by_if : (b : Bool) (x y : Step A M) → Holds x → Holds y → Holds (if b then x else y)
    by_if true x y p q = p
    by_if false x y p q = q

    module _ (K : IsKept) (s : State A M) (h : Q s) where
      ecall-Holds : Holds (handle_ecall A M s)
      unfolding handle_ecall
      ecall-Holds = by_if (a_reg 7 s.guest_regs == 8) _ _ (at_end legacy_shutdown s h) (
          by_if (a_reg 7 s.guest_regs == 0x53525354) _ _ (at_end srst_shutdown s h) (
            by_if (a_reg 7 s.guest_regs == 1) _ _ (going_on _ (K.by_putchar s h)) (
              by_if (is_set_timer (a_reg 7 s.guest_regs) (a_reg 6 s.guest_regs)) _ _
                (going_on _ (K.by_set_timer s h))
                (by_if (a_reg 7 s.guest_regs == 2) _ _ (going_on _ (K.by_getchar s h))
                  (going_on _ (K.by_forward s h))))))

      after_map-Holds : (o : Option A.Space) → Holds (resume (after_map A M s o))
      unfolding Holds
      after_map-Holds none = h
      after_map-Holds (some t) = K.by_map s t h

      page_fault-Holds : Holds (resume (handle_page_fault A M s))
      unfolding handle_page_fault
      page_fault-Holds = after_map-Holds _

      exit-Holds : Holds (handle_exit A M s)
      unfolding handle_exit handle_exception
      exit-Holds =
          by_if (M.is_interrupt (get_value csr_scause s.csrs)) _ _ (going_on _ (K.by_interrupt s h))
            (by_if (M.code (get_value csr_scause s.csrs) == 10) _ _ ecall-Holds
              (by_if _ _ _ page_fault-Holds (at_end unhandled s h)))

    pub Reach-Holds : IsKept → {s t : State A M} → Reach s t → Q s → Q t
    unfolding Holds
    Reach-Holds K start h = h
    Reach-Holds K (next {t = t} r e) h =
        subst Holds e (exit-Holds K (enter A M t) (K.by_enter t (Reach-Holds K r h)))

    abbrev final : State A M → Outcome (Ending × State A M) → State A M
    final d (ok (e, t)) = t
    final d _ = d

    -- The state in which the loop ends.
    pub run-Holds :
        IsKept → (fuel : ℕ) (s t : State A M) (e : Ending) → run A M fuel s ≡ ok (e, t) → Q s → Q t
    unfolding run Holds
    run-Holds K zero s t e ends h = absurd (cc)
    run-Holds K (suc fuel) s t e ends h =
        by_step (handle_exit A M (enter A M s)) (λ u q. run-Holds K fuel u t e q)
          (exit-Holds K (enter A M s) (K.by_enter s h)) ends
      where
        by_step :
            (x : Step A M)
            → ((u : State A M) → run A M fuel u ≡ ok (e, t) → Q u → Q t)
            → Holds x
            → elim x [ resume u ↦ run A M fuel u | stop e' u ↦ ok (e', u) ] ≡ ok (e, t)
            → Q t
        by_step (resume u) later q goes = later u goes q
        by_step (stop e' u) later q goes = subst Q (ap (final u) goes) q
