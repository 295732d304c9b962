-- ===== src/Riscv/Run/Ends.antt =====
-- How the loop of riscv64_main (src/main.rs) ends.
use Prim.{Unit, tt}
use app_guestaspace.Base.{
  ℕ, zero, suc, ◌≡◌, refl, ap, ◌∙◌, Outcome, ok, Bool, true, false, ◌==◌, ◌||◌, if◌then◌else◌,
  ==_iff,
}
use mathlib.Core.Path.{subst}
use app_guestaspace.Base.Bits.{bit}
use app_guestaspace.AddrSpace.{AddrSpace}
use app_guestaspace.Riscv.Csrs.{get_value, csr_scause}
use app_guestaspace.Riscv.Run.{
  Machine, State, Step, resume, stop, Ending, legacy_shutdown, srst_shutdown, unhandled, a_reg,
  is_set_timer, handle_ecall, handle_exception, handle_exit, enter, run,
}
use app_guestaspace.Riscv.Run.Delegation.{served_exceptions, handle_exception-unhandled_iff}
use app_guestaspace.Riscv.Run.Preserve.{Reach, start, next}

module _ (A : AddrSpace) (M : Machine A) where
  -- The exit is an exception with this code.
  abbrev Excepts : State A M → ℕ → Type 0
  Excepts s n =
      (M.is_interrupt (get_value csr_scause s.csrs) ≡ false)
      × (M.code (get_value csr_scause s.csrs) ≡ n)

  -- What the guest did for an ending: it called one of the two shutdown extensions, or it came to an
  -- exception that is none of the four that a hypervisor has to serve.
  abbrev pub EndsAt : Ending → State A M → Type 0
  EndsAt legacy_shutdown s = Excepts s 10 × (a_reg 7 s.guest_regs ≡ 8)
  EndsAt srst_shutdown s = Excepts s 10 × (a_reg 7 s.guest_regs ≡ 0x53525354)
  EndsAt unhandled s = (n : ℕ) × Excepts s n × (bit n served_exceptions ≡ 0)

  module _ (s : State A M) where
    -- A step of `s` that stops does so at `s`, for a reason.
    unfoldable Stops : Step A M → Type 0
    Stops (resume t) = Unit
    Stops (stop e t) = (s ≡ t) × EndsAt e s

    by_if :
        (b : Bool) (x y : Step A M)
        → (b ≡ true → Stops x)
        → (b ≡ false → Stops y)
        → Stops (if b then x else y)
    by_if true x y p q = p refl
    by_if false x y p q = q refl

    ecall-Stops : Excepts s 10 → Stops (handle_ecall A M s)
    unfolding handle_ecall Stops
    ecall-Stops h =
        let a7 = a_reg 7 s.guest_regs in
        by_if (a7 == 8) _ _ (λ e. (refl, (h, (==_iff a7 8).0 e)))
          (λ _.
            by_if (a7 == 0x53525354) _ _ (λ e. (refl, (h, (==_iff a7 0x53525354).0 e)))
              (λ _.
                by_if (a7 == 1) _ _ (λ _. tt)
                  (λ _.
                    by_if (is_set_timer a7 (a_reg 6 s.guest_regs)) _ _ (λ _. tt)
                      (λ _. by_if (a7 == 2) _ _ (λ _. tt) (λ _. tt)))))

    exit-Stops : Stops (handle_exit A M s)
    unfolding handle_exit handle_exception Stops
    exit-Stops =
        let code = M.code (get_value csr_scause s.csrs) in
        by_if (M.is_interrupt (get_value csr_scause s.csrs)) _ _ (λ _. tt)
          (λ trap.
            by_if (code == 10) _ _ (λ e. ecall-Stops (trap, (==_iff code 10).0 e))
              (λ no_call.
                by_if (code == 20 || code == 21 || code == 23) _ _ (λ _. tt)
                  (λ no_fault. (
                    refl,
                    (
                      code,
                      (trap, refl),
                      (handle_exception-unhandled_iff A M s s.csrs).0.0
                          (rw (no_call, no_fault) refl),
                    ),
                  ))))

    handle_exit-Stops :
        (e : Ending) (t : State A M) → handle_exit A M s ≡ stop e t → (s ≡ t) × EndsAt e s
    unfolding Stops
    handle_exit-Stops e t h = subst Stops h exit-Stops

  abbrev ending : Ending → Outcome (Ending × State A M) → Ending
  ending d (ok (e, t)) = e
  ending d _ = d

  abbrev final : State A M → Outcome (Ending × State A M) → State A M
  final d (ok (e, t)) = t
  final d _ = d

  ends :
      (s0 s : State A M) (fuel : ℕ) (e : Ending) (t : State A M)
      → Reach A M s0 s
      → run A M fuel s ≡ ok (e, t)
      → (u : State A M) × Reach A M s0 u × (enter A M u ≡ t) × EndsAt e t
  unfolding run
  ends s0 s zero e t r h = absurd (cc)
  ends s0 s (suc fuel) e t r h =
      by_step (handle_exit A M (enter A M s)) (λ u. ends s0 u fuel e t) refl h
    where
      by_step :
          (x : Step A M)
          → ((u : State A M)
              → Reach A M s0 u
              → run A M fuel u ≡ ok (e, t)
              → (v : State A M) × Reach A M s0 v × (enter A M v ≡ t) × EndsAt e t)
          → handle_exit A M (enter A M s) ≡ x
          → elim x [ resume u ↦ run A M fuel u | stop e' u ↦ ok (e', u) ] ≡ ok (e, t)
          → (u : State A M) × Reach A M s0 u × (enter A M u ≡ t) × EndsAt e t
      by_step (resume u) later at goes = later u (next r at) goes
      by_step (stop e' u) later at done =
          let (same, why) = handle_exit-Stops (enter A M s) e' u at in
          let to_t : enter A M s ≡ t = same ∙ ap (final u) done in
          (
            s,
            r,
            to_t,
            subst (λ v. EndsAt e v) to_t
                (subst (λ d. EndsAt d (enter A M s)) (ap (ending e') done) why),
          )

  -- A run of the loop that ends has come to an exit that is an exception: a call of the extension
  -- that the ending names, the legacy shutdown or the system reset, or an exception that is none of
  -- the four that a hypervisor has to serve. It ends in the state of that exit.
  pub run-EndsAt :
      (fuel : ℕ) (s : State A M) (e : Ending) (t : State A M)
      → run A M fuel s ≡ ok (e, t)
      → (u : State A M) × Reach A M s u × (enter A M u ≡ t) × EndsAt e t
  run-EndsAt fuel s e t h = ends s s fuel e t start h
