-- ===== src/Riscv/Run/Delegation.antt =====
-- Which exceptions reach the loop, and which of them it serves.
use app_guestaspace.Base.{
  ℕ, ◌≡◌, refl, ap, true, false, not, ◌↔◌, ◌∙◌, bit_and, arith, ◌==◌, ◌||◌, bit_or, if◌then◌else◌,
  Bool,
}
use Prim.Native.Nat.{max}
use mathlib.Core.Path.{ap₂}
use app_guestaspace.Base.Bits.{bit, bit-bit_or}
use app_guestaspace.AddrSpace.{AddrSpace}
use app_guestaspace.Riscv.Csrs.{
  get_value, csr_scause, csr_hedeleg, Csrs, env_call_from_vs, inst_guest_page_fault,
  load_guest_page_fault, store_guest_page_fault,
}
use app_guestaspace.Riscv.Csrs.Masks.{bit-pow}
use app_guestaspace.Riscv.Setup.{setup_csrs, delegated_exceptions}
use app_guestaspace.Riscv.Setup.Traps.{delegation}
use app_guestaspace.Riscv.Run.{
  Machine, State, Step, stop, unhandled, handle_ecall, handle_exception,
}

-- The exceptions that only a hypervisor can serve: calls of the guest, and guest page faults.
abbrev pub served_exceptions : ℕ
served_exceptions =
    bit_or (bit_or (bit_or env_call_from_vs inst_guest_page_fault) load_guest_page_fault)
      store_guest_page_fault

is_served : ℕ → Bool
is_served code = code == 10 || (code == 20 || code == 21 || code == 23)

bit-served_exceptions : (code : ℕ) → bit code served_exceptions ≡ (if is_served code then 1 else 0)
unfolding is_served
bit-served_exceptions code =
    bit-bit_or code _ store_guest_page_fault
    ∙ ap₂ max
        (bit-bit_or code _ load_guest_page_fault
          ∙ ap₂ max
              (bit-bit_or code env_call_from_vs inst_guest_page_fault
                ∙ ap₂ max (bit-pow 10 code) (bit-pow 20 code))
              (bit-pow 21 code))
        (bit-pow 23 code)
    ∙ ground arith

module _ (A : AddrSpace) (M : Machine A) (s : State A M) where
  -- The step gives the exception up.
  abbrev is_given_up : Step A M → Bool
  is_given_up (stop unhandled t) = true
  is_given_up _ = false

  serves_ecall : is_given_up (handle_ecall A M s) ≡ false
  unfolding handle_ecall
  serves_ecall = ground arith

  given_up :
      is_given_up (handle_exception A M s) ≡ not (is_served (M.code (get_value csr_scause s.csrs)))
  unfolding handle_exception is_served
  given_up = ground (arith, serves_ecall)

  gives_up :
      is_served (M.code (get_value csr_scause s.csrs)) ≡ false
      → handle_exception A M s ≡ stop unhandled s
  unfolding handle_exception is_served
  gives_up h = ground arith

  -- The loop gives up on an exception exactly if it is none of the four that only a hypervisor can
  -- serve, and none of those four is among the exceptions that the setup delegates to the guest.
  pub handle_exception-unhandled_iff :
      (c : Csrs)
      → ((handle_exception A M s ≡ stop unhandled s)
          ↔ (bit (M.code (get_value csr_scause s.csrs)) served_exceptions ≡ 0))
        × (bit_and (get_value csr_hedeleg (setup_csrs c)) served_exceptions ≡ 0)
  unfolding delegated_exceptions
  handle_exception-unhandled_iff c = (
    (
      λ h. not_served (ap is_given_up h),
      λ h. gives_up (ground (arith, bit-served_exceptions (M.code (get_value csr_scause s.csrs)))),
    ),
    rw (delegation c) refl,
  )
    where
      not_served :
          is_given_up (handle_exception A M s) ≡ true
          → bit (M.code (get_value csr_scause s.csrs)) served_exceptions ≡ 0
      not_served h =
          ground (arith, given_up, bit-served_exceptions (M.code (get_value csr_scause s.csrs)))
