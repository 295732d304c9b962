-- ===== src/X86/Run/Panics.antt =====
-- When the x86_64 loop panics.
use app_guestaspace.Base.{
  ℕ, zero, suc, ◌+◌, ◌≤◌, ◌<◌, ◌^◌, ◌≡◌, ◌≢◌, ◌⊎◌, inl, inr, ◌∙◌, sym, ap, none, ok, panic, Outcome,
  ◌>>=◌, arith, ◌==◌, le→leb, Bool, true, false, Option-cases, ==_ne, slice, if◌then◌else◌, ◌%◌,
}
use native.Mathlib.Decide.{ℕ_discrete}
use app_guestaspace.Base.Bytes.{from_le_bytes, u64}
use app_guestaspace.AddrSpace.{AddrSpace, IsLawful, guest_flags}
use app_guestaspace.X86.Vmcb.{
  Vmcb, read_field, save_rip, save_rax, ctrl_exit_code, exit_code, exit_info2, vmexit_vmmcall,
  vmexit_npf,
}
use app_guestaspace.X86.Vmcb.Fields.{IsVmcb, put-IsVmcb}
use app_guestaspace.X86.Svm.{SvmGuestGprs}
use app_guestaspace.X86.Run.{
  State, Step, resume, stop, Ending, shutdown, unexpected, handle_exit, page_size_4k, Vmrun, enter,
  run,
}
use app_guestaspace.X86.Run.Exits.{handle_exit-vmmcall}
use app_guestaspace.X86.Run.Faults.{page_of, handle_exit-npf_panic, resumes}

-- A field inside of a control block is read.
read_field_value :
    (n off : ℕ) (vm : Vmcb) → IsVmcb vm → off + n ≤ 4096 → (v : ℕ) × (read_field n off vm ≡ ok v)
unfolding read_field
read_field_value n off vm valid fits =
    (from_le_bytes (slice off n vm.data_bytes), rw (valid, le→leb _ _ fits))

module _ (A : AddrSpace) (G : Type 0) where
  -- The guest stopped at a nested page fault whose page cannot be mapped.
  abbrev pub AtUnmappable : State A G → Type 0
  AtUnmappable s =
      (fault : ℕ) × (exit_code s.vmcb ≡ ok vmexit_npf)
      × (exit_info2 s.vmcb ≡ ok fault)
      × (A.map_alloc (page_of fault) page_size_4k (guest_flags A) true s.npt ≡ none)

  -- The outcomes of an exit.
  abbrev Outcomes : State A G → Type 0
  Outcomes s =
      ((t : State A G) × (handle_exit A G s ≡ ok (resume t)) × IsVmcb t.vmcb)
      ⊎ ((e : Ending) × (handle_exit A G s ≡ ok (stop e s)))
      ⊎ ((handle_exit A G s ≡ panic) × AtUnmappable s)

  module _ (s : State A G) (valid : IsVmcb s.vmcb) where
    by_tests :
        (b c : Bool) (x y : State A G)
        → IsVmcb x.vmcb
        → IsVmcb y.vmcb
        → handle_exit A G s
          ≡ (if b then ok (stop shutdown s) else if c then ok (resume x) else ok (resume y))
        → Outcomes s
    by_tests true c x y p q h = inr (inl (shutdown, h))
    by_tests false true x y p q h = inl (x, h, p)
    by_tests false false x y p q h = inl (y, h, q)

    at_vmmcall : exit_code s.vmcb ≡ ok vmexit_vmmcall → Outcomes s
    at_vmmcall called =
        let (rip, rip_value) = read_field_value 8 save_rip s.vmcb valid (omega arith) in
        let (rax, rax_value) = read_field_value 8 save_rax s.vmcb valid (omega arith) in
        by_tests (rax == 0x84000008) (rax % 256 == 1) _ _
          (put-IsVmcb 8 save_rip (u64 (rip + 3)) s.vmcb valid (omega arith))
          (put-IsVmcb 8 save_rip (u64 (rip + 3)) s.vmcb valid (omega arith))
          (handle_exit-vmmcall A G s valid rip rax called rip_value rax_value)

    at_npf :
        IsLawful A
        → ((f : ℕ) → exit_info2 s.vmcb ≡ ok f → f < 2 ^ 64)
        → exit_code s.vmcb ≡ ok vmexit_npf
        → Outcomes s
    at_npf L words faulted =
        let (fault, at_fault) = read_field_value 8 0x80 s.vmcb valid (omega arith) in
        elim (Option-cases (A.map_alloc (page_of fault) page_size_4k (guest_flags A) true s.npt)) [
          | inl h ↦ inr (
              inr (
                handle_exit-npf_panic A G s fault faulted at_fault (words fault at_fault) h,
                (fault, faulted, at_fault, h),
              ))
          | inr (n, h) ↦
              inl (_, resumes A G s fault faulted at_fault (words fault at_fault) L n h, valid)
        ]

    at_other :
        (code : ℕ)
        → exit_code s.vmcb ≡ ok code
        → code ≢ vmexit_vmmcall
        → code ≢ vmexit_npf
        → Outcomes s
    unfolding handle_exit
    at_other code is not_call not_fault =
        inr (inl (unexpected, rw (is, ==_ne _ _ not_call, ==_ne _ _ not_fault)))

    handle_exit-Outcomes :
        IsLawful A → ((f : ℕ) → exit_info2 s.vmcb ≡ ok f → f < 2 ^ 64) → Outcomes s
    handle_exit-Outcomes L words =
        let (code, is) = read_field_value 8 ctrl_exit_code s.vmcb valid (omega arith) in
        elim (ℕ_discrete code vmexit_vmmcall) [
          | yes e ↦ at_vmmcall (is ∙ ap ok e)
          | no not_call ↦ elim (ℕ_discrete code vmexit_npf) [
            | yes e ↦ at_npf L words (is ∙ ap ok e)
            | no not_fault ↦ at_other code is not_call not_fault
          ]
        ]

  -- What the processor leaves is a control block, with a word for the address of a fault.
  pub record LeavesVmcb (vmrun : Vmrun A G) : Type 0 where
    pub keeps :
        (g : G) (vm : Vmcb) (r : SvmGuestGprs) (n : A.Space)
        → IsVmcb vm
        → IsVmcb (vmrun g vm r n).vmcb
    pub words :
        (g : G) (vm : Vmcb) (r : SvmGuestGprs) (n : A.Space) (f : ℕ)
        → exit_info2 (vmrun g vm r n).vmcb ≡ ok f
        → f < 2 ^ 64

  -- The states before an entry of the guest that the loop comes to from `s`.
  pub data Reach (vmrun : Vmrun A G) : State A G → State A G → Type 0 where
    here : {s : State A G} → Reach vmrun s s
    later :
        {s t u : State A G}
        → handle_exit A G (enter A G vmrun s) ≡ ok (resume t)
        → Reach vmrun t u
        → Reach vmrun s u

  module _ (L : IsLawful A) (vmrun : Vmrun A G) (V : LeavesVmcb vmrun) where
    after_step :
        (fuel : ℕ) (s : State A G) (x : Outcome (Step A G))
        → handle_exit A G (enter A G vmrun s) ≡ x
        → run A G vmrun (suc fuel) s
          ≡ (x >>= λ step. elim step [ resume t ↦ run A G vmrun fuel t | stop e t ↦ ok (e, t) ])
    unfolding run
    after_step fuel s x h =
        ap (λ y. y >>= λ step. elim step [ resume t ↦ run A G vmrun fuel t | stop e t ↦ ok (e, t) ])
          h

    enter-Outcomes : (s : State A G) → IsVmcb s.vmcb → Outcomes (enter A G vmrun s)
    unfolding enter
    enter-Outcomes s valid =
        handle_exit-Outcomes (enter A G vmrun s) (V.keeps s.guest s.vmcb s.gprs s.npt valid) L
          (V.words s.guest s.vmcb s.gprs s.npt)

    -- From a control block, a run of the loop that panics has come to a nested page fault whose page
    -- cannot be mapped, on a processor that leaves a control block with a word for the fault's address.
    pub run-panic :
        (fuel : ℕ) (s : State A G)
        → IsVmcb s.vmcb
        → run A G vmrun fuel s ≡ panic
        → (u : State A G) × Reach vmrun s u × AtUnmappable (enter A G vmrun u)
    unfolding run
    run-panic zero s valid h = absurd (cc)
    run-panic (suc fuel) s valid h = elim (enter-Outcomes s valid) [
      | inl (t, goes, kept) ↦
          let (u, reached, at) = run-panic fuel t kept (sym (after_step fuel s _ goes) ∙ h) in
          (u, later goes reached, at)
      | inr (inl (e, ends)) ↦ absurd (ended (sym (after_step fuel s _ ends) ∙ h))
      | inr (inr (panics, at)) ↦ (s, here, at)
    ]
      where
        ended : {x : Ending × State A G} → ok x ≡ panic → ⊥
        ended e = cc
