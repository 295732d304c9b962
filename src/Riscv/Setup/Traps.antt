-- ===== src/Riscv/Setup/Traps.antt =====
-- Which traps reach the hypervisor after the setup.
use app_guestaspace.Base.{ℕ, ◌+◌, ◌*◌, ◌/◌, ◌^◌, ◌<◌, ◌≡◌, ◌∙◌, refl, arith, ap, [], ◌∷◌, All}
use app_guestaspace.Base.Bits.{bit, bit_or-shift}
use app_guestaspace.Riscv.Csrs.{
  Csrs, get_value, csr_sie, csr_hedeleg, csr_hideleg, csr_hvip, csr_hgatp, csr_hcounteren,
  supervisor_timer,
}
use app_guestaspace.Riscv.Csrs.Masks.{
  get_value-write_value, get_value-write_value_ne, bit-read_and_clear_bits, read_and_clear_bits-ne,
}
use app_guestaspace.Riscv.Setup.{
  setup_csrs, delegated_exceptions, virtual_interrupts, prepare_vm_pgtable,
}

fits : virtual_interrupts < 2 ^ 64
unfolding virtual_interrupts
fits = omega arith

module _ (c : Csrs) where
  pub delegation : get_value csr_hedeleg (setup_csrs c) ≡ delegated_exceptions
  unfolding setup_csrs
  delegation =
      read_and_clear_bits-ne csr_sie supervisor_timer _ csr_hedeleg (omega arith)
      ∙ get_value-write_value_ne csr_hcounteren csr_hedeleg _ _ (omega arith)
      ∙ read_and_clear_bits-ne csr_hvip virtual_interrupts _ csr_hedeleg (omega arith)
      ∙ get_value-write_value_ne csr_hideleg csr_hedeleg _ _ (omega arith)
      ∙ get_value-write_value csr_hedeleg delegated_exceptions c

  no_timer : bit 5 (get_value csr_sie (setup_csrs c)) ≡ 0
  unfolding setup_csrs
  no_timer =
      bit-read_and_clear_bits csr_sie supervisor_timer _ 5 (omega arith) (omega arith) ∙ omega arith

  no_pending :
      (k : ℕ)
      → k < 64
      → bit k virtual_interrupts ≡ 1
      → bit k (get_value csr_hvip (setup_csrs c)) ≡ 0
  unfolding setup_csrs
  no_pending k h p =
      ap (bit k) (
        read_and_clear_bits-ne csr_sie supervisor_timer _ csr_hvip (omega arith)
        ∙ get_value-write_value_ne csr_hcounteren csr_hvip _ _ (omega arith))
      ∙ bit-read_and_clear_bits csr_hvip virtual_interrupts _ k h fits
      ∙ omega arith

  -- After the setup the guest takes its own page faults and illegal instructions, but not the ecall
  -- and guest page faults that the loop handles; no virtual interrupt is pending and the host timer
  -- is off.
  pub setup_csrs_lem :
      (k : ℕ)
      → k < 64
      → bit k virtual_interrupts ≡ 1
      → All (λ n. bit n (get_value csr_hedeleg (setup_csrs c)) ≡ 1) (2 ∷ 12 ∷ 13 ∷ 15 ∷ [])
        × All (λ n. bit n (get_value csr_hedeleg (setup_csrs c)) ≡ 0) (10 ∷ 20 ∷ 21 ∷ 23 ∷ [])
        × (bit k (get_value csr_hvip (setup_csrs c)) ≡ 0)
        × (bit 5 (get_value csr_sie (setup_csrs c)) ≡ 0)
  unfolding delegated_exceptions
  setup_csrs_lem k h p = (
    rw delegation (refl, (refl, (refl, (refl, tt)))),
    rw delegation (refl, (refl, (refl, (refl, tt)))),
    no_pending k h p,
    no_timer,
  )

-- `hgatp` selects the Sv39x4 mode with the page of the root table.
pub prepare_vm_pgtable_lem :
    (ept_root : ℕ) (c : Csrs)
    → ept_root < 2 ^ 56
    → get_value csr_hgatp (prepare_vm_pgtable ept_root c) ≡ 8 * 2 ^ 60 + ept_root / 4096
unfolding prepare_vm_pgtable
prepare_vm_pgtable_lem ept_root c h =
    get_value-write_value csr_hgatp _ c ∙ bit_or-shift 60 8 (ept_root / 2 ^ 12) (omega arith)
