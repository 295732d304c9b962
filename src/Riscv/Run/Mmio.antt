-- ===== src/Riscv/Run/Mmio.antt =====
-- Guest page faults in the RISC-V loop: device memory is passed through.
use app_guestaspace.Base.{
  ℕ, ◌+◌, ◌*◌, ◌/◌, ◌%◌, ◌^◌, ◌<◌, ◌≡◌, refl, ap, ◌∙◌, false, none, some, arith, ◌⊎◌, inl, inr,
}
use app_guestaspace.Base.Bits.{bit_or-shift, bit_and_low, bit_and_high}
use app_guestaspace.AddrSpace.{AddrSpace, IsLawful, guest_flags, in_range}
use app_guestaspace.Riscv.Csrs.{Csrs, get_value, csr_scause, csr_stval, csr_htval}
use app_guestaspace.Riscv.Run.{
  Machine, State, resume, fault_addr, fault_page, after_map, handle_page_fault, handle_exception,
  handle_exit, page_size_4k,
}

-- The guest-physical address of a fault: the upper bits from `htval`, the two lowest from `stval`.
fault_addr_lem :
    (c : Csrs)
    → get_value csr_htval c < 2 ^ 62
    → fault_addr c ≡ get_value csr_htval c * 4 + get_value csr_stval c % 4
unfolding fault_addr
fault_addr_lem c h =
    rw (fits, bit_and_low 2 (get_value csr_stval c))
      (bit_or-shift 2 (get_value csr_htval c) (get_value csr_stval c % 4) (omega arith))
  where
    fits : get_value csr_htval c * 2 ^ 2 % 2 ^ 64 ≡ get_value csr_htval c * 2 ^ 2
    fits = omega arith

module _ (A : AddrSpace) (M : Machine A) (s : State A M) (fault : ℕ)
    (at_fault : get_value csr_htval s.csrs * 4 + get_value csr_stval s.csrs % 4 ≡ fault)
    (is_word : fault < 2 ^ 64) where
  page : fault_page s.csrs ≡ fault / 4096 * 4096
  unfolding fault_page
  page = rw (fault_addr_lem s.csrs (omega arith), at_fault) (bit_and_high 12 52 fault is_word)

  pub faulted :
      M.is_interrupt (get_value csr_scause s.csrs) ≡ false
      → (M.code (get_value csr_scause s.csrs) ≡ 20)
        ⊎ (M.code (get_value csr_scause s.csrs) ≡ 21)
        ⊎ (M.code (get_value csr_scause s.csrs) ≡ 23)
      → handle_exit A M s
        ≡ resume (
            after_map A M s (
              A.map_linear
                (fault / 4096 * 4096)
                (fault / 4096 * 4096)
                page_size_4k
                (guest_flags A)
                s.uspace))
  unfolding handle_exit handle_exception handle_page_fault
  faulted no_interrupt codes = elim codes [
    | inl e ↦ rw (no_interrupt, e, page)
    | inr (inl e) ↦ rw (no_interrupt, e, page)
    | inr (inr e) ↦ rw (no_interrupt, e, page)
  ]

  module _ (no_interrupt : M.is_interrupt (get_value csr_scause s.csrs) ≡ false)
      (codes : (M.code (get_value csr_scause s.csrs) ≡ 20)
        ⊎ (M.code (get_value csr_scause s.csrs) ≡ 21)
        ⊎ (M.code (get_value csr_scause s.csrs) ≡ 23)) where
    -- A guest page fault on a page that can be mapped resumes the guest at the same instruction
    -- with the faulting address mapped to itself; every address outside its page, and all of the
    -- registers, are as they were.
    pub handle_exit-passthrough :
        (L : IsLawful A)
        → (n : A.Space)
        → A.map_linear
            (fault / 4096 * 4096)
            (fault / 4096 * 4096)
            page_size_4k
            (guest_flags A)
            s.uspace
          ≡ some n
        → (b : ℕ) → in_range (fault / 4096 * 4096) page_size_4k b ≡ false
        → (t : State A M) × (handle_exit A M s ≡ resume t)
          × (t ≡ record s { uspace = t.uspace })
          × (A.query t.uspace fault ≡ some fault)
          × (A.query t.uspace b ≡ A.query s.uspace b)
          × (A.byte_at t.uspace b ≡ A.byte_at s.uspace b)
    handle_exit-passthrough L n mapped b out = (
      record s { uspace = n },
      faulted no_interrupt codes ∙ rw mapped,
      refl,
      L.linear_inside _ _ _ _ s.uspace n fault mapped (ground arith) ∙ ap some (omega arith),
      apart.0,
      apart.1,
    )
      where
        apart : (A.query n b ≡ A.query s.uspace b) × (A.byte_at n b ≡ A.byte_at s.uspace b)
        apart = L.linear_outside _ _ _ _ s.uspace n b mapped out

    -- Where the page cannot be mapped the error is dropped: the guest resumes in the same state.
    pub handle_exit-unmapped :
        A.map_linear
            (fault / 4096 * 4096)
            (fault / 4096 * 4096)
            page_size_4k
            (guest_flags A)
            s.uspace
          ≡ none
        → handle_exit A M s ≡ resume s
    handle_exit-unmapped h = faulted no_interrupt codes ∙ rw h
