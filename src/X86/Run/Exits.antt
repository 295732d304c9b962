-- ===== src/X86/Run/Exits.antt =====
-- What the handlers of the x86_64 loop do at one exit.
use app_guestaspace.Base.{
  ℕ, ◌+◌, ◌/◌, ◌%◌, ◌^◌, ◌≡◌, refl, ◌∙◌, [], ◌∷◌, ◌++◌, ok, arith, ◌==◌, if◌then◌else◌, ==_ne, ◌↔◌,
  ==_ne, ◌↔◌,
}
use app_guestaspace.Base.Bits.{bit_and_low}
use app_guestaspace.Base.Bytes.{u64}
use app_guestaspace.AddrSpace.{AddrSpace}
use app_guestaspace.X86.Vmcb.{
  Vmcb, read_field, write_field, exit_code, guest_rax, guest_rip, save_rip, vmexit_vmmcall,
}
use app_guestaspace.X86.Vmcb.Fields.{
  IsVmcb, Apart, put, put-IsVmcb, write_field-eq-put, read_field-put_self, read_field-put-Apart,
}
use app_guestaspace.X86.Run.{State, resume, stop, shutdown, handle_vmmcall, handle_exit}

module _ (A : AddrSpace) (G : Type 0) (s : State A G) (valid : IsVmcb s.vmcb) where
  -- The VMCB with RIP moved past the VMMCALL instruction.
  abbrev pub advanced : ℕ → Vmcb
  advanced rip = put 8 save_rip (u64 (rip + 3)) s.vmcb

  write_rip : (v : ℕ) → write_field 8 save_rip v s.vmcb ≡ ok (put 8 save_rip v s.vmcb)
  write_rip v = write_field-eq-put 8 save_rip v s.vmcb valid (omega arith)

  module _ (rip rax : ℕ) (called : exit_code s.vmcb ≡ ok vmexit_vmmcall)
      (rip_value : guest_rip s.vmcb ≡ ok rip) (rax_value : guest_rax s.vmcb ≡ ok rax) where
    pub handle_exit-vmmcall : handle_exit A G s ≡ (
        if rax == 0x84000008
        then ok (stop shutdown s)
        else if rax % 256 == 1
        then ok (
            resume
              (record s { vmcb = advanced rip; console = s.console ++ ((rax / 256 % 256) ∷ []) }))
        else ok (resume (record s { vmcb = advanced rip })))
    unfolding handle_exit handle_vmmcall
    handle_exit-vmmcall = rw (
      called,
      rax_value,
      rip_value,
      write_rip,
      bit_and_low 8 rax,
      bit_and_low 8 (rax / 256),
      mod_again,
    )
      where
        mod_again : rax / 256 % 2 ^ 8 % 2 ^ 8 ≡ rax / 256 % 256
        mod_again = omega arith

    -- A VMMCALL whose RAX ends in 1 prints the character in bits 8 to 15 of RAX, moves RIP past the
    -- instruction, and leaves the registers, the nested page table and every field apart from RIP
    -- alone.
    pub handle_exit-putchar :
        (m at : ℕ)
        → rax % 256 ≡ 1
        → Apart 8 save_rip m at
        → (t : State A G) × (handle_exit A G s ≡ ok (resume t))
          × (t.console ≡ s.console ++ ((rax / 256 % 256) ∷ []))
          × (guest_rip t.vmcb ≡ ok (u64 (rip + 3)))
          × (t.guest ≡ s.guest)
          × (t.gprs ≡ s.gprs)
          × (t.npt ≡ s.npt)
          × IsVmcb t.vmcb
          × (read_field m at t.vmcb ≡ read_field m at s.vmcb)
    handle_exit-putchar m at low apart = (
      record s { vmcb = advanced rip; console = s.console ++ ((rax / 256 % 256) ∷ []) },
      handle_exit-vmmcall ∙ rw (==_ne rax 0x84000008 (omega arith), low),
      refl,
      read_field-put_self 8 save_rip (u64 (rip + 3)) s.vmcb valid (omega arith) (omega arith),
      refl,
      refl,
      refl,
      put-IsVmcb 8 save_rip (u64 (rip + 3)) s.vmcb valid (omega arith),
      read_field-put-Apart 8 save_rip (u64 (rip + 3)) s.vmcb valid (omega arith) m at apart,
    )

    -- A VMMCALL ends the loop exactly when RAX is the PSCI number of SYSTEM_OFF.
    pub handle_exit-shutdown_iff : (handle_exit A G s ≡ ok (stop shutdown s)) ↔ (rax ≡ 0x84000008)
    handle_exit-shutdown_iff = ground (arith, handle_exit-vmmcall)
