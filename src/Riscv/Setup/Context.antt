-- ===== src/Riscv/Setup/Context.antt =====
-- The context that the guest starts from: the registers with which `sret` enters the guest.
use app_guestaspace.Base.{ℕ, ◌≡◌, ◌≢◌, ◌∙◌, refl, arith, ◌==◌, ==_ne, if◌then◌else◌}
use app_guestaspace.Base.Bits.{bit}
use app_guestaspace.Riscv.Csrs.{Csrs, get_value, csr_sstatus, csr_hstatus}
use app_guestaspace.Riscv.Csrs.Fields.{Field, spv, spvp}
use app_guestaspace.Riscv.Csrs.Masks.{get_value-write_value}
use app_guestaspace.Riscv.Vcpu.{VmCpuRegisters}
use app_guestaspace.Riscv.Setup.{Crates, prepare_guest_context, vm_entry}

-- What the documentation of the two crates says: `modify` of a one-bit field to 1 sets its bit and
-- keeps the others, and `set_spp` sets bit 8 of sstatus and changes no other register.
pub record AreLawful (K : Crates) : Type 0 where
  pub sets_bit :
      (f : Field) (r k : ℕ)
      → f.numbits ≡ 1
      → bit k (K.modify f 1 r) ≡ (if k == f.offset then 1 else bit k r)
  pub sets_spp : (c : Csrs) → bit 8 (get_value csr_sstatus (K.set_spp c)) ≡ 1
  pub keeps :
      (c : Csrs) (csr : ℕ) → csr ≢ csr_sstatus → get_value csr (K.set_spp c) ≡ get_value csr c

-- The context says that the trap to return from came from a virtual machine in supervisor mode:
-- hstatus has SPV and SPVP set and its other bits `k` as they were, sstatus has SPP set, both are in
-- the registers too, the guest starts at its entry point, and its general-purpose registers, the
-- host's registers and those of VS mode are as before.
pub prepare_guest_context_lem :
    (K : Crates) (c : Csrs) (ctx : VmCpuRegisters) (k : ℕ)
    → AreLawful K
    → k ≢ 7
    → k ≢ 8
    → let (after, made) = prepare_guest_context K c ctx in
      (bit 7 made.guest_regs.hstatus ≡ 1)
      × (bit 8 made.guest_regs.hstatus ≡ 1)
      × (bit k made.guest_regs.hstatus ≡ bit k (get_value csr_hstatus c))
      × (get_value csr_hstatus after ≡ made.guest_regs.hstatus)
      × (bit 8 made.guest_regs.sstatus ≡ 1)
      × (get_value csr_sstatus after ≡ made.guest_regs.sstatus)
      × (made.guest_regs.sepc ≡ vm_entry)
      × (made.guest_regs.gprs ≡ ctx.guest_regs.gprs)
      × (made.hyp_regs ≡ ctx.hyp_regs)
      × (made.vs_csrs ≡ ctx.vs_csrs)
unfolding prepare_guest_context
prepare_guest_context_lem K c ctx k L not_spv not_spvp = (
  L.sets_bit spvp _ 7 refl ∙ L.sets_bit spv (get_value csr_hstatus c) 7 refl,
  L.sets_bit spvp _ 8 refl,
  L.sets_bit spvp _ k refl
      ∙ rw (==_ne k 8 not_spvp)
          (L.sets_bit spv (get_value csr_hstatus c) k refl ∙ rw (==_ne k 7 not_spv)),
  L.keeps _ csr_hstatus (omega arith) ∙ get_value-write_value csr_hstatus _ c,
  L.sets_spp _,
  refl,
  refl,
  refl,
  refl,
  refl,
)
