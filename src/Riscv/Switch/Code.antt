-- ===== src/Riscv/Switch/Code.antt =====
-- The code of guest.S, in the order of the source. The offsets are those that vcpu.rs gives it.
use app_guestaspace.Base.{List, [], ◌∷◌, Option}
use app_guestaspace.Base.Options.{◌>>=◌}
use app_guestaspace.Riscv.Regs.{
  ra, gp, tp, s0, s1, a0, a1, a2, a3, a4, a5, a6, a7, s2, s3, s4, s5, s6, s7, s8, s9, s10, s11, t0,
  t1, t2, t3, t4, t5, t6, sp,
}
use app_guestaspace.Riscv.Vcpu.{
  GuestCpuState, HypCsr, GuestCsr, hyp_gpr_offset, guest_gpr_offset, hyp_csr_offset,
  guest_csr_offset,
}
use app_guestaspace.Riscv.Switch.{
  Csr, Instr, sd, ld, csrrw, csrr, csrw, la_guest_exit, sret, ret, Machine, exec,
}

unfoldable pub run_guest_entry : List Instr
run_guest_entry =
    sd ra (hyp_gpr_offset ra) a0
    ∷ sd gp (hyp_gpr_offset gp) a0
    ∷ sd tp (hyp_gpr_offset tp) a0
    ∷ sd s0 (hyp_gpr_offset s0) a0
    ∷ sd s1 (hyp_gpr_offset s1) a0
    ∷ sd a1 (hyp_gpr_offset a1) a0
    ∷ sd a2 (hyp_gpr_offset a2) a0
    ∷ sd a3 (hyp_gpr_offset a3) a0
    ∷ sd a4 (hyp_gpr_offset a4) a0
    ∷ sd a5 (hyp_gpr_offset a5) a0
    ∷ sd a6 (hyp_gpr_offset a6) a0
    ∷ sd a7 (hyp_gpr_offset a7) a0
    ∷ sd s2 (hyp_gpr_offset s2) a0
    ∷ sd s3 (hyp_gpr_offset s3) a0
    ∷ sd s4 (hyp_gpr_offset s4) a0
    ∷ sd s5 (hyp_gpr_offset s5) a0
    ∷ sd s6 (hyp_gpr_offset s6) a0
    ∷ sd s7 (hyp_gpr_offset s7) a0
    ∷ sd s8 (hyp_gpr_offset s8) a0
    ∷ sd s9 (hyp_gpr_offset s9) a0
    ∷ sd s10 (hyp_gpr_offset s10) a0
    ∷ sd s11 (hyp_gpr_offset s11) a0
    ∷ sd sp (hyp_gpr_offset sp) a0
    ∷ ld t1 (guest_csr_offset GuestCsr.sstatus) a0
    ∷ csrrw t1 Csr.sstatus t1
    ∷ sd t1 (hyp_csr_offset HypCsr.sstatus) a0
    ∷ ld t1 (guest_csr_offset GuestCsr.hstatus) a0
    ∷ csrrw t1 Csr.hstatus t1
    ∷ ld t1 (guest_csr_offset GuestCsr.scounteren) a0
    ∷ csrrw t1 Csr.scounteren t1
    ∷ sd t1 (hyp_csr_offset HypCsr.scounteren) a0
    ∷ ld t1 (guest_csr_offset GuestCsr.sepc) a0
    ∷ csrw Csr.sepc t1
    ∷ la_guest_exit t1
    ∷ csrrw t1 Csr.stvec t1
    ∷ sd t1 (hyp_csr_offset HypCsr.stvec) a0
    ∷ csrrw t1 Csr.sscratch a0
    ∷ sd t1 (hyp_csr_offset HypCsr.sscratch) a0
    ∷ ld ra (guest_gpr_offset ra) a0
    ∷ ld gp (guest_gpr_offset gp) a0
    ∷ ld tp (guest_gpr_offset tp) a0
    ∷ ld s0 (guest_gpr_offset s0) a0
    ∷ ld s1 (guest_gpr_offset s1) a0
    ∷ ld a1 (guest_gpr_offset a1) a0
    ∷ ld a2 (guest_gpr_offset a2) a0
    ∷ ld a3 (guest_gpr_offset a3) a0
    ∷ ld a4 (guest_gpr_offset a4) a0
    ∷ ld a5 (guest_gpr_offset a5) a0
    ∷ ld a6 (guest_gpr_offset a6) a0
    ∷ ld a7 (guest_gpr_offset a7) a0
    ∷ ld s2 (guest_gpr_offset s2) a0
    ∷ ld s3 (guest_gpr_offset s3) a0
    ∷ ld s4 (guest_gpr_offset s4) a0
    ∷ ld s5 (guest_gpr_offset s5) a0
    ∷ ld s6 (guest_gpr_offset s6) a0
    ∷ ld s7 (guest_gpr_offset s7) a0
    ∷ ld s8 (guest_gpr_offset s8) a0
    ∷ ld s9 (guest_gpr_offset s9) a0
    ∷ ld s10 (guest_gpr_offset s10) a0
    ∷ ld s11 (guest_gpr_offset s11) a0
    ∷ ld t0 (guest_gpr_offset t0) a0
    ∷ ld t1 (guest_gpr_offset t1) a0
    ∷ ld t2 (guest_gpr_offset t2) a0
    ∷ ld t3 (guest_gpr_offset t3) a0
    ∷ ld t4 (guest_gpr_offset t4) a0
    ∷ ld t5 (guest_gpr_offset t5) a0
    ∷ ld t6 (guest_gpr_offset t6) a0
    ∷ ld sp (guest_gpr_offset sp) a0
    ∷ ld a0 (guest_gpr_offset a0) a0
    ∷ sret
    ∷ []

unfoldable pub guest_exit : List Instr
guest_exit =
    csrrw a0 Csr.sscratch a0
    ∷ sd ra (guest_gpr_offset ra) a0
    ∷ sd gp (guest_gpr_offset gp) a0
    ∷ sd tp (guest_gpr_offset tp) a0
    ∷ sd s0 (guest_gpr_offset s0) a0
    ∷ sd s1 (guest_gpr_offset s1) a0
    ∷ sd a1 (guest_gpr_offset a1) a0
    ∷ sd a2 (guest_gpr_offset a2) a0
    ∷ sd a3 (guest_gpr_offset a3) a0
    ∷ sd a4 (guest_gpr_offset a4) a0
    ∷ sd a5 (guest_gpr_offset a5) a0
    ∷ sd a6 (guest_gpr_offset a6) a0
    ∷ sd a7 (guest_gpr_offset a7) a0
    ∷ sd s2 (guest_gpr_offset s2) a0
    ∷ sd s3 (guest_gpr_offset s3) a0
    ∷ sd s4 (guest_gpr_offset s4) a0
    ∷ sd s5 (guest_gpr_offset s5) a0
    ∷ sd s6 (guest_gpr_offset s6) a0
    ∷ sd s7 (guest_gpr_offset s7) a0
    ∷ sd s8 (guest_gpr_offset s8) a0
    ∷ sd s9 (guest_gpr_offset s9) a0
    ∷ sd s10 (guest_gpr_offset s10) a0
    ∷ sd s11 (guest_gpr_offset s11) a0
    ∷ sd t0 (guest_gpr_offset t0) a0
    ∷ sd t1 (guest_gpr_offset t1) a0
    ∷ sd t2 (guest_gpr_offset t2) a0
    ∷ sd t3 (guest_gpr_offset t3) a0
    ∷ sd t4 (guest_gpr_offset t4) a0
    ∷ sd t5 (guest_gpr_offset t5) a0
    ∷ sd t6 (guest_gpr_offset t6) a0
    ∷ sd sp (guest_gpr_offset sp) a0
    ∷ csrr t0 Csr.sscratch
    ∷ sd t0 (guest_gpr_offset a0) a0
    ∷ ld t1 (hyp_csr_offset HypCsr.sstatus) a0
    ∷ csrrw t1 Csr.sstatus t1
    ∷ sd t1 (guest_csr_offset GuestCsr.sstatus) a0
    ∷ csrr t1 Csr.hstatus
    ∷ sd t1 (guest_csr_offset GuestCsr.hstatus) a0
    ∷ ld t1 (hyp_csr_offset HypCsr.scounteren) a0
    ∷ csrrw t1 Csr.scounteren t1
    ∷ sd t1 (guest_csr_offset GuestCsr.scounteren) a0
    ∷ ld t1 (hyp_csr_offset HypCsr.stvec) a0
    ∷ csrw Csr.stvec t1
    ∷ ld t1 (hyp_csr_offset HypCsr.sscratch) a0
    ∷ csrw Csr.sscratch t1
    ∷ csrr t1 Csr.sepc
    ∷ sd t1 (guest_csr_offset GuestCsr.sepc) a0
    ∷ ld ra (hyp_gpr_offset ra) a0
    ∷ ld gp (hyp_gpr_offset gp) a0
    ∷ ld tp (hyp_gpr_offset tp) a0
    ∷ ld s0 (hyp_gpr_offset s0) a0
    ∷ ld s1 (hyp_gpr_offset s1) a0
    ∷ ld a1 (hyp_gpr_offset a1) a0
    ∷ ld a2 (hyp_gpr_offset a2) a0
    ∷ ld a3 (hyp_gpr_offset a3) a0
    ∷ ld a4 (hyp_gpr_offset a4) a0
    ∷ ld a5 (hyp_gpr_offset a5) a0
    ∷ ld a6 (hyp_gpr_offset a6) a0
    ∷ ld a7 (hyp_gpr_offset a7) a0
    ∷ ld s2 (hyp_gpr_offset s2) a0
    ∷ ld s3 (hyp_gpr_offset s3) a0
    ∷ ld s4 (hyp_gpr_offset s4) a0
    ∷ ld s5 (hyp_gpr_offset s5) a0
    ∷ ld s6 (hyp_gpr_offset s6) a0
    ∷ ld s7 (hyp_gpr_offset s7) a0
    ∷ ld s8 (hyp_gpr_offset s8) a0
    ∷ ld s9 (hyp_gpr_offset s9) a0
    ∷ ld s10 (hyp_gpr_offset s10) a0
    ∷ ld s11 (hyp_gpr_offset s11) a0
    ∷ ld sp (hyp_gpr_offset sp) a0
    ∷ ret
    ∷ []

-- A call of `_run_guest`: the trap goes to `_guest_exit`.
unfoldable pub run_guest_code : (GuestCpuState → GuestCpuState) → Machine → Option Machine
run_guest_code guest m = exec guest run_guest_entry m >>= λ m. exec guest guest_exit m
