-- ===== src/Aarch64/Switch/Code.antt =====
-- The code of guest.S, in the order of the source. The offsets are those that vcpu.rs gives it.
use app_guestaspace.Base.Options.{◌>>=◌}
use app_guestaspace.Base.{List, [], ◌∷◌, ◌++◌, Bool, true, false, Option}
use app_guestaspace.Aarch64.Regs.{GuestState}
use app_guestaspace.Aarch64.Vcpu.{
  host_reg_offset, guest_gpr_offset, host_sp, host_vbar, host_daif, guest_sp, guest_elr, guest_spsr,
  trap_esr, trap_far, trap_is_irq,
}
use app_guestaspace.Aarch64.Switch.{
  Machine, Exception, exec, Instr, mrs, msr, mask_all, isb, eret, ret, mov, mov_from_sp, mov_to_sp,
  adr_vectors, str, ldr, str_zero, stp, ldp, push_pair, pop_pair, sub_sp, add_sp, at, at_sp, daif,
  vbar_el1, elr_el1, spsr_el1, sp_el0, esr_el1, far_el1,
}

unfoldable pub run_guest_entry : List Instr
run_guest_entry =
    mrs 1 daif
    ∷ str 1 (at 0 host_daif)
    ∷ mask_all
    ∷ stp 19 20 (at 0 (host_reg_offset 0))
    ∷ stp 21 22 (at 0 (host_reg_offset 2))
    ∷ stp 23 24 (at 0 (host_reg_offset 4))
    ∷ stp 25 26 (at 0 (host_reg_offset 6))
    ∷ stp 27 28 (at 0 (host_reg_offset 8))
    ∷ stp 29 30 (at 0 (host_reg_offset 10))
    ∷ mov_from_sp 1
    ∷ str 1 (at 0 host_sp)
    ∷ mrs 1 vbar_el1
    ∷ str 1 (at 0 host_vbar)
    ∷ adr_vectors 1
    ∷ msr vbar_el1 1
    ∷ isb
    ∷ sub_sp 16
    ∷ str 0 (at_sp 0)
    ∷ ldr 1 (at 0 guest_elr)
    ∷ msr elr_el1 1
    ∷ ldr 1 (at 0 guest_spsr)
    ∷ msr spsr_el1 1
    ∷ ldr 1 (at 0 guest_sp)
    ∷ msr sp_el0 1
    ∷ ldp 2 3 (at 0 (guest_gpr_offset 2))
    ∷ ldp 4 5 (at 0 (guest_gpr_offset 4))
    ∷ ldp 6 7 (at 0 (guest_gpr_offset 6))
    ∷ ldp 8 9 (at 0 (guest_gpr_offset 8))
    ∷ ldp 10 11 (at 0 (guest_gpr_offset 10))
    ∷ ldp 12 13 (at 0 (guest_gpr_offset 12))
    ∷ ldp 14 15 (at 0 (guest_gpr_offset 14))
    ∷ ldp 16 17 (at 0 (guest_gpr_offset 16))
    ∷ ldp 18 19 (at 0 (guest_gpr_offset 18))
    ∷ ldp 20 21 (at 0 (guest_gpr_offset 20))
    ∷ ldp 22 23 (at 0 (guest_gpr_offset 22))
    ∷ ldp 24 25 (at 0 (guest_gpr_offset 24))
    ∷ ldp 26 27 (at 0 (guest_gpr_offset 26))
    ∷ ldp 28 29 (at 0 (guest_gpr_offset 28))
    ∷ ldr 30 (at 0 (guest_gpr_offset 30))
    ∷ ldr 1 (at 0 (guest_gpr_offset 1))
    ∷ ldr 0 (at 0 (guest_gpr_offset 0))
    ∷ eret
    ∷ []

unfoldable pub guest_exit_common : List Instr
guest_exit_common =
    stp 2 3 (at 0 (guest_gpr_offset 2))
    ∷ stp 4 5 (at 0 (guest_gpr_offset 4))
    ∷ stp 6 7 (at 0 (guest_gpr_offset 6))
    ∷ stp 8 9 (at 0 (guest_gpr_offset 8))
    ∷ stp 10 11 (at 0 (guest_gpr_offset 10))
    ∷ stp 12 13 (at 0 (guest_gpr_offset 12))
    ∷ stp 14 15 (at 0 (guest_gpr_offset 14))
    ∷ stp 16 17 (at 0 (guest_gpr_offset 16))
    ∷ stp 18 19 (at 0 (guest_gpr_offset 18))
    ∷ stp 20 21 (at 0 (guest_gpr_offset 20))
    ∷ stp 22 23 (at 0 (guest_gpr_offset 22))
    ∷ stp 24 25 (at 0 (guest_gpr_offset 24))
    ∷ stp 26 27 (at 0 (guest_gpr_offset 26))
    ∷ stp 28 29 (at 0 (guest_gpr_offset 28))
    ∷ str 30 (at 0 (guest_gpr_offset 30))
    ∷ pop_pair 1 2
    ∷ str 1 (at 0 (guest_gpr_offset 0))
    ∷ str 2 (at 0 (guest_gpr_offset 1))
    ∷ mrs 1 elr_el1
    ∷ str 1 (at 0 guest_elr)
    ∷ mrs 1 spsr_el1
    ∷ str 1 (at 0 guest_spsr)
    ∷ mrs 1 sp_el0
    ∷ str 1 (at 0 guest_sp)
    ∷ mrs 1 esr_el1
    ∷ str 1 (at 0 trap_esr)
    ∷ mrs 1 far_el1
    ∷ str 1 (at 0 trap_far)
    ∷ add_sp 16
    ∷ ldr 1 (at 0 host_vbar)
    ∷ msr vbar_el1 1
    ∷ isb
    ∷ ldp 19 20 (at 0 (host_reg_offset 0))
    ∷ ldp 21 22 (at 0 (host_reg_offset 2))
    ∷ ldp 23 24 (at 0 (host_reg_offset 4))
    ∷ ldp 25 26 (at 0 (host_reg_offset 6))
    ∷ ldp 27 28 (at 0 (host_reg_offset 8))
    ∷ ldp 29 30 (at 0 (host_reg_offset 10))
    ∷ ldr 1 (at 0 host_sp)
    ∷ mov_to_sp 1
    ∷ ldr 1 (at 0 host_daif)
    ∷ msr daif 1
    ∷ ret
    ∷ []

unfoldable pub guest_exit_sync : List Instr
guest_exit_sync =
    (push_pair 0 1 ∷ ldr 0 (at_sp 16) ∷ str_zero (at 0 trap_is_irq) ∷ []) ++ guest_exit_common

unfoldable pub guest_exit_irq : List Instr
guest_exit_irq =
    (push_pair 0 1 ∷ ldr 0 (at_sp 16) ∷ mov 1 1 ∷ str 1 (at 0 trap_is_irq) ∷ [])
    ++ guest_exit_common

-- The entries of the vector table for a guest at EL0.
abbrev pub vector : Bool → List Instr
vector false = guest_exit_sync
vector true = guest_exit_irq

-- A call of `_run_guest`: the guest leaves by one of the vectors.
unfoldable pub run_guest_code : (GuestState → Exception) → Machine → Option Machine
run_guest_code guest m = exec guest run_guest_entry m >>= λ m. exec guest (vector m.asynchronous) m
