-- ===== src/X86/Switch/Code.antt =====
-- The instructions of `_run_guest`, in the order of the source.
use app_guestaspace.Base.{List, [], ◌∷◌}
use app_guestaspace.X86.Switch.{
  Instr, push, pop, mov, load, store, xchg, add_rsp, cli, sti, vmsave, vmload, vmrun, ret, at,
  at_rsp, rax, rcx, rdx, rbx, rbp, rsi, rdi, r8, r9, r10, r11, r12, r13, r14, r15,
}

unfoldable pub run_guest_code : List Instr
run_guest_code =
    push rbx
    ∷ push rbp
    ∷ push r12
    ∷ push r13
    ∷ push r14
    ∷ push r15
    ∷ push rsi
    ∷ push rdx
    ∷ push rdi
    ∷ cli
    ∷ mov rax rsi
    ∷ vmsave
    ∷ load rcx (at rdx 0x00)
    ∷ load rbx (at rdx 0x10)
    ∷ load rsi (at rdx 0x18)
    ∷ load rbp (at rdx 0x28)
    ∷ load r8 (at rdx 0x30)
    ∷ load r9 (at rdx 0x38)
    ∷ load r10 (at rdx 0x40)
    ∷ load r11 (at rdx 0x48)
    ∷ load r12 (at rdx 0x50)
    ∷ load r13 (at rdx 0x58)
    ∷ load r14 (at rdx 0x60)
    ∷ load r15 (at rdx 0x68)
    ∷ load rdi (at rdx 0x20)
    ∷ load rdx (at rdx 0x08)
    ∷ load rax (at_rsp 0)
    ∷ vmrun
    ∷ xchg rdi (at_rsp 8)
    ∷ store (at rdi 0x00) rcx
    ∷ store (at rdi 0x08) rdx
    ∷ store (at rdi 0x10) rbx
    ∷ store (at rdi 0x18) rsi
    ∷ load rax (at_rsp 8)
    ∷ store (at rdi 0x20) rax
    ∷ store (at rdi 0x28) rbp
    ∷ store (at rdi 0x30) r8
    ∷ store (at rdi 0x38) r9
    ∷ store (at rdi 0x40) r10
    ∷ store (at rdi 0x48) r11
    ∷ store (at rdi 0x50) r12
    ∷ store (at rdi 0x58) r13
    ∷ store (at rdi 0x60) r14
    ∷ store (at rdi 0x68) r15
    ∷ load rax (at_rsp 16)
    ∷ vmload
    ∷ sti
    ∷ add_rsp 24
    ∷ pop r15
    ∷ pop r14
    ∷ pop r13
    ∷ pop r12
    ∷ pop rbp
    ∷ pop rbx
    ∷ ret
    ∷ []
