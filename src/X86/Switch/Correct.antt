-- ===== src/X86/Switch/Correct.antt =====
-- What `_run_guest` does as a whole.
use app_guestaspace.Base.{◌≡◌, refl, Bool, true, List, ◌∷◌, none, some}
use app_guestaspace.X86.Svm.{SvmGuestGprs}
use app_guestaspace.X86.Switch.{
  Reg, Value, gprs_ptr, guest_vmcb_pa, host_vmcb_pa, Machine, words, guest_entry, read, write, step,
  exec, rdx, rbx, rbp, rsi, rdi, r12, r13, r14, r15,
}
use app_guestaspace.X86.Switch.Code.{run_guest_code}

-- The registers at the call: the three arguments, and any values in the others.
abbrev pub call_regs : (Reg → Value) → Reg → Value
call_regs host rdi = guest_vmcb_pa
call_regs host rsi = host_vmcb_pa
call_regs host rdx = gprs_ptr
call_regs host r = host r

-- A call with a return address on the stack.
abbrev pub at_call :
    {H : Type 0} → (Reg → Value) → Value → List Value → SvmGuestGprs → Bool → H → Machine H
at_call host back stack g interrupts hidden = record {
  regs = call_regs host;
  stack = back ∷ stack;
  area = words g;
  interrupts = interrupts;
  hidden = hidden;
  saved = none;
  returned = none;
}

-- The call has returned to `back` with interrupts on; the stack, the registers that a function keeps,
-- and FS, GS, TR and LDTR are the host's, and the save area holds `g`.
abbrev pub IsBack :
    {H : Type 0} → (Reg → Value) → Value → List Value → SvmGuestGprs → H → Machine H → Type 0
IsBack host back stack g hidden m =
    (m.area ≡ words g)
    × (m.returned ≡ some back)
    × (m.stack ≡ stack)
    × (m.hidden ≡ hidden)
    × (m.interrupts ≡ true)
    × (m.regs rbx ≡ host rbx)
    × (m.regs rbp ≡ host rbp)
    × (m.regs r12 ≡ host r12)
    × (m.regs r13 ≡ host r13)
    × (m.regs r14 ≡ host r14)
    × (m.regs r15 ≡ host r15)

module _ (H : Type 0) (guest : SvmGuestGprs → SvmGuestGprs) (guest_hidden : H → H) where
  -- A call of `_run_guest` enters the guest with just the registers of the save area, leaves there
  -- what the guest has made of them, and returns to its caller, with the stack, the registers that a
  -- function keeps, and the host's FS, GS, TR and LDTR as they were, and with interrupts on.
  pub exec-run_guest_code :
      (host : Reg → Value) (back : Value) (stack : List Value) (g : SvmGuestGprs)
      (interrupts : Bool) (hidden : H)
      → (m : Machine H) × (exec H guest guest_hidden run_guest_code
            (at_call host back stack g interrupts hidden)
          ≡ some m)
        × IsBack host back stack (guest g) hidden m
  unfolding exec step read write guest_entry run_guest_code
  exec-run_guest_code host back stack g interrupts hidden =
      (_, refl, (refl, refl, refl, refl, refl, refl, refl, refl, refl, refl, refl))
