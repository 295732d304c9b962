-- ===== src/Aarch64/Switch/Correct.antt =====
-- What `_run_guest` of AArch64 does as a whole.
use app_guestaspace.Base.{
  ℕ, suc, ◌+◌, ◌≡◌, refl, ap, Bool, true, false, List, [], ◌∷◌, ◌++◌, none, some, ◌==◌,
  if◌then◌else◌, get_or, length, arith,
}
use app_guestaspace.Aarch64.Regs.{GuestState}
use app_guestaspace.Aarch64.Vcpu.{host_reg_offset, guest_gpr_offset}
use app_guestaspace.Aarch64.Switch.{
  Value, num, area_ptr, SysReg, daif, vbar_el1, Machine, Exception, words_from, gpr_values,
  guest_words, guest_entry, read, write, step, exec,
}
use app_guestaspace.Aarch64.Switch.Code.{
  run_guest_entry, guest_exit_common, guest_exit_sync, guest_exit_irq, run_guest_code, vector,
}

-- The area at the call: any words for the host and the trap, and the guest's registers.
abbrev area_at_call : (ℕ → Value) → GuestState → ℕ → Value
area_at_call old g i =
    get_or (words_from old 0 15 ++ guest_words g ++ words_from old 49 3) i (num 0)

-- The registers at the call: the argument in x0, and any values in the others.
abbrev pub call_regs : (ℕ → Value) → ℕ → Value
call_regs host r = if r == 0 then area_ptr else host r

abbrev pub at_call : (ℕ → Value) → (ℕ → Value) → (SysReg → Value) → GuestState → Machine
at_call host old sys g = record {
  regs = call_regs host;
  pushed = [];
  area = area_at_call old g;
  sys = sys;
  asynchronous = false;
  returned = none;
}

abbrev pub is_irq_of : Exception → ℕ
is_irq_of e = if e.asynchronous then 1 else 0

-- The call has returned to the address in x30; the stack, the registers that a function keeps, the
-- vectors and the interrupt mask are the host's, and the area holds what `e` says of the guest.
abbrev pub IsBack : (ℕ → Value) → (SysReg → Value) → Exception → Machine → Type 0
IsBack host sys e m =
    (words_from m.area 15 34 ≡ guest_words e.state)
    × (words_from m.area 49 3 ≡ num e.esr ∷ num e.far ∷ num (is_irq_of e) ∷ [])
    × (m.returned ≡ some (host 30))
    × (m.pushed ≡ [])
    × (words_from m.regs 19 12 ≡ words_from host 19 12)
    × (m.sys daif ≡ sys daif)
    × (m.sys vbar_el1 ≡ sys vbar_el1)

-- All registers of a guest are those that the area lists.
gpr_values-from :
    (g : GuestState) (i : ℕ) (xs : List ℕ)
    → ((k : ℕ) → get_or g.gprs.values (i + k) 0 ≡ get_or xs k 0)
    → gpr_values g i (length xs) ≡ xs
gpr_values-from g i [] h = refl
gpr_values-from g i (x ∷ xs) h =
    let first : i + 0 ≡ i = omega arith in
    let head : get_or g.gprs.values i 0 ≡ x = rw first at (h 0) in
    cc (
      head,
      gpr_values-from g (suc i) xs
          (λ k. let next : i + suc k ≡ suc i + k = omega arith in rw next at (h (suc k))),
    )

listed : GuestState → GuestState
listed g = record g { gprs = record { values = gpr_values g 0 31 } }

listed_all : (g : GuestState) → length g.gprs.values ≡ 31 → listed g ≡ g
unfolding listed
listed_all g sized =
    let all_of =
      gpr_values-from g 0 g.gprs.values
        (λ k. let at : 0 + k ≡ k = omega arith in ap (λ (j : ℕ). get_or g.gprs.values j 0) at) in
    let values : gpr_values g 0 31 ≡ g.gprs.values = rw sized at all_of in
    ap (λ (xs : List ℕ). record g { gprs = record { values = xs } }) values

module _ (guest : GuestState → Exception) (host old : ℕ → Value) (sys : SysReg → Value)
    (g : GuestState) where
  -- The machine as the guest has left it.
  entered : Machine
  unfolding exec step read write guest_entry run_guest_entry listed host_reg_offset guest_gpr_offset
  entered = elim (exec guest run_guest_entry (at_call host old sys g)) [
    | none ↦ at_call host old sys g
    | some m ↦ m
  ]

  exit-IsBack :
      (b : Bool)
      → (m : Machine) × (exec guest (vector b) entered ≡ some m)
        × IsBack host sys (record (guest (listed g)) { asynchronous = b }) m
  unfolding entered exec step read write guest_entry run_guest_entry guest_exit_common
      guest_exit_sync guest_exit_irq listed host_reg_offset guest_gpr_offset
  exit-IsBack true = (_, refl, (refl, refl, refl, refl, refl, refl, refl))
  exit-IsBack false = (_, refl, (refl, refl, refl, refl, refl, refl, refl))

  run_listed :
      (m : Machine) × (run_guest_code guest (at_call host old sys g) ≡ some m)
      × IsBack host sys (guest (listed g)) m
  unfolding run_guest_code entered exec step read write guest_entry run_guest_entry listed
      host_reg_offset guest_gpr_offset
  run_listed = exit-IsBack (guest (listed g)).asynchronous

  -- A call of `_run_guest` enters the guest with its 31 registers, stack pointer, program counter and
  -- status, leaves what the guest has made of them and what the core says of the exception in the
  -- structure, with `is_irq` 1 exactly for an interrupt, and returns to its caller, with the stack,
  -- the registers that a function keeps, the vectors and the interrupt mask as they were.
  pub run_guest_code-IsBack :
      length g.gprs.values ≡ 31
      → (m : Machine) × (run_guest_code guest (at_call host old sys g) ≡ some m)
        × IsBack host sys (guest g) m
  run_guest_code-IsBack sized = rw (listed_all g sized) at run_listed
