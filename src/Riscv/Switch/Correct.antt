-- ===== src/Riscv/Switch/Correct.antt =====
-- What `_run_guest` of RISC-V does as a whole.
use app_guestaspace.Base.{
  ℕ, suc, ◌+◌, ◌≡◌, ◌∙◌, refl, ap, sym, List, [], ◌∷◌, ◌++◌, map, none, some, ◌==◌, if◌then◌else◌,
  get_or, length, arith,
}
use app_guestaspace.Riscv.Regs.{as_usize}
use app_guestaspace.Riscv.Regs.Laws.{IsGprs}
use app_guestaspace.Riscv.Vcpu.{
  GuestCpuState, hyp_gpr_offset, guest_gpr_offset, hyp_csr_offset, guest_csr_offset,
}
use app_guestaspace.Riscv.Switch.{
  Value, num, area_ptr, Csr, Machine, words_from, gpr_values, csr_words, guest_entry, step, exec,
}
use app_guestaspace.Riscv.Switch.Code.{run_guest_entry, guest_exit, run_guest_code}

-- The area at the call: any words for the hypervisor, and the guest's registers.
abbrev area_at_call : (ℕ → Value) → GuestCpuState → ℕ → Value
area_at_call old g i =
    get_or (words_from old 0 36 ++ map num (gpr_values g 0 32) ++ csr_words g) i (num 0)

-- The registers at the call: the argument in a0, and any values in the others.
abbrev pub call_regs : (ℕ → Value) → ℕ → Value
call_regs host r = if r == 10 then area_ptr else host r

abbrev pub at_call : (ℕ → Value) → (ℕ → Value) → (Csr → Value) → GuestCpuState → Machine
at_call host old csrs g = record {
  regs = call_regs host;
  area = area_at_call old g;
  csrs = csrs;
  returned = none;
}

-- The call has returned to the address in ra; sp, gp, tp, s0 to s11 and a1 to a7 are the host's, and
-- so are sstatus, scounteren, stvec and sscratch; the area holds the guest's registers.
abbrev pub IsBack : (ℕ → Value) → (Csr → Value) → GuestCpuState → Machine → Type 0
IsBack host csrs g m =
    (words_from m.area 37 31 ≡ map num (gpr_values g 1 31))
    × (words_from m.area 68 4 ≡ csr_words g)
    × (m.returned ≡ some (host 1))
    × (words_from m.regs 1 4 ≡ words_from host 1 4)
    × (words_from m.regs 8 2 ≡ words_from host 8 2)
    × (words_from m.regs 11 17 ≡ words_from host 11 17)
    × (m.csrs Csr.sstatus ≡ csrs Csr.sstatus)
    × (m.csrs Csr.scounteren ≡ csrs Csr.scounteren)
    × (m.csrs Csr.stvec ≡ csrs Csr.stvec)
    × (m.csrs Csr.sscratch ≡ csrs Csr.sscratch)

gpr_values-from :
    (g : GuestCpuState) (i : ℕ) (xs : List ℕ)
    → ((k : ℕ) → get_or g.gprs.values (i + k) 0 ≡ get_or xs k 0)
    → gpr_values g i (length xs) ≡ xs
gpr_values-from g i [] h = refl
gpr_values-from g i (x ∷ xs) h =
    let first : i + 0 ≡ i = omega arith in
    let head : get_or g.gprs.values i 0 ≡ x = rw first at (h 0) in
    cc (
      head,
      gpr_values-from g (suc i) xs
          (λ k. let next : i + suc k ≡ suc i + k = omega arith in rw next at (h (suc k))),
    )

listed : GuestCpuState → GuestCpuState
listed g = record g { gprs = record { values = 0 ∷ gpr_values g 1 31 } }

listed_all : (g : GuestCpuState) → IsGprs g.gprs → listed g ≡ g
unfolding listed
listed_all g valid =
    let all_of =
      gpr_values-from g 0 g.gprs.values
        (λ k. let at : 0 + k ≡ k = omega arith in ap (λ (j : ℕ). get_or g.gprs.values j 0) at) in
    let values : gpr_values g 0 32 ≡ g.gprs.values = rw valid.sized at all_of in
    let first : 0 ∷ gpr_values g 1 31 ≡ gpr_values g 0 32 =
      ap (λ (x : ℕ). x ∷ gpr_values g 1 31) (sym valid.hardwired) in
    ap (λ (xs : List ℕ). record g { gprs = record { values = xs } }) (first ∙ values)

module _ (guest : GuestCpuState → GuestCpuState) (host old : ℕ → Value) (csrs : Csr → Value)
    (g : GuestCpuState) where
  run_listed :
      (m : Machine) × (run_guest_code guest (at_call host old csrs g) ≡ some m)
      × IsBack host csrs (guest (listed g)) m
  unfolding run_guest_code exec step guest_entry run_guest_entry guest_exit listed as_usize
      hyp_gpr_offset guest_gpr_offset hyp_csr_offset guest_csr_offset
  run_listed = (_, refl, (refl, refl, refl, refl, refl, refl, refl, refl, refl, refl))

  -- A call of `_run_guest` enters the guest with its registers, leaves there what the guest has made
  -- of them up to its trap, and returns to its caller, with the registers that a function keeps and
  -- the host's sstatus, scounteren, stvec and sscratch as they were.
  pub run_guest_code-returns :
      IsGprs g.gprs
      → (m : Machine) × (run_guest_code guest (at_call host old csrs g) ≡ some m)
        × IsBack host csrs (guest g) m
  run_guest_code-returns valid = rw (listed_all g valid) at run_listed
