-- ===== src/Riscv/Csrs/Numbers.antt =====
-- src/csrs.rs: the numbers under which the control and status registers are accessed.
use app_guestaspace.Base.{
  ℕ, ◌+◌, ◌/◌, ◌%◌, ◌^◌, ◌<◌, ◌≡◌, ◌↔◌, ◌∙◌, refl, ap, sym, Option, none, some, List, [], ◌∷◌,
  arith, ◌==◌, if◌then◌else◌,
}
use mathlib.Core.Option.{some-injective}
use app_guestaspace.Riscv.Csrs.{
  csr_sstatus, csr_sie, csr_scause, csr_stval, csr_hstatus, csr_hedeleg, csr_hideleg,
  csr_hcounteren, csr_htval, csr_hvip, csr_hgatp,
}

pub data CsrName : Type 0 where
  sstatus sedeleg sideleg sie stvec scounteren senvcfg sscratch sepc scause stval sip stimecmp
        siselect sireg stopei satp stopi scontext vsstatus vsie vstvec vsscratch vsepc vscause
        vstval vsip vstimecmp vsiselect vsireg vstopei vsatp vstopi hstatus hedeleg hideleg hie
        htimedelta hcounteren hgeie hvictl henvcfg htval hip hvip htinst hgatp hcontext hgeip :
      CsrName

-- The constant of a name, `CSR_SSTATUS` for `sstatus`.
unfoldable pub number : CsrName → ℕ
number sstatus = csr_sstatus
number sedeleg = 0x102
number sideleg = 0x103
number sie = csr_sie
number stvec = 0x105
number scounteren = 0x106
number senvcfg = 0x10a
number sscratch = 0x140
number sepc = 0x141
number scause = csr_scause
number stval = csr_stval
number sip = 0x144
number stimecmp = 0x14d
number siselect = 0x150
number sireg = 0x151
number stopei = 0x15c
number satp = 0x180
number stopi = 0xdb0
number scontext = 0x5a8
number vsstatus = 0x200
number vsie = 0x204
number vstvec = 0x205
number vsscratch = 0x240
number vsepc = 0x241
number vscause = 0x242
number vstval = 0x243
number vsip = 0x244
number vstimecmp = 0x24d
number vsiselect = 0x250
number vsireg = 0x251
number vstopei = 0x25c
number vsatp = 0x280
number vstopi = 0xeb0
number hstatus = csr_hstatus
number hedeleg = csr_hedeleg
number hideleg = csr_hideleg
number hie = 0x604
number htimedelta = 0x605
number hcounteren = csr_hcounteren
number hgeie = 0x607
number hvictl = 0x609
number henvcfg = 0x60a
number htval = csr_htval
number hip = 0x644
number hvip = csr_hvip
number htinst = 0x64a
number hgatp = csr_hgatp
number hcontext = 0x6a8
number hgeip = 0xe12

-- The names in the order of their constants.
abbrev all_names : List CsrName
all_names =
    sstatus ∷ sedeleg ∷ sideleg ∷ sie ∷ stvec ∷ scounteren ∷ senvcfg ∷ sscratch ∷ sepc ∷ scause
    ∷ stval ∷ sip ∷ stimecmp ∷ siselect ∷ sireg ∷ stopei ∷ satp ∷ stopi ∷ scontext ∷ vsstatus ∷ vsie
    ∷ vstvec ∷ vsscratch ∷ vsepc ∷ vscause ∷ vstval ∷ vsip ∷ vstimecmp ∷ vsiselect ∷ vsireg
    ∷ vstopei ∷ vsatp ∷ vstopi ∷ hstatus ∷ hedeleg ∷ hideleg ∷ hie ∷ htimedelta ∷ hcounteren ∷ hgeie
    ∷ hvictl ∷ henvcfg ∷ htval ∷ hip ∷ hvip ∷ htinst ∷ hgatp ∷ hcontext ∷ hgeip ∷ []

abbrev find : ℕ → List CsrName → Option CsrName
find n [] = none
find n (c ∷ cs) = if number c == n then some c else find n cs

find-number : (c : CsrName) → find (number c) all_names ≡ some c
unfolding number
find-number CsrName.sstatus = refl
find-number _ = refl

-- The register that stands for this one while the guest runs.
unfoldable pub guest_copy : CsrName → Option CsrName
guest_copy sstatus = some vsstatus
guest_copy sie = some vsie
guest_copy stvec = some vstvec
guest_copy sscratch = some vsscratch
guest_copy sepc = some vsepc
guest_copy scause = some vscause
guest_copy stval = some vstval
guest_copy sip = some vsip
guest_copy stimecmp = some vstimecmp
guest_copy siselect = some vsiselect
guest_copy sireg = some vsireg
guest_copy stopei = some vstopei
guest_copy satp = some vsatp
guest_copy stopi = some vstopi
guest_copy _ = none

number-guest_copy : (c v : CsrName) → guest_copy c ≡ some v → number v ≡ number c + 0x100
unfolding number guest_copy
number-guest_copy c v h = ground arith

number_range :
    (c : CsrName) → (number c < 2 ^ 12) × (0 < number c / 2 ^ 8 % 4) × (number c / 2 ^ 8 % 4 < 3)
unfolding number
number_range CsrName.sstatus = omega arith
number_range _ = omega arith

-- Two names with the same number are the same name; a number fits the 12 bits that the instructions
-- have for it, and its bits 8 and 9 let supervisor or hypervisor code access the register.
pub number_lem :
    (c d : CsrName)
    → ((number c ≡ number d) ↔ (c ≡ d))
      × (number c < 2 ^ 12)
      × (0 < number c / 2 ^ 8 % 4)
      × (number c / 2 ^ 8 % 4 < 3)
number_lem c d = (
  (
    λ e. some-injective c d (sym (find-number c) ∙ ap (λ n. find n all_names) e ∙ find-number d),
    λ e. ap number e,
  ),
  (number_range c).0,
  (number_range c).1,
  (number_range c).2,
)
