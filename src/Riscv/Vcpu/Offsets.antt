-- ===== src/Riscv/Vcpu/Offsets.antt =====
-- The slots of the register file that guest.S uses do not overlap.
use app_guestaspace.Base.{
  ℕ, ◌+◌, ◌%◌, ◌≤◌, ◌<◌, ◌≡◌, ◌≢◌, ◌⊎◌, arith, refl, ap, sym, ◌∙◌, ◌==◌, if◌then◌else◌,
}
use app_guestaspace.Riscv.Regs.{GprIndex}
use app_guestaspace.Riscv.Regs.Laws.{as_usize-lt, as_usize_injective}
use app_guestaspace.Riscv.Vcpu.{
  HypCsr, GuestCsr, hyp_gpr_offset, guest_gpr_offset, hyp_csr_offset, guest_csr_offset, word,
  size_of_hypervisor_cpu_state, size_of_guest_cpu_state,
}

-- A slot of the saved registers.
pub data Slot : Type 0 where
  hyp_gpr : GprIndex → Slot
  hyp_csr : HypCsr → Slot
  guest_gpr : GprIndex → Slot
  guest_csr : GuestCsr → Slot

unfoldable pub offset : Slot → ℕ
offset (Slot.hyp_gpr i) = hyp_gpr_offset i
offset (Slot.hyp_csr r) = hyp_csr_offset r
offset (Slot.guest_gpr i) = guest_gpr_offset i
offset (Slot.guest_csr r) = guest_csr_offset r

hyp_csr_of : ℕ → HypCsr
hyp_csr_of n =
    if n == 256
    then HypCsr.sstatus
    else if n == 264
    then HypCsr.scounteren
    else if n == 272
    then HypCsr.stvec
    else HypCsr.sscratch

hyp_csr_of-offset : (r : HypCsr) → hyp_csr_of (hyp_csr_offset r) ≡ r
unfolding hyp_csr_of hyp_csr_offset
hyp_csr_of-offset HypCsr.sstatus = refl
hyp_csr_of-offset _ = refl

guest_csr_of : ℕ → GuestCsr
guest_csr_of n =
    if n == 544
    then GuestCsr.sstatus
    else if n == 552
    then GuestCsr.hstatus
    else if n == 560
    then GuestCsr.scounteren
    else GuestCsr.sepc

guest_csr_of-offset : (r : GuestCsr) → guest_csr_of (guest_csr_offset r) ≡ r
unfolding guest_csr_of guest_csr_offset
guest_csr_of-offset GuestCsr.sstatus = refl
guest_csr_of-offset _ = refl

hyp_csr_range : (r : HypCsr) → (256 ≤ hyp_csr_offset r) × (hyp_csr_offset r < 288)
unfolding hyp_csr_offset
hyp_csr_range HypCsr.sstatus = (omega arith, omega arith)
hyp_csr_range _ = (omega arith, omega arith)

guest_csr_range : (r : GuestCsr) → (544 ≤ guest_csr_offset r) × (guest_csr_offset r < 576)
unfolding guest_csr_offset
guest_csr_range GuestCsr.sstatus = (omega arith, omega arith)
guest_csr_range _ = (omega arith, omega arith)

gpr_range :
    (i : GprIndex)
    → (hyp_gpr_offset i < 256) × (288 ≤ guest_gpr_offset i) × (guest_gpr_offset i < 544)
unfolding hyp_gpr_offset guest_gpr_offset
gpr_range i = (omega (arith, as_usize-lt i), omega arith, omega (arith, as_usize-lt i))

-- Different slots lie at different offsets.
offset_injective : (x y : Slot) → offset x ≡ offset y → x ≡ y
unfolding offset hyp_gpr_offset guest_gpr_offset
offset_injective (Slot.hyp_gpr i) (Slot.hyp_gpr j) h =
    ap Slot.hyp_gpr (as_usize_injective i j (omega arith))
offset_injective (Slot.hyp_csr r) (Slot.hyp_csr q) h =
    ap Slot.hyp_csr (sym (hyp_csr_of-offset r) ∙ ap hyp_csr_of h ∙ hyp_csr_of-offset q)
offset_injective (Slot.guest_gpr i) (Slot.guest_gpr j) h =
    ap Slot.guest_gpr (as_usize_injective i j (omega arith))
offset_injective (Slot.guest_csr r) (Slot.guest_csr q) h =
    ap Slot.guest_csr (sym (guest_csr_of-offset r) ∙ ap guest_csr_of h ∙ guest_csr_of-offset q)
offset_injective (Slot.hyp_gpr i) (Slot.hyp_csr r) h =
    absurd (omega (arith, gpr_range i, hyp_csr_range r))
offset_injective (Slot.hyp_gpr i) (Slot.guest_gpr j) h =
    absurd (omega (arith, gpr_range i, gpr_range j))
offset_injective (Slot.hyp_gpr i) (Slot.guest_csr r) h =
    absurd (omega (arith, gpr_range i, guest_csr_range r))
offset_injective (Slot.hyp_csr r) (Slot.hyp_gpr i) h =
    absurd (omega (arith, gpr_range i, hyp_csr_range r))
offset_injective (Slot.hyp_csr r) (Slot.guest_gpr j) h =
    absurd (omega (arith, hyp_csr_range r, gpr_range j))
offset_injective (Slot.hyp_csr r) (Slot.guest_csr q) h =
    absurd (omega (arith, hyp_csr_range r, guest_csr_range q))
offset_injective (Slot.guest_gpr j) (Slot.hyp_gpr i) h =
    absurd (omega (arith, gpr_range i, gpr_range j))
offset_injective (Slot.guest_gpr j) (Slot.hyp_csr r) h =
    absurd (omega (arith, hyp_csr_range r, gpr_range j))
offset_injective (Slot.guest_gpr j) (Slot.guest_csr r) h =
    absurd (omega (arith, gpr_range j, guest_csr_range r))
offset_injective (Slot.guest_csr r) (Slot.hyp_gpr i) h =
    absurd (omega (arith, gpr_range i, guest_csr_range r))
offset_injective (Slot.guest_csr q) (Slot.hyp_csr r) h =
    absurd (omega (arith, hyp_csr_range r, guest_csr_range q))
offset_injective (Slot.guest_csr r) (Slot.guest_gpr j) h =
    absurd (omega (arith, gpr_range j, guest_csr_range r))

offset_by_words : (x : Slot) → (offset x % word ≡ 0) × (offset x < 576)
unfolding offset hyp_gpr_offset guest_gpr_offset hyp_csr_offset guest_csr_offset
offset_by_words (Slot.hyp_gpr i) = (omega arith, omega (arith, as_usize-lt i))
offset_by_words (Slot.hyp_csr HypCsr.sstatus) = (refl, omega arith)
offset_by_words (Slot.hyp_csr _) = (refl, omega arith)
offset_by_words (Slot.guest_gpr i) = (omega arith, omega (arith, as_usize-lt i))
offset_by_words (Slot.guest_csr GuestCsr.sstatus) = (refl, omega arith)
offset_by_words (Slot.guest_csr _) = (refl, omega arith)

-- The words at two different slots of the saved hypervisor and guest registers do not overlap, and
-- lie in the two structures.
pub offset_apart :
    (x y : Slot)
    → x ≢ y
    → ((offset x + word ≤ offset y) ⊎ (offset y + word ≤ offset x))
      × (offset x + word ≤ size_of_hypervisor_cpu_state + size_of_guest_cpu_state)
offset_apart x y h = ground (arith, offset_by_words x, offset_by_words y, offset_injective x y)
