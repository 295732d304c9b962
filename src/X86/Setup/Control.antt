-- ===== src/X86/Setup/Control.antt =====
-- The VMCB that the guest is started with, field by field.
use app_guestaspace.Base.{
  ℕ, ◌+◌, ◌^◌, ◌≤◌, ◌<◌, ◌≡◌, refl, ◌∙◌, sym, ap, true, List, [], ◌∷◌, Outcome, ok, ◌>>=◌,
  >>=-assoc, >>=-ok, arith, All,
}
use app_guestaspace.X86.Vmcb.{Vmcb, new, set_segment, read_field}
use app_guestaspace.X86.Vmcb.Fields.{new-IsVmcb, IsVmcb, Apart, read_field-new}
use app_guestaspace.X86.Vmcb.Table.{
  Field, field, store_all, put_all, Holds, FitsWidth, is_inside, is_disjoint, store_all-eq-put_all,
  put_all-Holds, put_all-IsVmcb, read_field-put_all-Apart,
}
use app_guestaspace.X86.Setup.{build_vmcb, write_control, write_segments, write_registers}

abbrev segment : ℕ → ℕ → ℕ → ℕ → ℕ → List Field → List Field
segment off sel attr limit base rest =
    field 2 off sel
    ∷ field 2 (off + 2) attr
    ∷ field 4 (off + 4) limit
    ∷ field 8 (off + 8) base
    ∷ rest

-- The control block that the guest starts with, as a table: width, offset and value of each field.
abbrev pub guest_table : ℕ → ℕ → ℕ → List Field
guest_table iopm_pa msrpm_pa npt_root_pa =
    field 4 0x010 3
    ∷ field 8 0x040 iopm_pa
    ∷ field 8 0x048 msrpm_pa
    ∷ field 4 0x058 1
    ∷ field 8 0x090 1
    ∷ field 8 0x0B0 npt_root_pa
    ∷ (segment 0x410 0x10 0x0A9B 0xFFFF_FFFF 0 (
        segment 0x430 0x18 0x0C93 0xFFFF_FFFF 0 (
          segment 0x400 0x18 0x0C93 0xFFFF_FFFF 0 (
            segment 0x420 0x18 0x0C93 0xFFFF_FFFF 0 (
              segment 0x440 0 0 0 0 (
                segment 0x450 0 0 0 0 (
                  segment 0x460 0 0 31 0x5000 (
                    segment 0x480 0 0 0xFFF 0 (
                      segment 0x490 0 0x008B 0x67 0 (
                        segment 0x470 0 0x0082 0 0 (
                          field 8 0x558 0x8001_0011
                          ∷ field 8 0x550 0x1000
                          ∷ field 8 0x548 0x00A0
                          ∷ field 8 0x4D0 0x1D00
                          ∷ field 8 0x568 0xFFFF_0FF0
                          ∷ field 8 0x560 0x0400
                          ∷ field 8 0x570 2
                          ∷ field 8 0x578 0x10000
                          ∷ field 8 0x5D8 0x80000
                          ∷ [])))))))))))

abbrev read_or_panic : ℕ → ℕ → Outcome Vmcb → Outcome ℕ
read_or_panic m at o = do vm ← o; read_field m at vm

module _ (iopm_pa msrpm_pa npt_root_pa : ℕ) where
  build_vmcb-eq-store_all :
      build_vmcb iopm_pa msrpm_pa npt_root_pa
      ≡ store_all (guest_table iopm_pa msrpm_pa npt_root_pa) new
  unfolding build_vmcb write_control write_segments write_registers set_segment
  build_vmcb-eq-store_all = simp (>>=-assoc, >>=-ok)

  guest_table-is_inside : is_inside (guest_table iopm_pa msrpm_pa npt_root_pa) ≡ true
  guest_table-is_inside = refl

  guest_table-is_disjoint : is_disjoint (guest_table iopm_pa msrpm_pa npt_root_pa) ≡ true
  guest_table-is_disjoint = refl

  guest_table-FitsWidth :
      iopm_pa < 2 ^ 64
      → msrpm_pa < 2 ^ 64
      → npt_root_pa < 2 ^ 64
      → All FitsWidth (guest_table iopm_pa msrpm_pa npt_root_pa)
  guest_table-FitsWidth a b c = omega arith

  abbrev table : List Field
  table = guest_table iopm_pa msrpm_pa npt_root_pa

  -- For physical addresses of 64 bits the control block is built without a panic and keeps its size,
  -- and each field of the table then reads as the table says.
  pub build_vmcb_lem :
      iopm_pa < 2 ^ 64
      → msrpm_pa < 2 ^ 64
      → npt_root_pa < 2 ^ 64
      → (vm : Vmcb) × (build_vmcb iopm_pa msrpm_pa npt_root_pa ≡ ok vm)
        × IsVmcb vm
        × All (Holds vm) (guest_table iopm_pa msrpm_pa npt_root_pa)
  build_vmcb_lem a b c = (
    put_all table new,
    build_vmcb-eq-store_all ∙ store_all-eq-put_all table new new-IsVmcb guest_table-is_inside,
    put_all-IsVmcb table new new-IsVmcb guest_table-is_inside,
    put_all-Holds table new new-IsVmcb guest_table-is_inside guest_table-is_disjoint
        (guest_table-FitsWidth a b c),
  )

  -- What lies in the control block and apart from all fields of the table is zero.
  pub build_vmcb_rest :
      (vm : Vmcb) (m at : ℕ)
      → build_vmcb iopm_pa msrpm_pa npt_root_pa ≡ ok vm
      → at + m ≤ 4096
      → All (λ w. Apart w.width w.off m at) (guest_table iopm_pa msrpm_pa npt_root_pa)
      → read_field m at vm ≡ ok 0
  build_vmcb_rest vm m at e fits apart =
      ap (read_or_panic m at) (
        sym e
        ∙ build_vmcb-eq-store_all
        ∙ store_all-eq-put_all table new new-IsVmcb guest_table-is_inside)
      ∙ read_field-put_all-Apart m at table new new-IsVmcb guest_table-is_inside apart
      ∙ read_field-new m at fits
