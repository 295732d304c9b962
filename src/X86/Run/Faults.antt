-- ===== src/X86/Run/Faults.antt =====
-- What the x86_64 loop does at a nested page fault.
use app_guestaspace.Base.{
  ℕ, ◌+◌, ◌*◌, ◌/◌, ◌^◌, ◌<◌, ◌≡◌, refl, ◌∙◌, ap, [], ◌∷◌, Bool, true, false, none, some, ok, panic,
  ◌>>=◌, arith, inl, inr, if◌then◌else◌, bit_and, Bool-cases, get_or, expect,
}
use app_guestaspace.Base.Bits.{bit_and_high}
use app_guestaspace.Base.Bytes.{to_le_bytes, from_le_bytes}
use app_guestaspace.AddrSpace.{AddrSpace, IsLawful, IsMapped, guest_flags, in_range}
use app_guestaspace.X86.Vmcb.{exit_code, exit_info2, vmexit_npf}
use app_guestaspace.X86.Run.{
  State, resume, handle_npf, handle_exit, is_pflash, page_size_4k, pflash_magic,
}

-- The page of an address.
abbrev pub page_of : ℕ → ℕ
page_of a = a / 4096 * 4096

pub bit_and-page : (a : ℕ) → a < 2 ^ 64 → bit_and a 0xFFFF_FFFF_FFFF_F000 ≡ page_of a
bit_and-page a h = bit_and_high 12 52 a h

-- The four bytes at an address as the guest reads them.
abbrev pub read_u32 : (A : AddrSpace) → A.Space → ℕ → ℕ
read_u32 A n a =
    from_le_bytes
      (A.byte_at n a ∷ A.byte_at n (a + 1) ∷ A.byte_at n (a + 2) ∷ A.byte_at n (a + 3) ∷ [])

module _ (A : AddrSpace) (G : Type 0) (s : State A G) (fault : ℕ)
    (faulted : exit_code s.vmcb ≡ ok vmexit_npf) (at_fault : exit_info2 s.vmcb ≡ ok fault)
    (is_word : fault < 2 ^ 64) where
  handle_exit-npf : handle_exit A G s ≡ (do
    npt1 ← expect (A.map_alloc (page_of fault) page_size_4k (guest_flags A) true s.npt)
    if is_pflash (page_of fault)
        then (do
          npt2 ← expect (A.write (page_of fault) (to_le_bytes 4 pflash_magic) npt1)
          ok (resume (record s { npt = npt2 })))
        else ok (resume (record s { npt = npt1 })))
  unfolding handle_exit handle_npf
  handle_exit-npf = rw (faulted, at_fault, bit_and-page fault is_word)

  -- Where the page cannot be mapped, as when it is mapped already, the hypervisor panics.
  pub handle_exit-npf_panic :
      A.map_alloc (page_of fault) page_size_4k (guest_flags A) true s.npt ≡ none
      → handle_exit A G s ≡ panic
  handle_exit-npf_panic h = handle_exit-npf ∙ rw h

  module _ (L : IsLawful A) (npt1 : A.Space)
      (mapped : A.map_alloc (page_of fault) page_size_4k (guest_flags A) true s.npt
        ≡ some npt1) where
    pub magic_fits :
        (npt2 : A.Space) × (A.write (page_of fault) (to_le_bytes 4 pflash_magic) npt1 ≡ some npt2)
    magic_fits =
        L.write_mapped (page_of fault) (to_le_bytes 4 pflash_magic) npt1
          (λ a h. L.alloc_inside (page_of fault) page_size_4k _ s.npt npt1 a mapped (ground arith))

    -- The nested page table after the exit.
    pub after_npf : A.Space
    after_npf = if is_pflash (page_of fault) then magic_fits.0 else npt1

    pub resumes : handle_exit A G s ≡ ok (resume (record s { npt = after_npf }))
    unfolding after_npf
    resumes = handle_exit-npf ∙ rw (mapped, magic_fits.1) (by_region (is_pflash (page_of fault)))
      where
        by_region :
            (b : Bool)
            → (if b
                then ok (resume (record s { npt = magic_fits.0 }))
                else ok (resume (record s { npt = npt1 })))
              ≡ ok (resume (record s { npt = if b then magic_fits.0 else npt1 }))
        by_region true = refl
        by_region false = refl

    root-after_npf : A.page_table_root after_npf ≡ A.page_table_root npt1
    unfolding after_npf
    root-after_npf = elim (Bool-cases (is_pflash (page_of fault))) [
      | inl p ↦ rw p (L.write_root _ _ npt1 magic_fits.0 magic_fits.1)
      | inr p ↦ rw p
    ]

    query-after_npf : (b : ℕ) → A.query after_npf b ≡ A.query npt1 b
    unfolding after_npf
    query-after_npf b = elim (Bool-cases (is_pflash (page_of fault))) [
      | inl p ↦ rw p (L.write_query _ _ npt1 magic_fits.0 b magic_fits.1)
      | inr p ↦ rw p
    ]

    byte_at-after_npf :
        (b : ℕ) → in_range (page_of fault) 4 b ≡ false → A.byte_at after_npf b ≡ A.byte_at npt1 b
    unfolding after_npf
    byte_at-after_npf b out = elim (Bool-cases (is_pflash (page_of fault))) [
      | inl p ↦ rw p (L.write_outside _ _ npt1 magic_fits.0 b magic_fits.1 out)
      | inr p ↦ rw p
    ]

    byte_at-magic :
        (k a : ℕ)
        → k < 4
        → a ≡ page_of fault + k
        → A.byte_at magic_fits.0 a ≡ get_or (to_le_bytes 4 pflash_magic) k 0
    byte_at-magic k a h e =
        L.write_inside (page_of fault) (to_le_bytes 4 pflash_magic) npt1 magic_fits.0 a magic_fits.1
          (ground arith)
        ∙ ap (λ (i : ℕ). get_or (to_le_bytes 4 pflash_magic) i 0) (omega arith)

    magic-after_npf :
        is_pflash (page_of fault) ≡ true → read_u32 A after_npf (page_of fault) ≡ pflash_magic
    unfolding after_npf
    magic-after_npf h = rw h (
        omega (
          arith,
          byte_at-magic 0 (page_of fault) (omega arith) (omega arith),
          byte_at-magic 1 (page_of fault + 1) (omega arith) refl,
          byte_at-magic 2 (page_of fault + 2) (omega arith) refl,
          byte_at-magic 3 (page_of fault + 3) (omega arith) refl,
        ))

    IsMapped-after_npf : IsMapped A after_npf fault
    IsMapped-after_npf =
        rw query-after_npf (L.alloc_inside _ _ _ s.npt npt1 fault mapped (ground arith))

    -- The same for every address, with the magic number where the page is one of pflash.
    pub after_npf-kept :
        (t : State A G) × (handle_exit A G s ≡ ok (resume t))
        × (t ≡ record s { npt = t.npt })
        × (A.page_table_root t.npt ≡ A.page_table_root s.npt)
        × IsMapped A t.npt fault
        × ((b : ℕ)
            → in_range (page_of fault) page_size_4k b ≡ false
            → (A.query t.npt b ≡ A.query s.npt b) × (A.byte_at t.npt b ≡ A.byte_at s.npt b))
        × (is_pflash (page_of fault) ≡ true → read_u32 A t.npt (page_of fault) ≡ pflash_magic)
    after_npf-kept = (
      record s { npt = after_npf },
      resumes,
      refl,
      root-after_npf ∙ L.alloc_root _ _ _ s.npt npt1 mapped,
      IsMapped-after_npf,
      λ b out.
          let apart = L.alloc_outside _ _ _ s.npt npt1 b mapped out in
          (query-after_npf b ∙ apart.0, byte_at-after_npf b (ground arith) ∙ apart.1),
      magic-after_npf,
    )

    -- A nested page fault on a page that can be mapped resumes the guest with that page mapped and
    -- nothing else changed: no other address is mapped or written, and VMCB, registers and console
    -- are as they were.
    pub handle_exit-npf_maps :
        (b : ℕ)
        → in_range (page_of fault) page_size_4k b ≡ false
        → (t : State A G) × (handle_exit A G s ≡ ok (resume t))
          × (t ≡ record s { npt = t.npt })
          × IsMapped A t.npt fault
          × (A.query t.npt b ≡ A.query s.npt b)
          × (A.byte_at t.npt b ≡ A.byte_at s.npt b)
    handle_exit-npf_maps b out = (
      record s { npt = after_npf },
      resumes,
      refl,
      IsMapped-after_npf,
      query-after_npf b ∙ apart.0,
      byte_at-after_npf b (ground arith) ∙ apart.1,
    )
      where
        apart : (A.query npt1 b ≡ A.query s.npt b) × (A.byte_at npt1 b ≡ A.byte_at s.npt b)
        apart = L.alloc_outside _ _ _ s.npt npt1 b mapped out

    -- In the pflash region the guest, resumed with the page mapped and nothing else of its state
    -- changed, reads the magic number at the start of the page.
    pub handle_exit-npf_magic :
        is_pflash (page_of fault) ≡ true
        → (t : State A G) × (handle_exit A G s ≡ ok (resume t))
          × (t ≡ record s { npt = t.npt })
          × IsMapped A t.npt fault
          × (read_u32 A t.npt (page_of fault) ≡ pflash_magic)
    unfolding after_npf
    handle_exit-npf_magic h =
        (record s { npt = after_npf }, resumes, refl, IsMapped-after_npf, magic-after_npf h)
