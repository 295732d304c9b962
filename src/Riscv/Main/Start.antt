-- ===== src/Riscv/Main/Start.antt =====
-- The state in which the RISC-V hypervisor enters its loop.
use app_guestaspace.Base.{
  ℕ, ◌+◌, ◌*◌, ◌/◌, ◌^◌, ◌≤◌, ◌<◌, ◌≡◌, ◌∙◌, refl, ap, true, false, [], List, some, ok, length,
  get_or, arith,
}
use app_guestaspace.Base.Bits.{bit}
use app_guestaspace.Base.Bytes.{to_le_bytes}
use app_guestaspace.Base.Utf8.{is_utf8}
use app_guestaspace.AddrSpace.{AddrSpace, IsLawful, IsMapped, guest_flags, in_range}
use app_guestaspace.AddrSpace.Words.{read_bytes, read_bytes_given}
use app_guestaspace.Loader.{FileSystem, load_guest}
use app_guestaspace.Loader.Preallocated.{IsReader, load_guest-Copied}
use app_guestaspace.Riscv.Csrs.{Csrs, get_value, csr_sie, csr_hvip, csr_hgatp, csr_hstatus}
use app_guestaspace.Riscv.Csrs.Masks.{get_value-write_value_ne}
use app_guestaspace.Riscv.Vcpu
use app_guestaspace.Riscv.Setup.{
  Crates, setup_csrs, virtual_interrupts, prepare_guest_context, prepare_vm_pgtable, vm_entry,
  phy_mem_start, phy_mem_size,
}
use app_guestaspace.Riscv.Setup.Traps.{setup_csrs_lem, prepare_vm_pgtable_lem}
use app_guestaspace.Riscv.Run.{Machine, State}
use app_guestaspace.Riscv.Main.{print_pflash, setup_uspace, riscv64_start, pflash_start}

-- `set_spp` of the crate riscv changes sstatus only.
abbrev pub KeepsTimer : Crates → Type 0
KeepsTimer K =
    (c : Csrs)
    → (get_value csr_hvip (K.set_spp c) ≡ get_value csr_hvip c)
      × (get_value csr_sie (K.set_spp c) ≡ get_value csr_sie c)

image_index : (len i : ℕ) → i < len → in_range vm_entry len (vm_entry + i) ≡ true
image_index len i h = ground arith

in_ram :
    (len a : ℕ)
    → len ≤ 0xE0_0000
    → in_range vm_entry len a ≡ true
    → in_range phy_mem_start phy_mem_size a ≡ true
in_ram len a h p = ground arith

module _ (K : Crates) (keeps : KeepsTimer K) (root : ℕ) (csrs : Csrs) where
  -- The registers after the setup.
  final : Csrs
  unfolding prepare_guest_context
  final = prepare_vm_pgtable root (prepare_guest_context K (setup_csrs csrs) Vcpu.default).0

  final-hvip : get_value csr_hvip final ≡ get_value csr_hvip (setup_csrs csrs)
  unfolding final prepare_guest_context prepare_vm_pgtable
  final-hvip =
      get_value-write_value_ne csr_hgatp csr_hvip _ _ (omega arith)
      ∙ (keeps _).0
      ∙ get_value-write_value_ne csr_hstatus csr_hvip _ _ (omega arith)

  final-sie : get_value csr_sie final ≡ get_value csr_sie (setup_csrs csrs)
  unfolding final prepare_guest_context prepare_vm_pgtable
  final-sie =
      get_value-write_value_ne csr_hgatp csr_sie _ _ (omega arith)
      ∙ (keeps _).1
      ∙ get_value-write_value_ne csr_hstatus csr_sie _ _ (omega arith)

six : bit 6 virtual_interrupts ≡ 1
unfolding virtual_interrupts
six = refl

module _ (A : AddrSpace) (L : IsLawful A) (F : FileSystem) (contents : F.File → List ℕ)
    (R : IsReader F contents) (M : Machine A) (K : Crates) (keeps : KeepsTimer K) where
  -- With an image that fits into the guest's RAM behind the entry point, a new address space, memory
  -- for the RAM, and a pflash word that is text, the hypervisor enters its loop with the RAM mapped,
  -- the image at the entry point, sepc there, the guest's page table in hgatp, neither the guest's
  -- timer interrupt pending nor the host's timer on, no mapping outside the RAM but those of the new
  -- address space, the guest as it was given, nothing written to the UART, the registers of the
  -- context that was prepared, and the memory as the loader has left it.
  pub riscv64_start_lem :
      (device : ℕ → ℕ) (reads : ℕ) (guest : M.Guest) (firmware : M.Firmware) (csrs : Csrs)
      (file : F.File) (n0 n1 : A.Space)
      → is_utf8 (to_le_bytes 4 (device pflash_start)) ≡ true
      → F.open_file "/sbin/gkernel" ≡ some file
      → length (contents file) ≤ 0xE0_0000
      → length (contents file) < 4096 * reads
      → A.new_user_aspace 0x0 0x7fff_ffff_f000 ≡ some n0
      → A.map_alloc phy_mem_start phy_mem_size (guest_flags A) true n0 ≡ some n1
      → ((s : A.Space) → A.page_table_root s < 2 ^ 56)
      → (s : State A M) × (riscv64_start A F M device K reads guest firmware csrs ≡ ok s)
        × (read_bytes A s.uspace vm_entry (length (contents file)) ≡ contents file)
        × ((a : ℕ) → in_range phy_mem_start phy_mem_size a ≡ true → IsMapped A s.uspace a)
        × (s.guest_regs.sepc ≡ vm_entry)
        × (get_value csr_hgatp s.csrs ≡ 8 * 2 ^ 60 + A.page_table_root s.uspace / 4096)
        × (bit 6 (get_value csr_hvip s.csrs) ≡ 0)
        × (bit 5 (get_value csr_sie s.csrs) ≡ 0)
        × ((a : ℕ)
            → in_range phy_mem_start phy_mem_size a ≡ false
            → A.query s.uspace a ≡ A.query n0 a)
        × (s.guest ≡ guest)
        × (s.uart ≡ [])
        × (s.guest_regs ≡ (prepare_guest_context K (setup_csrs csrs) Vcpu.default).1.guest_regs)
        × (load_guest A F vm_entry false reads "/sbin/gkernel" n1 ≡ ok s.uspace)
  unfolding riscv64_start setup_uspace print_pflash prepare_guest_context final
  riscv64_start_lem device reads guest firmware csrs file n0 n1 text opened fits enough created
        allocated roots =
      let ram = λ (a : ℕ) (p : in_range phy_mem_start phy_mem_size a ≡ true).
        L.alloc_inside phy_mem_start phy_mem_size _ n0 n1 a allocated p in
      let (n, ends, copied) =
        load_guest-Copied A F vm_entry false L contents R reads "/sbin/gkernel" file n1 opened
          (λ a p. ram a (in_ram _ a fits p)) enough in
      let after = setup_csrs_lem csrs 6 (omega arith) six in
      (
        record {
          guest = guest;
          guest_regs = (prepare_guest_context K (setup_csrs csrs) Vcpu.default).1.guest_regs;
          csrs = final K keeps (A.page_table_root n) csrs;
          uspace = n;
          firmware = firmware;
          uart = [];
        },
        rw (created, text, allocated, ends),
        read_bytes_given A n vm_entry (contents file) (λ i h.
            copied.0 (vm_entry + i)
            ∙ rw (image_index (length (contents file)) i h)
                (ap (λ (k : ℕ). get_or (contents file) k 0) (omega arith))),
        λ a p. rw (copied.1 a) (ram a p),
        refl,
        prepare_vm_pgtable_lem (A.page_table_root n) _ (roots n),
        ap (bit 6) (final-hvip K keeps (A.page_table_root n) csrs) ∙ after.2,
        ap (bit 5) (final-sie K keeps (A.page_table_root n) csrs) ∙ after.3,
        λ a p. copied.1 a ∙ (L.alloc_outside phy_mem_start phy_mem_size _ n0 n1 a allocated p).0,
        refl,
        refl,
        refl,
        ends,
      )
