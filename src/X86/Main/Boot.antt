-- ===== src/X86/Main/Boot.antt =====
-- The x86_64 hypervisor from its start to the guest's shutdown.
use app_guestaspace.Base.{
  ℕ, ◌+◌, ◌-◌, ◌*◌, ◌^◌, ◌≤◌, ◌<◌, ◌≡◌, ◌≢◌, ◌∙◌, ap, ◌++◌, some, none, ok, panic, ==_ne, length,
  bit_or, bit_and, arith, inl, inr, true, refl, List, All_get, ◌%◌,
}
use Prim.Native.Nat.{max}
use mathlib.Core.List.{flatten}
use app_guestaspace.Base.Bits.{bit, bit-bit_and, bit_and-pow, bit-bit_or, bit_or-lt, bit-le-one}
use app_guestaspace.AddrSpace.{AddrSpace, IsLawful, in_range}
use app_guestaspace.Loader.{FileSystem}
use app_guestaspace.Loader.Preallocated.{IsReader}
use app_guestaspace.Payload.{Program, x86_64_greeting, as_bytes}
use app_guestaspace.X86.Memory.{guest_ram_size}
use app_guestaspace.X86.Setup.{build_vmcb}
use app_guestaspace.X86.Setup.Control.{build_vmcb_lem, guest_table}
use app_guestaspace.X86.Svm.{
  Cpuid, Msrs, SvmGuestGprs, msr_efer, msr_vm_hsave_pa, efer_svme, rdmsr, wrmsr,
}
use app_guestaspace.X86.Svm.Halves.{rdmsr_lem, wrmsr_self, wrmsr_ne}
use app_guestaspace.X86.Run.{State, Vmrun, shutdown}
use app_guestaspace.X86.Guest.{IsEntry, IsProcessor}
use app_guestaspace.X86.Guest.Prints.{pflash}
use app_guestaspace.AddrSpace.Room.{HasRoom}
use app_guestaspace.Loader.Keeps.{KeptByWrite}
use app_guestaspace.X86.Main.Keeps.{setup_npt-kept}
use app_guestaspace.X86.Memory.Tables.{RamMapped}
use app_guestaspace.X86.Memory.Tables.Walk.{walk_identity}
use app_guestaspace.X86.Vmcb.{Vmcb}
use app_guestaspace.X86.Vmcb.Table.{Field, field, Holds}
use app_guestaspace.X86.Svm
use app_guestaspace.X86.Guest.Boot.{run-x86_64_start}
use app_guestaspace.X86.Main.{HostPages, enable_svm, setup_npt, x86_64_main}
use app_guestaspace.X86.Main.Ready.{setup_npt_lem}

module _ (cpuid : Cpuid) (pages : HostPages) (msrs : Msrs) where
  -- On a processor without SVM, bit 2 of ECX, the hypervisor panics.
  pub enable_svm-eq-panic : bit 2 (cpuid 0x8000_0001).2 ≡ 0 → enable_svm cpuid pages msrs ≡ panic
  unfolding enable_svm
  enable_svm-eq-panic h =
      let none_set : bit_and (cpuid 0x8000_0001).2 (2 ^ 2) ≡ 0 =
        bit_and-pow 2 (cpuid 0x8000_0001).2 ∙ omega arith in
      rw none_set

  has_svm : bit 2 (cpuid 0x8000_0001).2 ≡ 1 → bit_and (cpuid 0x8000_0001).2 (2 ^ 2) ≢ 0
  has_svm h e = omega (arith, bit-bit_and 2 (cpuid 0x8000_0001).2 (2 ^ 2), ap (bit 2) e)

  -- On a processor with SVM, with an EFER and a save page of 64 bits, the SVME bit of EFER is set,
  -- every other bit of EFER is kept, the host's save page is given, and no other register changes.
  pub enable_svm_lem :
      (k m : ℕ)
      → bit 2 (cpuid 0x8000_0001).2 ≡ 1
      → msrs msr_efer < 2 ^ 64
      → pages.host_save_pa < 2 ^ 64
      → m ≢ msr_efer
      → m ≢ msr_vm_hsave_pa
      → (f : Msrs) × (enable_svm cpuid pages msrs ≡ ok f)
        × (bit k (f msr_efer) ≡ max (bit k (msrs msr_efer)) (bit k (2 ^ 12)))
        × (f msr_vm_hsave_pa ≡ pages.host_save_pa)
        × (f m ≡ msrs m)
  unfolding enable_svm
  enable_svm_lem k m h word page ne ne' =
      let old = rdmsr_lem msr_efer msrs word in
      let small : bit_or (rdmsr msr_efer msrs) efer_svme < 2 ^ 64 =
        bit_or-lt 64 _ efer_svme (omega arith) (omega arith) in
      let inner = wrmsr msr_efer (bit_or (rdmsr msr_efer msrs) efer_svme) msrs in
      (
        wrmsr msr_vm_hsave_pa pages.host_save_pa inner,
        rw (==_ne _ 0 (has_svm h)),
        ap (bit k) (
              wrmsr_ne msr_vm_hsave_pa pages.host_save_pa msr_efer inner (omega arith)
              ∙ wrmsr_self msr_efer _ msrs small)
            ∙ bit-bit_or k (rdmsr msr_efer msrs) efer_svme
            ∙ ap (λ (e : ℕ). max (bit k e) (bit k (2 ^ 12))) old,
        wrmsr_self msr_vm_hsave_pa pages.host_save_pa inner page,
        wrmsr_ne msr_vm_hsave_pa pages.host_save_pa m inner ne' ∙ wrmsr_ne msr_efer _ m msrs ne,
      )

  module _ (A : AddrSpace) (L : IsLawful A) (F : FileSystem) (contents : F.File → List ℕ)
      (R : IsReader F contents) (H : HasRoom A 0x0 0x1_0000_0000) (file : F.File) (n0 : A.Space)
      (svm : bit 2 (cpuid 0x8000_0001).2 ≡ 1) (efer : msrs msr_efer < 2 ^ 64)
      (save : pages.host_save_pa < 2 ^ 64) (save_page : pages.host_save_pa % 4096 ≡ 0)
      (iopm : pages.iopm_pa < 2 ^ 64) (msrpm : pages.msrpm_pa < 2 ^ 64)
      (opened : F.open_file "/sbin/gkernel" ≡ some file) (fits : length (contents file) ≤ 0x1F_0000)
      (created : A.new_user_aspace 0x0 0x1_0000_0000 ≡ some n0)
      (fresh : (a : ℕ) → A.query n0 a ≡ none) (room : H.Room (512 + 1) n0)
      (roots : (s : A.Space) → A.page_table_root s < 2 ^ 64) where
    -- On a processor with SVM, with an image that fits into the guest's RAM and a new address space
    -- with memory for the RAM and one page, every step before the loop succeeds, and what they leave
    -- is what the guest's first instruction needs: SVM on, intercepts, nested paging with the page
    -- table of the space, long mode, page tables that map RAM and pflash to themselves, and the RAM
    -- with the image. Nothing behind the RAM is mapped.
    pub x86_64_main-IsEntry :
        (reads : ℕ)
        → length (contents file) < 4096 * reads
        → (f : Msrs) × (n : A.Space) × (vm : Vmcb) × (enable_svm cpuid pages msrs ≡ ok f)
          × (setup_npt A F reads ≡ ok n)
          × (build_vmcb pages.iopm_pa pages.msrpm_pa (A.page_table_root n) ≡ ok vm)
          × IsEntry A (contents file) f vm n
          × ((a : ℕ) → A.query n (guest_ram_size + a) ≡ none)
          × H.Room 1 n
    x86_64_main-IsEntry reads enough =
        let (n1, allocated, room1) =
          H.allocs 512 1 0x0 n0 (omega arith) refl (omega arith) (omega arith) (λ a p. fresh a)
            room in
        let (f, enabled, svme, hsave, _) =
          enable_svm_lem 12 0 svm efer save (omega arith) (omega arith) in
        let (n, made, stored, _, code, _, free) =
          setup_npt_lem A L F contents R file n0 n1 opened fits created fresh allocated reads 0
            enough (inl (omega arith)) in
        let (vm, built, valid, held) =
          build_vmcb_lem pages.iopm_pa pages.msrpm_pa (A.page_table_root n) iopm msrpm (roots n) in
        let at = λ (i : ℕ) (w : Field).
          All_get (Holds vm) (guest_table pages.iopm_pa pages.msrpm_pa (A.page_table_root n)) i w
            held in
        let kept = λ (Q : A.Space → Type 0) (K : KeptByWrite A Q).
          setup_npt-kept A Q K F reads n0 n1 n created allocated made in
        (
          f,
          n,
          vm,
          enabled,
          made,
          built,
          record {
            svm = svme ∙ omega (arith, bit-le-one 12 (msrs msr_efer));
            save_area = rw hsave save_page;
            valid = valid;
            intercepts = at 0 (field 4 0x010 3) refl;
            asid = at 3 (field 4 0x058 1) refl;
            np_enable = at 4 (field 8 0x090 1) refl;
            n_cr3 = at 5 (field 8 0x0B0 (A.page_table_root n)) refl;
            cs_attrib = at 7 (field 2 0x412 0x0A9B) refl;
            efer = at 49 (field 8 0x4D0 0x1D00) refl;
            cr4 = at 48 (field 8 0x548 0x00A0) refl;
            cr3 = at 47 (field 8 0x550 0x1000) refl;
            cr0 = at 46 (field 8 0x558 0x8001_0011) refl;
            rip = at 53 (field 8 0x578 0x10000) refl;
            rsp = at 54 (field 8 0x5D8 0x80000) refl;
            tables = λ va covered. walk_identity A n va stored covered;
            ram =
                kept (RamMapped A)
                  (λ start buf s t wrote mapped a low.
                    rw (L.write_query start buf s t a wrote) (mapped a low))
                  (λ a low. L.alloc_inside 0x0 guest_ram_size _ n0 n1 a allocated (ground arith));
            code = code;
          },
          free,
          kept (H.Room 1) (H.writes 1) room1,
        )

    -- On a processor with SVM, with an image that fits into the guest's RAM and a new address space
    -- with memory for the RAM and one page, and with a processor that runs the guest of
    -- payload/gkernel when it is entered as `IsEntry` asks, the hypervisor enters the guest so, the
    -- guest prints its greeting, the word of pflash in hexadecimal and the magic text, and the
    -- hypervisor leaves its loop by the guest's shutdown, with SVM on in EFER.
    pub x86_64_main-prints :
        (G : Type 0) (vmrun : Msrs → Vmrun A G) (first : G)
        (P : Msrs → G → Vmcb → SvmGuestGprs → A.Space → Program → Type 0)
        → IsProcessor A G vmrun (contents file) first P
        → (reads exits : ℕ) → length (contents file) < 4096 * reads
        → 1000 ≤ exits
        → (t : State A G) × (f : Msrs) × (x86_64_main A F G vmrun cpuid pages reads exits first msrs
            ≡ ok (shutdown, t, f))
          × (bit 12 (f msr_efer) ≡ 1)
          × (t.console ≡ flatten x86_64_greeting ++ as_bytes "0x646c6670\nGot pflash magic: pfld\n")
    unfolding x86_64_main
    x86_64_main-prints G vmrun first P C reads exits enough long =
        let (f, n, vm, enabled, made, built, entry, free, room1) =
          x86_64_main-IsEntry reads enough in
        let unmapped = λ (a : ℕ) (p : in_range pflash 4096 a ≡ true).
          let at : guest_ram_size + (a - guest_ram_size) ≡ a = ground arith in
          rw at at (free (a - guest_ram_size)) in
        let (n2, maps, _) =
          H.allocs 1 0 pflash n (omega arith) refl (omega arith) (omega arith) unmapped room1 in
        let (t, ends, shown) =
          run-x86_64_start A L G vmrun (contents file) first P C f exits vm Svm.new n entry
            (inr (n2, unmapped pflash refl, maps)) long in
        (t, f, rw (enabled, made, built, ends), entry.svm, shown)
