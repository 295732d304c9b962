-- ===== src/Aarch64/Main/Boot.antt =====
-- The AArch64 hypervisor from its start to the guest's exit.
use app_guestaspace.Base.{
  ℕ, ◌+◌, ◌-◌, ◌*◌, ◌≤◌, ◌<◌, ◌≡◌, ◌∙◌, refl, true, false, ◌++◌, List, some, none, ok, length,
  arith,
}
use mathlib.Core.List.{flatten}
use app_guestaspace.AddrSpace.{AddrSpace, IsLawful, IsMapped, in_range}
use app_guestaspace.AddrSpace.Words.{read_bytes, read_bytes_given}
use app_guestaspace.Loader.{FileSystem}
use app_guestaspace.Loader.Preallocated.{IsReader}
use app_guestaspace.AddrSpace.Room.{HasRoom}
use app_guestaspace.Loader.Pages.{whole, pages_of}
use app_guestaspace.Loader.Image.{load_vm_image-Loaded}
use app_guestaspace.Payload.{Program, aarch64_greeting, as_bytes}
use app_guestaspace.Aarch64.Vcpu
use app_guestaspace.Aarch64.Run.{
  State, shutdown, RunGuest, guest_context, vm_entry, stack_base, stack_size, page_size_4k,
}
use app_guestaspace.Aarch64.Regs.{GuestState}
use app_guestaspace.Aarch64.Guest.{IsCore, IsEntry}
use app_guestaspace.Aarch64.Guest.Prints.{pflash, run-aarch64_start}
use app_guestaspace.Aarch64.Main.{SystemRegisters, setup_uspace, aarch64_main}

-- The image lies apart from the stack and from pflash.
image_apart :
    (len a : ℕ)
    → len ≤ 0xE0_0000
    → in_range vm_entry len a ≡ true
    → in_range stack_base stack_size a ≡ false
image_apart len a h p = ground arith

stack_apart :
    (len a : ℕ)
    → len ≤ 0xE0_0000
    → in_range stack_base stack_size a ≡ true
    → in_range vm_entry (whole len) a ≡ false
stack_apart len a h p = ground (arith, pages)
  where
    pages : whole len ≤ 0xE0_0000
    pages = omega arith

pflash_apart :
    (len a : ℕ)
    → in_range pflash page_size_4k a ≡ true
    → (in_range vm_entry (whole len) a ≡ false) × (in_range stack_base stack_size a ≡ false)
pflash_apart len a p = (ground arith, ground arith)

image_index : (len i : ℕ) → i < len → in_range vm_entry len (vm_entry + i) ≡ true
image_index len i h = ground arith

module _ (A : AddrSpace) (L : IsLawful A) (F : FileSystem) (contents : F.File → List ℕ)
    (R : IsReader F contents) (H : HasRoom A 0x0 0x4200_0000) (file : F.File) (n0 : A.Space)
    (opened : F.open_file "/sbin/gkernel" ≡ some file) (some_byte : 0 < length (contents file))
    (fits : length (contents file) ≤ 0xE0_0000)
    (created : A.new_user_aspace 0x0 0x4200_0000 ≡ some n0) (fresh : (a : ℕ) → A.query n0 a ≡ none)
    (room : H.Room (pages_of (length (contents file)) + 9) n0) where
  -- With an image that is not empty and ends below the stack, and a new address space with memory
  -- for the pages of the image and 9 more, the setup leaves the image at the entry point in mapped
  -- memory, the stack mapped, the page of pflash not mapped, and memory for one page.
  pub setup_uspace_lem :
      (reads : ℕ)
      → length (contents file) < 4096 * reads
      → (t : A.Space) × (setup_uspace A F reads ≡ ok t)
        × (read_bytes A t vm_entry (length (contents file)) ≡ contents file)
        × ((a : ℕ) → in_range vm_entry (length (contents file)) a ≡ true → IsMapped A t a)
        × ((a : ℕ) → in_range stack_base stack_size a ≡ true → IsMapped A t a)
        × ((a : ℕ) → in_range pflash page_size_4k a ≡ true → A.query t a ≡ none)
        × H.Room 1 t
  unfolding setup_uspace
  setup_uspace_lem reads enough =
      let (n1, ends, loaded, room1) =
        load_vm_image-Loaded A F vm_entry true L contents R 0x0 0x4200_0000 H 9 refl (omega arith)
          reads "/sbin/gkernel" file n0 opened some_byte enough (λ a p. fresh a) room
          (omega (arith, fits)) in
      let (n2, maps, room2) =
        H.allocs 8 1 stack_base n1 (omega arith) refl (omega arith) (omega arith)
          (λ a p. (loaded.1 a (stack_apart _ a fits p)).0 ∙ fresh a) room1 in
      let kept = λ (a : ℕ) (p : in_range vm_entry (length (contents file)) a ≡ true).
        L.alloc_outside stack_base stack_size _ n1 n2 a maps (image_apart _ a fits p) in
      (
        n2,
        rw (created, ends, maps),
        read_bytes_given A n2 vm_entry (contents file) (λ i h.
            let p = image_index (length (contents file)) i h in
            let at : vm_entry + i - vm_entry ≡ i = omega arith in
            (kept (vm_entry + i) p).1 ∙ rw at at (loaded.0 (vm_entry + i) p).0),
        λ a p. rw (kept a p).0 (loaded.0 a p).1,
        λ a p. L.alloc_inside stack_base stack_size _ n1 n2 a maps p,
        λ a p.
            let (off_image, off_stack) = pflash_apart (length (contents file)) a p in
            (L.alloc_outside stack_base stack_size _ n1 n2 a maps off_stack).0
            ∙ (loaded.1 a off_image).0
            ∙ fresh a,
        room2,
      )

  -- With that, a pflash device that holds "pfld", and a core that runs the guest of payload/gkernel
  -- when it is entered as `IsEntry` asks and takes no asynchronous exception meanwhile, the
  -- hypervisor enters the guest so, the guest prints its greeting, the word of pflash in hexadecimal
  -- and the magic text, and the hypervisor leaves its loop by the guest's exit, with TTBR0_EL1 as it
  -- was before.
  pub aarch64_main-prints :
      (G : Type 0) (device : ℕ → ℕ) (core : SystemRegisters → RunGuest A G) (first : G)
      (P : G → GuestState → SystemRegisters → A.Space → Program → Type 0)
      → IsCore A G device core (contents file) first P
      → (reads exits : ℕ) (system : SystemRegisters) → length (contents file) < 4096 * reads
      → device pflash ≡ 0x646c_6670
      → 1000 ≤ exits
      → (t : State A G) × (r : SystemRegisters) × (aarch64_main A F G core reads exits first system
          ≡ ok (shutdown, t, r))
        × (r.ttbr0_el1 ≡ system.ttbr0_el1)
        × (t.console ≡ flatten aarch64_greeting ++ as_bytes "0x646c6670\nGot pflash magic: pfld\n")
  unfolding aarch64_main Vcpu.default guest_context
  aarch64_main-prints G device core first P C reads exits system enough word long =
      let (n, made, code, code_mapped, stack, free, room1) = setup_uspace_lem reads enough in
      let (n1, mapped, _) =
        H.links 1 0 pflash pflash n (omega arith) refl refl (omega arith) (omega arith) free
          room1 in
      let for_guest : SystemRegisters = record system { ttbr0_el1 = A.page_table_root n } in
      let entry : IsEntry A (contents file) guest_context for_guest n = record {
        at_entry = refl;
        at_el0 = refl;
        stack_top = refl;
        stack = stack;
        code = code;
        code_mapped = code_mapped;
        translation = refl;
      } in
      let (t, ends, shown) =
        run-aarch64_start A L G device core (contents file) first P C for_guest exits guest_context
          Vcpu.default.trap n n1 word entry (free pflash refl) mapped long in
      (t, system, rw (made, ends), refl, shown)
