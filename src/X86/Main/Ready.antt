-- ===== src/X86/Main/Ready.antt =====
-- The guest's memory as the x86_64 hypervisor makes it.
use app_guestaspace.Base.{
  ℕ, ◌+◌, ◌*◌, ◌≤◌, ◌<◌, ◌≡◌, refl, ◌∙◌, ap, List, [], ◌∷◌, Bool, true, false, some, none, ok, leb,
  length, get_or, All, all, arith,
}
use app_guestaspace.AddrSpace.{AddrSpace, IsLawful, guest_flags, in_range}
use app_guestaspace.AddrSpace.Words.{read_bytes, read_u64, read_u64-eq, read_bytes_given}
use app_guestaspace.Loader.{FileSystem}
use app_guestaspace.Loader.Preallocated.{IsReader, Copied, load_guest-Copied}
use app_guestaspace.X86.Memory.{alloc_ram, guest_ram_size}
use app_guestaspace.X86.Memory.Tables.{
  Word, page_table_words, gdt_words, RamMapped, Stored, Storing, store_words-Storing,
  write_page_tables-eq-store_words, write_gdt-eq-store_words, and_left, and_right, apart_word,
}
use app_guestaspace.X86.Memory.Tables.Walk.{Covered, walk, walk_identity}
use app_guestaspace.X86.Setup.{vm_entry}
use app_guestaspace.X86.Main.{setup_npt}

-- The word lies below the guest's entry point.
abbrev is_below : Word → Bool
is_below w = leb (w.at + 8) vm_entry

module _ (A : AddrSpace) (L : IsLawful A) where
  -- Words below the image are as they were before it was copied.
  Stored-Copied :
      (ws : List Word) (image : List ℕ) (s t : A.Space)
      → Copied A vm_entry image s t
      → all is_below ws ≡ true
      → All (Stored A s) ws
      → All (Stored A t) ws
  Stored-Copied [] image s t c below held = tt
  Stored-Copied (w ∷ ws) image s t c below held = (
    read_u64-eq A s t w.at (λ i h. c.0 (w.at + i) ∙ rw (outside i h)) ∙ held.0,
    Stored-Copied ws image s t c (and_right (is_below w) (all is_below ws) below) held.1,
  )
    where
      outside : (i : ℕ) → i < 8 → in_range vm_entry (length image) (w.at + i) ≡ false
      outside i h = ground (arith, and_left (is_below w) (all is_below ws) below)

  -- Words that lie apart from those written are as they were.
  Stored-Storing :
      (ws vs : List Word) (s t : A.Space)
      → Storing A L vs s t
      → all (λ w. all (apart_word w.at) vs) ws ≡ true
      → All (Stored A s) ws
      → All (Stored A t) ws
  Stored-Storing [] vs s t x h held = tt
  Stored-Storing (w ∷ ws) vs s t x h held = (
    x.kept w.at (and_left _ (all (λ w. all (apart_word w.at) vs) ws) h) ∙ held.0,
    Stored-Storing ws vs s t x (and_right (all (apart_word w.at) vs) _ h) held.1,
  )

  image_read :
      (image : List ℕ) (s t : A.Space)
      → Copied A vm_entry image s t
      → read_bytes A t vm_entry (length image) ≡ image
  image_read image s t c =
      read_bytes_given A t vm_entry image (λ i h.
        c.0 (vm_entry + i) ∙ rw (inside i h) (ap (λ (k : ℕ). get_or image k 0) (omega arith)))
    where
      inside : (i : ℕ) → i < length image → in_range vm_entry (length image) (vm_entry + i) ≡ true
      inside i h = ground arith

  module _ (F : FileSystem) (contents : F.File → List ℕ) (R : IsReader F contents) (file : F.File)
      (n0 n1 : A.Space) (opened : F.open_file "/sbin/gkernel" ≡ some file)
      (fits : length (contents file) ≤ 0x1F_0000)
      (created : A.new_user_aspace 0x0 0x1_0000_0000 ≡ some n0)
      (fresh : (a : ℕ) → A.query n0 a ≡ none)
      (allocated : A.map_alloc 0x0 guest_ram_size (guest_flags A) true n0 ≡ some n1) where
    ram_mapped : RamMapped A n1
    ram_mapped a h = L.alloc_inside 0x0 guest_ram_size _ n0 n1 a allocated (ground arith)

    -- An image that fits into the guest's RAM, in a new address space: the setup leaves the page
    -- tables, the descriptor table and, at the entry point, the image in the guest's memory; the
    -- guest's virtual addresses in its RAM and in the first 2 MB of pflash are its physical ones;
    -- and nothing behind the RAM is mapped.
    pub setup_npt_lem :
        (reads va : ℕ)
        → length (contents file) < 4096 * reads
        → Covered va
        → (t : A.Space) × (setup_npt A F reads ≡ ok t)
          × All (Stored A t) page_table_words
          × All (Stored A t) gdt_words
          × (read_bytes A t vm_entry (length (contents file)) ≡ contents file)
          × (walk (read_u64 A t) 0x1000 va ≡ some va)
          × ((a : ℕ) → A.query t (guest_ram_size + a) ≡ none)
    unfolding setup_npt alloc_ram
    setup_npt_lem reads va enough covered =
        let (n2, made2, x2) = store_words-Storing A L page_table_words n1 ram_mapped refl refl in
        let mapped2 : RamMapped A n2 = λ a h. rw (x2.query a) (ram_mapped a h) in
        let (n3, made3, x3) = store_words-Storing A L gdt_words n2 mapped2 refl refl in
        let mapped3 : RamMapped A n3 = λ a h. rw (x3.query a) (mapped2 a h) in
        let (t, loaded, copied) =
          load_guest-Copied A F vm_entry false L contents R reads "/sbin/gkernel" file n3 opened
            (λ a h. mapped3 a (ground arith)) enough in
        let tables =
          Stored-Copied page_table_words (contents file) n3 t copied refl
            (Stored-Storing page_table_words gdt_words n2 n3 x3 refl x2.stored) in
        (
          t,
          rw
              (
                created,
                allocated,
                write_page_tables-eq-store_words A n1,
                made2,
                write_gdt-eq-store_words A n2,
                made3,
              )
              loaded,
          tables,
          Stored-Copied gdt_words (contents file) n3 t copied refl x3.stored,
          image_read (contents file) n3 t copied,
          walk_identity A t va tables covered,
          λ a.
              copied.1 (guest_ram_size + a)
              ∙ x3.query (guest_ram_size + a)
              ∙ x2.query (guest_ram_size + a)
              ∙ (L.alloc_outside 0x0 guest_ram_size _ n0 n1 (guest_ram_size + a) allocated
                  (ground arith)).0
              ∙ fresh (guest_ram_size + a),
        )
