-- ===== src/Loader/Image.antt =====
-- The loader of src/loader.rs succeeds on an image that is not empty.
use app_guestaspace.Base.{
  ℕ, zero, suc, ◌+◌, ◌-◌, ◌*◌, ◌%◌, ◌≤◌, ◌<◌, ◌≡◌, ◌≢◌, refl, ◌∙◌, ap, Bool, true, false, List,
  none, some, ok, ◌==◌, ltb, length, take, drop, length-take, length-drop, arith, Bool-cases,
  Option-cases, inl, inr, take_all,
}
use mathlib.Core.Path.{subst}
use Prim.Native.Nat.{min}
use Prim.Native.String.{String}
use app_guestaspace.AddrSpace.{AddrSpace, IsLawful, in_range}
use app_guestaspace.AddrSpace.Room.{HasRoom}
use app_guestaspace.Loader.{FileSystem, load_pages, load_vm_image, page_size_4k}
use app_guestaspace.Loader.Preallocated.{IsReader, not_short, is_short}
use app_guestaspace.Loader.Pages.{
  whole, pages_of, Loaded, in_page, page-Loaded, clean_page-ok, join-Loaded,
}

-- The pages of the rest lie behind the first one.
in_image :
    (va len a : ℕ)
    → (min 4096 len == 0) ≡ false
    → in_range va 4096 a ≡ true
    → in_range va (whole len) a ≡ true
in_image va len a some_left p = ground (arith, some_page)
  where
    some_page : 4096 ≤ whole len
    some_page = omega (arith, positive)
      where
        positive : 0 < len
        positive = ground arith

empty_range : (va len a : ℕ) → len ≡ 0 → in_range va len a ≢ true
empty_range va len a h p = ground arith

no_bytes : (n len : ℕ) → n ≡ min 4096 len → (n == 0) ≡ true → len ≡ 0
no_bytes n len e h = ground arith

first_in_page : (va : ℕ) → in_range va 4096 va ≡ true
first_in_page va = ground arith

one_more : (len : ℕ) → (min 4096 len == 0) ≡ false → 4096 ≤ whole len
one_more len h = omega (arith, positive)
  where
    positive : 0 < len
    positive = ground arith

pages_rest : (len rest : ℕ) → rest ≡ len - 4096 → 4096 ≤ len → pages_of len - 1 ≡ pages_of rest
pages_rest len rest e long = omega arith

whole_rest : (len : ℕ) → 4096 ≤ len → whole len ≡ whole (len - 4096) + 4096
whole_rest len h = omega arith

first_byte : (va len : ℕ) → 0 < len → in_range va len va ≡ true
first_byte va len h = ground arith

-- The pages of the rest.
rest_in_image :
    (entry offset len w a : ℕ)
    → w ≡ whole (len - 4096)
    → 4096 ≤ len
    → in_range (entry + (offset + 4096)) w a ≡ true
    → (in_range (entry + offset) (whole len) a ≡ true) × (in_range (entry + offset) 4096 a ≡ false)
rest_in_image entry offset len w a h long p = (ground (arith, whole_rest len long), ground arith)

module _ (A : AddrSpace) (F : FileSystem) (vm_entry : ℕ) (is_aarch64 : Bool) (L : IsLawful A)
    (contents : F.File → List ℕ) (R : IsReader F contents) (low high : ℕ) (H : HasRoom A low high)
    (left : ℕ) (aligned_at : vm_entry % 4096 ≡ 0) (from : low ≤ vm_entry) where
  abbrev Finishes : ℕ → F.File → ℕ → A.Space → Type 0
  Finishes fuel file offset s =
      (t : A.Space) × (load_pages A F vm_entry is_aarch64 fuel file offset s ≡ ok t)
      × Loaded A (vm_entry + offset) (contents file) s t
      × H.Room left t

  -- Memory for what is still to be read, in the range of the space.
  abbrev HasPlace : F.File → ℕ → A.Space → Type 0
  HasPlace file offset s =
      H.Room (pages_of (length (contents file)) + left) s
      × (vm_entry + offset + whole (length (contents file)) ≤ high)

  -- No page of what is still to be read is mapped.
  abbrev Free : F.File → ℕ → A.Space → Type 0
  Free file offset s =
      (a : ℕ)
      → in_range (vm_entry + offset) (whole (length (contents file))) a ≡ true
      → A.query s a ≡ none

  load_pages_round :
      (fuel : ℕ) (file : F.File) (offset : ℕ) (s : A.Space)
      → offset % 4096 ≡ 0
      → Free file offset s
      → HasPlace file offset s
      → length (contents file) < 4096 * suc fuel
      → ((g : F.File) (o : ℕ) (t : A.Space)
          → o % 4096 ≡ 0
          → Free g o t
          → HasPlace g o t
          → length (contents g) < 4096 * fuel
          → Finishes fuel g o t)
      → Finishes (suc fuel) file offset s
  unfolding load_pages
  load_pages_round fuel file offset s aligned_off free (room, fits) enough again =
      elim (Bool-cases (length part == 0)) [
        | inl empty ↦ (
          s,
          rw (r.1, empty),
          nothing empty,
          subst (λ (k : ℕ). H.Room k s) (omega (arith, none_left empty)) room,
        )
        | inr some_left ↦ by_page some_left
      ]
    where
      r :
          (g : F.File) × (F.read file ≡ some (take 4096 (contents file), g))
          × (contents g ≡ drop 4096 (contents file))
      r = R.reads file

      va : ℕ
      va = vm_entry + offset

      part : List ℕ
      part = take 4096 (contents file)

      part_length : length part ≡ min 4096 (length (contents file))
      part_length = length-take 4096 (contents file)

      part_fits : length part ≤ 4096
      part_fits = omega (arith, part_length)

      none_left : (length part == 0) ≡ true → length (contents file) ≡ 0
      none_left empty = no_bytes _ _ part_length empty

      nothing : (length part == 0) ≡ true → Loaded A va (contents file) s s
      nothing empty = (λ a p. absurd (empty_range va _ a (none_left empty) p), λ a p. (refl, refl))

      all_read : ltb (length part) 4096 ≡ true → part ≡ contents file
      all_read short =
          take_all 4096 (contents file) (omega (arith, is_short _ _ short, part_length))

      by_page : (length part == 0) ≡ false → Finishes (suc fuel) file offset s
      by_page some_left =
          let some_page : 4096 ≤ whole (length (contents file)) =
            one_more (length (contents file)) (rw part_length at some_left) in
          let after : ℕ = pages_of (length (contents file)) - 1 in
          let (s1, maps, room1) =
            H.allocs 1 (after + left) va s (omega arith) (omega arith) (omega (arith, from))
              (omega (arith, fits, some_page))
              (λ a q.
                free a (in_image va (length (contents file)) a (rw part_length at some_left) q))
              (subst (λ (k : ℕ). H.Room k s) (omega (arith, some_page)) room) in
          let (s2, writes) =
            L.write_mapped va part s1
              (λ a q. L.alloc_inside va page_size_4k _ s s1 a maps (in_page va _ a part_fits q)) in
          let room2 : H.Room (after + left) s2 =
            H.writes (after + left) va part s1 s2 writes room1 in
          let loaded =
            page-Loaded A F vm_entry is_aarch64 L contents R va part s s1 s2 some_left part_fits
              maps writes in
          let cleaned = clean_page-ok A F vm_entry is_aarch64 L contents R va s2 (
            rw (L.write_query va part s1 s2 va writes)
              (L.alloc_inside va page_size_4k _ s s1 va maps (first_in_page va))) in
          elim (Bool-cases (ltb (length part) 4096)) [
            | inl short ↦ (
              s2,
              rw (r.1, some_left, maps, writes, cleaned, short),
              subst (λ l. Loaded A va l s s2) (all_read short) loaded,
              subst (λ (k : ℕ). H.Room k s2)
                  (omega (arith, is_short _ _ short, part_length, some_page)) room2,
            )
            | inr long ↦
                let full : length part ≡ 4096 = omega (arith, not_short _ _ long, part_fits) in
                let enough_left : 4096 ≤ length (contents file) = omega (arith, part_length) in
                let rest : length (contents r.0) ≡ length (contents file) - 4096 =
                  ap length r.2 ∙ length-drop 4096 (contents file) in
                let next =
                  again r.0 (offset + 4096) s2 (omega arith)
                    (λ a q.
                      let at =
                        rest_in_image vm_entry offset (length (contents file)) _ a (ap whole rest)
                          enough_left q in
                      let out : in_range va (whole (length part)) a ≡ false = rw full at.1 in
                      (loaded.1 a out).0 ∙ free a at.0)
                    (
                      subst (λ (k : ℕ). H.Room k s2)
                          (ap (λ (k : ℕ). k + left)
                            (pages_rest (length (contents file)) _ rest enough_left))
                          room2,
                      omega (arith, rest, fits, whole_rest _ enough_left),
                    )
                    (omega (arith, rest)) in
                let at : vm_entry + (offset + 4096) ≡ va + 4096 = omega arith in
                (
                  next.0,
                  rw (r.1, some_left, maps, writes, cleaned, long) next.1,
                  join-Loaded A F vm_entry is_aarch64 L contents R va (contents file) s s2 next.0
                      enough_left loaded
                      (subst (λ l. Loaded A (va + 4096) l s2 next.0) r.2
                        (subst (λ (v : ℕ). Loaded A v (contents r.0) s2 next.0) at next.2)),
                  next.3,
                )
          ]

  load_pages-Loaded :
      (fuel : ℕ) (file : F.File) (offset : ℕ) (s : A.Space)
      → offset % 4096 ≡ 0
      → Free file offset s
      → HasPlace file offset s
      → length (contents file) < 4096 * fuel
      → Finishes fuel file offset s
  load_pages-Loaded zero file offset s aligned_off free place enough = absurd (omega arith)
  load_pages-Loaded (suc fuel) file offset s aligned_off free place enough =
      load_pages_round fuel file offset s aligned_off free place enough (load_pages-Loaded fuel)

  -- An image that is not empty, read from a file that fills whole buffers, with more fuel than the
  -- image has whole buffers, is loaded whole to a page-aligned entry point where none of its pages is
  -- mapped yet, inside the range of an address space with memory for them and for `left` pages more.
  -- The pages of the image are mapped, outside them no byte and no mapping changes, and there is
  -- memory for `left` pages after it.
  pub load_vm_image-Loaded :
      (fuel : ℕ) (fname : String) (file : F.File) (s : A.Space)
      → F.open_file fname ≡ some file
      → 0 < length (contents file)
      → length (contents file) < 4096 * fuel
      → ((a : ℕ) → in_range vm_entry (whole (length (contents file))) a ≡ true → A.query s a ≡ none)
      → H.Room (pages_of (length (contents file)) + left) s
      → vm_entry + whole (length (contents file)) ≤ high
      → (t : A.Space) × (load_vm_image A F vm_entry is_aarch64 fuel fname s ≡ ok t)
        × Loaded A vm_entry (contents file) s t
        × H.Room left t
  unfolding load_vm_image
  load_vm_image-Loaded fuel fname file s opened some_byte enough free room fits =
      let at : vm_entry + 0 ≡ vm_entry = omega arith in
      let (t, ends, loaded, room_left) =
        load_pages-Loaded fuel file 0 s refl (rw at free) (room, rw at fits) enough in
      let loaded' : Loaded A vm_entry (contents file) s t = rw at at loaded in
      let first = (loaded'.0 vm_entry (first_byte vm_entry (length (contents file)) some_byte)).1 in
      elim (Option-cases (A.query t vm_entry)) [
        | inl p ↦ absurd (first p)
        | inr p ↦ (t, rw (opened, ends, p.1), loaded', room_left)
      ]
