-- ===== src/Loader/Preallocated.antt =====
-- The loader of the RISC-V and x86_64 hypervisors copies the whole image.
use app_guestaspace.Base.{
  ℕ, zero, suc, ◌+◌, ◌-◌, ◌*◌, ◌≤◌, ◌<◌, ◌≡◌, refl, ◌∙◌, ap, Bool, true, false, List, some, ok,
  if◌then◌else◌, ◌==◌, ltb, length, get_or, take, drop, length-take, length-drop, get_or-take,
  get_or-drop, arith, Bool-cases, inl, inr, take_all,
}
use mathlib.Core.Path.{subst}
use Prim.Native.Nat.{min}
use app_guestaspace.AddrSpace.{AddrSpace, IsLawful, IsMapped, in_range}
use app_guestaspace.Loader.{FileSystem, write_pages, load_guest}
use Prim.Native.String.{String}

-- A file gives a whole buffer where it holds as much, and otherwise all that is left.
pub record IsReader (F : FileSystem) (contents : F.File → List ℕ) : Type 0 where
  pub reads :
      (f : F.File)
      → (g : F.File) × (F.read f ≡ some (take 4096 (contents f), g))
        × (contents g ≡ drop 4096 (contents f))

-- The memory after `image` is written from `va` on, and nothing else.
abbrev pub Copied : (A : AddrSpace) → ℕ → List ℕ → A.Space → A.Space → Type 0
Copied A va image s t =
    ((a : ℕ)
      → A.byte_at t a
        ≡ (if in_range va (length image) a then get_or image (a - va) 0 else A.byte_at s a))
    × ((a : ℕ) → A.query t a ≡ A.query s a)

pub not_short : (n m : ℕ) → ltb n m ≡ false → m ≤ n
not_short n m h = ground arith

pub is_short : (n m : ℕ) → ltb n m ≡ true → n < m
is_short n m h = ground arith

in_part : (va len n a : ℕ) → n ≡ min 4096 len → in_range va n a ≡ true → in_range va len a ≡ true
in_part va len n a e h = ground arith

is_empty : (va len n a : ℕ) → n ≡ min 4096 len → (n == 0) ≡ true → in_range va len a ≡ false
is_empty va len n a e h = ground arith

in_rest :
    (entry offset n left len a : ℕ)
    → n ≡ 4096
    → left ≡ len - 4096
    → 4096 ≤ len
    → in_range (entry + (offset + n)) left a ≡ true
    → in_range (entry + offset) len a ≡ true
in_rest entry offset n left len a e f g h = ground arith

module _ (A : AddrSpace) (F : FileSystem) (vm_entry : ℕ) (is_aarch64 : Bool) (L : IsLawful A)
    (contents : F.File → List ℕ) (R : IsReader F contents) where
  written-Copied :
      (va : ℕ) (image : List ℕ) (s t : A.Space)
      → A.write va image s ≡ some t
      → Copied A va image s t
  written-Copied va image s t h = (
    λ a. elim (Bool-cases (in_range va (length image) a)) [
      | inl p ↦ rw p (L.write_inside va image s t a h p)
      | inr p ↦ rw p (L.write_outside va image s t a h p)
    ],
    λ a. L.write_query va image s t a h,
  )

  -- A whole buffer, and then the rest.
  join-Copied :
      (va : ℕ) (image : List ℕ) (s t u : A.Space)
      → 4096 ≤ length image
      → Copied A va (take 4096 image) s t
      → Copied A (va + 4096) (drop 4096 image) t u
      → Copied A va image s u
  join-Copied va image s t u long c d = (
    λ a. elim (Bool-cases (in_range va 4096 a)) [
      | inl p ↦
          rw (d.0 a, rest_length, beyond a p, c.0 a, part_length, p, inside a p)
            (get_or-take 4096 (a - va) image 0 (ground arith))
      | inr p ↦ rw (d.0 a, rest_length, same a p) (by_rest a p)
    ],
    λ a. d.1 a ∙ c.1 a,
  )
    where
      part_length : length (take 4096 image) ≡ 4096
      part_length = omega (arith, length-take 4096 image)

      rest_length : length (drop 4096 image) ≡ length image - 4096
      rest_length = length-drop 4096 image

      beyond :
          (a : ℕ) → in_range va 4096 a ≡ true → in_range (va + 4096) (length image - 4096) a ≡ false
      beyond a p = ground arith

      inside : (a : ℕ) → in_range va 4096 a ≡ true → in_range va (length image) a ≡ true
      inside a p = ground arith

      same :
          (a : ℕ)
          → in_range va 4096 a ≡ false
          → in_range (va + 4096) (length image - 4096) a ≡ in_range va (length image) a
      same a p = ground arith

      by_rest :
          (a : ℕ)
          → in_range va 4096 a ≡ false
          → (if in_range va (length image) a
              then get_or (drop 4096 image) (a - (va + 4096)) 0
              else A.byte_at t a)
            ≡ (if in_range va (length image) a then get_or image (a - va) 0 else A.byte_at s a)
      by_rest a p = elim (Bool-cases (in_range va (length image) a)) [
        | inl q ↦ rw q (
            get_or-drop 4096 (a - (va + 4096)) image 0
            ∙ ap (λ (k : ℕ). get_or image k 0) (ground arith))
        | inr q ↦ rw q (c.0 a ∙ rw (part_length, p))
      ]

  -- What remains to be done comes to an end, with all of it copied.
  abbrev Finishes : ℕ → F.File → ℕ → A.Space → Type 0
  Finishes fuel file offset s =
      (t : A.Space) × (write_pages A F vm_entry is_aarch64 fuel file offset s ≡ ok t)
      × Copied A (vm_entry + offset) (contents file) s t

  -- The file lies in mapped memory, as far as it is still to be read.
  abbrev Fits : F.File → ℕ → A.Space → Type 0
  Fits file offset s =
      (a : ℕ) → in_range (vm_entry + offset) (length (contents file)) a ≡ true → IsMapped A s a

  write_pages_round :
      (fuel : ℕ) (file : F.File) (offset : ℕ) (s : A.Space)
      → Fits file offset s
      → length (contents file) < 4096 * suc fuel
      → ((g : F.File) (o : ℕ) (t : A.Space)
          → Fits g o t
          → length (contents g) < 4096 * fuel
          → Finishes fuel g o t)
      → Finishes (suc fuel) file offset s
  unfolding write_pages
  write_pages_round fuel file offset s mapped enough again = elim (Bool-cases (length part == 0)) [
    | inl empty ↦ (s, rw (r.1, empty), nothing empty)
    | inr some_left ↦ elim (Bool-cases (ltb (length part) 4096)) [
      | inl short ↦ (
        w.0,
        rw (r.1, some_left, w.1, short),
        subst (λ l. Copied A va l s w.0) (all_read short) (written-Copied va part s w.0 w.1),
      )
      | inr whole ↦ rest whole some_left
    ]
  ]
    where
      r :
          (g : F.File) × (F.read file ≡ some (take 4096 (contents file), g))
          × (contents g ≡ drop 4096 (contents file))
      r = R.reads file

      va : ℕ
      va = vm_entry + offset

      part : List ℕ
      part = take 4096 (contents file)

      part_length : length part ≡ min 4096 (length (contents file))
      part_length = length-take 4096 (contents file)

      w : (t : A.Space) × (A.write va part s ≡ some t)
      w = L.write_mapped va part s (λ a h. mapped a (in_part va _ _ a part_length h))

      all_read : ltb (length part) 4096 ≡ true → part ≡ contents file
      all_read short =
          take_all 4096 (contents file) (omega (arith, is_short _ _ short, part_length))

      the_end : (a : ℕ) → (length part == 0) ≡ true → in_range va (length (contents file)) a ≡ false
      the_end a empty = is_empty va _ _ a part_length empty

      nothing : (length part == 0) ≡ true → Copied A va (contents file) s s
      nothing empty = (λ a. rw (the_end a empty), λ a. refl)

      rest :
          ltb (length part) 4096 ≡ false
          → (length part == 0) ≡ false
          → Finishes (suc fuel) file offset s
      rest whole some_left =
          let full : length part ≡ 4096 = omega (arith, not_short _ _ whole, part_length) in
          let left : length (contents r.0) ≡ length (contents file) - 4096 =
            ap length r.2 ∙ length-drop 4096 (contents file) in
          let next =
            again r.0 (offset + length part) w.0
              (λ a h. rw (L.write_query va part s w.0 a w.1) (
                mapped a (
                  in_rest vm_entry offset _ _ (length (contents file)) a full left
                    (omega (arith, part_length)) h)))
              (omega (arith, part_length, left)) in
          let at : vm_entry + (offset + length part) ≡ va + 4096 = omega arith in
          (
            next.0,
            rw (r.1, some_left, w.1, whole) next.1,
            join-Copied va (contents file) s w.0 next.0 (omega (arith, part_length))
                (written-Copied va part s w.0 w.1)
                (subst (λ l. Copied A (va + 4096) l w.0 next.0) r.2
                  (subst (λ (v : ℕ). Copied A v (contents r.0) w.0 next.0) at next.2)),
          )

  -- The loop comes to its end and copies all that the file still holds, and changes nothing else, if
  -- all of that lies in mapped memory and the fuel is more than the number of whole buffers in it.
  pub write_pages-Copied :
      (fuel : ℕ) (file : F.File) (offset : ℕ) (s : A.Space)
      → Fits file offset s
      → length (contents file) < 4096 * fuel
      → Finishes fuel file offset s
  write_pages-Copied zero file offset s mapped enough = absurd (omega arith)
  write_pages-Copied (suc fuel) file offset s mapped enough =
      write_pages_round fuel file offset s mapped enough (write_pages-Copied fuel)

  -- A guest image that the file system has, read from a file that fills whole buffers into memory
  -- that is mapped, with more fuel than the image has whole buffers, is copied whole to the entry
  -- point of the guest; no other byte and no mapping changes.
  pub load_guest-Copied :
      (fuel : ℕ) (fname : String) (file : F.File) (s : A.Space)
      → F.open_file fname ≡ some file
      → ((a : ℕ) → in_range vm_entry (length (contents file)) a ≡ true → IsMapped A s a)
      → length (contents file) < 4096 * fuel
      → (t : A.Space) × (load_guest A F vm_entry is_aarch64 fuel fname s ≡ ok t)
        × Copied A vm_entry (contents file) s t
  unfolding load_guest
  load_guest-Copied fuel fname file s opened mapped enough =
      let at : vm_entry + 0 ≡ vm_entry = omega arith in
      let (t, ends, copied) = write_pages-Copied fuel file 0 s (rw at mapped) enough in
      (t, rw opened ends, subst (λ (v : ℕ). Copied A v (contents file) s t) at copied)
