-- ===== src/Loader/Pages.antt =====
-- The loader of src/loader.rs maps the pages of the image and copies all of it.
use app_guestaspace.Base.{
  ℕ, ◌+◌, ◌-◌, ◌*◌, ◌/◌, ◌≤◌, ◌<◌, ◌≡◌, ◌∙◌, ap, Bool, true, false, List, some, ok, ◌==◌, length,
  get_or, take, drop, length-take, length-drop, get_or-take, get_or-drop, arith, Bool-cases,
  Option-cases, inl, inr,
}
use app_guestaspace.AddrSpace.{AddrSpace, IsLawful, IsMapped, guest_flags, in_range}
use app_guestaspace.Loader.{FileSystem, clean_page, page_size_4k}
use app_guestaspace.Loader.Preallocated.{IsReader}

-- The size of the pages that hold so many bytes.
abbrev pub whole : ℕ → ℕ
whole len = (len + 4095) / 4096 * 4096

-- `image` lies at `va` in memory that is mapped, and nothing has changed outside its pages.
abbrev pub Loaded : (A : AddrSpace) → ℕ → List ℕ → A.Space → A.Space → Type 0
Loaded A va image s t =
    ((a : ℕ)
      → in_range va (length image) a ≡ true
      → (A.byte_at t a ≡ get_or image (a - va) 0) × IsMapped A t a)
    × ((a : ℕ)
        → in_range va (whole (length image)) a ≡ false
        → (A.query t a ≡ A.query s a) × (A.byte_at t a ≡ A.byte_at s a))

pub in_page : (va n a : ℕ) → n ≤ 4096 → in_range va n a ≡ true → in_range va 4096 a ≡ true
in_page va n a h p = ground arith

not_in_part : (va n a : ℕ) → n ≤ 4096 → in_range va 4096 a ≡ false → in_range va n a ≡ false
not_in_part va n a h p = ground arith

one_page : (n : ℕ) → (n == 0) ≡ false → n ≤ 4096 → whole n ≡ 4096
one_page n h p = omega (arith, nonzero)
  where
    nonzero : 0 < n
    nonzero = ground arith

-- The number of those pages.
abbrev pub pages_of : ℕ → ℕ
pages_of len = (len + 4095) / 4096

below_page : (va a : ℕ) → in_range va 4096 a ≡ true → a - va < 4096
below_page va a q = ground arith

past_page :
    (va len a : ℕ)
    → in_range va len a ≡ true
    → in_range va 4096 a ≡ false
    → 4096 + (a - (va + 4096)) ≡ a - va
past_page va len a p q = ground arith

module _ (A : AddrSpace) (F : FileSystem) (vm_entry : ℕ) (is_aarch64 : Bool) (L : IsLawful A)
    (contents : F.File → List ℕ) (R : IsReader F contents) where
  pub page-Loaded :
      (va : ℕ) (part : List ℕ) (s s1 s2 : A.Space)
      → (length part == 0) ≡ false
      → length part ≤ 4096
      → A.map_alloc va page_size_4k (guest_flags A) true s ≡ some s1
      → A.write va part s1 ≡ some s2
      → Loaded A va part s s2
  page-Loaded va part s s1 s2 some_left fits maps writes = (
    λ a p.
        let mapped = L.alloc_inside va page_size_4k _ s s1 a maps (in_page va _ a fits p) in
        (L.write_inside va part s1 s2 a writes p, rw (L.write_query va part s1 s2 a writes) mapped),
    λ a p.
        let p' : in_range va 4096 a ≡ false = rw (one_page _ some_left fits) at p in
        let kept = L.alloc_outside va page_size_4k _ s s1 a maps p' in
        (
          L.write_query va part s1 s2 a writes ∙ kept.0,
          L.write_outside va part s1 s2 a writes (not_in_part va _ a fits p') ∙ kept.1,
        ),
  )

  pub clean_page-ok :
      (va : ℕ) (s : A.Space) → IsMapped A s va → clean_page A F vm_entry is_aarch64 va s ≡ ok s
  unfolding clean_page
  clean_page-ok va s mapped = elim (Option-cases (A.query s va)) [
    | inl p ↦ absurd (mapped p)
    | inr p ↦ elim (Bool-cases is_aarch64) [ inl q ↦ rw (q, p.1) | inr q ↦ rw q ]
  ]

  -- A whole page, and then the rest.
  pub join-Loaded :
      (va : ℕ) (image : List ℕ) (s t u : A.Space)
      → 4096 ≤ length image
      → Loaded A va (take 4096 image) s t
      → Loaded A (va + 4096) (drop 4096 image) t u
      → Loaded A va image s u
  join-Loaded va image s t u long c d = (
    λ a p. elim (Bool-cases (in_range va 4096 a)) [
      | inl q ↦
          let first = c.0 a (rw part_length q) in
          let kept = d.1 a (rw rest_length (beyond a q)) in
          (
            kept.1 ∙ first.0 ∙ get_or-take 4096 (a - va) image 0 (below_page va a q),
            rw kept.0 first.1,
          )
      | inr q ↦
          let second = d.0 a (rw rest_length (behind a p q)) in
          (
            second.0
                ∙ get_or-drop 4096 (a - (va + 4096)) image 0
                ∙ ap (λ (k : ℕ). get_or image k 0) (past_page va _ a p q),
            second.1,
          )
    ],
    λ a p.
        let first = c.1 a (rw part_length (outside_first a p)) in
        let second = d.1 a (rw rest_length (outside_rest a p)) in
        (second.0 ∙ first.0, second.1 ∙ first.1),
  )
    where
      part_length : length (take 4096 image) ≡ 4096
      part_length = omega (arith, length-take 4096 image)

      rest_length : length (drop 4096 image) ≡ length image - 4096
      rest_length = length-drop 4096 image

      beyond :
          (a : ℕ)
          → in_range va 4096 a ≡ true
          → in_range (va + 4096) (whole (length image - 4096)) a ≡ false
      beyond a q = ground arith

      behind :
          (a : ℕ)
          → in_range va (length image) a ≡ true
          → in_range va 4096 a ≡ false
          → in_range (va + 4096) (length image - 4096) a ≡ true
      behind a p q = ground arith

      split : whole (length image) ≡ whole (length image - 4096) + 4096
      split = omega arith

      outside_first :
          (a : ℕ)
          → in_range va (whole (length image)) a ≡ false
          → in_range va (whole 4096) a ≡ false
      outside_first a p = ground (arith, split)

      outside_rest :
          (a : ℕ)
          → in_range va (whole (length image)) a ≡ false
          → in_range (va + 4096) (whole (length image - 4096)) a ≡ false
      outside_rest a p = ground (arith, split)
