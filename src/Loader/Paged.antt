-- ===== src/Loader/Paged.antt =====
-- The loader of src/loader.rs comes to an end.
use app_guestaspace.Base.{
  ℕ, zero, suc, ◌+◌, ◌*◌, ◌<◌, ◌≡◌, ◌≢◌, refl, ap, Bool, true, false, List, Option, none, some,
  Outcome, ok, err, panic, out_of_fuel, Error, ◌>>=◌, expect, or_err, if◌then◌else◌, ◌==◌, ltb,
  length, take, length-take, length-drop, arith, Option-cases, inl, inr, io, no_memory,
}
use Prim.Native.String.{String}
use app_guestaspace.AddrSpace.{AddrSpace, guest_flags}
use app_guestaspace.Loader.{FileSystem, clean_page, load_pages, load_vm_image, page_size_4k}
use app_guestaspace.Loader.Preallocated.{IsReader, not_short}

-- The code does not use up its fuel.
abbrev Ends {ℓ} : {A : Type ℓ} → Outcome A → Type ℓ
Ends m = m ≢ out_of_fuel

Ends->>= {ℓ κ} :
    {A : Type ℓ} {B : Type κ} (m : Outcome A) (f : A → Outcome B)
    → Ends m
    → ((a : A) → Ends (f a))
    → Ends (m >>= f)
Ends->>= (ok a) f h k = k a
Ends->>= (err e) f h k = λ p. cc
Ends->>= panic f h k = λ p. cc
Ends->>= out_of_fuel f h k = absurd (h refl)

Ends-or_err {ℓ} : {A : Type ℓ} (e : Error) (o : Option A) → Ends (or_err e o)
Ends-or_err e none p = cc
Ends-or_err e (some a) p = cc

Ends-expect {ℓ} : {A : Type ℓ} (o : Option A) → Ends (expect o)
Ends-expect none p = cc
Ends-expect (some a) p = cc

Ends-if {ℓ} :
    {A : Type ℓ} (b : Bool) (x y : Outcome A)
    → (b ≡ true → Ends x)
    → (b ≡ false → Ends y)
    → Ends (if b then x else y)
Ends-if true x y p q = p refl
Ends-if false x y p q = q refl

module _ (A : AddrSpace) (F : FileSystem) (vm_entry : ℕ) (is_aarch64 : Bool)
    (contents : F.File → List ℕ) (R : IsReader F contents) where
  Ends-clean_page : (va : ℕ) (s : A.Space) → Ends (clean_page A F vm_entry is_aarch64 va s)
  unfolding clean_page
  Ends-clean_page va s =
      Ends-if is_aarch64 _ _
        (λ _. Ends->>= (expect (A.query s va)) _ (Ends-expect (A.query s va)) (λ _ p. cc))
        (λ _ p. cc)

  Ends-load_pages :
      (fuel : ℕ) (file : F.File) (page_offset : ℕ) (s : A.Space)
      → length (contents file) < 4096 * fuel
      → Ends (load_pages A F vm_entry is_aarch64 fuel file page_offset s)
  unfolding load_pages
  Ends-load_pages zero file page_offset s h = absurd (omega arith)
  Ends-load_pages (suc fuel) file page_offset s h =
      let (g, read, left) = R.reads file in
      let va = vm_entry + page_offset in
      let part = take 4096 (contents file) in
      rw read (
        Ends-if (length part == 0) _ _ (λ _ p. cc)
          (λ _.
            Ends->>= (or_err no_memory (A.map_alloc va page_size_4k (guest_flags A) true s)) _
              (Ends-or_err _ _)
              (λ s1. Ends->>= (or_err io (A.write va part s1)) _ (Ends-or_err _ _) (λ s2.
                Ends->>= (clean_page A F vm_entry is_aarch64 va s2) _ (Ends-clean_page va s2) (λ s3.
                  Ends-if (ltb (length part) page_size_4k) _ _ (λ _ p. cc)
                    (λ whole. Ends-load_pages fuel g (page_offset + page_size_4k) s3 (
                      omega (
                        arith,
                        ap length left,
                        length-drop 4096 (contents file),
                        length-take 4096 (contents file),
                        not_short _ _ whole,
                      ))))))))

  -- The loader ends, with an image, an error value or a panic, if the file fills whole buffers and
  -- the fuel is more than their number.
  pub load_vm_image-Ends :
      (fuel : ℕ) (fname : String) (s : A.Space)
      → ((file : F.File) → F.open_file fname ≡ some file → length (contents file) < 4096 * fuel)
      → load_vm_image A F vm_entry is_aarch64 fuel fname s ≢ out_of_fuel
  unfolding load_vm_image
  load_vm_image-Ends fuel fname s enough = elim (Option-cases (F.open_file fname)) [
    | inl p ↦ rw p (λ q. cc)
    | inr p ↦ rw p.1 (
        Ends->>= (load_pages A F vm_entry is_aarch64 fuel p.0 0 s) _
          (Ends-load_pages fuel p.0 0 s (enough p.0 p.1))
          (λ t. Ends->>= (expect (A.query t vm_entry)) _ (Ends-expect _) (λ _ q. cc)))
  ]
