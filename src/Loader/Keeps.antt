-- ===== src/Loader/Keeps.antt =====
-- What a write keeps is kept by the loop of `riscv64_main` and `x86_64_main` that loads the image.
use Prim.{Unit, tt}
use app_guestaspace.Base.{
  ℕ, zero, suc, ◌+◌, ◌≡◌, refl, Bool, true, false, List, Option, none, some, Outcome, ok, err,
  panic, out_of_fuel, ◌>>=◌, expect, if◌then◌else◌, ◌==◌, ltb, length,
}
use mathlib.Core.Path.{subst}
use Prim.Native.String.{String}
use app_guestaspace.AddrSpace.{AddrSpace}
use app_guestaspace.Loader.{FileSystem, write_pages, load_guest}

module _ {S : Type 0} (Q : S → Type 0) where
  -- `Q` holds of a result.
  unfoldable pub Holds : Outcome S → Type 0
  Holds (ok t) = Q t
  Holds (err e) = Unit
  Holds panic = Unit
  Holds out_of_fuel = Unit

  pub ok-Holds : (t : S) → Q t → Holds (ok t)
  unfolding Holds
  ok-Holds t q = q

  pub Holds-if : (b : Bool) (x y : Outcome S) → Holds x → Holds y → Holds (if b then x else y)
  Holds-if true x y p q = p
  Holds-if false x y p q = q

  pub Holds-expect :
      {X : Type 0} (o : Option X) (f : X → Outcome S)
      → ((x : X) → o ≡ some x → Holds (f x))
      → Holds (expect o >>= f)
  unfolding Holds
  Holds-expect none f h = tt
  Holds-expect (some x) f h = h x refl

  pub Holds-ok : (x : Outcome S) (t : S) → x ≡ ok t → Holds x → Q t
  unfolding Holds
  Holds-ok x t e h = subst Holds e h

-- A write keeps `Q`.
abbrev pub KeptByWrite : (A : AddrSpace) → (A.Space → Type 0) → Type 0
KeptByWrite A Q =
    (start : ℕ) (buf : List ℕ) (s t : A.Space) → A.write start buf s ≡ some t → Q s → Q t

module _ (A : AddrSpace) (F : FileSystem) (vm_entry : ℕ) (is_aarch64 : Bool) (Q : A.Space → Type 0)
    (K : KeptByWrite A Q) where
  write_pages-Holds :
      (fuel : ℕ) (file : F.File) (offset : ℕ) (s : A.Space)
      → Q s
      → Holds Q (write_pages A F vm_entry is_aarch64 fuel file offset s)
  unfolding write_pages Holds
  write_pages-Holds zero file offset s q = tt
  write_pages-Holds (suc fuel) file offset s q = Holds-expect Q (F.read file) _ (λ part read.
      Holds-if Q (length part.0 == 0) _ _ q (
        Holds-expect Q (A.write (vm_entry + offset) part.0 s) _ (λ t wrote.
          let q1 : Q t = K (vm_entry + offset) part.0 s t wrote q in
          Holds-if Q (ltb (length part.0) 4096) _ _ q1
            (write_pages-Holds fuel part.1 (offset + length part.0) t q1))))

  pub load_guest-Holds :
      (fuel : ℕ) (fname : String) (s : A.Space)
      → Q s
      → Holds Q (load_guest A F vm_entry is_aarch64 fuel fname s)
  unfolding load_guest
  load_guest-Holds fuel fname s q =
      Holds-expect Q (F.open_file fname) _ (λ file opened. write_pages-Holds fuel file 0 s q)
