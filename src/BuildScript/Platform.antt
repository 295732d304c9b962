-- ===== src/BuildScript/Platform.antt =====
-- The build script and the build tool agree on the platforms.
use app_guestaspace.Base.{◌≡◌, refl, ap, sym, ◌∙◌, Bool, true, false, [], ◌∷◌, some, ok}
use mathlib.Core.Path.{subst}
use app_guestaspace.Xtask.{String, ◌<>◌, ◌==◌, join, World, Result, done, exited}
use app_guestaspace.Xtask.Build.{ArchInfo, arch_info, riscv64_info, aarch64_info, x86_64_info}
use app_guestaspace.BuildScript.{
  Environment, contains, link_arg, platform_of, axstd_lines, build_main,
}

abbrev given : ArchInfo → Result ArchInfo → ArchInfo
given d (done info w) = info
given d _ = d

-- The build tool's table says the same of the architecture as the script's.
abbrev Agrees : String → ArchInfo → Type 0
Agrees arch info = (platform_of arch ≡ ok info.platform) × (contains info.target "-none" ≡ true)

module _ (arch : String) (info : ArchInfo) (w : World) (h : arch_info arch w ≡ done info w) where
  by_entry :
      (entry : ArchInfo) → arch_info arch w ≡ done entry w → Agrees arch entry → Agrees arch info
  by_entry entry is = subst (Agrees arch) (ap (given info) (sym is ∙ h))

  by_arch :
      (riscv64 aarch64 x86_64 : Bool)
      → (arch == "riscv64") ≡ riscv64
      → (arch == "aarch64") ≡ aarch64
      → (arch == "x86_64") ≡ x86_64
      → Agrees arch info
  unfolding arch_info platform_of
  by_arch true a x p q r = by_entry riscv64_info (rw p refl) (rw p refl, refl)
  by_arch false true x p q r = by_entry aarch64_info (rw (p, q) refl) (rw (p, q) refl, refl)
  by_arch false false true p q r =
      by_entry x86_64_info (rw (p, q, r) refl) (rw (p, q, r) refl, refl)
  by_arch false false false p q r = absurd (fails refused)
    where
      refused : exited 1 w ≡ done info w
      refused = rw (p, q, r) at h

      fails : exited 1 w ≡ done info w → ⊥
      fails e = cc

  arch_info-Agrees : Agrees arch info
  arch_info-Agrees = by_arch _ _ _ refl refl refl

-- For each architecture that the build tool knows, when cargo runs the script for the tool's target
-- with the feature axstd, the script does not panic, and it links with the script that axhal
-- generates for the platform that the tool names, in the canonical directory of the profile.
pub build_main-platform :
    (E : Environment) (arch out_dir profile : String) (info : ArchInfo) (w : World)
    → arch_info arch w ≡ done info w
    → E.target ≡ some info.target
    → E.arch ≡ some arch
    → E.out_dir ≡ some out_dir
    → E.axstd_enabled ≡ true
    → E.canonicalize (join out_dir "../../..") ≡ some profile
    → build_main E
      ≡ ok (
          link_arg ("-T" <> join profile ("linker_" <> info.platform <> ".lds"))
          ∷ link_arg "-no-pie"
          ∷ link_arg "-znostart-stop-gc"
          ∷ [])
unfolding build_main axstd_lines
build_main-platform E arch out_dir profile info w known target cpu out axstd canonical =
    let (platform, bare) = arch_info-Agrees arch info w known in
    rw (target, bare, axstd, out, cpu, platform, canonical)
