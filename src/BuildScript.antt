-- ===== src/BuildScript.antt =====
-- build.rs: the linker arguments that cargo is given. The environment of the script and the host's
-- file system are a record of parameters; a path is text, as in Xtask.
pub mod Platform
use app_guestaspace.Base.{
  List, [], ◌∷◌, Bool, true, false, Option, none, some, Outcome, ok, panic, ◌>>=◌, expect,
  if◌then◌else◌,
}
use text.Mathlib.Text.{find?}
use app_guestaspace.Xtask.{String, ◌<>◌, ◌==◌, join}

pub record Environment : Type 0 where
  -- `TARGET`, `OUT_DIR`, `CARGO_CFG_TARGET_ARCH`, `CARGO_MANIFEST_DIR`, and whether
  -- `CARGO_FEATURE_AXSTD` is set.
  pub target : Option String
  pub out_dir : Option String
  pub arch : Option String
  pub manifest_dir : Option String
  pub axstd_enabled : Bool
  -- `std::fs::canonicalize` and `Path::exists`
  pub canonicalize : String → Option String
  pub exists : String → Bool

abbrev or_else : Option String → String → String
or_else none d = d
or_else (some s) d = s

-- `s.contains(t)`
abbrev pub contains : String → String → Bool
contains s t = elim (find? s t) [ none ↦ false | some i ↦ true ]

abbrev pub link_arg : String → String
link_arg arg = "cargo:rustc-link-arg=" <> arg

-- The platform of an architecture; the script panics for any other.
unfoldable pub platform_of : String → Outcome String
platform_of arch =
    if arch == "riscv64"
    then ok "riscv64-qemu-virt"
    else (if arch == "aarch64"
        then ok "aarch64-qemu-virt"
        else (if arch == "x86_64"
            then ok "x86-pc"
            else (if arch == "loongarch64" then ok "loongarch64-qemu-virt" else panic)))

module _ (E : Environment) where
  -- The directory of the profile, three above the script's own.
  abbrev pub profile_dir : String → String
  profile_dir out_dir = or_else (E.canonicalize (join out_dir "../../..")) (join out_dir "../../..")

  -- With the feature axstd, the linker script is the one that axhal generates.
  unfoldable pub axstd_lines : Outcome (List String)
  axstd_lines = do
    out_dir ← expect E.out_dir
    arch ← expect E.arch
    platform ← platform_of arch
    ok (
        link_arg ("-T" <> join (profile_dir out_dir) ("linker_" <> platform <> ".lds"))
        ∷ link_arg "-no-pie"
        ∷ link_arg "-znostart-stop-gc"
        ∷ [])

  with_script : String → Outcome (List String)
  with_script linker_script =
      if E.exists linker_script
      then ok (link_arg ("-T" <> linker_script) ∷ link_arg "-no-pie" ∷ [])
      else panic

  -- Without it, one of the guest's own.
  unfoldable pub bare_lines : Outcome (List String)
  unfolding with_script
  bare_lines = do
    arch ← expect E.arch
    manifest_dir ← expect E.manifest_dir
    with_script (join (join (join manifest_dir "payload") "gkernel") ("linker-" <> arch <> ".ld"))

  -- The lines that the script prints; none for a target with an operating system.
  unfoldable pub build_main : Outcome (List String)
  build_main =
      if contains (or_else E.target "") "-none"
      then (if E.axstd_enabled then axstd_lines else bare_lines)
      else ok []
