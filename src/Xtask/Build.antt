-- ===== src/Xtask/Build.antt =====
-- What xtask builds: the configuration files, the guest's binary and the hypervisor.
use app_guestaspace.Base.{[], ◌∷◌, ◌++◌, if◌then◌else◌}
use app_guestaspace.Xtask.{
  String, ◌<>◌, ◌==◌, Command, Host, Task, Done, ◌>>=◌, ◌>>◌, pure, exit, or_exit, expect,
  exit_unless_success, join, with_extension, status, copy_file, read_file,
}

pub record ArchInfo : Type 0 where
  pub target : String
  pub platform : String
  pub objcopy_arch : String

abbrev pub riscv64_info : ArchInfo
riscv64_info = record {
  target = "riscv64gc-unknown-none-elf";
  platform = "riscv64-qemu-virt";
  objcopy_arch = "riscv64";
}

abbrev pub aarch64_info : ArchInfo
aarch64_info = record {
  target = "aarch64-unknown-none-softfloat";
  platform = "aarch64-qemu-virt";
  objcopy_arch = "aarch64";
}

abbrev pub x86_64_info : ArchInfo
x86_64_info = record {
  target = "x86_64-unknown-none";
  platform = "x86-pc";
  objcopy_arch = "x86_64";
}

unfoldable pub arch_info : String → Task ArchInfo
arch_info arch =
    if arch == "riscv64"
    then pure riscv64_info
    else (if arch == "aarch64"
        then pure aarch64_info
        else (if arch == "x86_64" then pure x86_64_info else exit 1))

abbrev pub payload_dir : String → String
payload_dir root = join (join root "payload") "gkernel"

abbrev pub payload_elf : String → ArchInfo → String
payload_elf root info = join (join (join (join root "target") info.target) "release") "gkernel"

-- The commands.
abbrev pub build_payload_cmd : String → ArchInfo → String → Command
build_payload_cmd root info arch = record {
  program = "cargo";
  env =
      if arch == "riscv64"
      then ("AX_CONFIG_PATH", join (payload_dir root) ".axconfig.toml") ∷ []
      else [];
  args =
      ("build"
        ∷ "--release"
        ∷ "--manifest-path"
        ∷ join root "Cargo.toml"
        ∷ "--target"
        ∷ info.target
        ∷ "--bin"
        ∷ "gkernel"
        ∷ [])
      ++ "--features" ∷ "guest-kernel" ∷ [];
}

abbrev pub objcopy_cmd : String → String → String → Command
objcopy_cmd elf bin objcopy_arch = record {
  program = "rust-objcopy";
  env = [];
  args =
      ("--binary-architecture=" <> objcopy_arch) ∷ elf ∷ "--strip-all" ∷ "-O" ∷ "binary" ∷ bin ∷ [];
}

abbrev pub objcopy_payload_cmd : String → ArchInfo → Command
objcopy_payload_cmd root info =
    let elf = payload_elf root info in
    let bin = with_extension elf "bin" in
    if info.objcopy_arch == "x86_64"
    then record {
      program = "rust-objcopy";
      env = [];
      args = elf ∷ "--strip-all" ∷ "-O" ∷ "binary" ∷ bin ∷ [];
    }
    else objcopy_cmd elf bin info.objcopy_arch

abbrev pub build_cmd : String → ArchInfo → Command
build_cmd root info = record {
  program = "cargo";
  env = ("AX_CONFIG_PATH", join root ".axconfig.toml") ∷ [];
  args =
      "build"
      ∷ "--release"
      ∷ "--target"
      ∷ info.target
      ∷ "--features"
      ∷ "hypervisor"
      ∷ "--manifest-path"
      ∷ join root "Cargo.toml"
      ∷ [];
}

module _ (H : Host) where
  -- Copies a file if it exists, and exits with 1 if it does not or cannot be copied.
  unfoldable pub copy_config : String → String → Task Done
  copy_config src dst = do
    found ← read_file H src
    or_exit found
    copied ← copy_file H src dst
    or_exit copied

  unfoldable pub install_config : String → String → Task Done
  install_config root arch =
      copy_config (join (join root "configs") (arch <> ".toml")) (join root ".axconfig.toml")

  unfoldable pub install_payload_config : String → String → Task Done
  install_payload_config root arch =
      copy_config (join (join (payload_dir root) "configs") (arch <> ".toml"))
        (join (payload_dir root) ".axconfig.toml")

  -- A command of which the tool exits with 1 if it cannot be started.
  unfoldable pub run_or_exit : Command → Task Done
  run_or_exit c = do s ← status H c; s ← or_exit s; exit_unless_success s

  -- A command of which the tool panics if it cannot be started.
  unfoldable pub run_or_panic : Command → Task Done
  run_or_panic c = do s ← status H c; s ← expect s; exit_unless_success s

  unfoldable pub build_payload : String → ArchInfo → String → Task String
  build_payload root info arch = do
    run_or_exit (build_payload_cmd root info arch)
    run_or_panic (objcopy_payload_cmd root info)
    pure (with_extension (payload_elf root info) "bin")

  unfoldable pub do_build : String → ArchInfo → Task Done
  do_build root info = run_or_panic (build_cmd root info)

  unfoldable pub do_objcopy : String → String → String → Task Done
  do_objcopy elf bin objcopy_arch = run_or_panic (objcopy_cmd elf bin objcopy_arch)
