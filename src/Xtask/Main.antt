-- ===== src/Xtask/Main.antt =====
-- `main` of xtask: its two commands.
use app_guestaspace.Base.{Bool, true, false, not, ◌||◌, Option, none, some}
use app_guestaspace.Xtask.{
  String, ◌<>◌, ◌==◌, Host, Task, Done, ◌>>=◌, ◌>>◌, pure, skip, join, with_extension,
}
use app_guestaspace.Xtask.Build.{
  ArchInfo, arch_info, install_config, install_payload_config, build_payload, do_build, do_objcopy,
}
use app_guestaspace.Xtask.Images.{create_fat_disk_image, create_pflash_image}
use app_guestaspace.Xtask.Qemu.{do_run_qemu}

pub data Cmd : Type 0 where
  build run : String → Cmd

abbrev pub disk_path : String → String → String
disk_path root arch = join (join root "target") ("disk-" <> arch <> ".img")

abbrev pub kernel_elf : String → ArchInfo → String
kernel_elf root info =
    join (join (join (join root "target") info.target) "release") "arceos-guestaspace"

abbrev pub has_pflash : String → Bool
has_pflash arch = arch == "riscv64" || arch == "aarch64"

module _ (H : Host) where
  unfoldable pub make_pflash : String → String → Bool → Task (Option String)
  make_pflash root arch true = do path ← create_pflash_image H root arch; pure (some path)
  make_pflash root arch false = pure none

  unfoldable pub do_objcopy_if : Bool → String → String → String → Task Done
  do_objcopy_if true elf bin objcopy_arch = do_objcopy H elf bin objcopy_arch
  do_objcopy_if false elf bin objcopy_arch = skip

  -- The steps of a run from the disk image on.
  unfoldable pub run_images : String → String → ArchInfo → String → Task Done
  run_images root arch info payload_bin = do
    let disk = disk_path root arch
    create_fat_disk_image H disk payload_bin
    pflash ← make_pflash root arch (has_pflash arch)
    do_build H root info
    let elf = kernel_elf root info
    let bin = with_extension elf "bin"
    do_objcopy_if (not (arch == "x86_64")) elf bin info.objcopy_arch
    do_run_qemu H arch elf bin disk pflash

  unfoldable pub main : String → Cmd → Task Done
  main root (build arch) = do
    info ← arch_info arch
    install_config H root arch
    install_payload_config H root arch
    _ ← build_payload H root info arch
    do_build H root info
  main root (run arch) = do
    info ← arch_info arch
    install_config H root arch
    install_payload_config H root arch
    payload_bin ← build_payload H root info arch
    run_images root arch info payload_bin
