-- ===== src/Xtask/Qemu.antt =====
-- The arguments with which xtask runs QEMU.
use app_guestaspace.Base.{List, [], ◌∷◌, ◌++◌, Option, none, some, if◌then◌else◌}
use app_guestaspace.Xtask.{String, ◌<>◌, ◌==◌, Command, Host, Task, Done, panic}
use app_guestaspace.Xtask.Build.{run_or_exit}

abbrev pub base_args : List String
base_args = "-m" ∷ "128M" ∷ "-smp" ∷ "1" ∷ "-nographic" ∷ []

abbrev pub pflash_args : Option String → List String
pflash_args none = []
pflash_args (some pf) =
    "-drive" ∷ ("if=pflash,format=raw,unit=1,file=" <> pf <> ",readonly=on") ∷ []

-- The arguments for an architecture, of which `none` is not reached.
unfoldable pub arch_args : String → String → String → Option String → Option (List String)
arch_args arch elf bin pflash =
    if arch == "riscv64"
    then some
        (("-machine" ∷ "virt" ∷ "-bios" ∷ "default" ∷ "-kernel" ∷ bin ∷ []) ++ pflash_args pflash)
    else (if arch == "aarch64"
        then some (
            ("-cpu" ∷ "max" ∷ "-machine" ∷ "virt,virtualization=on" ∷ "-kernel" ∷ bin ∷ [])
            ++ pflash_args pflash)
        else (if arch == "x86_64"
            then some ("-machine" ∷ "q35" ∷ "-cpu" ∷ "EPYC" ∷ "-kernel" ∷ elf ∷ [])
            else none))

abbrev pub disk_args : String → List String
disk_args disk =
    "-drive"
    ∷ ("file=" <> disk <> ",format=raw,if=none,id=disk0")
    ∷ "-device"
    ∷ "virtio-blk-pci,drive=disk0"
    ∷ []

abbrev pub qemu_cmd : String → List String → String → Command
qemu_cmd arch middle disk = record {
  program = "qemu-system-" <> arch;
  env = [];
  args = base_args ++ middle ++ disk_args disk;
}

module _ (H : Host) where
  unfoldable pub start_qemu : String → String → Option (List String) → Task Done
  start_qemu arch disk none = panic
  start_qemu arch disk (some middle) = run_or_exit H (qemu_cmd arch middle disk)

  unfoldable pub do_run_qemu : String → String → String → String → Option String → Task Done
  do_run_qemu arch elf bin disk pflash = start_qemu arch disk (arch_args arch elf bin pflash)
