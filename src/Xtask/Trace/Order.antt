-- ===== src/Xtask/Trace/Order.antt =====
-- The order of the commands of xtask, and what a failing one does.
use Prim.{tt}
use app_guestaspace.Base.{
  zero, suc, ◌≡◌, refl, sym, List, [], ◌∷◌, ◌++◌, Bool, true, false, not, Option, none, some,
  if◌then◌else◌,
}
use mathlib.Core.List.{append-nil}
use app_guestaspace.Xtask.{
  String, ◌==◌, Command, Status, exited_with, by_signal, Files, Host, World, done, ◌>>=◌, pure,
  or_exit, expect, exit_unless_success, with_extension, set_file,
}
use app_guestaspace.Xtask.Build.{
  ArchInfo, arch_info, payload_elf, build_payload_cmd, objcopy_cmd, objcopy_payload_cmd, build_cmd,
  run_or_exit, run_or_panic, build_payload, install_config, install_payload_config, do_build,
  do_objcopy,
}
use app_guestaspace.Xtask.Images.{
  create_fat_disk_image, create_pflash_image, pflash_path, pflash_image,
}
use app_guestaspace.Xtask.Qemu.{arch_args, qemu_cmd, start_qemu, do_run_qemu}
use app_guestaspace.Xtask.Main.{
  Cmd, build, run, disk_path, kernel_elf, has_pflash, make_pflash, do_objcopy_if, run_images, main,
}
use app_guestaspace.Xtask.Trace.{
  all_run, stops, breaks, fails, not_started, not_started_panics, succeeds, Runs, Runs->>=,
  Runs-quiet,
}
use app_guestaspace.Xtask.Trace.Quiet.{Runs-Quiet, Quiet-copy_config, Quiet-create_fat_disk_image}

abbrev pub arch_of : Cmd → String
arch_of (build arch) = arch
arch_of (run arch) = arch

-- The pflash image that is made, if any.
abbrev pflash_of : String → String → Bool → Option String
pflash_of root arch true = some (pflash_path root arch)
pflash_of root arch false = none

abbrev started : String → String → Option (List String) → List Command
started arch disk none = []
started arch disk (some middle) = qemu_cmd arch middle disk ∷ []

abbrev qemu_of : String → String → ArchInfo → List Command
qemu_of root arch info =
    let elf = kernel_elf root info in
    started arch (disk_path root arch)
      (arch_args arch elf (with_extension elf "bin") (pflash_of root arch (has_pflash arch)))

abbrev objcopy_of : Bool → String → ArchInfo → List Command
objcopy_of true root info =
    let elf = kernel_elf root info in
    objcopy_cmd elf (with_extension elf "bin") info.objcopy_arch ∷ []
objcopy_of false root info = []

-- The commands in their order: the guest is built and made into a flat binary, the hypervisor is
-- built, and to run it it is made into a flat binary except on x86_64, and QEMU is started.
abbrev pub commands_of : String → ArchInfo → Cmd → List Command
commands_of root info (build arch) =
    build_payload_cmd root info arch ∷ objcopy_payload_cmd root info ∷ build_cmd root info ∷ []
commands_of root info (run arch) =
    build_payload_cmd root info arch
    ∷ objcopy_payload_cmd root info
    ∷ build_cmd root info
    ∷ (objcopy_of (not (arch == "x86_64")) root info ++ qemu_of root arch info)

module _ (H : Host) where
  ended_or_exit :
      (c : Command) (w : World) (files : Files) (s : Option Status)
      → Runs (c ∷ []) tt w (
          (or_exit s >>= exit_unless_success)
            (record { files = files; log = w.log ++ (c, s) ∷ [] }))
  ended_or_exit c w files none = ((c, none) ∷ [], refl, not_started, tt)
  ended_or_exit c w files (some (exited_with zero)) =
      ((c, some (exited_with 0)) ∷ [], refl, succeeds (exited_with 0) refl all_run, refl)
  ended_or_exit c w files (some (exited_with (suc n))) =
      ((c, some (exited_with (suc n))) ∷ [], refl, fails (exited_with (suc n)) refl, tt)
  ended_or_exit c w files (some by_signal) =
      ((c, some by_signal) ∷ [], refl, fails by_signal refl, tt)

  ended_or_panic :
      (c : Command) (w : World) (files : Files) (s : Option Status)
      → Runs (c ∷ []) tt w (
          (expect s >>= exit_unless_success) (record { files = files; log = w.log ++ (c, s) ∷ [] }))
  ended_or_panic c w files none = ((c, none) ∷ [], refl, not_started_panics, tt)
  ended_or_panic c w files (some s) = ended_or_exit c w files (some s)

  Runs-run_or_exit : (c : Command) (w : World) → Runs (c ∷ []) tt w (run_or_exit H c w)
  unfolding run_or_exit
  Runs-run_or_exit c w = ended_or_exit c w (H.spawn c w.files).1 (H.spawn c w.files).0

  Runs-run_or_panic : (c : Command) (w : World) → Runs (c ∷ []) tt w (run_or_panic H c w)
  unfolding run_or_panic
  Runs-run_or_panic c w = ended_or_panic c w (H.spawn c w.files).1 (H.spawn c w.files).0

  Runs-build_payload :
      (root : String) (info : ArchInfo) (arch : String) (w : World)
      → Runs
          (build_payload_cmd root info arch ∷ objcopy_payload_cmd root info ∷ [])
          (with_extension (payload_elf root info) "bin")
          w
          (build_payload H root info arch w)
  unfolding build_payload
  Runs-build_payload root info arch =
      Runs->>= tt _ (run_or_exit H (build_payload_cmd root info arch)) _
        (Runs-run_or_exit (build_payload_cmd root info arch))
        (Runs->>= tt _ (run_or_panic H (objcopy_payload_cmd root info)) _
          (Runs-run_or_panic (objcopy_payload_cmd root info)) (λ w. Runs-quiet _ w w refl))

  Runs-install_config :
      (root arch : String) (w : World) → Runs [] tt w (install_config H root arch w)
  unfolding install_config
  Runs-install_config root arch = Runs-Quiet _ (Quiet-copy_config H _ _)

  Runs-install_payload_config :
      (root arch : String) (w : World) → Runs [] tt w (install_payload_config H root arch w)
  unfolding install_payload_config
  Runs-install_payload_config root arch = Runs-Quiet _ (Quiet-copy_config H _ _)

  Runs-make_pflash :
      (root arch : String) (b : Bool) (w : World)
      → Runs [] (pflash_of root arch b) w (make_pflash H root arch b w)
  unfolding make_pflash create_pflash_image
  Runs-make_pflash root arch true w = written (H.writable (pflash_path root arch) w.files)
    where
      written :
          (x : Bool)
          → Runs [] (some (pflash_path root arch)) w (
              ((λ (w : World).
                    if x
                    then done (some tt) (record w {
                      files = set_file (pflash_path root arch) (pflash_image arch) w.files;
                    })
                    else done none w)
                  >>= (λ r. or_exit r >>= λ d. pure (pflash_path root arch))
                  >>= (λ p. pure (some p)))
                w)
      written true =
          Runs-quiet _ w
            (record w { files = set_file (pflash_path root arch) (pflash_image arch) w.files }) refl
      written false = ([], sym (append-nil w.log), stops, tt)
  Runs-make_pflash root arch false w = Runs-quiet none w w refl

  Runs-do_objcopy_if :
      (b : Bool) (root : String) (info : ArchInfo) (w : World)
      → Runs (objcopy_of b root info) tt w (
          do_objcopy_if H b
            (kernel_elf root info)
            (with_extension (kernel_elf root info) "bin")
            info.objcopy_arch
            w)
  unfolding do_objcopy_if do_objcopy
  Runs-do_objcopy_if true root info w = Runs-run_or_panic _ w
  Runs-do_objcopy_if false root info w = Runs-quiet tt w w refl

  Runs-start_qemu :
      (arch disk : String) (middle : Option (List String)) (w : World)
      → Runs (started arch disk middle) tt w (start_qemu H arch disk middle w)
  unfolding start_qemu
  Runs-start_qemu arch disk none w = ([], sym (append-nil w.log), breaks, tt)
  Runs-start_qemu arch disk (some middle) w = Runs-run_or_exit (qemu_cmd arch middle disk) w

  Runs-do_run_qemu :
      (root arch : String) (info : ArchInfo) (w : World)
      → Runs (qemu_of root arch info) tt w (
          do_run_qemu H arch
            (kernel_elf root info)
            (with_extension (kernel_elf root info) "bin")
            (disk_path root arch)
            (pflash_of root arch (has_pflash arch))
            w)
  unfolding do_run_qemu
  Runs-do_run_qemu root arch info w =
      Runs-start_qemu arch (disk_path root arch)
        (arch_args arch (kernel_elf root info) (with_extension (kernel_elf root info) "bin")
          (pflash_of root arch (has_pflash arch)))
        w

  -- The part of a run behind the guest's binary.
  Runs-run_images :
      (root arch : String) (info : ArchInfo) (w : World)
      → Runs
          (build_cmd root info
            ∷ (objcopy_of (not (arch == "x86_64")) root info ++ qemu_of root arch info))
          tt
          w
          (run_images H root arch info (with_extension (payload_elf root info) "bin") w)
  unfolding run_images do_build
  Runs-run_images root arch info =
      Runs->>= tt tt (create_fat_disk_image H (disk_path root arch) _) _
        (Runs-Quiet _ (Quiet-create_fat_disk_image H (disk_path root arch) _))
        (Runs->>= (pflash_of root arch (has_pflash arch)) tt
          (make_pflash H root arch (has_pflash arch)) _
          (Runs-make_pflash root arch (has_pflash arch))
          (Runs->>= tt tt (run_or_panic H (build_cmd root info)) _
            (Runs-run_or_panic (build_cmd root info))
            (Runs->>= tt tt (do_objcopy_if H (not (arch == "x86_64")) _ _ _) _
              (Runs-do_objcopy_if (not (arch == "x86_64")) root info)
              (Runs-do_run_qemu root arch info))))

  -- With the settings of a supported architecture, xtask runs its commands in the order of
  -- `commands_of`, each after the one before has succeeded. A command that fails ends the run with
  -- its exit code, or 1, and no command follows; one that cannot be started, or a step between the
  -- commands that fails, ends it with 1 or a panic; and a run that comes to its end has run them all.
  pub main-Runs :
      (root : String) (cmd : Cmd) (info : ArchInfo)
      → arch_info (arch_of cmd) ≡ pure info
      → (w : World) → Runs (commands_of root info cmd) tt w (main H root cmd w)
  unfolding main do_build
  main-Runs root (build arch) info e w = rw e (
      Runs->>= tt tt (install_config H root arch) _ (Runs-install_config root arch)
        (Runs->>= tt tt (install_payload_config H root arch) _
          (Runs-install_payload_config root arch)
          (Runs->>= _ tt (build_payload H root info arch) _ (Runs-build_payload root info arch)
            (Runs-run_or_panic (build_cmd root info))))
        w)
  main-Runs root (run arch) info e w = rw e (
      Runs->>= tt tt (install_config H root arch) _ (Runs-install_config root arch)
        (Runs->>= tt tt (install_payload_config H root arch) _
          (Runs-install_payload_config root arch)
          (Runs->>= _ tt (build_payload H root info arch) _ (Runs-build_payload root info arch)
            (Runs-run_images root arch info)))
        w)
