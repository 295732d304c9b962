-- ===== src/Xtask/Finish.antt =====
-- A run of xtask (xtask/src/main.rs) in which nothing fails. Cargo, objcopy, qemu and the host's file
-- system are parameters, and `IsWilling` says that they do what they are asked.
use Prim.{tt}
use app_guestaspace.Base.{
  ℕ, ◌*◌, ◌≤◌, ◌≡◌, ◌≢◌, ◌∙◌, refl, ap, true, false, Bool, Option, none, some, List, [], ◌∷◌, ◌++◌,
  if◌then◌else◌, not,
}
use mathlib.Core.Path.{subst}
use app_guestaspace.Xtask.{
  String, ◌<>◌, ◌==◌, Content, Command, Files, Host, World, Task, Done, Result, done, exited_with,
  ◌>>=◌, ◌>>◌, pure, or_exit, exited, panicked, copy_file, write_file, set_file, exit, join,
  with_extension,
}
use app_guestaspace.Xtask.Build.{
  ArchInfo, arch_info, riscv64_info, aarch64_info, x86_64_info, payload_dir, payload_elf, build_cmd,
  objcopy_cmd, build_payload_cmd, objcopy_payload_cmd, copy_config, install_config,
  install_payload_config, run_or_exit, run_or_panic, build_payload, do_build, do_objcopy,
}
use app_guestaspace.Xtask.Images.{
  pflash_path, pflash_image, create_fat_disk_image, create_pflash_image, disk_size,
}
use app_guestaspace.Xtask.Images.Disk.{IsFat, create_fat_disk_image_lem}
use app_guestaspace.Xtask.Qemu.{qemu_cmd, arch_args, start_qemu, do_run_qemu}
use app_guestaspace.Xtask.Main.{
  Cmd, build, run, main, make_pflash, has_pflash, kernel_elf, do_objcopy_if, disk_path, run_images,
}
use app_guestaspace.Xtask.Trace.{Log, Ran, Runs, finished}
use app_guestaspace.Xtask.Trace.Order.{arch_of, commands_of, main-Runs}

-- A task that comes to its end when it has run all the commands, in their order and with success.
abbrev pub Completes : List Command → World → Result Done → Type 0
Completes commands w r =
    (w1 : World) × (log : Log) × (r ≡ done tt w1)
    × (w1.log ≡ w.log ++ log)
    × Ran commands log finished

-- A run of the commands that is done is complete.
Completes-Runs :
    (commands : List Command) (w w1 : World) (r : Result Done)
    → r ≡ done tt w1
    → Runs commands tt w r
    → Completes commands w r
Completes-Runs commands w w1 r e runs =
    let (log, logged, ran, _) = subst (Runs commands tt w) e runs in (w1, log, e, logged, ran)

-- A host on which every command succeeds, objcopy leaves the guest's binary, and files can be
-- written and resized.
pub record IsWilling (H : Host) : Type 0 where
  pub succeeds : (c : Command) (f : Files) → (H.spawn c f).0 ≡ some (exited_with 0)
  pub makes_binary :
      (root : String) (info : ArchInfo) (f : Files)
      → (c : Content) × ((H.spawn (objcopy_payload_cmd root info) f).1
            (with_extension (payload_elf root info) "bin")
          ≡ some c)
        × (c.len ≤ 60 * 1024 * 1024)
  pub writes : (path : String) (f : Files) → H.writable path f ≡ true
  pub resizes : (path : String) (size : ℕ) (f : Files) → H.resizable path size f ≡ true

-- A file that is there is there when another has been written.
set_file-some :
    (path q : String) (c d : Content) (files : Files)
    → files q ≡ some d
    → (e : Content) × (set_file path c files q ≡ some e)
set_file-some path q c d files h = by_test (q == path)
  where
    by_test : (b : Bool) → (e : Content) × ((if b then some c else files q) ≡ some e)
    by_test true = (c, refl)
    by_test false = (d, h)

-- The task behind one that is done.
>>=-done :
    {A B : Type 0} (m : Task A) (f : A → Task B) (w w1 : World) (a : A)
    → m w ≡ done a w1
    → (m >>= f) w ≡ f a w1
>>=-done m f w w1 a h =
    ap
      (λ r. elim r [ done a' w' ↦ f a' w' | exited c w' ↦ exited c w' | panicked w' ↦ panicked w' ])
      h

module _ (H : Host) (W : IsWilling H) where
  -- The world after a command.
  abbrev after : Command → World → World
  after c w = record {
    files = (H.spawn c w.files).1;
    log = w.log ++ (c, some (exited_with 0)) ∷ [];
  }

  run_or_exit-done : (c : Command) (w : World) → run_or_exit H c w ≡ done tt (after c w)
  unfolding run_or_exit
  run_or_exit-done c w = rw (W.succeeds c w.files) refl

  run_or_panic-done : (c : Command) (w : World) → run_or_panic H c w ≡ done tt (after c w)
  unfolding run_or_panic
  run_or_panic-done c w = rw (W.succeeds c w.files) refl

  write_file-done :
      (path : String) (c : Content) (w : World)
      → write_file H path c w ≡ done (some tt) (record w { files = set_file path c w.files })
  write_file-done path c w = rw (W.writes path w.files) refl

  copy_file-done :
      (src dst : String) (w : World) (c : Content)
      → w.files src ≡ some c
      → copy_file H src dst w ≡ done (some tt) (record w { files = set_file dst c w.files })
  copy_file-done src dst w c found =
      ap (λ o. elim o [ none ↦ done none w | some c' ↦ write_file H dst c' w ]) found
      ∙ write_file-done dst c w

  copy_config-done :
      (src dst : String) (w : World) (c : Content)
      → w.files src ≡ some c
      → copy_config H src dst w ≡ done tt (record w { files = set_file dst c w.files })
  unfolding copy_config
  copy_config-done src dst w c found =
      ap (λ o. (or_exit o >> (copy_file H src dst >>= or_exit)) w) found
      ∙ >>=-done (copy_file H src dst) or_exit w (record w { files = set_file dst c w.files })
          (some tt) (copy_file-done src dst w c found)

  module _ (root arch : String) (info : ArchInfo) where
    build_payload-done :
        (w : World)
        → (w1 : World) × (build_payload H root info arch w
            ≡ done (with_extension (payload_elf root info) "bin") w1)
          × (c : Content) × (w1.files (with_extension (payload_elf root info) "bin") ≡ some c)
          × (c.len ≤ 60 * 1024 * 1024)
    unfolding build_payload
    build_payload-done w =
        let w1 = after (build_payload_cmd root info arch) w in
        let (c, there, fits) = W.makes_binary root info w1.files in
        (
          after (objcopy_payload_cmd root info) w1,
          >>=-done (run_or_exit H (build_payload_cmd root info arch)) _ w w1 tt
                (run_or_exit-done _ w)
              ∙ >>=-done (run_or_panic H (objcopy_payload_cmd root info)) _ w1 _ tt
                  (run_or_panic-done _ w1),
          c,
          there,
          fits,
        )

    make_pflash-done :
        (wanted : Bool) (w : World)
        → (path : Option String) × (w1 : World) × (make_pflash H root arch wanted w ≡ done path w1)
    unfolding make_pflash create_pflash_image
    make_pflash-done true w =
        let w1 = record w {
          files = set_file (pflash_path root arch) (pflash_image arch) w.files;
        } in
        (
          some (pflash_path root arch),
          w1,
          >>=-done (create_pflash_image H root arch) _ w w1 (pflash_path root arch) (
              >>=-done (write_file H (pflash_path root arch) (pflash_image arch)) _ w w1 (some tt)
                (write_file-done (pflash_path root arch) (pflash_image arch) w)),
        )
    make_pflash-done false w = (none, w, refl)

    do_objcopy_if-done :
        (wanted : Bool) (elf bin arch' : String) (w : World)
        → (w1 : World) × (do_objcopy_if H wanted elf bin arch' w ≡ done tt w1)
    unfolding do_objcopy_if do_objcopy
    do_objcopy_if-done true elf bin arch' w = (_, run_or_panic-done (objcopy_cmd elf bin arch') w)
    do_objcopy_if-done false elf bin arch' w = (w, refl)

    start_qemu-done :
        (disk : String) (middle : Option (List String)) (w : World)
        → middle ≢ none
        → (w1 : World) × (start_qemu H arch disk middle w ≡ done tt w1)
    unfolding start_qemu
    start_qemu-done disk none w some_args = absurd (some_args refl)
    start_qemu-done disk (some m) w some_args = (_, run_or_exit-done (qemu_cmd arch m disk) w)

    arch_args-none :
        (elf bin : String) (pflash : Option String) (w : World)
        → arch_info arch ≡ pure info
        → arch_args arch elf bin pflash ≢ none
    unfolding arch_info arch_args
    arch_args-none elf bin pflash w known =
        of_tests riscv64_info aarch64_info x86_64_info _ _ _ (arch == "riscv64") (arch == "aarch64")
          (arch == "x86_64") known
      where
        of_tests :
            (i1 i2 i3 : ArchInfo) (l1 l2 l3 : List String) (r a x : Bool)
            → (if r then pure i1 else (if a then pure i2 else (if x then pure i3 else exit 1)))
              ≡ pure info
            → (if r then some l1 else (if a then some l2 else (if x then some l3 else none))) ≢ none
        of_tests i1 i2 i3 l1 l2 l3 true a x h e = cc
        of_tests i1 i2 i3 l1 l2 l3 false true x h e = cc
        of_tests i1 i2 i3 l1 l2 l3 false false true h e = cc
        of_tests i1 i2 i3 l1 l2 l3 false false false h e =
            let at_w : exited 1 w ≡ done info w = ap (λ t. t w) h in cc

    module _ (F : IsFat H) (known : arch_info arch ≡ pure info) where
      run_images-done :
          (w : World) (bin : String) (c : Content)
          → w.files bin ≡ some c
          → c.len ≤ 60 * 1024 * 1024
          → (w1 : World) × (run_images H root arch info bin w ≡ done tt w1)
      unfolding run_images do_build do_run_qemu
      run_images-done w bin c there fits =
          let (w1, disk, _, _, _, _) =
            create_fat_disk_image_lem H F (disk_path root arch) w bin c there fits
              (W.writes _ w.files) (λ files. W.resizes _ disk_size files) in
          let (pflash, w2, image) = make_pflash-done (has_pflash arch) w1 in
          let w3 = after (build_cmd root info) w2 in
          let elf = kernel_elf root info in
          let (w4, object) =
            do_objcopy_if-done (not (arch == "x86_64")) elf (with_extension elf "bin")
              info.objcopy_arch w3 in
          let (w5, qemu) =
            start_qemu-done (disk_path root arch)
              (arch_args arch elf (with_extension elf "bin") pflash) w4
              (arch_args-none elf (with_extension elf "bin") pflash w known) in
          (
            w5,
            >>=-done (create_fat_disk_image H (disk_path root arch) bin) _ w w1 tt disk
                ∙ >>=-done (make_pflash H root arch (has_pflash arch)) _ w1 w2 pflash image
                ∙ >>=-done (run_or_panic H (build_cmd root info)) _ w2 w3 tt
                    (run_or_panic-done _ w2)
                ∙ >>=-done
                    (do_objcopy_if H (not (arch == "x86_64")) elf (with_extension elf "bin")
                      info.objcopy_arch)
                    _ w3 w4 tt object
                ∙ qemu,
          )

    -- Both configurations are copied.
    installs :
        (known : arch_info arch ≡ pure info) (w : World) (c d : Content)
        (rest : ArchInfo → Task Done)
        → w.files (join (join root "configs") (arch <> ".toml")) ≡ some c
        → w.files (join (join (payload_dir root) "configs") (arch <> ".toml")) ≡ some d
        → (w1 : World) × ((arch_info arch >>= λ i.
                install_config H root arch >> (install_payload_config H root arch >> rest i))
              w
            ≡ rest info w1)
    unfolding install_config install_payload_config
    installs known w c d rest host guest =
        let config = join root ".axconfig.toml" in
        let w1 = record w { files = set_file config c w.files } in
        let (e, still) = set_file-some config _ c d w.files guest in
        let w2 = record w1 {
          files = set_file (join (payload_dir root) ".axconfig.toml") e w1.files;
        } in
        (
          w2,
          >>=-done (arch_info arch) _ w w info (ap (λ t. t w) known)
              ∙ >>=-done (install_config H root arch) _ w w1 tt (copy_config-done _ _ w c host)
              ∙ >>=-done (install_payload_config H root arch) _ w1 w2 tt
                  (copy_config-done _ _ w1 e still),
        )

  main-done :
      (root : String) (cmd : Cmd) (info : ArchInfo) (w : World) (c d : Content)
      → IsFat H
      → arch_info (arch_of cmd) ≡ pure info
      → w.files (join (join root "configs") (arch_of cmd <> ".toml")) ≡ some c
      → w.files (join (join (payload_dir root) "configs") (arch_of cmd <> ".toml")) ≡ some d
      → (w1 : World) × (main H root cmd w ≡ done tt w1)
  unfolding main do_build
  main-done root (build arch) info w c d F known host guest =
      let (w1, installed) = installs root arch info known w c d _ host guest in
      let (w2, built, _, _, _) = build_payload-done root arch info w1 in
      (
        _,
        installed
            ∙ >>=-done (build_payload H root info arch) _ w1 w2 _ built
            ∙ run_or_panic-done (build_cmd root info) w2,
      )
  main-done root (run arch) info w c d F known host guest =
      let (w1, installed) = installs root arch info known w c d _ host guest in
      let (w2, built, b, there, fits) = build_payload-done root arch info w1 in
      let (w3, ran) = run_images-done root arch info F known w2 _ b there fits in
      (w3, installed ∙ >>=-done (build_payload H root info arch) _ w1 w2 _ built ∙ ran)

  -- On a host on which every command succeeds and files can be written and resized, with a guest's
  -- binary of at most 60 MB, both configuration files there and a fatfs that keeps its laws, each of
  -- xtask's two commands comes to its end for a supported architecture, when it has run all its
  -- commands, in the order of `commands_of` and each with success.
  pub main-Completes :
      (root : String) (cmd : Cmd) (info : ArchInfo) (w : World) (c d : Content)
      → IsFat H
      → arch_info (arch_of cmd) ≡ pure info
      → w.files (join (join root "configs") (arch_of cmd <> ".toml")) ≡ some c
      → w.files (join (join (payload_dir root) "configs") (arch_of cmd <> ".toml")) ≡ some d
      → Completes (commands_of root info cmd) w (main H root cmd w)
  main-Completes root cmd info w c d F known host guest =
      let (w1, ended) = main-done root cmd info w c d F known host guest in
      Completes-Runs (commands_of root info cmd) w w1 _ ended (main-Runs H root cmd info known w)
