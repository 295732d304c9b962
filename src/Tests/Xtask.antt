-- ===== src/Tests/Xtask.antt =====
-- The build tool at concrete inputs.
use Prim.{tt}
use app_guestaspace.Base.{
  ℕ, zero, suc, ◌%◌, ◌≤◌, ◌≡◌, refl, ok, [], ◌∷◌, true, false, Bool, Option, none, some,
  if◌then◌else◌, arith,
}
use app_guestaspace.Xtask.{Content, Command, Files, Status, exited_with, Host, World, done, pure}
use app_guestaspace.Xtask.Build.{ArchInfo, arch_info, aarch64_info}
use app_guestaspace.Xtask.Images.{create_fat_disk_image, create_pflash_image, filled, disk_size}
use app_guestaspace.Xtask.Images.Disk.{IsFat, Differs, create_fat_disk_image_lem}
use app_guestaspace.Xtask.Images.Pflash.{first_word, create_pflash_image_lem}
use app_guestaspace.Xtask.Main.{run, main}
use app_guestaspace.Xtask.Trace.{Runs}
use app_guestaspace.Xtask.Trace.Order.{commands_of, main-Runs}
use app_guestaspace.Xtask.Finish.{IsWilling, Completes, main-Completes}
use app_guestaspace.BuildScript.{Environment, build_main}
use app_guestaspace.BuildScript.Platform.{build_main-platform}
use app_guestaspace.X86.Run.{pflash_magic}

-- Volumes in a format of their own: byte 0 is 1 on a volume, byte 1 is 1 if there is a directory, byte
-- 2 is 1 if there is a file, whose length is byte 3 and whose bytes follow.
abbrev volume : ℕ → ℕ → Content → (ℕ → ℕ)
volume dir file c zero = 1
volume dir file c (suc zero) = dir
volume dir file c (suc (suc zero)) = file
volume dir file c (suc (suc (suc zero))) = c.len
volume dir file c (suc (suc (suc (suc i)))) = c.byte i

abbrev is_one : ℕ → Bool
is_one (suc zero) = true
is_one _ = false

abbrev the_file : Content → Content
the_file c = record { len = c.byte 3; byte = λ i. c.byte (suc (suc (suc (suc i)))) }

abbrev find_file : Content → Option Content
find_file c = if is_one (c.byte 2) then some (the_file c) else none

abbrev host_with : (Command → Files → Option Status × Files) → Host
host_with spawn = record {
  spawn = spawn;
  writable = λ path files. true;
  resizable = λ path size files. true;
  FatType = Bool;
  fat32 = true;
  format_volume = λ t c. (true, record { len = c.len; byte = volume 0 0 (filled 0 0) });
  open_volume = λ c. (true, c);
  create_dir = λ name c. (true, record { len = c.len; byte = volume 1 0 (filled 0 0) });
  create_file = λ name c. (true, record { len = c.len; byte = volume 1 1 (filled 0 0) });
  write_all = λ name contents c. (true, record { len = c.len; byte = volume 1 1 contents });
  flush = λ name c. (true, c);
  unmount = λ c. c;
}

host_with-IsFat : (spawn : Command → Files → Option Status × Files) → IsFat (host_with spawn)
host_with-IsFat spawn = record {
  IsVolume = λ c. c.byte 0 ≡ 1;
  lookup = find_file;
  has_sbin = λ c. is_one (c.byte 1);
  formats = λ c size. (_, refl, refl, refl, refl);
  opens = λ c v. (_, refl, v, refl, refl);
  makes_dir = λ c v l. (_, refl, refl, refl, refl, refl);
  makes_file = λ c v l s. (_, refl, refl, refl, refl);
  writes = λ c contents v size l fits. (_, refl, refl, refl, refl);
  flushes = λ c v. (_, refl, v, refl, refl);
  unmounts = λ c v. (refl, refl);
}

-- A host on which every command ends with the code 3.
abbrev host : Host
host = host_with (λ c files. (some (exited_with 3), files))

-- A host on which every command ends with the code 0 and leaves 7 bytes in every file.
abbrev willing : Host
willing = host_with (λ c files. (some (exited_with 0), λ path. some (filled 9 7)))

willing-IsWilling : IsWilling willing
willing-IsWilling = record {
  succeeds = λ c f. refl;
  makes_binary = λ root info f. (filled 9 7, refl, omega arith);
  writes = λ path f. refl;
  resizes = λ path size f. refl;
}

-- Files of 7 bytes everywhere.
abbrev world : World
world = record { files = λ path. some (filled 9 7); log = [] }

abbrev riscv64 : ArchInfo
riscv64 = record {
  target = "riscv64gc-unknown-none-elf";
  platform = "riscv64-qemu-virt";
  objcopy_arch = "riscv64";
}

riscv64-settings : arch_info "riscv64" ≡ pure riscv64
unfolding arch_info
riscv64-settings = refl

main-Runs_example :
    Runs
      (commands_of "/src" riscv64 (run "riscv64"))
      tt
      world
      (main host "/src" (run "riscv64") world)
main-Runs_example = main-Runs host "/src" (run "riscv64") riscv64 riscv64-settings world

main-Completes_example :
    Completes
      (commands_of "/src" riscv64 (run "riscv64"))
      world
      (main willing "/src" (run "riscv64") world)
main-Completes_example =
    main-Completes willing willing-IsWilling "/src" (run "riscv64") riscv64 world (filled 9 7)
      (filled 9 7) (host_with-IsFat _) riscv64-settings refl refl

create_fat_disk_image_lem_example :
    (w1 : World) × (create_fat_disk_image host "disk.img" "gkernel.bin" world ≡ done tt w1)
    × (d : Content) × Differs "disk.img" d world w1
    × (d.len ≡ disk_size)
    × (find_file d ≡ some (filled 9 7))
unfolding host_with-IsFat
create_fat_disk_image_lem_example =
    create_fat_disk_image_lem host (host_with-IsFat _) "disk.img" world "gkernel.bin" (filled 9 7)
      refl (omega arith) refl (λ files. refl)

create_pflash_image_lem_example :
    (w1 : World) × (create_pflash_image host "/src" "aarch64" world
      ≡ done "/src/target/pflash-aarch64.img" w1)
    × (c : Content) × Differs "/src/target/pflash-aarch64.img" c world w1
    × (first_word c ≡ pflash_magic)
    × (c.len % 4096 ≡ 0)
    × (4096 ≤ c.len)
create_pflash_image_lem_example = create_pflash_image_lem host "/src" "aarch64" world refl

-- Cargo's environment for the aarch64 hypervisor.
abbrev environment : Environment
environment = record {
  target = some "aarch64-unknown-none-softfloat";
  out_dir = some "/src/target/aarch64-unknown-none-softfloat/release/build/app-1/out";
  arch = some "aarch64";
  manifest_dir = some "/src";
  axstd_enabled = true;
  canonicalize = λ path. some "/src/target/aarch64-unknown-none-softfloat/release";
  exists = λ path. true;
}

aarch64_known : arch_info "aarch64" world ≡ done aarch64_info world
unfolding arch_info
aarch64_known = refl

build_main-platform_example :
    build_main environment
    ≡ ok (
        ("cargo:rustc-link-arg=-T/src/target/aarch64-unknown-none-softfloat/release/linker_aarch64-qemu-virt.lds")
        ∷ ("cargo:rustc-link-arg=-no-pie")
        ∷ ("cargo:rustc-link-arg=-znostart-stop-gc")
        ∷ [])
build_main-platform_example =
    build_main-platform environment "aarch64"
      "/src/target/aarch64-unknown-none-softfloat/release/build/app-1/out"
      "/src/target/aarch64-unknown-none-softfloat/release" aarch64_info world aarch64_known refl
      refl refl refl refl
