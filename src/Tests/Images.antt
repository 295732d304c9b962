-- ===== src/Tests/Images.antt =====
-- The loader and the guest's number printing at concrete inputs.
use app_guestaspace.Base.{
  ℕ, ◌≡◌, refl, true, some, List, [], ◌∷◌, ◌++◌, ok, arith, take, drop, length, ◌≢◌, ◌*◌, ◌<◌,
  out_of_fuel,
}
use mathlib.Core.Path.{subst}
use mathlib.Core.Option.{some-injective}
use app_guestaspace.AddrSpace.Flat.{flat, flat-IsLawful, Space}
use app_guestaspace.Loader.Paged.{load_vm_image-Ends}
use app_guestaspace.Loader.{load_vm_image, FileSystem, load_guest}
use app_guestaspace.Loader.Preallocated.{IsReader, Copied, load_guest-Copied}
use app_guestaspace.Payload.{exit, print_hex32, as_bytes}
use app_guestaspace.Payload.Text.{transcript, read_digits, print_hex32_lem}

-- A file system with one file, whose state is what is left of it.
abbrev pub disk : FileSystem
disk = record {
  File = List ℕ;
  open_file = λ name. some (0x13 ∷ 0x37 ∷ 0x42 ∷ []);
  read = λ f. some (take 4096 f, drop 4096 f);
}

pub disk-IsReader : IsReader disk (λ f. f)
disk-IsReader = record { reads = λ f. (drop 4096 f, refl, refl) }

abbrev ram : Space
ram = record {
  areas = record { start = 0x8000_0000; size = 0x100_0000; paddr = 0x1000_0000 } ∷ [];
  bytes = λ a. 0;
}

load_guest-Copied_example :
    (t : Space) × (load_guest flat disk 0x8020_0000 true 1 "/sbin/gkernel" ram ≡ ok t)
    × Copied flat 0x8020_0000 (0x13 ∷ 0x37 ∷ 0x42 ∷ []) ram t
load_guest-Copied_example =
    load_guest-Copied flat disk 0x8020_0000 true flat-IsLawful (λ f. f) disk-IsReader 1
      "/sbin/gkernel" (0x13 ∷ 0x37 ∷ 0x42 ∷ []) ram refl (λ a h. ground arith) (omega arith)

print_hex32_lem_example :
    (cs : List ℕ) × (transcript (λ a. 0) (print_hex32 0x646c_6670 exit)
      ≡ as_bytes "0x" ++ cs ++ transcript (λ a. 0) exit)
    × (read_digits 0 cs ≡ some 0x646c_6670)
print_hex32_lem_example = print_hex32_lem (λ a. 0) 0x646c_6670 exit (omega arith)

few_bytes : (file : List ℕ) → disk.open_file "/sbin/gkernel" ≡ some file → length file < 4096 * 1
few_bytes file e = subst (λ l. length l < 4096 * 1) (some-injective _ _ e) (omega arith)

load_vm_image-Ends_example :
    load_vm_image flat disk 0x4020_0000 true 1 "/sbin/gkernel" ram ≢ out_of_fuel
load_vm_image-Ends_example =
    load_vm_image-Ends flat disk 0x4020_0000 true (λ f. f) disk-IsReader 1 "/sbin/gkernel" ram
      few_bytes
