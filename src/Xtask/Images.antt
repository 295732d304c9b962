-- ===== src/Xtask/Images.antt =====
-- The images that xtask makes: the disk with the guest's binary, and pflash.
pub mod Disk
pub mod Pflash
use Prim.{tt}
use app_guestaspace.Base.{
  ℕ, ◌*◌, ◌-◌, ◌+◌, List, length, get_or, Bool, true, false, Option, none, some, if◌then◌else◌, leb,
  ltb, ◌&&◌,
}
use app_guestaspace.Payload.{as_bytes}
use app_guestaspace.Xtask.{
  String, ◌<>◌, ◌==◌, Content, Host, World, done, Task, Done, ◌>>=◌, ◌>>◌, pure, exit, skip, panic,
  or_exit, expect, set_file, join, write_file, read_file,
}

abbrev pub disk_size : ℕ
disk_size = 64 * 1024 * 1024

-- `vec![b; size]`
abbrev pub filled : ℕ → ℕ → Content
filled b size = record { len = size; byte = λ i. b }

-- The content with another length: cut off, or continued by zeros.
abbrev pub resized : ℕ → Content → Content
resized size c = record { len = size; byte = λ i. if ltb i c.len then c.byte i else 0 }

-- `c[start..start + src.len()].copy_from_slice(src)`, for a range of `c`.
abbrev pub copy_from_slice : ℕ → List ℕ → Content → Content
copy_from_slice start src c = record c {
  byte =
      λ i. if leb start i && ltb i (start + length src) then get_or src (i - start) 0 else c.byte i;
}

-- A call of fatfs on the volume in the file `path`.
unfoldable pub fat : String → (Content → Bool × Content) → Task Bool
fat path op w = elim (w.files path) [
  | none ↦ done false w
  | some c ↦
      let (succeeds, c') = op c in done succeeds (record w { files = set_file path c' w.files })
]

-- The two ways in which the source deals with a call that fails.
abbrev pub exit_unless : Bool → Task Done
exit_unless b = if b then skip else exit 1

abbrev pub panic_unless : Bool → Task Done
panic_unless b = if b then skip else panic

abbrev pub pflash_size : String → ℕ
pflash_size arch =
    if arch == "riscv64"
    then 32 * 1024 * 1024
    else (if arch == "aarch64" then 64 * 1024 * 1024 else 4 * 1024 * 1024)

abbrev pub pflash_image : String → Content
pflash_image arch = copy_from_slice 0 (as_bytes "pfld") (filled 0xFF (pflash_size arch))

abbrev pub pflash_path : String → String → String
pflash_path root arch = join (join root "target") ("pflash-" <> arch <> ".img")

module _ (H : Host) where
  -- `file.set_len(size).unwrap()`, of the file that is open.
  unfoldable pub set_len : String → ℕ → Task Done
  set_len path size w =
      if H.resizable path size w.files
      then elim (w.files path) [
        | none ↦ panic w
        | some c ↦ done tt (record w { files = set_file path (resized size c) w.files })
      ]
      else panic w

  -- The volume in the file `path`: formatted, with the directory and the file.
  unfoldable pub write_volume : String → Content → Task Done
  write_volume path payload_data = do
    formatted ← fat path (H.format_volume H.fat32)
    exit_unless formatted
    mounted ← fat path H.open_volume
    exit_unless mounted
    dir ← fat path (H.create_dir "sbin")
    exit_unless dir
    file ← fat path (H.create_file "sbin/gkernel")
    exit_unless file
    written ← fat path (H.write_all "sbin/gkernel" payload_data)
    panic_unless written
    flushed ← fat path (H.flush "sbin/gkernel")
    panic_unless flushed
    _ ← fat path (λ c. (true, H.unmount c))
    skip

  unfoldable pub create_fat_disk_image : String → String → Task Done
  create_fat_disk_image path payload_bin = do
    found ← read_file H payload_bin
    payload_data ← or_exit found
    opened ← write_file H path (filled 0 0)
    or_exit opened
    set_len path disk_size
    write_volume path payload_data

  unfoldable pub create_pflash_image : String → String → Task String
  create_pflash_image root arch = do
    written ← write_file H (pflash_path root arch) (pflash_image arch)
    or_exit written
    pure (pflash_path root arch)
