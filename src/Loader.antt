-- ===== src/Loader.antt =====
-- src/loader.rs: the guest image is read from the file system in pages of 4096 bytes, each of which is
-- mapped and written. The file system is a parameter.
pub mod Paged
pub mod Keeps
pub mod Preallocated
pub mod Pages
pub mod Image
use app_guestaspace.Base.{
  ℕ, zero, suc, ◌+◌, Bool, List, Option, Outcome, ok, err, out_of_fuel, ◌>>=◌, ◌>>◌, expect, or_err,
  not_found, io, no_memory, if◌then◌else◌, ◌==◌, ltb, length, true,
}
use app_guestaspace.AddrSpace.{AddrSpace, guest_flags}
use Prim.Native.String.{String}

-- `axstd::fs::File`: `open_file` by name, and `read` into a buffer of 4096 bytes, which gives the bytes
-- read and the file behind them.
pub record FileSystem : Type 1 where
  pub File : Type 0
  pub open_file : String → Option File
  pub read : File → Option (List ℕ × File)

abbrev pub page_size_4k : ℕ
page_size_4k = 4096

-- `VM_ENTRY` and the test for aarch64 are those of the architecture that is built.
module _ (A : AddrSpace) (F : FileSystem) (vm_entry : ℕ) (is_aarch64 : Bool) where
  -- `query(va)` before the cache maintenance, which aarch64 has: it panics where it gives nothing.
  unfoldable pub clean_page : ℕ → A.Space → Outcome A.Space
  clean_page va s = if is_aarch64 then (do paddr ← expect (A.query s va); ok s) else ok s

  -- The loop, for at most so many reads.
  unfoldable pub load_pages : ℕ → F.File → ℕ → A.Space → Outcome A.Space
  load_pages zero file page_offset s = out_of_fuel
  load_pages (suc fuel) file page_offset s = do
    part ← or_err io (F.read file)
    if length part.0 == 0 then ok s else (do
      let va = vm_entry + page_offset
      s1 ← or_err no_memory (A.map_alloc va page_size_4k (guest_flags A) true s)
      s2 ← or_err io (A.write va part.0 s1)
      s3 ← clean_page va s2
      let rest = load_pages fuel part.1 (page_offset + page_size_4k) s3
      if ltb (length part.0) page_size_4k then ok s3 else rest)

  -- `load_vm_image(fname, uspace)`
  unfoldable pub load_vm_image : ℕ → String → A.Space → Outcome A.Space
  load_vm_image fuel fname s = do
    file ← or_err not_found (F.open_file fname)
    t ← load_pages fuel file 0 s
    first_paddr ← expect (A.query t vm_entry)
    ok t

  -- The loop of `riscv64_main` and `x86_64_main`, which write into memory that is mapped already.
  unfoldable pub write_pages : ℕ → F.File → ℕ → A.Space → Outcome A.Space
  write_pages zero file offset s = out_of_fuel
  write_pages (suc fuel) file offset s = do
    part ← expect (F.read file)
    if length part.0 == 0 then ok s else (do
      t ← expect (A.write (vm_entry + offset) part.0 s)
      let rest = write_pages fuel part.1 (offset + length part.0) t
      if ltb (length part.0) 4096 then ok t else rest)

  -- The block of `riscv64_main` and `x86_64_main` that loads the guest.
  unfoldable pub load_guest : ℕ → String → A.Space → Outcome A.Space
  load_guest fuel fname s = do file ← expect (F.open_file fname); write_pages fuel file 0 s
