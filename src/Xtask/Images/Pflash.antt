-- ===== src/Xtask/Images/Pflash.antt =====
-- What the pflash image holds.
use app_guestaspace.Base.{
  Bool, false, arith, ◌*◌, ℕ, ◌%◌, ◌≤◌, ◌≡◌, refl, [], ◌∷◌, true, if◌then◌else◌,
}
use app_guestaspace.Base.Bytes.{from_le_bytes}
use app_guestaspace.Xtask.{String, ◌==◌, Content, Host, World, done, ◌>>=◌}
use app_guestaspace.Xtask.Images.{create_pflash_image, pflash_path, pflash_image}
use app_guestaspace.Xtask.Images.Disk.{Differs, Differs-put, put}
use app_guestaspace.X86.Run.{pflash_magic}

-- The little-endian word at the start of a file.
abbrev pub first_word : Content → ℕ
first_word c = from_le_bytes (c.byte 0 ∷ c.byte 1 ∷ c.byte 2 ∷ c.byte 3 ∷ [])

in_pages :
    (r a : Bool)
    → let size =
        if r then 32 * 1024 * 1024 else (if a then 64 * 1024 * 1024 else 4 * 1024 * 1024) in
      (size % 4096 ≡ 0) × (4096 ≤ size)
in_pages true a = (refl, omega arith)
in_pages false true = (refl, omega arith)
in_pages false false = (refl, omega arith)

-- Where the image can be written, the tool makes it with the word in front that the guest looks for
-- and that the x86_64 hypervisor writes itself, in whole pages of which there is at least one. No
-- other file changes, and no command is run.
pub create_pflash_image_lem :
    (H : Host) (root arch : String) (w : World)
    → H.writable (pflash_path root arch) w.files ≡ true
    → (w1 : World) × (create_pflash_image H root arch w ≡ done (pflash_path root arch) w1)
      × (c : Content) × Differs (pflash_path root arch) c w w1
      × (first_word c ≡ pflash_magic)
      × (c.len % 4096 ≡ 0)
      × (4096 ≤ c.len)
unfolding create_pflash_image
create_pflash_image_lem H root arch w may_write = (
  put (pflash_path root arch) (pflash_image arch) w,
  rw (◌>>=◌, may_write),
  pflash_image arch,
  Differs-put (pflash_path root arch) (pflash_image arch) w,
  refl,
  (in_pages (arch == "riscv64") (arch == "aarch64")).0,
  (in_pages (arch == "riscv64") (arch == "aarch64")).1,
)
