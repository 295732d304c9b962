-- ===== src/X86/Memory.antt =====
-- `x86_64_main` of src/main.rs, the guest's memory: its RAM, its page tables and its descriptor table.
pub mod Tables
use app_guestaspace.Base.{
  ℕ, suc, ◌+◌, ◌*◌, ◌^◌, List, [], ◌∷◌, true, Outcome, ok, ◌>>=◌, expect, bit_or,
}
use app_guestaspace.Base.Bytes.{to_le_bytes}
use app_guestaspace.AddrSpace.{AddrSpace, guest_flags}

abbrev pub guest_ram_size : ℕ
guest_ram_size = 0x20_0000

abbrev pub pte_present : ℕ
pte_present = 1

abbrev pub pte_rw : ℕ
pte_rw = 2 ^ 1

abbrev pub pte_user : ℕ
pte_user = 2 ^ 2

abbrev pub pte_ps : ℕ
pte_ps = 2 ^ 7

abbrev pub pt_flags : ℕ
pt_flags = bit_or (bit_or pte_present pte_rw) pte_user

-- Null, 32-bit code, 64-bit code and data.
abbrev pub gdt : List ℕ
gdt = 0 ∷ 0x00CF_9B00_0000_FFFF ∷ 0x00AF_9B00_0000_FFFF ∷ 0x00CF_9300_0000_FFFF ∷ []

module _ (A : AddrSpace) where
  -- The address space with 2 MB of guest RAM.
  unfoldable pub alloc_ram : Outcome A.Space
  alloc_ram = do
    npt ← expect (A.new_user_aspace 0x0 0x1_0000_0000)
    expect (A.map_alloc 0x0 guest_ram_size (guest_flags A) true npt)

  -- `npt.write(at, &v.to_le_bytes()).expect(…)`
  unfoldable pub write_word : ℕ → ℕ → A.Space → Outcome A.Space
  write_word at v s = expect (A.write at (to_le_bytes 8 v) s)

  -- The entries of the four page tables.
  unfoldable pub write_page_tables : A.Space → Outcome A.Space
  write_page_tables npt = do
    t1 ← write_word 0x1000 (bit_or 0x2000 pt_flags) npt
    t2 ← write_word 0x2000 (bit_or 0x3000 pt_flags) t1
    t3 ← write_word (0x2000 + 3 * 8) (bit_or 0x4000 pt_flags) t2
    t4 ← write_word 0x3000 (bit_or (bit_or 0x0 pt_flags) pte_ps) t3
    write_word (0x4000 + 510 * 8) (bit_or (bit_or 0xFFC0_0000 pt_flags) pte_ps) t4

  -- The loop over the table, from entry `i` on.
  unfoldable pub write_gdt_from : ℕ → List ℕ → A.Space → Outcome A.Space
  write_gdt_from i [] npt = ok npt
  write_gdt_from i (entry ∷ entries) npt = do
    t ← write_word (0x5000 + i * 8) entry npt
    write_gdt_from (suc i) entries t

  unfoldable pub write_gdt : A.Space → Outcome A.Space
  write_gdt npt = write_gdt_from 0 gdt npt
