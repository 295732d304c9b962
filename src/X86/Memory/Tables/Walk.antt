-- ===== src/X86/Memory/Tables/Walk.antt =====
-- The page walk of a processor in long mode over the guest's tables.
use app_guestaspace.Base.{
  ℕ, ◌+◌, ◌*◌, ◌/◌, ◌%◌, ◌^◌, ◌≤◌, ◌<◌, ◌≡◌, ◌⊎◌, inl, inr, refl, ◌∙◌, ap, Option, some, none, ◌==◌,
  if◌then◌else◌, arith, All,
}
use app_guestaspace.AddrSpace.{AddrSpace}
use app_guestaspace.AddrSpace.Words.{read_u64}
use app_guestaspace.X86.Memory.Tables.{page_table_words, Stored}

-- The table or 4 KB page that an entry names.
abbrev frame : ℕ → ℕ
frame e = e / 4096 % 2 ^ 40 * 4096

-- The entry for an address, where each entry of a table stands for `size` bytes.
abbrev entry_of : (ℕ → ℕ) → ℕ → ℕ → ℕ → ℕ
entry_of read table size va = read (table + 8 * (va / size % 512))

-- Bit 0 says that an entry is there, and bit 7 that it is a page and not a table.
abbrev next_level : ℕ → Option ℕ → Option ℕ → Option ℕ
next_level e page table = if e % 2 == 0 then none else if e / 128 % 2 == 1 then page else table

-- The physical address of `va` by four-level paging; `read` reads 64-bit words of physical memory.
unfoldable pub walk : (ℕ → ℕ) → ℕ → ℕ → Option ℕ
walk read cr3 va =
    let e4 = entry_of read (frame cr3) (2 ^ 39) va in
    let e3 = entry_of read (frame e4) (2 ^ 30) va in
    let e2 = entry_of read (frame e3) (2 ^ 21) va in
    let e1 = entry_of read (frame e2) (2 ^ 12) va in
    if e4 % 2 == 0
    then none
    else next_level e3 (some (e3 / 2 ^ 30 % 2 ^ 22 * 2 ^ 30 + va % 2 ^ 30)) (
        next_level e2 (some (e2 / 2 ^ 21 % 2 ^ 31 * 2 ^ 21 + va % 2 ^ 21))
          (if e1 % 2 == 0 then none else some (frame e1 + va % 2 ^ 12)))

-- The addresses that the guest's tables are made for: its RAM, and 2 MB from the start of pflash.
abbrev pub Covered : ℕ → Type 0
Covered va = (va < 0x20_0000) ⊎ ((0xFFC0_0000 ≤ va) × (va < 0xFFE0_0000))

-- A page of 2 MB.
walk_page :
    (read : ℕ → ℕ) (va e3 e2 : ℕ)
    → entry_of read 0x1000 (2 ^ 39) va ≡ 0x2007
    → entry_of read 0x2000 (2 ^ 30) va ≡ e3
    → e3 % 256 ≡ 7
    → entry_of read (frame e3) (2 ^ 21) va ≡ e2
    → e2 % 256 ≡ 0x87
    → walk read 0x1000 va ≡ some (e2 / 2 ^ 21 % 2 ^ 31 * 2 ^ 21 + va % 2 ^ 21)
unfolding walk
walk_page read va e3 e2 h4 h3 b3 h2 b2 = rw (h4, h3, h2) (ground arith)

-- Over memory that holds the page tables, every address that they are made for is its own physical
-- address.
pub walk_identity :
    (A : AddrSpace) (t : A.Space) (va : ℕ)
    → All (Stored A t) page_table_words
    → Covered va
    → walk (read_u64 A t) 0x1000 va ≡ some va
walk_identity A t va (m4, (m3, (m3', (m2, (m2', _))))) (inl low) =
    walk_page (read_u64 A t) va 0x3007 0x87 (ap (read_u64 A t) (omega arith) ∙ m4)
      (ap (read_u64 A t) (omega arith) ∙ m3) refl (ap (read_u64 A t) (omega arith) ∙ m2) refl
    ∙ ap some (omega arith)
walk_identity A t va (m4, (m3, (m3', (m2, (m2', _))))) (inr (low, high)) =
    walk_page (read_u64 A t) va 0x4007 0xFFC0_0087 (ap (read_u64 A t) (omega arith) ∙ m4)
      (ap (read_u64 A t) (omega arith) ∙ m3') refl (ap (read_u64 A t) (omega arith) ∙ m2') refl
    ∙ ap some (omega arith)
