-- ===== src/AddrSpace/Passed.antt =====
-- One page of an address space that is mapped to itself.
use app_guestaspace.Base.{ℕ, ◌+◌, ◌<◌, ◌≡◌, ◌∙◌, ap, false, some, arith}
use app_guestaspace.AddrSpace.{AddrSpace, IsLawful, guest_flags, in_range}

-- Another space with the same page table, in which just the page at `page` is mapped anew, to itself.
pub record IsPassed (A : AddrSpace) (page : ℕ) (n m : A.Space) : Type 0 where
  pub same_root : A.page_table_root m ≡ A.page_table_root n
  pub inside : (i : ℕ) → i < 4096 → A.query m (page + i) ≡ some (page + i)
  pub outside :
      (a : ℕ)
      → in_range page 4096 a ≡ false
      → (A.query m a ≡ A.query n a) × (A.byte_at m a ≡ A.byte_at n a)

pub map_linear-IsPassed :
    (A : AddrSpace) (L : IsLawful A) (page : ℕ) (n m : A.Space)
    → A.map_linear page page 4096 (guest_flags A) n ≡ some m
    → IsPassed A page n m
map_linear-IsPassed A L page n m maps = record {
  same_root = L.linear_root page page 4096 (guest_flags A) n m maps;
  inside = λ i low.
      L.linear_inside page page 4096 (guest_flags A) n m (page + i) maps (ground arith)
      ∙ ap some (omega arith);
  outside = λ a out. L.linear_outside page page 4096 (guest_flags A) n m a maps out;
}
