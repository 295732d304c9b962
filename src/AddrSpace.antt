-- ===== src/AddrSpace.antt =====
-- What the program uses of `axmm::AddrSpace`, a crate that the repository does not hold: an address
-- space with its page table, and the laws that its documentation gives. All code that maps or
-- writes guest memory takes this record as a parameter.
pub mod Flat
pub mod Passed
pub mod Room
pub mod Words
use app_guestaspace.Base.{
  ℕ, ◌+◌, ◌-◌, ◌≤◌, ◌<◌, ◌≡◌, ◌≢◌, Bool, true, false, ◌&&◌, Option, none, some, List, leb, ltb,
  length, get_or,
}

pub record AddrSpace : Type 1 where
  pub Space : Type 0
  pub Flags : Type 0
  pub read : Flags
  pub write_flag : Flags
  pub execute : Flags
  pub user : Flags
  pub union : Flags → Flags → Flags
  -- `new_user_aspace(base, size)`; `none` is an error.
  pub new_user_aspace : ℕ → ℕ → Option Space
  -- `map_alloc(start, size, flags, populate)`
  pub map_alloc : ℕ → ℕ → Flags → Bool → Space → Option Space
  -- `map_linear(start_vaddr, start_paddr, size, flags)`
  pub map_linear : ℕ → ℕ → ℕ → Flags → Space → Option Space
  -- `write(start, buf)`
  pub write : ℕ → List ℕ → Space → Option Space
  pub page_table_root : Space → ℕ
  -- `page_table().query(vaddr)`: the physical address.
  pub query : Space → ℕ → Option ℕ
  -- The byte that the guest reads at an address that is mapped.
  pub byte_at : Space → ℕ → ℕ

-- `READ | WRITE | EXECUTE | USER`, the flags of every mapping of the program.
pub guest_flags : (A : AddrSpace) → A.Flags
guest_flags A = A.union (A.union (A.union A.read A.write_flag) A.execute) A.user

-- Is `a` one of the `size` addresses from `start` on?
abbrev pub in_range : ℕ → ℕ → ℕ → Bool
in_range start size a = leb start a && ltb a (start + size)

abbrev pub IsMapped : (A : AddrSpace) → A.Space → ℕ → Type 0
IsMapped A s a = A.query s a ≢ none

pub record IsLawful (A : AddrSpace) : Type 0 where
  -- A populated allocation maps its range, and leaves the rest as it was.
  pub alloc_inside :
      (start size : ℕ) (f : A.Flags) (s t : A.Space) (a : ℕ)
      → A.map_alloc start size f true s ≡ some t
      → in_range start size a ≡ true
      → IsMapped A t a
  pub alloc_outside :
      (start size : ℕ) (f : A.Flags) (s t : A.Space) (a : ℕ)
      → A.map_alloc start size f true s ≡ some t
      → in_range start size a ≡ false
      → (A.query t a ≡ A.query s a) × (A.byte_at t a ≡ A.byte_at s a)
  -- The root of the page table stays where it is.
  pub alloc_root :
      (start size : ℕ) (f : A.Flags) (s t : A.Space)
      → A.map_alloc start size f true s ≡ some t
      → A.page_table_root t ≡ A.page_table_root s
  pub linear_root :
      (vaddr paddr size : ℕ) (f : A.Flags) (s t : A.Space)
      → A.map_linear vaddr paddr size f s ≡ some t
      → A.page_table_root t ≡ A.page_table_root s
  pub write_root :
      (start : ℕ) (buf : List ℕ) (s t : A.Space)
      → A.write start buf s ≡ some t
      → A.page_table_root t ≡ A.page_table_root s
  -- A linear mapping keeps the distance between the two addresses.
  pub linear_inside :
      (vaddr paddr size : ℕ) (f : A.Flags) (s t : A.Space) (a : ℕ)
      → A.map_linear vaddr paddr size f s ≡ some t
      → in_range vaddr size a ≡ true
      → A.query t a ≡ some (paddr + (a - vaddr))
  pub linear_outside :
      (vaddr paddr size : ℕ) (f : A.Flags) (s t : A.Space) (a : ℕ)
      → A.map_linear vaddr paddr size f s ≡ some t
      → in_range vaddr size a ≡ false
      → (A.query t a ≡ A.query s a) × (A.byte_at t a ≡ A.byte_at s a)
  -- A write to mapped memory is done, and changes the bytes of its range and no mapping.
  pub write_mapped :
      (start : ℕ) (buf : List ℕ) (s : A.Space)
      → ((a : ℕ) → in_range start (length buf) a ≡ true → IsMapped A s a)
      → (t : A.Space) × (A.write start buf s ≡ some t)
  pub write_query :
      (start : ℕ) (buf : List ℕ) (s t : A.Space) (a : ℕ)
      → A.write start buf s ≡ some t
      → A.query t a ≡ A.query s a
  pub write_inside :
      (start : ℕ) (buf : List ℕ) (s t : A.Space) (a : ℕ)
      → A.write start buf s ≡ some t
      → in_range start (length buf) a ≡ true
      → A.byte_at t a ≡ get_or buf (a - start) 0
  pub write_outside :
      (start : ℕ) (buf : List ℕ) (s t : A.Space) (a : ℕ)
      → A.write start buf s ≡ some t
      → in_range start (length buf) a ≡ false
      → A.byte_at t a ≡ A.byte_at s a
