-- ===== src/AddrSpace/Room.antt =====
-- Memory that is left for an address space: a further law of axmm, for a space that covers the
-- addresses from `low` to `high`. A mapping inside of these addresses, of pages that are not mapped,
-- succeeds while there is memory for it.
use app_guestaspace.Base.{ℕ, ◌+◌, ◌*◌, ◌%◌, ◌≤◌, ◌<◌, ◌≡◌, true, none, some, List}
use app_guestaspace.AddrSpace.{AddrSpace, guest_flags, in_range}

pub record HasRoom (A : AddrSpace) (low high : ℕ) : Type 1 where
  -- There are frames for so many pages and for the tables that map them.
  pub Room : ℕ → A.Space → Type 0
  pub allocs :
      (pages left va : ℕ) (s : A.Space)
      → 0 < pages
      → va % 4096 ≡ 0
      → low ≤ va
      → va + pages * 4096 ≤ high
      → ((a : ℕ) → in_range va (pages * 4096) a ≡ true → A.query s a ≡ none)
      → Room (pages + left) s
      → (t : A.Space) × (A.map_alloc va (pages * 4096) (guest_flags A) true s ≡ some t)
        × Room left t
  pub links :
      (pages left va pa : ℕ) (s : A.Space)
      → 0 < pages
      → va % 4096 ≡ 0
      → pa % 4096 ≡ 0
      → low ≤ va
      → va + pages * 4096 ≤ high
      → ((a : ℕ) → in_range va (pages * 4096) a ≡ true → A.query s a ≡ none)
      → Room (pages + left) s
      → (t : A.Space) × (A.map_linear va pa (pages * 4096) (guest_flags A) s ≡ some t) × Room left t
  -- A write takes no memory.
  pub writes :
      (left start : ℕ) (buf : List ℕ) (s t : A.Space)
      → A.write start buf s ≡ some t
      → Room left s
      → Room left t
