-- ===== src/AddrSpace/Flat.antt =====
-- An address space that meets the laws: a list of mapped areas over one flat memory. It serves the
-- examples. An area must be page-aligned and must not overlap another one.
use app_guestaspace.Base.{
  ◌<◌, ℕ, zero, suc, ◌+◌, ◌-◌, ◌*◌, ◌%◌, ◌≡◌, ◌≢◌, refl, Bool, true, false, ◌&&◌, ◌||◌, Option,
  none, some, List, [], ◌∷◌, arith, leb, ◌==◌, if◌then◌else◌, length, get_or,
}
use Prim.{Unit, tt}
use app_guestaspace.AddrSpace.Room.{HasRoom}
use app_guestaspace.AddrSpace.{AddrSpace, IsLawful, in_range}

pub record Area : Type 0 where
  pub start : ℕ
  pub size : ℕ
  pub paddr : ℕ

pub record Space : Type 0 where
  pub areas : List Area
  pub bytes : ℕ → ℕ

abbrev find : List Area → ℕ → Option ℕ
find [] a = none
find (r ∷ rs) a = if in_range r.start r.size a then some (r.paddr + (a - r.start)) else find rs a

abbrev is_some : Option ℕ → Bool
is_some none = false
is_some (some x) = true

abbrev all_mapped : List Area → ℕ → ℕ → Bool
all_mapped rs start zero = true
all_mapped rs start (suc n) = is_some (find rs (start + n)) && all_mapped rs start n

abbrev apart : ℕ → ℕ → List Area → Bool
apart start size [] = true
apart start size (r ∷ rs) =
    (r.size == 0 || leb (start + size) r.start || leb (r.start + r.size) start)
    && apart start size rs

abbrev add_area : ℕ → ℕ → ℕ → Space → Option Space
add_area start size paddr s =
    if start % 4096 == 0 && size % 4096 == 0 && apart start size s.areas
    then some (record s { areas = record { start = start; size = size; paddr = paddr } ∷ s.areas })
    else none

abbrev store : ℕ → List ℕ → Space → Option Space
store start buf s =
    if all_mapped s.areas start (length buf)
    then some (record s {
      bytes = λ a. if in_range start (length buf) a then get_or buf (a - start) 0 else s.bytes a;
    })
    else none

abbrev pub flat : AddrSpace
flat = record {
  Space = Space;
  Flags = ℕ;
  read = 1;
  write_flag = 2;
  execute = 4;
  user = 8;
  union = λ f g. f + g;
  new_user_aspace = λ base size. some (record { areas = []; bytes = λ a. 0 });
  map_alloc = λ start size f populate s. add_area start size (start + 0x1_0000_0000_0000) s;
  map_linear = λ vaddr paddr size f s. add_area vaddr size paddr s;
  write = store;
  page_table_root = λ s. 0x8000_0000;
  query = λ s a. find s.areas a;
  byte_at = λ s a. s.bytes a;
}

find-none :
    (r : Area) (rs : List Area) (a : ℕ)
    → find (r ∷ rs) a ≡ none
    → (in_range r.start r.size a ≡ false) × (find rs a ≡ none)
find-none r rs a h = ground arith

-- A range of which nothing is mapped is apart from every area.
apart_intro :
    (start size : ℕ) (rs : List Area)
    → 0 < size
    → ((a : ℕ) → in_range start size a ≡ true → find rs a ≡ none)
    → apart start size rs ≡ true
apart_intro start size [] some_size h = refl
apart_intro start size (r ∷ rs) some_size h =
    rw (apart_intro start size rs some_size (λ a p. (find-none r rs a (h a p)).1)) (
      first (λ p. (find-none r rs start (h start p)).0)
        (λ p. (find-none r rs r.start (h r.start p)).0))
  where
    first :
        (in_range start size start ≡ true → in_range r.start r.size start ≡ false)
        → (in_range start size r.start ≡ true → in_range r.start r.size r.start ≡ false)
        → ((r.size == 0 || leb (start + size) r.start || leb (r.start + r.size) start) && true)
          ≡ true
    first p q = ground arith

pub map_alloc_unmapped :
    (start size : ℕ) (f : flat.Flags) (s : Space)
    → 0 < size
    → start % 4096 ≡ 0
    → size % 4096 ≡ 0
    → ((a : ℕ) → in_range start size a ≡ true → flat.query s a ≡ none)
    → (t : Space) × (flat.map_alloc start size f true s ≡ some t)
map_alloc_unmapped start size f s some_size at_page whole h = (
  record s {
    areas = record { start = start; size = size; paddr = start + 0x1_0000_0000_0000 } ∷ s.areas;
  },
  rw (at_page, whole, apart_intro start size s.areas some_size h),
)

pub map_linear_unmapped :
    (vaddr paddr size : ℕ) (f : flat.Flags) (s : Space)
    → 0 < size
    → vaddr % 4096 ≡ 0
    → size % 4096 ≡ 0
    → ((a : ℕ) → in_range vaddr size a ≡ true → flat.query s a ≡ none)
    → (t : Space) × (flat.map_linear vaddr paddr size f s ≡ some t)
map_linear_unmapped vaddr paddr size f s some_size at_page whole h = (
  record s { areas = record { start = vaddr; size = size; paddr = paddr } ∷ s.areas },
  rw (at_page, whole, apart_intro vaddr size s.areas some_size h),
)

all_mapped_intro :
    (rs : List Area) (start n : ℕ)
    → ((a : ℕ) → in_range start n a ≡ true → find rs a ≢ none)
    → all_mapped rs start n ≡ true
all_mapped_intro rs start zero h = refl
all_mapped_intro rs start (suc n) h =
    rw (all_mapped_intro rs start n (λ a p. h a (ground arith)))
      (last (find rs (start + n)) (h (start + n) (ground arith)))
  where
    last : (o : Option ℕ) → o ≢ none → (is_some o && true) ≡ true
    last none p = absurd (p refl)
    last (some x) p = refl

pub flat-IsLawful : IsLawful flat
flat-IsLawful = record {
  alloc_inside = λ start size f s t a e h. ground arith;
  alloc_outside = λ start size f s t a e h. ground arith;
  alloc_root = λ start size f s t e. refl;
  linear_root = λ vaddr paddr size f s t e. refl;
  write_root = λ start buf s t e. refl;
  linear_inside = λ vaddr paddr size f s t a e h. ground arith;
  linear_outside = λ vaddr paddr size f s t a e h. ground arith;
  write_mapped = λ start buf s h. (
    record s {
      bytes = λ a. if in_range start (length buf) a then get_or buf (a - start) 0 else s.bytes a;
    },
    rw (all_mapped_intro s.areas start (length buf) h),
  );
  write_query = λ start buf s t a e. ground arith;
  write_inside = λ start buf s t a e h. ground arith;
  write_outside = λ start buf s t a e h. ground arith;
}

-- It has memory for any mapping.
abbrev pub flat_room : (low high : ℕ) → HasRoom flat low high
flat_room low high = record {
  Room = λ left s. Unit;
  allocs = λ pages left va s some_page at_page from to free room.
      let (t, e) =
        map_alloc_unmapped va (pages * 4096) 15 s (omega arith) at_page (omega arith) free in
      (t, e, tt);
  links = λ pages left va pa s some_page at_page at_frame from to free room.
      let (t, e) =
        map_linear_unmapped va pa (pages * 4096) 15 s (omega arith) at_page (omega arith) free in
      (t, e, tt);
  writes = λ left start buf s t e room. tt;
}
