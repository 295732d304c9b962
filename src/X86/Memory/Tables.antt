-- ===== src/X86/Memory/Tables.antt =====
-- The words of the page tables and of the descriptor table in the guest's memory.
pub mod Walk
use app_guestaspace.Base.{
  ℕ, ◌+◌, ◌*◌, ◌^◌, ◌≤◌, ◌<◌, ◌≡◌, refl, ◌∙◌, Bool, true, false, ◌&&◌, ◌||◌, leb, ltb, List, [],
  ◌∷◌, ◌++◌, some, none, Outcome, ok, ◌>>=◌, >>=-ok, >>=-assoc, expect, arith, inl, inr, ◌⊎◌, All,
  all,
}
use app_guestaspace.Base.Bytes.{to_le_bytes, length-to_le_bytes}
use app_guestaspace.AddrSpace.{AddrSpace, IsLawful, IsMapped, in_range}
use app_guestaspace.AddrSpace.Words.{read_u64, read_u64-write, read_u64-write_apart}
use app_guestaspace.X86.Memory.{
  write_word, write_page_tables, write_gdt, write_gdt_from, guest_ram_size, pt_flags, pte_ps,
}

-- A word and where it stands.
pub record Word : Type 0 where
  pub at : ℕ
  pub value : ℕ

abbrev pub word : ℕ → ℕ → Word
word at value = record { at = at; value = value }

-- The entries of the page tables, and those of the descriptor table.
abbrev pub page_table_words : List Word
page_table_words =
    word 0x1000 0x2007
    ∷ word 0x2000 0x3007
    ∷ word 0x2018 0x4007
    ∷ word 0x3000 0x87
    ∷ word 0x4FF0 0xFFC0_0087
    ∷ []

abbrev pub gdt_words : List Word
gdt_words =
    word 0x5000 0
    ∷ word 0x5008 0x00CF_9B00_0000_FFFF
    ∷ word 0x5010 0x00AF_9B00_0000_FFFF
    ∷ word 0x5018 0x00CF_9300_0000_FFFF
    ∷ []

abbrev pub apart_word : ℕ → Word → Bool
apart_word b w = leb (b + 8) w.at || leb (w.at + 8) b

abbrev are_apart : List Word → Bool
are_apart [] = true
are_apart (w ∷ ws) = all (apart_word w.at) ws && are_apart ws

-- A word of 64 bits in the guest's RAM.
abbrev is_ram_word : Word → Bool
is_ram_word w = leb (w.at + 8) guest_ram_size && ltb w.value (2 ^ 64)

-- The addresses below 2 MB are mapped.
abbrev pub RamMapped : (A : AddrSpace) → A.Space → Type 0
RamMapped A s = (a : ℕ) → a < guest_ram_size → IsMapped A s a

abbrev pub Stored : (A : AddrSpace) → A.Space → Word → Type 0
Stored A t w = read_u64 A t w.at ≡ w.value

pub and_left : (p q : Bool) → (p && q) ≡ true → p ≡ true
and_left true q h = refl
and_left false q h = h

pub and_right : (p q : Bool) → (p && q) ≡ true → q ≡ true
and_right true q h = h
and_right false true h = refl
and_right false false h = h

module _ (A : AddrSpace) where
  abbrev pub store_words : List Word → A.Space → Outcome A.Space
  store_words [] s = ok s
  store_words (w ∷ ws) s = write_word A w.at w.value s >>= store_words ws

  pub write_page_tables-eq-store_words :
      (s : A.Space) → write_page_tables A s ≡ store_words page_table_words s
  unfolding write_page_tables
  write_page_tables-eq-store_words s = simp >>=-ok

  pub write_gdt-eq-store_words : (s : A.Space) → write_gdt A s ≡ store_words gdt_words s
  unfolding write_gdt write_gdt_from
  write_gdt-eq-store_words s = refl

  module _ (L : IsLawful A) where
    apart_sides : (b : ℕ) (w : Word) → apart_word b w ≡ true → (b + 8 ≤ w.at) ⊎ (w.at + 8 ≤ b)
    apart_sides b w h = ground arith

    writes :
        (w : Word) (s : A.Space)
        → RamMapped A s
        → is_ram_word w ≡ true
        → (t : A.Space) × (A.write w.at (to_le_bytes 8 w.value) s ≡ some t)
    writes w s mapped h = L.write_mapped w.at _ s (λ a p. mapped a (ground arith))

    -- What a row of words leaves behind.
    pub record Storing (ws : List Word) (s t : A.Space) : Type 0 where
      pub stored : All (Stored A t) ws
      pub query : (a : ℕ) → A.query t a ≡ A.query s a
      pub kept : (b : ℕ) → all (apart_word b) ws ≡ true → read_u64 A t b ≡ read_u64 A s b

    -- Words that lie apart in RAM are all written.
    pub store_words-Storing :
        (ws : List Word) (s : A.Space)
        → RamMapped A s
        → all is_ram_word ws ≡ true
        → are_apart ws ≡ true
        → (t : A.Space) × (store_words ws s ≡ ok t) × Storing ws s t
    unfolding write_word
    store_words-Storing [] s mapped in_ram apart =
        (s, refl, record { stored = tt; query = λ a. refl; kept = λ b h. refl })
    store_words-Storing (w ∷ ws) s mapped in_ram apart =
        let fits = and_left (is_ram_word w) (all is_ram_word ws) in_ram in
        let (s1, done) = writes w s mapped fits in
        let same : (a : ℕ) → A.query s1 a ≡ A.query s a = λ a. L.write_query w.at _ s s1 a done in
        let (t, ends, rest) =
          store_words-Storing ws s1 (λ a p. rw (same a) (mapped a p))
            (and_right (is_ram_word w) (all is_ram_word ws) in_ram)
            (and_right (all (apart_word w.at) ws) (are_apart ws) apart) in
        (
          t,
          rw done ends,
          record {
            stored = (
              rest.kept w.at (and_left (all (apart_word w.at) ws) (are_apart ws) apart)
                  ∙ read_u64-write A L w.at w.value s s1 (ground arith) done,
              rest.stored,
            );
            query = λ a. rest.query a ∙ same a;
            kept = λ b h.
                rest.kept b (and_right (apart_word b w) (all (apart_word b) ws) h)
                ∙ read_u64-write_apart A L w.at b (to_le_bytes 8 w.value) s s1
                    (apart_sides b w (and_left (apart_word b w) (all (apart_word b) ws) h)) done;
          },
        )
