-- ===== src/X86/Main/Keeps.antt =====
-- What a write keeps is kept by the setup of the x86_64 guest's memory.
use app_guestaspace.Base.{
  ℕ, ◌≡◌, List, [], ◌∷◌, Outcome, ok, err, panic, out_of_fuel, ◌>>=◌, some, none, true, false,
  expect, refl, sym,
}
use Prim.{tt}
use app_guestaspace.AddrSpace.{AddrSpace, guest_flags}
use app_guestaspace.Base.Bytes.{to_le_bytes}
use app_guestaspace.Loader.{FileSystem}
use app_guestaspace.Loader.Keeps.{Holds, ok-Holds, Holds-ok, KeptByWrite, load_guest-Holds}
use app_guestaspace.X86.Memory.{alloc_ram, guest_ram_size, write_word, write_page_tables, write_gdt}
use app_guestaspace.X86.Memory.Tables.{
  Word, page_table_words, gdt_words, store_words, write_page_tables-eq-store_words,
  write_gdt-eq-store_words,
}
use app_guestaspace.X86.Setup.{vm_entry}
use app_guestaspace.X86.Main.{setup_npt}

Holds->>= :
    {S : Type 0} (Q : S → Type 0) (m : Outcome S) (f : S → Outcome S)
    → Holds Q m
    → ((t : S) → Q t → Holds Q (f t))
    → Holds Q (m >>= f)
unfolding Holds
Holds->>= Q (ok t) f h k = k t h
Holds->>= Q (err e) f h k = tt
Holds->>= Q panic f h k = tt
Holds->>= Q out_of_fuel f h k = tt

module _ (A : AddrSpace) (Q : A.Space → Type 0) (K : KeptByWrite A Q) where
  write_word-Holds : (at v : ℕ) (s : A.Space) → Q s → Holds Q (write_word A at v s)
  unfolding write_word Holds
  write_word-Holds at v s q =
      elim (A.write at (to_le_bytes 8 v) s)
          as (λ o. o ≡ A.write at (to_le_bytes 8 v) s → Holds Q (expect o)) [
            | none ↦ λ e. tt
            | some t ↦ λ e. K at (to_le_bytes 8 v) s t (sym e) q
          ]
        refl

  store_words-Holds : (ws : List Word) (s : A.Space) → Q s → Holds Q (store_words A ws s)
  store_words-Holds [] s q = ok-Holds Q s q
  store_words-Holds (w ∷ ws) s q =
      Holds->>= Q (write_word A w.at w.value s) (store_words A ws)
        (write_word-Holds w.at w.value s q) (store_words-Holds ws)

  -- From the space with the RAM on.
  pub setup_npt-kept :
      (F : FileSystem) (reads : ℕ) (n0 n1 t : A.Space)
      → A.new_user_aspace 0x0 0x1_0000_0000 ≡ some n0
      → A.map_alloc 0x0 guest_ram_size (guest_flags A) true n0 ≡ some n1
      → setup_npt A F reads ≡ ok t
      → Q n1
      → Q t
  unfolding setup_npt alloc_ram
  setup_npt-kept F reads n0 n1 t created allocated made q =
      Holds-ok Q (setup_npt A F reads) t made (
        rw (created, allocated)
          (Holds->>= Q (write_page_tables A n1) _
            (rw (write_page_tables-eq-store_words A n1) (store_words-Holds page_table_words n1 q))
            (λ n2 q2.
              Holds->>= Q (write_gdt A n2) _
                (rw (write_gdt-eq-store_words A n2) (store_words-Holds gdt_words n2 q2))
                (λ n3 q3. load_guest-Holds A F vm_entry false Q K reads "/sbin/gkernel" n3 q3))))
