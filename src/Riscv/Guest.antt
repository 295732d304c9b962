-- ===== src/Riscv/Guest.antt =====
-- The guest of payload/gkernel on a RISC-V hart. The hart and the runtime of the guest are not part of
-- the repository: what the theorems need of them is a record of laws for the guest's exits. A guest
-- also takes exits that are not the program's own: the runtime calls the firmware, and interrupts
-- stop it.
pub mod Prints
use app_guestaspace.Base.{
  ℕ, suc, ◌+◌, ◌*◌, ◌%◌, ◌<◌, ◌^◌, ◌≡◌, ◌≢◌, ◌⊎◌, ◌/◌, List, length, true, false, none, some,
}
use app_guestaspace.AddrSpace.{AddrSpace, IsMapped, in_range}
use app_guestaspace.AddrSpace.Passed.{IsPassed}
use app_guestaspace.AddrSpace.Words.{read_bytes}
use app_guestaspace.Base.Bits.{bit}
use app_guestaspace.Base.Bytes.{u64}
use app_guestaspace.Riscv.Run.Calls.{Returns}
use app_guestaspace.Payload.{Program, putchar, load, exit}
use app_guestaspace.Riscv.Csrs.{Csrs, get_value, csr_scause, csr_stval, csr_htval, csr_hgatp}
use app_guestaspace.Riscv.Vcpu.{GuestCpuState}
use app_guestaspace.Riscv.Run.{Machine, a_reg}

-- The page of pflash, as the guest sees physical memory.
abbrev pub pflash : ℕ
pflash = 0x2200_0000

module _ (A : AddrSpace) (M : Machine A) where
  -- The guest, its registers, and the control and status registers of the hart at an exit.
  abbrev pub Exit : Type 0
  Exit = M.Guest × GuestCpuState × Csrs

  -- An exception with this code.
  abbrev pub AtCode : ℕ → Exit → Type 0
  AtCode code e =
      (M.is_interrupt (get_value csr_scause e.2) ≡ false)
      × (M.code (get_value csr_scause e.2) ≡ code)

  -- An interrupt, or a call that neither prints nor shuts down. `Q` holds of the registers with which
  -- the guest goes on: after an interrupt as they were, and after a call behind the ecall, whatever the
  -- call has returned in a0 and a1.
  abbrev pub AtAside : (GuestCpuState → Type 0) → Exit → Type 0
  AtAside Q e =
      ((M.is_interrupt (get_value csr_scause e.2) ≡ true) × Q e.1)
      ⊎ (AtCode 10 e
          × (a_reg 7 e.1 ≢ 1)
          × (a_reg 7 e.1 ≢ 8)
          × (a_reg 7 e.1 ≢ 0x53525354)
          × ((q : GuestCpuState) → Returns e.1 q → Q q))

  -- The call that prints this character. The guest goes on behind the four bytes of the ecall.
  abbrev pub AtPutchar : (GuestCpuState → Type 0) → ℕ → Exit → Type 0
  AtPutchar Q c e =
      AtCode 10 e
      × (a_reg 7 e.1 ≡ 1)
      × (a_reg 0 e.1 ≡ c)
      × Q (record e.1 { sepc = u64 (e.1.sepc + 4) })

  -- One of the two calls that shut down.
  abbrev pub AtShutdown : Exit → Type 0
  AtShutdown e = AtCode 10 e × ((a_reg 7 e.1 ≡ 8) ⊎ (a_reg 7 e.1 ≡ 0x53525354))

  -- A load from a guest-physical address that is not mapped.
  abbrev pub AtFault : ℕ → Exit → Type 0
  AtFault p e = AtCode 21 e × (get_value csr_htval e.2 * 4 + get_value csr_stval e.2 % 4 ≡ p)

  -- What the hart needs for the guest's first instruction: its address, supervisor mode of a guest in
  -- hstatus, the RAM with the image, and the page table of the space in hgatp.
  pub record IsEntry (image : List ℕ) (r : GuestCpuState) (hgatp : ℕ) (n : A.Space) : Type 0 where
    pub at_entry : r.sepc ≡ 0x8020_0000
    pub in_guest : bit 7 r.hstatus ≡ 1
    pub as_supervisor : bit 8 r.hstatus ≡ 1
    pub ram : (a : ℕ) → in_range 0x8000_0000 0x100_0000 a ≡ true → IsMapped A n a
    pub code : read_bytes A n 0x8020_0000 (length image) ≡ image
    pub translation : hgatp ≡ 8 * 2 ^ 60 + A.page_table_root n / 4096

  -- `P g r h n asides p`: the guest `g`, entered with the registers `r`, with `h` in hgatp and in the
  -- space `n`, is about to do `p`, with so many other exits still to come. What the guest writes in its
  -- memory is part of `g`. The virtual address `va` is mapped to pflash by its own page table.
  pub record IsGuest (va word : ℕ) (image : List ℕ) (first : M.Guest) (asides0 : ℕ)
      (start : Program) (P : M.Guest → GuestCpuState → ℕ → A.Space → ℕ → Program → Type 0)
      : Type 0 where
    pub starts :
        (r : GuestCpuState) (h : ℕ) (n : A.Space)
        → IsEntry image r h n
        → P first r h n asides0 start
    -- The guest has no way to write hgatp.
    pub keeps_hgatp :
        (g : M.Guest) (r : GuestCpuState) (f : Csrs) (n : A.Space)
        → get_value csr_hgatp (M.run_guest g r f n).2 ≡ get_value csr_hgatp f
    pub on_putchar :
        (g : M.Guest) (asides c : ℕ) (k : Program) (r : GuestCpuState) (f : Csrs) (n : A.Space)
        → P g r (get_value csr_hgatp f) n asides (putchar c k)
        → let e = M.run_guest g r f n in
          ((m : ℕ) × (asides ≡ suc m)
            × AtAside (λ q. P e.0 q (get_value csr_hgatp f) n m (putchar c k)) e)
          ⊎ AtPutchar (λ q. P e.0 q (get_value csr_hgatp f) n asides k) c e
    pub on_exit :
        (g : M.Guest) (asides : ℕ) (r : GuestCpuState) (f : Csrs) (n : A.Space)
        → P g r (get_value csr_hgatp f) n asides exit
        → let e = M.run_guest g r f n in
          ((m : ℕ) × (asides ≡ suc m) × AtAside (λ q. P e.0 q (get_value csr_hgatp f) n m exit) e)
          ⊎ AtShutdown e
    -- A load from unmapped memory is tried again after the exit, when the page may be mapped.
    pub on_unmapped :
        (g : M.Guest) (asides : ℕ) (k : ℕ → Program) (r : GuestCpuState) (f : Csrs) (n : A.Space)
        → P g r (get_value csr_hgatp f) n asides (load va k)
        → A.query n pflash ≡ none
        → let e = M.run_guest g r f n in
          ((m : ℕ) × (asides ≡ suc m)
            × AtAside (λ q. P e.0 q (get_value csr_hgatp f) n m (load va k)) e)
          ⊎ (AtFault pflash e
              × ((n1 : A.Space)
                  → IsPassed A pflash n n1
                  → P e.0 e.1 (get_value csr_hgatp f) n1 asides (load va k)))
    -- A load from mapped memory takes no exit.
    pub on_mapped :
        (g : M.Guest) (asides : ℕ) (k : ℕ → Program) (r : GuestCpuState) (f : Csrs) (n : A.Space)
        → P g r (get_value csr_hgatp f) n asides (load va k)
        → A.query n pflash ≡ some pflash
        → (g' : M.Guest) × (r' : GuestCpuState) × P g' r' (get_value csr_hgatp f) n asides (k word)
          × (M.run_guest g r f n ≡ M.run_guest g' r' f n)
