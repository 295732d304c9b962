-- ===== src/Aarch64/Guest.antt =====
-- The guest of payload/gkernel on an AArch64 core, with no asynchronous exception while it runs. The
-- core is not part of the repository: what the theorems need of it is a record of laws for a core that
-- runs this guest. `device` gives the 32-bit words of physical memory.
pub mod Prints
use app_guestaspace.Base.{ℕ, ◌+◌, ◌%◌, ◌^◌, ◌<◌, ◌≡◌, true, false, none, some, List, length, get_or}
use app_guestaspace.AddrSpace.{AddrSpace, IsMapped, in_range}
use app_guestaspace.AddrSpace.Passed.{IsPassed}
use app_guestaspace.AddrSpace.Words.{read_bytes}
use app_guestaspace.Payload.{Program, putchar, load, exit, aarch64_start}
use app_guestaspace.Aarch64.Regs.{GuestState, TrapState}
use app_guestaspace.Aarch64.Run.{exception_class, RunGuest}
use app_guestaspace.Aarch64.Main.{SystemRegisters}

-- `x0` and `x8` at the SVC of `svc_putchar(c)`, and `x8` at that of `svc_exit()`.
abbrev pub svc_putchar : ℕ → ℕ × ℕ
svc_putchar c = (c, 1)

abbrev pub svc_exit : ℕ
svc_exit = 2

-- The guest stopped at an SVC with this value in x8.
abbrev pub AtSvc : ℕ → GuestState → TrapState → Type 0
AtSvc x8 g t = (t.is_irq ≡ 0) × (exception_class t.esr ≡ 0x15) × (get_or g.gprs.values 8 0 ≡ x8)

-- What the core needs for the guest's first instruction: its address, EL0 in the saved program status,
-- the stack with its memory, the image with its memory, and the page table of the space in TTBR0_EL1.
pub record IsEntry (A : AddrSpace) (image : List ℕ) (g : GuestState) (system : SystemRegisters)
    (n : A.Space) : Type 0 where
  pub at_entry : g.elr ≡ 0x4020_0000
  pub at_el0 : g.spsr % 2 ^ 5 ≡ 0
  pub stack_top : g.sp ≡ 0x4100_8000
  pub stack : (a : ℕ) → in_range 0x4100_0000 0x8000 a ≡ true → IsMapped A n a
  pub code : read_bytes A n 0x4020_0000 (length image) ≡ image
  pub code_mapped : (a : ℕ) → in_range 0x4020_0000 (length image) a ≡ true → IsMapped A n a
  pub translation : system.ttbr0_el1 ≡ A.page_table_root n

-- `P x g s n p`: the guest `x`, entered with the registers `g` and `s` in the space `n`, goes on with
-- `p`. What the guest writes in its memory is part of `x`.
pub record IsCore (A : AddrSpace) (G : Type 0) (device : ℕ → ℕ)
    (core : SystemRegisters → RunGuest A G) (image : List ℕ) (first : G)
    (P : G → GuestState → SystemRegisters → A.Space → Program → Type 0) : Type 0 where
  pub starts :
      (g : GuestState) (s : SystemRegisters) (n : A.Space)
      → IsEntry A image g s n
      → P first g s n aarch64_start
  -- `svc_putchar(c)`; ELR_EL1 points behind the SVC then.
  pub on_putchar :
      (x : G) (c : ℕ) (k : Program) (g : GuestState) (s : SystemRegisters) (n : A.Space)
      → P x g s n (putchar c k)
      → c < 256
      → P (core s x g n).0 (core s x g n).1 s n k
        × AtSvc (svc_putchar c).1 (core s x g n).1 (core s x g n).2
        × (get_or (core s x g n).1.gprs.values 0 0 ≡ (svc_putchar c).0)
  -- `svc_exit()`
  pub on_exit :
      (x : G) (g : GuestState) (s : SystemRegisters) (n : A.Space)
      → P x g s n exit
      → AtSvc svc_exit (core s x g n).1 (core s x g n).2
  -- A load from an unmapped page is tried again after the exit, when the page may be mapped.
  pub on_unmapped :
      (x : G) (a : ℕ) (k : ℕ → Program) (g : GuestState) (s : SystemRegisters) (n : A.Space)
      → P x g s n (load a k)
      → a < 2 ^ 48
      → a % 4096 ≡ 0
      → A.query n a ≡ none
      → ((m : A.Space) → IsPassed A a n m → P (core s x g n).0 (core s x g n).1 s m (load a k))
        × ((core s x g n).2.is_irq ≡ 0)
        × (exception_class (core s x g n).2.esr ≡ 0x24)
        × ((core s x g n).2.far ≡ a)
  -- A load from a mapped page takes no exit.
  pub on_mapped :
      (x : G) (a p : ℕ) (k : ℕ → Program) (g : GuestState) (s : SystemRegisters) (n : A.Space)
      → P x g s n (load a k)
      → a % 4 ≡ 0
      → A.query n a ≡ some p
      → (y : G) × (h : GuestState) × P y h s n (k (device p)) × (core s x g n ≡ core s y h n)
