-- ===== src/Tests/Riscv/Boot.antt =====
-- The riscv64 guest on a concrete hart: first timer interrupts, then its program.
use app_guestaspace.Base.{
  ℕ, zero, suc, ◌+◌, ◌%◌, ◌/◌, ◌^◌, ◌≡◌, Option, List, [], ◌∷◌, some, none, leb, ◌==◌,
  if◌then◌else◌,
}
use app_guestaspace.Base.Bytes.{u8}
use app_guestaspace.AddrSpace.Flat.{flat, Space}
use app_guestaspace.Payload.{Program, putchar, load, exit, print_str, as_bytes}
use app_guestaspace.Payload.Riscv.{Runtime, riscv64_guest_main}
use app_guestaspace.Payload.Riscv.Shown.{pfld}
use app_guestaspace.Riscv.Csrs.{Csrs, write_value, csr_scause, csr_stval, csr_htval}
use app_guestaspace.Riscv.Vcpu.{GuestCpuState}
use app_guestaspace.Riscv.Run.{Machine}
use app_guestaspace.Riscv.Guest.{pflash, AtAside}
use app_guestaspace.Tests.Riscv.Hart.{with_call}

-- What waits: so many interrupts, and the program.
abbrev Waiting : Type 0
Waiting = ℕ × Program

abbrev Stop : Type 0
Stop = Waiting × GuestCpuState × Csrs

abbrev interrupted : ℕ → Program → GuestCpuState → Csrs → Stop
interrupted m p r f = ((m, p), r, write_value csr_scause (2 ^ 63 + 5) f)

-- The virtual address of pflash.
abbrev virtual : ℕ
virtual = 0xffff_ffc0_2200_0000

abbrev at_fault : ℕ → Csrs → Csrs
at_fault va f =
    write_value csr_htval (pflash / 4) (write_value csr_stval va (write_value csr_scause 21 f))

-- A load, with what pflash is mapped to, and the stop behind it.
abbrev at_load : Option ℕ → Stop → ℕ → Program → ℕ → GuestCpuState → Csrs → Stop
at_load (some p) behind m here va r f = behind
at_load none behind (suc m) here va r f = interrupted m here r f
at_load none behind zero here va r f = ((0, here), r, at_fault va f)

unfoldable step : Program → ℕ → GuestCpuState → Csrs → Space → Stop
step (putchar c k) (suc m) r f n = interrupted m (putchar c k) r f
step (putchar c k) zero r f n = ((0, k), with_call c 1 r, write_value csr_scause 10 f)
step exit (suc m) r f n = interrupted m exit r f
step exit zero r f n = ((0, exit), with_call 0 8 r, write_value csr_scause 10 f)
step (load a k) m r f n = at_load (flat.query n pflash) (step (k pfld) m r f n) m (load a k) a r f

abbrev hart : Machine flat
hart = record {
  Firmware = List ℕ;
  Guest = Waiting;
  ecall = λ args f. (0, 7, f);
  set_timer = λ t f. t ∷ f;
  console_getchar = λ f. (b'x', f);
  is_interrupt = λ v. leb (2 ^ 63) v;
  code = λ v. v % 2 ^ 63;
  run_guest = λ g r f n. step g.1 g.0 r f n;
}

-- A runtime that sends a line feed as two bytes, and says farewell.
abbrev runtime : Runtime
runtime = record {
  console = λ b. if b == 10 then 13 ∷ 10 ∷ [] else u8 b ∷ [];
  phys_to_virt = λ p. p + 0xffff_ffc0_0000_0000;
  returned = print_str (as_bytes "Shutting down...\n") exit;
  panicked = exit;
}

-- The first guest: three interrupts, a text, and `main`.
abbrev booting : List ℕ
booting = as_bytes "Booting...\n"

abbrev first : Waiting
first = (3, print_str booting (riscv64_guest_main runtime))

-- The guest waits with its program, to be entered at any address.
abbrev Waits : Waiting → GuestCpuState → ℕ → Space → ℕ → Program → Type 0
Waits g r h n asides p = g ≡ (asides, p)

module _ (r : GuestCpuState) (f : Csrs) (n : Space) where
  -- An exit that is not the program's own is left in front of `p`.
  abbrev Aside : ℕ → Program → Stop → Type 0
  Aside asides p e = (m : ℕ) × (asides ≡ suc m) × AtAside flat hart (λ q. e.0 ≡ (m, p)) e
