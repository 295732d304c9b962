-- ===== src/Tests/Riscv/Hart.antt =====
-- A hart whose guest works off a list of events, over a firmware that records the deadlines.
use app_guestaspace.Base.{ℕ, ◌+◌, ◌%◌, ◌^◌, ◌≡◌, refl, List, [], ◌∷◌, ◌++◌, leb, replicate}
use app_guestaspace.AddrSpace.Flat.{flat, Space}
use app_guestaspace.Riscv.Regs.{GeneralPurposeRegisters, a_regs}
use app_guestaspace.Riscv.Csrs.{Csrs, get_value, write_value, csr_scause, csr_hvip, csr_sie}
use app_guestaspace.Riscv.Vcpu.{GuestCpuState}
use app_guestaspace.Riscv.Run.{Machine, a_reg}
use app_guestaspace.Riscv.Run.Timer.{IsHart}
use app_guestaspace.Riscv.Run.Console.{Event, print, tick, IsScript}

-- Registers that are zero but for `a0` and `a7`.
abbrev pub call_regs : ℕ → ℕ → GeneralPurposeRegisters
call_regs a0 a7 = record {
  values = replicate 10 0 ++ (a0 ∷ 0 ∷ 0 ∷ 0 ∷ 0 ∷ 0 ∷ 0 ∷ a7 ∷ replicate 14 0);
}

abbrev pub with_call : ℕ → ℕ → GuestCpuState → GuestCpuState
with_call a0 a7 r = record r { gprs = call_regs a0 a7 }

abbrev pub step_hart : List Event → GuestCpuState → Csrs → Space → List Event × GuestCpuState × Csrs
step_hart [] r c n = ([], with_call 0 8 r, write_value csr_scause 10 c)
step_hart (print ch ∷ es) r c n = (es, with_call ch 1 r, write_value csr_scause 10 c)
step_hart (tick ∷ es) r c n = (es, r, write_value csr_scause (2 ^ 63 + 5) c)

abbrev pub hart : Machine flat
hart = record {
  Firmware = List ℕ;
  Guest = List Event;
  ecall = λ args f. (0, 7, f);
  set_timer = λ t f. t ∷ f;
  console_getchar = λ f. (b'x', f);
  is_interrupt = λ v. leb (2 ^ 63) v;
  code = λ v. v % 2 ^ 63;
  run_guest = step_hart;
}

pub hart-IsHart : IsHart flat hart
unfolding get_value write_value
hart-IsHart = record { keeps_hvip = keeps_hvip; keeps_sie = keeps_sie }
  where
    keeps_hvip :
        (g : List Event) (r : GuestCpuState) (c : Csrs) (n : Space)
        → get_value csr_hvip (step_hart g r c n).2 ≡ get_value csr_hvip c
    keeps_hvip [] r c n = refl
    keeps_hvip (print ch ∷ es) r c n = refl
    keeps_hvip (tick ∷ es) r c n = refl

    keeps_sie :
        (g : List Event) (r : GuestCpuState) (c : Csrs) (n : Space)
        → get_value csr_sie (step_hart g r c n).2 ≡ get_value csr_sie c
    keeps_sie [] r c n = refl
    keeps_sie (print ch ∷ es) r c n = refl
    keeps_sie (tick ∷ es) r c n = refl

abbrev pub IsRest : List Event → List Event → Type 0
IsRest g es = g ≡ es

pub hart-IsScript : IsScript flat hart IsRest
unfolding get_value write_value a_reg a_regs
hart-IsScript = record {
  prints = λ g c es r f n p. rw p (refl, (refl, refl, refl, refl));
  ticks = λ g es r f n p. rw p (refl, refl);
  ends = λ g r f n p. rw p (refl, refl, refl, refl);
}
