-- ===== src/Tests/X86/Examples.antt =====
-- The theorems about the x86_64 hypervisor at concrete inputs.
use app_guestaspace.Base.{
  ℕ, ◌^◌, ◌<◌, ◌≡◌, ◌↔◌, refl, none, List, [], ◌∷◌, ok, panic, ◌>>=◌, out_of_fuel, sym, ◌∙◌, ap,
  arith, All, inr,
}
use app_guestaspace.AddrSpace.{IsMapped}
use app_guestaspace.AddrSpace.Flat.{flat, flat-IsLawful, Space}
use app_guestaspace.X86.Vmcb.{Vmcb, new, read_field, guest_rip}
use app_guestaspace.X86.Vmcb.Fields.{IsVmcb, new-IsVmcb}
use app_guestaspace.X86.Vmcb.Table.{Field, field, put_all, Holds, put_all-IsVmcb, put_all-Holds}
use app_guestaspace.X86.Setup.{build_vmcb}
use app_guestaspace.X86.Setup.Control.{guest_table, build_vmcb_lem}
use app_guestaspace.X86.Svm
use app_guestaspace.X86.Run.{
  State, Vmrun, enter, resume, stop, shutdown, run, handle_exit, pflash_magic,
}
use app_guestaspace.X86.Run.Exits.{handle_exit-putchar, handle_exit-shutdown_iff}
use app_guestaspace.X86.Run.Faults.{
  read_u32, handle_exit-npf_panic, handle_exit-npf_maps, handle_exit-npf_magic,
}
use app_guestaspace.X86.Run.Panics.{AtUnmappable, LeavesVmcb, Reach, run-panic}

abbrev empty : Space
empty = record { areas = []; bytes = λ a. 0 }

abbrev mapped_pflash : Space
mapped_pflash = record {
  areas = record { start = 0xFFC0_0000; size = 4096; paddr = 0x1_0000_FFC0_0000 } ∷ [];
  bytes = λ a. 0;
}

build_vmcb_lem_example :
    (vm : Vmcb) × (build_vmcb 0x5000 0x8000 0x1_0000_0000 ≡ ok vm)
    × IsVmcb vm
    × All (Holds vm) (guest_table 0x5000 0x8000 0x1_0000_0000)
build_vmcb_lem_example =
    build_vmcb_lem 0x5000 0x8000 0x1_0000_0000 (omega arith) (omega arith) (omega arith)

abbrev start_vmcb : Vmcb
start_vmcb = build_vmcb_lem_example.0

-- A control block after an exit: code, fault address, RAX and RIP.
abbrev exit_table : ℕ → ℕ → ℕ → List Field
exit_table code info rax =
    field 8 0x070 code ∷ field 8 0x080 info ∷ field 8 0x5F8 rax ∷ field 8 0x578 0x10020 ∷ []

abbrev exited : ℕ → ℕ → ℕ → Space → State flat ℕ
exited code info rax n = record {
  guest = 7;
  vmcb = put_all (exit_table code info rax) new;
  gprs = Svm.new;
  npt = n;
  console = b'o' ∷ [];
}

exited-IsVmcb : (code info rax : ℕ) (n : Space) → IsVmcb (exited code info rax n).vmcb
exited-IsVmcb code info rax n = put_all-IsVmcb (exit_table code info rax) new new-IsVmcb refl

exited-Holds :
    (code info rax : ℕ) (n : Space)
    → code < 2 ^ 64
    → info < 2 ^ 64
    → rax < 2 ^ 64
    → All (Holds (exited code info rax n).vmcb) (exit_table code info rax)
exited-Holds code info rax n a b c =
    put_all-Holds (exit_table code info rax) new new-IsVmcb refl refl (omega arith)

printing : All (Holds (exited 0x81 0 0x6b01 empty).vmcb) (exit_table 0x81 0 0x6b01)
printing = exited-Holds 0x81 0 0x6b01 empty (omega arith) (omega arith) (omega arith)

-- RAX 0x6b01 prints "k" behind what the console shows.
handle_exit-putchar_example :
    (t : State flat ℕ) × (handle_exit flat ℕ (exited 0x81 0 0x6b01 empty) ≡ ok (resume t))
    × (t.console ≡ b'o' ∷ b'k' ∷ [])
    × (guest_rip t.vmcb ≡ ok 0x10023)
    × (t.guest ≡ 7)
    × (t.gprs ≡ Svm.new)
    × (t.npt ≡ empty)
    × IsVmcb t.vmcb
    × (read_field 8 0x5F8 t.vmcb ≡ read_field 8 0x5F8 (exited 0x81 0 0x6b01 empty).vmcb)
handle_exit-putchar_example =
    handle_exit-putchar flat ℕ (exited 0x81 0 0x6b01 empty) (exited-IsVmcb 0x81 0 0x6b01 empty)
      0x10020 0x6b01 printing.0 printing.1.1.1.0 printing.1.1.0 8 0x5F8 refl (inr (omega arith))

leaving : All (Holds (exited 0x81 0 0x84000008 empty).vmcb) (exit_table 0x81 0 0x84000008)
leaving = exited-Holds 0x81 0 0x84000008 empty (omega arith) (omega arith) (omega arith)

handle_exit-shutdown_iff_example :
    (handle_exit flat ℕ (exited 0x81 0 0x84000008 empty)
      ≡ ok (stop shutdown (exited 0x81 0 0x84000008 empty)))
    ↔ (◌≡◌ {A = ℕ} 0x84000008 0x84000008)
handle_exit-shutdown_iff_example =
    handle_exit-shutdown_iff flat ℕ (exited 0x81 0 0x84000008 empty)
      (exited-IsVmcb 0x81 0 0x84000008 empty) 0x10020 0x84000008 leaving.0 leaving.1.1.1.0
      leaving.1.1.0

faulting :
    (n : Space) → All (Holds (exited 0x400 0xFFC0_0004 0 n).vmcb) (exit_table 0x400 0xFFC0_0004 0)
faulting n = exited-Holds 0x400 0xFFC0_0004 0 n (omega arith) (omega arith) (omega arith)

handle_exit-npf_maps_example :
    (t : State flat ℕ) × (handle_exit flat ℕ (exited 0x400 0xFFC0_0004 0 empty) ≡ ok (resume t))
    × (t ≡ record (exited 0x400 0xFFC0_0004 0 empty) { npt = t.npt })
    × IsMapped flat t.npt 0xFFC0_0004
    × (flat.query t.npt 0x1000 ≡ none)
    × (flat.byte_at t.npt 0x1000 ≡ 0)
handle_exit-npf_maps_example =
    handle_exit-npf_maps flat ℕ (exited 0x400 0xFFC0_0004 0 empty) 0xFFC0_0004 (faulting empty).0
      (faulting empty).1.0 (omega arith) flat-IsLawful mapped_pflash refl 0x1000 refl

handle_exit-npf_magic_example :
    (t : State flat ℕ) × (handle_exit flat ℕ (exited 0x400 0xFFC0_0004 0 empty) ≡ ok (resume t))
    × (t ≡ record (exited 0x400 0xFFC0_0004 0 empty) { npt = t.npt })
    × IsMapped flat t.npt 0xFFC0_0004
    × (read_u32 flat t.npt 0xFFC0_0000 ≡ pflash_magic)
handle_exit-npf_magic_example =
    handle_exit-npf_magic flat ℕ (exited 0x400 0xFFC0_0004 0 empty) 0xFFC0_0004 (faulting empty).0
      (faulting empty).1.0 (omega arith) flat-IsLawful mapped_pflash refl refl

-- A processor that stops at this fault whatever it is given.
abbrev always_faulting : Vmrun flat ℕ
always_faulting g vm r n = record {
  guest = g;
  vmcb = (exited 0x400 0xFFC0_0004 0 n).vmcb;
  gprs = r;
  npt = n;
}

always_faulting-LeavesVmcb : LeavesVmcb flat ℕ always_faulting
always_faulting-LeavesVmcb = record {
  keeps = λ g vm r n valid. exited-IsVmcb 0x400 0xFFC0_0004 0 n;
  words = λ g vm r n f e. small f (sym (faulting n).1.0 ∙ e);
}
  where
    small : (f : ℕ) → ok 0xFFC0_0004 ≡ ok f → f < 2 ^ 64
    small f e = ground arith

-- The page of pflash is mapped already.
abbrev stuck : State flat ℕ
stuck = exited 0 0 0 mapped_pflash

panics : run flat ℕ always_faulting 1 stuck ≡ panic
unfolding run enter
panics =
    ap (λ x. x >>= λ step. elim step [ resume t ↦ out_of_fuel | stop e t ↦ ok (e, t) ])
      (handle_exit-npf_panic flat ℕ
        (record (exited 0x400 0xFFC0_0004 0 mapped_pflash) { guest = 7 }) 0xFFC0_0004
        (faulting mapped_pflash).0 (faulting mapped_pflash).1.0 (omega arith) refl)

run-panic_example :
    (u : State flat ℕ) × Reach flat ℕ always_faulting stuck u
    × AtUnmappable flat ℕ (enter flat ℕ always_faulting u)
run-panic_example =
    run-panic flat ℕ flat-IsLawful always_faulting always_faulting-LeavesVmcb 1 stuck
      (exited-IsVmcb 0 0 0 mapped_pflash) panics
