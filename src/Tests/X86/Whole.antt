-- ===== src/Tests/X86/Whole.antt =====
-- The start of the x86_64 hypervisor, and its world switch, at concrete inputs.
use app_guestaspace.Base.{
  ◌+◌, inr, ℕ, suc, ◌^◌, ◌≡◌, refl, none, some, List, [], ◌∷◌, ◌++◌, ok, arith, All, false, length,
}
use Prim.Native.Nat.{max}
use mathlib.Core.List.{flatten}
use app_guestaspace.Base.Bits.{bit}
use app_guestaspace.AddrSpace.Flat.{flat, flat-IsLawful, flat_room, Space}
use app_guestaspace.AddrSpace.Words.{read_bytes, read_u64}
use app_guestaspace.Payload.{Program, x86_64_start, x86_64_greeting, as_bytes}
use app_guestaspace.X86.Memory.{guest_ram_size}
use app_guestaspace.X86.Memory.Tables.{page_table_words, gdt_words, Stored}
use app_guestaspace.X86.Memory.Tables.Walk.{walk}
use app_guestaspace.X86.Setup.{build_vmcb, vm_entry}
use app_guestaspace.X86.Svm.{SvmGuestGprs, Cpuid, Msrs, msr_efer, msr_vm_hsave_pa, rdmsr, wrmsr}
use app_guestaspace.X86.Svm
use app_guestaspace.X86.Svm.Halves.{rdmsr-wrmsr}
use app_guestaspace.X86.Run.{State, shutdown}
use Prim.{Unit, tt}
use app_guestaspace.X86.Guest.{IsEntry}
use app_guestaspace.X86.Vmcb.{Vmcb}
use app_guestaspace.X86.Main.{HostPages, enable_svm, setup_npt, x86_64_main}
use app_guestaspace.X86.Main.Ready.{setup_npt_lem}
use app_guestaspace.X86.Main.Boot.{enable_svm_lem, x86_64_main-IsEntry, x86_64_main-prints}
use app_guestaspace.X86.Switch.{num, Machine, exec}
use app_guestaspace.X86.Switch.Code.{run_guest_code}
use app_guestaspace.X86.Switch.Correct.{at_call, IsBack, exec-run_guest_code}
use app_guestaspace.Tests.Images.{disk, disk-IsReader}
use app_guestaspace.Tests.X86.Processor.{processor, Waits, processor-IsProcessor}

-- A processor with SVM, whose EFER has LME and LMA set.
abbrev cpuid : Cpuid
cpuid f = (0, 0, 4, 0)

abbrev msrs : Msrs
msrs m = 0x500

abbrev pages : HostPages
pages = record { host_save_pa = 0x3000; iopm_pa = 0x5000; msrpm_pa = 0x8000 }

abbrev image : List ℕ
image = 0x13 ∷ 0x37 ∷ 0x42 ∷ []

abbrev empty : Space
empty = record { areas = []; bytes = λ a. 0 }

abbrev with_ram : Space
with_ram = record {
  areas = record { start = 0; size = 0x20_0000; paddr = 0x1_0000_0000_0000 } ∷ [];
  bytes = λ a. 0;
}

rdmsr-wrmsr_example :
    (rdmsr msr_efer (wrmsr msr_efer 0x1234_5678_9ABC_DEF0 msrs) ≡ 0x1234_5678_9ABC_DEF0)
    × (rdmsr msr_vm_hsave_pa (wrmsr msr_efer 0x1234_5678_9ABC_DEF0 msrs)
        ≡ rdmsr msr_vm_hsave_pa msrs)
rdmsr-wrmsr_example =
    rdmsr-wrmsr msr_efer 0x1234_5678_9ABC_DEF0 msr_vm_hsave_pa msrs (omega arith) (omega arith)

enable_svm_lem_example :
    (f : Msrs) × (enable_svm cpuid pages msrs ≡ ok f)
    × (bit 12 (f msr_efer) ≡ max (bit 12 (msrs msr_efer)) (bit 12 (2 ^ 12)))
    × (f msr_vm_hsave_pa ≡ pages.host_save_pa)
    × (f 0x10 ≡ msrs 0x10)
enable_svm_lem_example =
    enable_svm_lem cpuid pages msrs 12 0x10 refl (omega arith) (omega arith) (omega arith)
      (omega arith)

setup_npt_lem_example :
    (t : Space) × (setup_npt flat disk 1 ≡ ok t)
    × All (Stored flat t) page_table_words
    × All (Stored flat t) gdt_words
    × (read_bytes flat t vm_entry (length image) ≡ image)
    × (walk (read_u64 flat t) 0x1000 0xFFC0_0004 ≡ some 0xFFC0_0004)
    × ((a : ℕ) → flat.query t (guest_ram_size + a) ≡ none)
setup_npt_lem_example =
    setup_npt_lem flat flat-IsLawful disk (λ f. f) disk-IsReader image empty with_ram refl
      (omega arith) refl (λ a. refl) refl 1 0xFFC0_0004 (omega arith)
      (inr (omega arith, omega arith))

x86_64_main-IsEntry_example :
    (f : Msrs) × (n : Space) × (vm : Vmcb) × (enable_svm cpuid pages msrs ≡ ok f)
    × (setup_npt flat disk 1 ≡ ok n)
    × (build_vmcb 0x5000 0x8000 0x8000_0000 ≡ ok vm)
    × IsEntry flat image f vm n
    × ((a : ℕ) → flat.query n (guest_ram_size + a) ≡ none)
    × Unit {0}
x86_64_main-IsEntry_example =
    x86_64_main-IsEntry cpuid pages msrs flat flat-IsLawful disk (λ f. f) disk-IsReader
      (flat_room 0x0 0x1_0000_0000) image empty refl (omega arith) (omega arith) refl (omega arith)
      (omega arith) refl (omega arith) refl (λ a. refl) tt (λ s. omega arith) 1 (omega arith)

x86_64_main-prints_example :
    (t : State flat Program) × (f : Msrs) × (x86_64_main flat disk Program processor cpuid pages 1
        1000 x86_64_start msrs
      ≡ ok (shutdown, t, f))
    × (bit 12 (f msr_efer) ≡ 1)
    × (t.console ≡ flatten x86_64_greeting ++ as_bytes "0x646c6670\nGot pflash magic: pfld\n")
x86_64_main-prints_example =
    x86_64_main-prints cpuid pages msrs flat flat-IsLawful disk (λ f. f) disk-IsReader
      (flat_room 0x0 0x1_0000_0000) image empty refl (omega arith) (omega arith) refl (omega arith)
      (omega arith) refl (omega arith) refl (λ a. refl) tt (λ s. omega arith) Program processor
      x86_64_start Waits (processor-IsProcessor image) 1 1000 (omega arith) (omega arith)

-- A guest that counts in RCX.
abbrev counting : SvmGuestGprs → SvmGuestGprs
counting g = record g { rcx = suc g.rcx }

exec-run_guest_code_example :
    (m : Machine ℕ) × (exec ℕ counting suc run_guest_code
        (at_call (λ r. num 5) (num 0x1000) (num 7 ∷ []) Svm.new false 9)
      ≡ some m)
    × IsBack (λ r. num 5) (num 0x1000) (num 7 ∷ []) (record Svm.new { rcx = 1 }) 9 m
exec-run_guest_code_example =
    exec-run_guest_code ℕ counting suc (λ r. num 5) (num 0x1000) (num 7 ∷ []) Svm.new false 9
