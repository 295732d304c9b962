-- ===== src/Tests/Aarch64/Whole.antt =====
-- The start of the AArch64 hypervisor, its loader and its world switch, at concrete inputs.
use app_guestaspace.Base.{ℕ, ◌≡◌, refl, some, List, [], ◌∷◌, ◌++◌, ok, arith, true, replicate}
use Prim.{Unit, tt}
use mathlib.Core.List.{flatten}
use app_guestaspace.AddrSpace.Flat.{flat, flat-IsLawful, flat_room, Space}
use app_guestaspace.Loader.{load_vm_image}
use app_guestaspace.Loader.Pages.{Loaded}
use app_guestaspace.Loader.Image.{load_vm_image-Loaded}
use app_guestaspace.Payload.{Program, aarch64_start, aarch64_greeting, as_bytes}
use app_guestaspace.Aarch64.Regs.{GuestState}
use app_guestaspace.Aarch64.Run.{State, shutdown}
use app_guestaspace.Aarch64.Main.{SystemRegisters, aarch64_main}
use app_guestaspace.Aarch64.Main.Boot.{aarch64_main-prints}
use app_guestaspace.Aarch64.Switch.{Machine, Exception, num}
use app_guestaspace.Aarch64.Switch.Code.{run_guest_code}
use app_guestaspace.Aarch64.Switch.Correct.{at_call, IsBack, run_guest_code-IsBack}
use app_guestaspace.Tests.Images.{disk, disk-IsReader}
use app_guestaspace.Tests.Aarch64.Core.{core, core-IsCore, device, Waits}

abbrev image : List ℕ
image = 0x13 ∷ 0x37 ∷ 0x42 ∷ []

abbrev empty : Space
empty = record { areas = []; bytes = λ a. 0 }

load_vm_image-Loaded_example :
    (t : Space) × (load_vm_image flat disk 0x4020_0000 true 1 "/sbin/gkernel" empty ≡ ok t)
    × Loaded flat 0x4020_0000 image empty t
    × Unit {0}
load_vm_image-Loaded_example =
    load_vm_image-Loaded flat disk 0x4020_0000 true flat-IsLawful (λ f. f) disk-IsReader 0x0
      0x4200_0000 (flat_room 0x0 0x4200_0000) 0 refl (omega arith) 1 "/sbin/gkernel" image empty
      refl (omega arith) (omega arith) (λ a p. refl) tt (omega arith)

-- The system registers before the hypervisor writes them.
abbrev system : SystemRegisters
system = record { ttbr0_el1 = 0x9000 }

aarch64_main-prints_example :
    (t : State flat Program) × (r : SystemRegisters) × (aarch64_main flat disk Program
        (λ s. core)
        1
        1000
        aarch64_start
        system
      ≡ ok (shutdown, t, r))
    × (r.ttbr0_el1 ≡ 0x9000)
    × (t.console ≡ flatten aarch64_greeting ++ as_bytes "0x646c6670\nGot pflash magic: pfld\n")
aarch64_main-prints_example =
    aarch64_main-prints flat flat-IsLawful disk (λ f. f) disk-IsReader (flat_room 0x0 0x4200_0000)
      image empty refl (omega arith) (omega arith) refl (λ a. refl) tt Program device (λ s. core)
      aarch64_start (Waits image) (core-IsCore image) 1 1000 system (omega arith) refl (omega arith)

-- A guest that leaves by an interrupt at once.
abbrev interrupted : GuestState → Exception
interrupted g = record { state = g; esr = 0; far = 0; asynchronous = true }

abbrev zeroed : GuestState
zeroed = record { gprs = record { values = replicate 31 0 }; sp = 1; elr = 2; spsr = 3 }

run_guest_code-IsBack_example :
    (m : Machine) × (run_guest_code interrupted (at_call num num (λ r. num 7) zeroed) ≡ some m)
    × IsBack num (λ r. num 7) (interrupted zeroed) m
run_guest_code-IsBack_example = run_guest_code-IsBack interrupted num num (λ r. num 7) zeroed refl
