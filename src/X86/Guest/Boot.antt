-- ===== src/X86/Guest/Boot.antt =====
-- The guest of payload/gkernel, from its first instruction to its shutdown.
use app_guestaspace.Base.{ℕ, ◌≤◌, ◌≡◌, refl, ◌∙◌, ok, [], List, ◌++◌, arith}
use mathlib.Core.List.{flatten}
use app_guestaspace.AddrSpace.{AddrSpace, IsLawful}
use app_guestaspace.Payload.{Program, x86_64_start, x86_64_greeting, as_bytes}
use app_guestaspace.Payload.Text.{transcript}
use app_guestaspace.X86.Vmcb.{Vmcb}
use app_guestaspace.X86.Svm.{SvmGuestGprs, Msrs}
use app_guestaspace.X86.Run.{State, Vmrun, shutdown, run, pflash_magic}
use app_guestaspace.X86.Guest.{IsEntry, IsProcessor}
use app_guestaspace.Payload.Loads.{LoadsFrom, exits}
use app_guestaspace.X86.Guest.Prints.{Ready, run-Prints}

start-LoadsFrom : LoadsFrom 0xFFC0_0000 pflash_magic x86_64_start
unfolding x86_64_start
start-LoadsFrom = omega arith

exits-start : exits pflash_magic x86_64_start ≤ 1000
unfolding x86_64_start
exits-start = omega arith

start-transcript :
    transcript (λ a. pflash_magic) x86_64_start
    ≡ flatten x86_64_greeting ++ as_bytes "0x646c6670\nGot pflash magic: pfld\n"
unfolding x86_64_start flatten
start-transcript = refl

module _ (A : AddrSpace) (L : IsLawful A) (G : Type 0) (vmrun : Msrs → Vmrun A G) (image : List ℕ)
    (first : G) (P : Msrs → G → Vmcb → SvmGuestGprs → A.Space → Program → Type 0)
    (C : IsProcessor A G vmrun image first P) (msrs : Msrs) where
  -- The guest of payload/gkernel, entered as `IsEntry` asks, with pflash not mapped yet or holding
  -- the magic number, prints its greeting, the loaded word in hexadecimal and the magic text, and the
  -- hypervisor then leaves its loop by the shutdown request.
  pub run-x86_64_start :
      (fuel : ℕ) (vm : Vmcb) (g : SvmGuestGprs) (n : A.Space)
      → IsEntry A image msrs vm n
      → Ready A L G vmrun image first P C msrs n
      → 1000 ≤ fuel
      → (t : State A G) × (run A G
            (vmrun msrs)
            fuel
            (record { guest = first; vmcb = vm; gprs = g; npt = n; console = [] })
          ≡ ok (shutdown, t))
        × (t.console ≡ flatten x86_64_greeting ++ as_bytes "0x646c6670\nGot pflash magic: pfld\n")
  run-x86_64_start fuel vm g n entry ready enough =
      let (t, ends, shown) =
        run-Prints A L G vmrun image first P C msrs x86_64_start fuel _ start-LoadsFrom
          (C.starts msrs vm g n entry) ready (omega (arith, exits-start)) in
      (t, ends, shown ∙ start-transcript)
