-- ===== src/Tests/Aarch64/Core.antt =====
-- A core that runs a guest program over a device memory.
use app_guestaspace.Base.{ℕ, ◌*◌, ◌∙◌, List, ◌≡◌, refl, none, some, ◌∷◌, replicate, Option, ap}
use app_guestaspace.AddrSpace.Flat.{flat, Space}
use app_guestaspace.Payload.{Program, putchar, load, exit, aarch64_start}
use app_guestaspace.Aarch64.Regs.{GeneralPurposeRegisters, GuestState, TrapState}
use app_guestaspace.Aarch64.Run.{exception_class}
use app_guestaspace.Aarch64.Guest.{IsCore}
use app_guestaspace.Aarch64.Main.{SystemRegisters}

-- Registers that are zero but for x0 and x8.
abbrev pub svc_regs : ℕ → ℕ → GeneralPurposeRegisters
svc_regs x0 x8 = record { values = x0 ∷ 0 ∷ 0 ∷ 0 ∷ 0 ∷ 0 ∷ 0 ∷ 0 ∷ x8 ∷ replicate 22 0 }

abbrev pub trap : ℕ → ℕ → TrapState
trap ec far = record { esr = ec * 0x400_0000; far = far; is_irq = 0 }

-- Every word of the device is "pfld".
abbrev pub device : ℕ → ℕ
device p = 0x646c_6670

abbrev Reached : Type 0
Reached = Program × GuestState × TrapState

abbrev by_query : Option ℕ → Reached → Reached → Reached
by_query none fault loaded = fault
by_query (some p) fault loaded = loaded

abbrev pub core : Program → GuestState → Space → Reached
core (putchar c k) g n = (k, record g { gprs = svc_regs c 1 }, trap 0x15 0)
core (load a k) g n =
    by_query (flat.query n a) (load a k, g, trap 0x24 a) (core (k 0x646c_6670) g n)
core exit g n = (exit, record g { gprs = svc_regs 0 2 }, trap 0x15 0)

faults :
    (a : ℕ) (k : ℕ → Program) (g : GuestState) (n : Space)
    → flat.query n a ≡ none
    → core (load a k) g n ≡ (load a k, g, trap 0x24 a)
faults a k g n h = ap (λ o. by_query o (load a k, g, trap 0x24 a) (core (k 0x646c_6670) g n)) h

loads :
    (a p : ℕ) (k : ℕ → Program) (g : GuestState) (n : Space)
    → flat.query n a ≡ some p
    → core (load a k) g n ≡ core (k 0x646c_6670) g n
loads a p k g n h = ap (λ o. by_query o (load a k, g, trap 0x24 a) (core (k 0x646c_6670) g n)) h

-- The guest waits to run its program, with the registers that it was entered with.
abbrev pub Waits : List ℕ → Program → GuestState → SystemRegisters → Space → Program → Type 0
Waits image x g s n p = (x ≡ p) × (s.ttbr0_el1 ≡ 0x8000_0000)

pub core-IsCore :
    (image : List ℕ) → IsCore flat Program device (λ s. core) image aarch64_start (Waits image)
unfolding exception_class
core-IsCore image = record {
  starts = λ g s n entry. (refl, entry.translation);
  on_putchar = λ x c k g s n at h. rw at.0 ((refl, at.1), (refl, refl, refl), refl);
  on_exit = λ x g s n at. rw at.0 (refl, refl, refl);
  on_unmapped = λ x a k g s n at h aligned_at p.
      let e = ap (λ y. core y g n) at.0 ∙ faults a k g n p in
      (
        λ m passed. (ap (λ (y : Reached). y.0) e, at.1),
        ap (λ (y : Reached). y.2.is_irq) e,
        ap (λ (y : Reached). exception_class y.2.esr) e,
        ap (λ (y : Reached). y.2.far) e,
      );
  on_mapped = λ x a p k g s n at h q.
      (k 0x646c_6670, g, (refl, at.1), ap (λ y. core y g n) at.0 ∙ loads a p k g n q);
}
