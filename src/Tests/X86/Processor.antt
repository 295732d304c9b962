-- ===== src/Tests/X86/Processor.antt =====
-- A processor that runs a `Program` one exit at a time, and meets the laws that the theorems assume.
use app_guestaspace.Base.{ℕ, ◌^◌, ◌<◌, ◌≡◌, ◌∙◌, ap, refl, none, some, List, [], ◌∷◌, arith, All}
use app_guestaspace.AddrSpace.{IsMapped}
use app_guestaspace.AddrSpace.Flat.{flat}
use app_guestaspace.Payload.{Program, putchar, load, exit, x86_64_start}
use app_guestaspace.X86.Vmcb.{Vmcb, vmexit_vmmcall, vmexit_npf}
use app_guestaspace.X86.Vmcb.Fields.{IsVmcb}
use app_guestaspace.X86.Vmcb.Table.{Field, field, put_all, Holds, put_all-IsVmcb, put_all-Holds}
use app_guestaspace.X86.Svm.{SvmGuestGprs, Msrs}
use app_guestaspace.X86.Run.{Exit, Vmrun}
use app_guestaspace.X86.Run.Faults.{read_u32}
use app_guestaspace.X86.Guest.{vmmcall_putchar, vmmcall_putchar-sum, vmmcall_exit, IsProcessor}
use Prim.{tt}

-- The fields that an exit writes: code, fault address, RAX and RIP.
abbrev exit_fields : ℕ → ℕ → ℕ → List Field
exit_fields code info rax =
    field 8 0x070 code ∷ field 8 0x080 info ∷ field 8 0x5F8 rax ∷ field 8 0x578 0x10000 ∷ []

abbrev exit_vmcb : ℕ → ℕ → ℕ → Vmcb → Vmcb
exit_vmcb code info rax vm = put_all (exit_fields code info rax) vm

pub step : Program → Vmcb → SvmGuestGprs → flat.Space → Exit flat Program
step (putchar c k) vm g n = record {
  guest = k;
  vmcb = exit_vmcb vmexit_vmmcall 0 (vmmcall_putchar c) vm;
  gprs = g;
  npt = n;
}
step (load a k) vm g n = elim (flat.query n a) [
  | none ↦ record { guest = load a k; vmcb = exit_vmcb vmexit_npf a 0 vm; gprs = g; npt = n }
  | some p ↦ step (k (read_u32 flat n a)) vm g n
]
step exit vm g n = record {
  guest = exit;
  vmcb = exit_vmcb vmexit_vmmcall 0 vmmcall_exit vm;
  gprs = g;
  npt = n;
}

abbrev pub processor : Msrs → Vmrun flat Program
processor msrs p vm g n = step p vm g n

-- The guest waits with its program, to be entered with any control block.
abbrev pub Waits : Msrs → Program → Vmcb → SvmGuestGprs → flat.Space → Program → Type 0
Waits msrs x vm g n p = (x ≡ p) × IsVmcb vm

exit_vmcb-Holds :
    (code info rax : ℕ) (vm : Vmcb)
    → IsVmcb vm
    → code < 2 ^ 64
    → info < 2 ^ 64
    → rax < 2 ^ 64
    → All (Holds (exit_vmcb code info rax vm)) (exit_fields code info rax)
exit_vmcb-Holds code info rax vm valid a b c =
    put_all-Holds (exit_fields code info rax) vm valid refl refl (omega arith)

exit_vmcb-IsVmcb : (code info rax : ℕ) (vm : Vmcb) → IsVmcb vm → IsVmcb (exit_vmcb code info rax vm)
exit_vmcb-IsVmcb code info rax vm valid = put_all-IsVmcb (exit_fields code info rax) vm valid refl

step_mapped :
    (a : ℕ) (k : ℕ → Program) (vm : Vmcb) (g : SvmGuestGprs) (n : flat.Space)
    → IsMapped flat n a
    → step (load a k) vm g n ≡ step (k (read_u32 flat n a)) vm g n
unfolding step
step_mapped a k vm g n mapped = ground arith

step_unmapped :
    (a : ℕ) (k : ℕ → Program) (vm : Vmcb) (g : SvmGuestGprs) (n : flat.Space)
    → flat.query n a ≡ none
    → step (load a k) vm g n
      ≡ record { guest = load a k; vmcb = exit_vmcb vmexit_npf a 0 vm; gprs = g; npt = n }
unfolding step
step_unmapped a k vm g n unmapped = ground arith

pub processor-IsProcessor :
    (image : List ℕ) → IsProcessor flat Program processor image x86_64_start Waits
unfolding step
processor-IsProcessor image = record {
  starts = λ msrs vm g n entry. (refl, entry.valid);
  on_putchar = λ msrs x c k vm g n at byte.
      let held =
        exit_vmcb-Holds vmexit_vmmcall 0 (vmmcall_putchar c) vm at.1 (omega arith) (omega arith)
          (omega (arith, vmmcall_putchar-sum c)) in
      rw at.0 (record {
        site = 0x10000;
        valid = exit_vmcb-IsVmcb vmexit_vmmcall 0 (vmmcall_putchar c) vm at.1;
        code = held.0;
        rax_value = held.1.1.0;
        rip_value = held.1.1.1.0;
        continues = λ vm1 moved. (refl, moved.valid);
        same_npt = refl;
      });
  on_exit = λ msrs x vm g n at.
      let held =
        exit_vmcb-Holds vmexit_vmmcall 0 vmmcall_exit vm at.1 (omega arith) (omega arith)
          (omega arith) in
      rw at.0 (record {
        site = 0x10000;
        valid = exit_vmcb-IsVmcb vmexit_vmmcall 0 vmmcall_exit vm at.1;
        code = held.0;
        rax_value = held.1.1.0;
        rip_value = held.1.1.1.0;
        continues = λ vm1 moved. tt;
        same_npt = refl;
      });
  on_unmapped = λ msrs x a k vm g n at word unmapped.
      let held = exit_vmcb-Holds vmexit_npf a 0 vm at.1 (omega arith) word (omega arith) in
      let still = exit_vmcb-IsVmcb vmexit_npf a 0 vm at.1 in
      rw (at.0, step_unmapped a k vm g n unmapped)
        (record {
          valid = still;
          code = held.0;
          address = held.1.0;
          continues = λ m emulated. (refl, still);
          same_npt = refl;
        });
  on_mapped = λ msrs x a k vm g n at aligned_at mapped. (
    k (read_u32 flat n a),
    vm,
    g,
    (refl, at.1),
    ap (λ y. step y vm g n) at.0 ∙ step_mapped a k vm g n mapped,
  );
}
