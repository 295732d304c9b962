-- ===== src/Riscv/Sbi/Encode.antt =====
-- An encoder of SBI messages, as a guest would make the calls, and the round trip.
use app_guestaspace.Base.{ℕ, ◌≡◌, refl, List, [], ◌∷◌, Option, none, some, ok, map_ok, sym}
use mathlib.Core.Option.{some-injective}
use app_guestaspace.Riscv.Sbi.{
  SbiSpec, BaseFunction, ResetType, ResetReason, ResetFunction, RemoteFenceFunction, PmuFunction,
  SbiMessage, from_regs, base_from_regs, reset_from_regs, fence_from_args, pmu_from_regs,
  type_from_reg, reason_from_reg,
}

-- The numbers of the SBI specification.
abbrev pub standard : SbiSpec
standard = record {
  eid_base = 0x10;
  legacy_console_putchar = 1;
  legacy_console_getchar = 2;
  legacy_set_timer = 0;
  legacy_shutdown = 8;
  eid_time = 0x54494D45;
  eid_srst = 0x53525354;
  eid_rfnc = 0x52464E43;
  eid_pmu = 0x504D55;
  remote_fence_i = 0;
  remote_sfence_vma = 1;
}

-- The registers `a0` to `a7` of a call with arguments, function and extension.
abbrev call : ℕ → ℕ → ℕ → ℕ → ℕ → ℕ → List ℕ
call a0 a1 a2 a3 function extension = a0 ∷ a1 ∷ a2 ∷ a3 ∷ 0 ∷ 0 ∷ function ∷ extension ∷ []

abbrev base_call : BaseFunction → List ℕ
base_call BaseFunction.get_sepcification_version = call 0 0 0 0 0 0x10
base_call BaseFunction.get_implementation_id = call 0 0 0 0 1 0x10
base_call BaseFunction.get_implementation_version = call 0 0 0 0 2 0x10
base_call (BaseFunction.probe_sbi_extension e) = call e 0 0 0 3 0x10
base_call BaseFunction.get_machine_vendor_id = call 0 0 0 0 4 0x10
base_call BaseFunction.get_machine_architecture_id = call 0 0 0 0 5 0x10
base_call BaseFunction.get_machine_implementation_id = call 0 0 0 0 6 0x10

abbrev type_number : ResetType → ℕ
type_number ResetType.shutdown = 0
type_number ResetType.cold_reset = 1
type_number ResetType.warm_reset = 2

abbrev reason_number : ResetReason → ℕ
reason_number ResetReason.no_reason = 0
reason_number ResetReason.system_failure = 1

abbrev fence_call : RemoteFenceFunction → List ℕ
fence_call (RemoteFenceFunction.fence_i m b) = call m b 0 0 0 0x52464E43
fence_call (RemoteFenceFunction.remote_sfence_vma m b s z) = call m b s z 1 0x52464E43

abbrev pmu_call : PmuFunction → List ℕ
pmu_call PmuFunction.get_num_counters = call 0 0 0 0 0 0x504D55
pmu_call (PmuFunction.get_counter_info i) = call i 0 0 0 1 0x504D55
pmu_call (PmuFunction.stop_counter i m f) = call i m f 0 4 0x504D55

-- The call that a message stands for; the debug console has none here.
abbrev pub to_regs : SbiMessage → Option (List ℕ)
to_regs (SbiMessage.base f) = some (base_call f)
to_regs SbiMessage.get_char = some (call 0 0 0 0 0 2)
to_regs (SbiMessage.put_char c) = some (call c 0 0 0 0 1)
to_regs (SbiMessage.set_timer t) = some (call t 0 0 0 0 0x54494D45)
to_regs (SbiMessage.debug_console f) = none
to_regs (SbiMessage.system_reset (ResetFunction.reset t r)) =
    some (call (type_number t) (reason_number r) 0 0 0 0x53525354)
to_regs (SbiMessage.remote_fence f) = some (fence_call f)
to_regs (SbiMessage.pmu f) = some (pmu_call f)

base-decoded : (f : BaseFunction) → base_from_regs (base_call f) ≡ ok f
unfolding base_from_regs
base-decoded BaseFunction.get_sepcification_version = refl
base-decoded (BaseFunction.probe_sbi_extension e) = refl
base-decoded _ = refl

reset-decoded :
    (t : ResetType) (r : ResetReason) (e : ℕ)
    → reset_from_regs (call (type_number t) (reason_number r) 0 0 0 e)
      ≡ ok (ResetFunction.reset t r)
unfolding reset_from_regs type_from_reg reason_from_reg
reset-decoded ResetType.shutdown ResetReason.no_reason e = refl
reset-decoded ResetType.shutdown ResetReason.system_failure e = refl
reset-decoded ResetType.cold_reset ResetReason.no_reason e = refl
reset-decoded ResetType.cold_reset ResetReason.system_failure e = refl
reset-decoded ResetType.warm_reset ResetReason.no_reason e = refl
reset-decoded ResetType.warm_reset ResetReason.system_failure e = refl

fence-decoded : (f : RemoteFenceFunction) → fence_from_args standard (fence_call f) ≡ ok f
unfolding fence_from_args
fence-decoded (RemoteFenceFunction.fence_i m b) = refl
fence-decoded (RemoteFenceFunction.remote_sfence_vma m b s z) = refl

pmu-decoded : (f : PmuFunction) → pmu_from_regs (pmu_call f) ≡ ok f
unfolding pmu_from_regs
pmu-decoded PmuFunction.get_num_counters = refl
pmu-decoded (PmuFunction.get_counter_info i) = refl
pmu-decoded (PmuFunction.stop_counter i m f) = refl

base_by_extension :
    (f : BaseFunction)
    → from_regs standard (base_call f) ≡ map_ok SbiMessage.base (base_from_regs (base_call f))
unfolding from_regs
base_by_extension BaseFunction.get_sepcification_version = refl
base_by_extension _ = refl

fence_by_extension :
    (f : RemoteFenceFunction)
    → from_regs standard (fence_call f)
      ≡ map_ok SbiMessage.remote_fence (fence_from_args standard (fence_call f))
unfolding from_regs
fence_by_extension (RemoteFenceFunction.fence_i m b) = refl
fence_by_extension (RemoteFenceFunction.remote_sfence_vma m b s z) = refl

pmu_by_extension :
    (f : PmuFunction)
    → from_regs standard (pmu_call f) ≡ map_ok SbiMessage.pmu (pmu_from_regs (pmu_call f))
unfolding from_regs
pmu_by_extension PmuFunction.get_num_counters = refl
pmu_by_extension _ = refl

decoded : (m : SbiMessage) (args : List ℕ) → to_regs m ≡ some args → from_regs standard args ≡ ok m
unfolding from_regs
decoded (SbiMessage.base f) args h =
    rw (sym (some-injective _ _ h), base_by_extension f, base-decoded f)
decoded SbiMessage.get_char args h = rw (sym (some-injective _ _ h))
decoded (SbiMessage.put_char c) args h = rw (sym (some-injective _ _ h))
decoded (SbiMessage.set_timer t) args h = rw (sym (some-injective _ _ h))
decoded (SbiMessage.debug_console f) args h = cc
decoded (SbiMessage.system_reset (ResetFunction.reset t r)) args h =
    rw (sym (some-injective _ _ h), reset-decoded t r)
decoded (SbiMessage.remote_fence f) args h =
    rw (sym (some-injective _ _ h), fence_by_extension f, fence-decoded f)
decoded (SbiMessage.pmu f) args h =
    rw (sym (some-injective _ _ h), pmu_by_extension f, pmu-decoded f)

-- The decoder gives back every message but those of the debug console from the registers of its
-- call, provided that the crate's constants are the numbers of the SBI specification.
pub from_regs-to_regs :
    (spec : SbiSpec) (m : SbiMessage) (args : List ℕ)
    → spec ≡ standard
    → to_regs m ≡ some args
    → from_regs spec args ≡ ok m
from_regs-to_regs spec m args e h = rw e (decoded m args h)
