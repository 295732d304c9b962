-- ===== src/Riscv/Sbi.antt =====
-- src/sbi: the decoder of SBI calls, from the argument registers `a0` to `a7` to a message. The
-- extension and function numbers of the `sbi_spec` crate are a parameter.
pub mod Encode
pub mod Refuse
use app_guestaspace.Base.{
  ℕ, List, Outcome, ok, err, panic, Error, not_found, invalid_input, ◌>>=◌, expect, map_ok, ◌==◌,
  if◌then◌else◌, get_elem?,
}

-- The constants of `sbi_spec` that the decoder matches on.
pub record SbiSpec : Type 0 where
  pub eid_base : ℕ
  pub legacy_console_putchar : ℕ
  pub legacy_console_getchar : ℕ
  pub legacy_set_timer : ℕ
  pub legacy_shutdown : ℕ
  pub eid_time : ℕ
  pub eid_srst : ℕ
  pub eid_rfnc : ℕ
  pub eid_pmu : ℕ
  pub remote_fence_i : ℕ
  pub remote_sfence_vma : ℕ

pub data BaseFunction : Type 0 where
  get_sepcification_version get_implementation_id get_implementation_version : BaseFunction
  probe_sbi_extension : ℕ → BaseFunction
  get_machine_vendor_id get_machine_architecture_id get_machine_implementation_id : BaseFunction

pub data ResetType : Type 0 where
  shutdown cold_reset warm_reset : ResetType

pub data ResetReason : Type 0 where
  no_reason system_failure : ResetReason

pub data ResetFunction : Type 0 where
  reset : ResetType → ResetReason → ResetFunction

pub data RemoteFenceFunction : Type 0 where
  fence_i : ℕ → ℕ → RemoteFenceFunction
  remote_sfence_vma : ℕ → ℕ → ℕ → ℕ → RemoteFenceFunction

pub data PmuFunction : Type 0 where
  get_num_counters : PmuFunction
  get_counter_info : ℕ → PmuFunction
  stop_counter : ℕ → ℕ → ℕ → PmuFunction

pub data DebugConsoleFunction : Type 0 where
  put_string : ℕ → ℕ → DebugConsoleFunction

pub data SbiMessage : Type 0 where
  base : BaseFunction → SbiMessage
  get_char : SbiMessage
  put_char : ℕ → SbiMessage
  set_timer : ℕ → SbiMessage
  debug_console : DebugConsoleFunction → SbiMessage
  system_reset : ResetFunction → SbiMessage
  remote_fence : RemoteFenceFunction → SbiMessage
  pmu : PmuFunction → SbiMessage

-- `args[i]`, which panics past the end.
abbrev pub arg : List ℕ → ℕ → Outcome ℕ
arg args i = expect (get_elem? args i)

-- `BaseFunction::from_regs`
unfoldable pub base_from_regs : List ℕ → Outcome BaseFunction
base_from_regs args = do
  function ← arg args 6
  if function == 0
      then ok get_sepcification_version
      else if function == 1
      then ok get_implementation_id
      else if function == 2
      then ok get_implementation_version
      else if function == 3
      then (do extension ← arg args 0; ok (probe_sbi_extension extension))
      else if function == 4
      then ok get_machine_vendor_id
      else if function == 5
      then ok get_machine_architecture_id
      else if function == 6
      then ok get_machine_implementation_id
      else err not_found

-- `ResetType::from_reg`
unfoldable pub type_from_reg : ℕ → Outcome ResetType
type_from_reg a0 =
    if a0 == 0
    then ok shutdown
    else if a0 == 1
    then ok cold_reset
    else if a0 == 2
    then ok warm_reset
    else err invalid_input

-- `ResetReason::from_reg`
unfoldable pub reason_from_reg : ℕ → Outcome ResetReason
reason_from_reg a1 =
    if a1 == 0 then ok no_reason else if a1 == 1 then ok system_failure else err invalid_input

-- `ResetFunction::from_regs`
unfoldable pub reset_from_regs : List ℕ → Outcome ResetFunction
reset_from_regs args = do
  function ← arg args 6
  if function == 0
      then (do
        a0 ← arg args 0
        reset_type ← type_from_reg a0
        a1 ← arg args 1
        reason ← reason_from_reg a1
        ok (reset reset_type reason))
      else err invalid_input

-- `ResetFunction::shutdown`
abbrev pub reset_shutdown : ResetFunction
reset_shutdown = reset shutdown no_reason

-- `PmuFunction::from_regs`
unfoldable pub pmu_from_regs : List ℕ → Outcome PmuFunction
pmu_from_regs args = do
  function ← arg args 6
  if function == 0
      then ok get_num_counters
      else if function == 1
      then (do index ← arg args 0; ok (get_counter_info index))
      else if function == 4
      then (do
        counter_index ← arg args 0
        counter_mask ← arg args 1
        stop_flags ← arg args 2
        ok (stop_counter counter_index counter_mask stop_flags))
      else panic

module _ (spec : SbiSpec) where
  -- `RemoteFenceFunction::from_args`
  unfoldable pub fence_from_args : List ℕ → Outcome RemoteFenceFunction
  fence_from_args args = do
    function ← arg args 6
    if function == spec.remote_fence_i
        then (do
          hart_mask ← arg args 0
          hart_mask_base ← arg args 1
          ok (fence_i hart_mask hart_mask_base))
        else if function == spec.remote_sfence_vma
        then (do
          hart_mask ← arg args 0
          hart_mask_base ← arg args 1
          start_addr ← arg args 2
          size ← arg args 3
          ok (remote_sfence_vma hart_mask hart_mask_base start_addr size))
        else panic

  -- `SbiMessage::from_regs`
  unfoldable pub from_regs : List ℕ → Outcome SbiMessage
  from_regs args = do
    extension ← arg args 7
    if extension == spec.eid_base
        then map_ok base (base_from_regs args)
        else if extension == spec.legacy_console_putchar
        then map_ok put_char (arg args 0)
        else if extension == spec.legacy_console_getchar
        then ok get_char
        else if extension == spec.legacy_set_timer
        then map_ok set_timer (arg args 0)
        else if extension == spec.legacy_shutdown
        then ok (system_reset reset_shutdown)
        else if extension == spec.eid_time
        then map_ok set_timer (arg args 0)
        else if extension == spec.eid_srst
        then map_ok system_reset (reset_from_regs args)
        else if extension == spec.eid_rfnc
        then map_ok remote_fence (fence_from_args args)
        else if extension == spec.eid_pmu
        then map_ok pmu (pmu_from_regs args)
        else err not_found
