-- ===== src/Aarch64/Hvc.antt =====
-- src/aarch64/hvc.rs: the decoder of hypercalls.
use app_guestaspace.Base.{
  ℕ, ◌/◌, ◌%◌, ◌^◌, ◌≡◌, ◌≢◌, ◌↔◌, ◌⊎◌, not, ◌&&◌, List, Outcome, ok, err, unsupported,
  if◌then◌else◌, ◌==◌, bit_and, get_or, arith,
}
use app_guestaspace.Base.Bits.{bit_and_low}

pub data GuestMessage : Type 0 where
  psci_system_off psci_system_reset : GuestMessage
  unknown : ℕ → GuestMessage

abbrev pub esr_ec_shift : ℕ
esr_ec_shift = 26

abbrev pub esr_ec_mask : ℕ
esr_ec_mask = 0x3F

abbrev pub esr_ec_svc64 : ℕ
esr_ec_svc64 = 0x15

abbrev pub esr_ec_hvc64 : ℕ
esr_ec_hvc64 = 0x16

abbrev pub psci_off_number : ℕ
psci_off_number = 0x84000008

abbrev pub psci_reset_number : ℕ
psci_reset_number = 0x84000009

-- `GuestMessage::from_esr_and_regs(esr, gprs)`
unfoldable pub from_esr_and_regs : ℕ → List ℕ → Outcome GuestMessage
from_esr_and_regs esr gprs =
    let ec = bit_and (esr / 2 ^ esr_ec_shift) esr_ec_mask in
    if not (ec == esr_ec_svc64) && not (ec == esr_ec_hvc64)
    then err unsupported
    else (let func_id = get_or gprs 0 0 in
        if func_id == psci_off_number
        then ok psci_system_off
        else if func_id == psci_reset_number
        then ok psci_system_reset
        else ok (unknown func_id))

-- The decoder takes exactly the SVC and HVC exceptions, and gives the power-off message exactly for
-- the PSCI number in x0.
pub from_esr_and_regs_lem :
    (esr : ℕ) (gprs : List ℕ)
    → ((from_esr_and_regs esr gprs ≡ err unsupported)
        ↔ ((esr / 0x400_0000 % 64 ≢ 0x15) × (esr / 0x400_0000 % 64 ≢ 0x16)))
      × ((from_esr_and_regs esr gprs ≡ ok psci_system_off) ↔ (
          ((esr / 0x400_0000 % 64 ≡ 0x15) ⊎ (esr / 0x400_0000 % 64 ≡ 0x16))
          × (get_or gprs 0 0 ≡ 0x84000008)))
unfolding from_esr_and_regs
from_esr_and_regs_lem esr gprs = rw (bit_and_low 6 (esr / 0x400_0000)) (ground arith, ground arith)
