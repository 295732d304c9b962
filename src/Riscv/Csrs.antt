-- ===== src/Riscv/Csrs.antt =====
-- src/csrs.rs: the control and status registers of a hart, by their numbers, and the trap constants.
-- The `csrr`, `csrw`, `csrrw`, `csrrs` and `csrrc` instructions read and write plain words.
pub mod Fields
pub mod Masks
pub mod Numbers
use app_guestaspace.Base.{ℕ, ◌^◌, bit_and, bit_or, ◌==◌, if◌then◌else◌}
use app_guestaspace.Base.Bits.{bit_not}

abbrev pub Csrs : Type 0
Csrs = ℕ → ℕ

unfoldable pub get_value : ℕ → Csrs → ℕ
get_value csr f = f csr

unfoldable pub write_value : ℕ → ℕ → Csrs → Csrs
write_value csr value f = λ c. if c == csr then value else f c

-- The old value and the registers after it.
unfoldable pub atomic_replace : ℕ → ℕ → Csrs → ℕ × Csrs
atomic_replace csr value f = (get_value csr f, write_value csr value f)

unfoldable pub read_and_set_bits : ℕ → ℕ → Csrs → ℕ × Csrs
read_and_set_bits csr bitmask f =
    (get_value csr f, write_value csr (bit_or (get_value csr f) bitmask) f)

unfoldable pub read_and_clear_bits : ℕ → ℕ → Csrs → ℕ × Csrs
read_and_clear_bits csr bitmask f =
    (get_value csr f, write_value csr (bit_and (get_value csr f) (bit_not 64 bitmask)) f)

abbrev pub csr_sstatus : ℕ
csr_sstatus = 0x100

abbrev pub csr_sie : ℕ
csr_sie = 0x104

abbrev pub csr_scause : ℕ
csr_scause = 0x142

abbrev pub csr_stval : ℕ
csr_stval = 0x143

abbrev pub csr_hstatus : ℕ
csr_hstatus = 0x600

abbrev pub csr_hedeleg : ℕ
csr_hedeleg = 0x602

abbrev pub csr_hideleg : ℕ
csr_hideleg = 0x603

abbrev pub csr_hcounteren : ℕ
csr_hcounteren = 0x606

abbrev pub csr_htval : ℕ
csr_htval = 0x643

abbrev pub csr_hvip : ℕ
csr_hvip = 0x645

abbrev pub csr_hgatp : ℕ
csr_hgatp = 0x680

-- The registers that the hypervisor names, `CSR`.
pub record Csr : Type 0 where
  pub sie : ℕ
  pub hstatus : ℕ
  pub hedeleg : ℕ
  pub hideleg : ℕ
  pub hcounteren : ℕ
  pub hvip : ℕ

abbrev pub csr : Csr
csr = record {
  sie = csr_sie;
  hstatus = csr_hstatus;
  hedeleg = csr_hedeleg;
  hideleg = csr_hideleg;
  hcounteren = csr_hcounteren;
  hvip = csr_hvip;
}

-- `traps::interrupt`
abbrev pub virtual_supervisor_soft : ℕ
virtual_supervisor_soft = 2 ^ 2

abbrev pub supervisor_timer : ℕ
supervisor_timer = 2 ^ 5

abbrev pub virtual_supervisor_timer : ℕ
virtual_supervisor_timer = 2 ^ 6

abbrev pub virtual_supervisor_external : ℕ
virtual_supervisor_external = 2 ^ 10

abbrev pub user_soft : ℕ
user_soft = 2 ^ 0

abbrev pub supervisor_soft : ℕ
supervisor_soft = 2 ^ 1

abbrev pub machine_soft : ℕ
machine_soft = 2 ^ 3

abbrev pub user_timer : ℕ
user_timer = 2 ^ 4

abbrev pub machine_timer : ℕ
machine_timer = 2 ^ 7

abbrev pub user_external : ℕ
user_external = 2 ^ 8

abbrev pub supervisor_external : ℕ
supervisor_external = 2 ^ 9

abbrev pub machinel_external : ℕ
machinel_external = 2 ^ 11

abbrev pub supervisor_guest_externel : ℕ
supervisor_guest_externel = 2 ^ 12

-- `traps::exception`
abbrev pub inst_addr_misalign : ℕ
inst_addr_misalign = 2 ^ 0

abbrev pub illegal_inst : ℕ
illegal_inst = 2 ^ 2

abbrev pub breakpoint : ℕ
breakpoint = 2 ^ 3

abbrev pub env_call_from_u_or_vu : ℕ
env_call_from_u_or_vu = 2 ^ 8

abbrev pub inst_page_fault : ℕ
inst_page_fault = 2 ^ 12

abbrev pub load_page_fault : ℕ
load_page_fault = 2 ^ 13

abbrev pub store_page_fault : ℕ
store_page_fault = 2 ^ 15

abbrev pub inst_accesss_fault : ℕ
inst_accesss_fault = 2 ^ 1

abbrev pub load_addr_misaligned : ℕ
load_addr_misaligned = 2 ^ 4

abbrev pub load_access_fault : ℕ
load_access_fault = 2 ^ 5

abbrev pub store_addr_misaligned : ℕ
store_addr_misaligned = 2 ^ 6

abbrev pub store_access_fault : ℕ
store_access_fault = 2 ^ 7

abbrev pub env_call_from_hs : ℕ
env_call_from_hs = 2 ^ 9

abbrev pub env_call_from_vs : ℕ
env_call_from_vs = 2 ^ 10

abbrev pub env_call_from_m : ℕ
env_call_from_m = 2 ^ 11

abbrev pub inst_guest_page_fault : ℕ
inst_guest_page_fault = 2 ^ 20

abbrev pub load_guest_page_fault : ℕ
load_guest_page_fault = 2 ^ 21

abbrev pub virtual_inst : ℕ
virtual_inst = 2 ^ 22

abbrev pub store_guest_page_fault : ℕ
store_guest_page_fault = 2 ^ 23
