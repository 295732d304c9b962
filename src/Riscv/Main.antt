-- ===== src/Riscv/Main.antt =====
-- `riscv64_main` of src/main.rs as a whole: the registers, the guest's memory and its context are set
-- up, and the guest runs. The word of pflash that the hypervisor prints comes from `device`.
pub mod Boot
pub mod Start
use app_guestaspace.Base.{
  ℕ, List, [], Bool, Outcome, ok, panic, ◌>>=◌, ◌>>◌, expect, true, false, if◌then◌else◌,
}
use app_guestaspace.Base.Bytes.{to_le_bytes}
use app_guestaspace.Base.Utf8.{is_utf8}
use app_guestaspace.AddrSpace.{AddrSpace, guest_flags}
use app_guestaspace.Loader.{FileSystem, load_guest}
use app_guestaspace.Riscv.Csrs.{Csrs}
use app_guestaspace.Riscv.Vcpu
use app_guestaspace.Riscv.Vcpu.{VmCpuRegisters}
use app_guestaspace.Riscv.Setup.{
  Crates, setup_csrs, prepare_guest_context, prepare_vm_pgtable, vm_entry, phy_mem_start,
  phy_mem_size,
}
use app_guestaspace.Riscv.Run.{Machine, State, Ending, run}

abbrev pub pflash_start : ℕ
pflash_start = 0x2200_0000

-- `core::str::from_utf8(…)` on the bytes of the word, of which the error panics.
unfoldable pub print_pflash : (ℕ → ℕ) → Outcome (List ℕ)
print_pflash device =
    let magic = to_le_bytes 4 (device pflash_start) in if is_utf8 magic then ok magic else panic

module _ (A : AddrSpace) (F : FileSystem) where
  -- The guest's memory, with the image read in at most so many parts.
  unfoldable pub setup_uspace : (ℕ → ℕ) → ℕ → Outcome A.Space
  setup_uspace device reads = do
    uspace ← expect (A.new_user_aspace 0x0 0x7fff_ffff_f000)
    _ ← print_pflash device
    with_ram ← expect (A.map_alloc phy_mem_start phy_mem_size (guest_flags A) true uspace)
    load_guest A F vm_entry false reads "/sbin/gkernel" with_ram

  module _ (M : Machine A) where
    -- The state in which the loop is entered.
    unfoldable pub riscv64_start :
        (ℕ → ℕ) → Crates → ℕ → M.Guest → M.Firmware → Csrs → Outcome (State A M)
    riscv64_start device K reads guest firmware csrs = do
      uspace ← setup_uspace device reads
      let (c, ctx) = prepare_guest_context K (setup_csrs csrs) Vcpu.default
      ok (record {
        guest = guest;
        guest_regs = ctx.guest_regs;
        csrs = prepare_vm_pgtable (A.page_table_root uspace) c;
        uspace = uspace;
        firmware = firmware;
        uart = [];
      })

    -- The whole of it; the loop runs for at most `exits` exits.
    unfoldable pub riscv64_main :
        (ℕ → ℕ) → Crates → ℕ → ℕ → M.Guest → M.Firmware → Csrs → Outcome (Ending × State A M)
    riscv64_main device K reads exits guest firmware csrs = do
      s ← riscv64_start device K reads guest firmware csrs
      run A M exits s
