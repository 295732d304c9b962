-- ===== src/X86/Run.antt =====
-- `x86_64_main` of src/main.rs, the loop over VM exits. The processor is a parameter: `vmrun` runs
-- the guest from its VMCB, registers and nested page table to the next exit.
pub mod Exits
pub mod Faults
pub mod Panics
use app_guestaspace.Base.{
  ℕ, zero, suc, ◌+◌, ◌/◌, ◌^◌, List, [], ◌∷◌, ◌++◌, ◌&&◌, true, false, Bool, Outcome, ok,
  out_of_fuel, ◌>>=◌, expect, leb, ltb, ◌==◌, if◌then◌else◌, bit_and,
}
use app_guestaspace.Base.Bits.{bit_not}
use app_guestaspace.Base.Bytes.{u8, u64, to_le_bytes}
use app_guestaspace.AddrSpace.{AddrSpace, guest_flags}
use app_guestaspace.X86.Vmcb.{
  Vmcb, exit_code, exit_info2, guest_rax, guest_rip, write_u64, save_rip, vmexit_vmmcall,
  vmexit_npf,
}
use app_guestaspace.X86.Svm.{SvmGuestGprs}

abbrev pub page_size_4k : ℕ
page_size_4k = 0x1000

-- "pfld" in little-endian order.
abbrev pub pflash_magic : ℕ
pflash_magic = 0x646c_6670

-- What the loop works on. `guest` is what the processor is about to run, and `console` holds the
-- characters that the guest has printed.
pub record State (A : AddrSpace) (G : Type 0) : Type 0 where
  pub guest : G
  pub vmcb : Vmcb
  pub gprs : SvmGuestGprs
  pub npt : A.Space
  pub console : List ℕ

-- How the loop is left.
pub data Ending : Type 0 where
  shutdown unexpected : Ending

pub data Step (A : AddrSpace) (G : Type 0) : Type 0 where
  resume : State A G → Step A G
  stop : Ending → State A G → Step A G

-- The test for the pflash region.
abbrev pub is_pflash : ℕ → Bool
is_pflash page_addr = leb 0xFFC0_0000 page_addr && ltb page_addr 0x1_0000_0000

module _ (A : AddrSpace) (G : Type 0) where
  -- `VMEXIT_VMMCALL`
  unfoldable pub handle_vmmcall : State A G → Outcome (Step A G)
  handle_vmmcall s = do
    guest_rax_value ← guest_rax s.vmcb
    if guest_rax_value == 0x84000008
        then ok (stop shutdown s)
        else if bit_and guest_rax_value 0xFF == 1
        then (do
          rip ← guest_rip s.vmcb
          vm ← write_u64 save_rip (u64 (rip + 3)) s.vmcb
          let ch = u8 (bit_and (guest_rax_value / 2 ^ 8) 0xFF)
          ok (resume (record s { vmcb = vm; console = s.console ++ (ch ∷ []) })))
        else (do
          rip ← guest_rip s.vmcb
          vm ← write_u64 save_rip (u64 (rip + 3)) s.vmcb
          ok (resume (record s { vmcb = vm })))

  -- `VMEXIT_NPF`
  unfoldable pub handle_npf : State A G → Outcome (Step A G)
  handle_npf s = do
    fault_addr ← exit_info2 s.vmcb
    let page_addr = bit_and fault_addr (bit_not 64 0xFFF)
    npt1 ← expect (A.map_alloc page_addr page_size_4k (guest_flags A) true s.npt)
    if is_pflash page_addr
        then (do
          npt2 ← expect (A.write page_addr (to_le_bytes 4 pflash_magic) npt1)
          ok (resume (record s { npt = npt2 })))
        else ok (resume (record s { npt = npt1 }))

  -- The `match` on the exit code.
  unfoldable pub handle_exit : State A G → Outcome (Step A G)
  handle_exit s = do
    code ← exit_code s.vmcb
    if code == vmexit_vmmcall
        then handle_vmmcall s
        else if code == vmexit_npf
        then handle_npf s
        else ok (stop unexpected s)

-- What VMRUN leaves behind at the next exit.
pub record Exit (A : AddrSpace) (G : Type 0) : Type 0 where
  pub guest : G
  pub vmcb : Vmcb
  pub gprs : SvmGuestGprs
  pub npt : A.Space

abbrev pub Vmrun : AddrSpace → Type 0 → Type 0
Vmrun A G = G → Vmcb → SvmGuestGprs → A.Space → Exit A G

module _ (A : AddrSpace) (G : Type 0) (vmrun : Vmrun A G) where
  -- `_run_guest(vmcb_pa, host_vmcb_pa, &mut gprs)`
  unfoldable pub enter : State A G → State A G
  enter s =
      let e = vmrun s.guest s.vmcb s.gprs s.npt in
      record s { guest = e.guest; vmcb = e.vmcb; gprs = e.gprs; npt = e.npt }

  -- The loop, for at most so many exits.
  unfoldable pub run : ℕ → State A G → Outcome (Ending × State A G)
  run zero s = out_of_fuel
  run (suc fuel) s = do
    step ← handle_exit A G (enter s)
    elim step [ resume t ↦ run fuel t | stop e t ↦ ok (e, t) ]
