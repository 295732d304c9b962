-- ===== src/Aarch64/Main.antt =====
-- `aarch64_main` of src/main.rs as a whole: the guest's address space is made, TTBR0_EL1 is switched to
-- it, the guest runs, and TTBR0_EL1 is switched back. TLB maintenance has no counterpart.
pub mod Boot
use app_guestaspace.Base.{ℕ, [], Outcome, ok, err, panic, ◌>>=◌, expect, true}
use app_guestaspace.AddrSpace.{AddrSpace, guest_flags}
use app_guestaspace.Loader.{FileSystem, load_vm_image}
use app_guestaspace.Aarch64.Regs.{TrapState}
use app_guestaspace.Aarch64.Vcpu
use app_guestaspace.Aarch64.Run.{
  vm_entry, stack_size, stack_base, guest_context, State, Ending, RunGuest, run,
}

-- The system register that the hypervisor switches.
pub record SystemRegisters : Type 0 where
  pub ttbr0_el1 : ℕ

-- `msr ttbr0_el1, {val}`
abbrev pub write_ttbr0 : ℕ → SystemRegisters → SystemRegisters
write_ttbr0 val system = record system { ttbr0_el1 = val }

-- `if let Err(e) = … { panic!(…) }`
abbrev pub or_panic : {A : Type 0} → Outcome A → Outcome A
or_panic (err e) = panic
or_panic m = m

module _ (A : AddrSpace) (F : FileSystem) where
  -- The guest's image, read in at most so many parts, and its stack.
  unfoldable pub setup_uspace : ℕ → Outcome A.Space
  setup_uspace reads = do
    uspace ← expect (A.new_user_aspace 0x0 0x4200_0000)
    loaded ← or_panic (load_vm_image A F vm_entry true reads "/sbin/gkernel" uspace)
    expect (A.map_alloc stack_base stack_size (guest_flags A) true loaded)

  -- The whole of it; the loop runs for at most `exits` exits of a guest that starts as `guest`, under
  -- the system registers that the hypervisor has written.
  unfoldable pub aarch64_main :
      (G : Type 0)
      → (SystemRegisters → RunGuest A G)
      → ℕ
      → ℕ
      → G
      → SystemRegisters
      → Outcome (Ending × State A G × SystemRegisters)
  aarch64_main G run_guest reads exits guest system = do
    uspace ← setup_uspace reads
    let old_ttbr0 = system.ttbr0_el1
    let ctx = record Vcpu.default { guest = guest_context }
    let for_guest = write_ttbr0 (A.page_table_root uspace) system
    (ending, s) ← run A G (run_guest for_guest) exits (record {
      running = guest;
      guest = ctx.guest;
      trap = ctx.trap;
      uspace = uspace;
      console = [];
    })
    ok (ending, s, write_ttbr0 old_ttbr0 for_guest)
