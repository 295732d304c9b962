-- ===== src/X86/Main.antt =====
-- `x86_64_main` of src/main.rs as a whole: SVM is enabled, the guest's memory and control block are
-- made, and the guest runs. The physical addresses of the host's pages are parameters.
pub mod Boot
pub mod Keeps
pub mod Ready
use app_guestaspace.Base.{
  ℕ, ◌/◌, ◌%◌, ◌^◌, [], Outcome, ok, panic, ◌>>=◌, ◌==◌, if◌then◌else◌, bit_and, bit_or, false,
}
use app_guestaspace.AddrSpace.{AddrSpace}
use app_guestaspace.Loader.{FileSystem, load_guest}
use app_guestaspace.X86.Svm.{Cpuid, Msrs, rdmsr, wrmsr, msr_efer, msr_vm_hsave_pa, efer_svme}
use app_guestaspace.X86.Svm
use app_guestaspace.X86.Setup.{build_vmcb, vm_entry}
use app_guestaspace.X86.Memory.{alloc_ram, write_page_tables, write_gdt}
use app_guestaspace.X86.Run.{State, Ending, Vmrun, run}

-- Where the pages lie that the host allocates.
pub record HostPages : Type 0 where
  pub host_save_pa : ℕ
  pub iopm_pa : ℕ
  pub msrpm_pa : ℕ

-- The first four steps, up to the writes of the model-specific registers.
unfoldable pub enable_svm : Cpuid → HostPages → Msrs → Outcome Msrs
enable_svm cpuid pages msrs =
    let ecx = (cpuid 0x8000_0001).2 in
    if bit_and ecx (2 ^ 2) == 0
    then panic
    else (let efer = rdmsr msr_efer msrs in
        ok (wrmsr msr_vm_hsave_pa pages.host_save_pa (wrmsr msr_efer (bit_or efer efer_svme) msrs)))

module _ (A : AddrSpace) (F : FileSystem) where
  -- The guest's memory, with the image read in at most so many parts.
  unfoldable pub setup_npt : ℕ → Outcome A.Space
  setup_npt reads = do
    npt1 ← alloc_ram A
    npt2 ← write_page_tables A npt1
    npt3 ← write_gdt A npt2
    load_guest A F vm_entry false reads "/sbin/gkernel" npt3

  module _ (G : Type 0) (vmrun : Msrs → Vmrun A G) where
    -- The whole of it; the loop runs for at most `exits` exits of a guest that starts as `guest`,
    -- on a processor with the model-specific registers that the hypervisor has written.
    unfoldable pub x86_64_main :
        Cpuid → HostPages → ℕ → ℕ → G → Msrs → Outcome (Ending × State A G × Msrs)
    x86_64_main cpuid pages reads exits guest msrs = do
      msrs1 ← enable_svm cpuid pages msrs
      npt ← setup_npt reads
      vm ← build_vmcb pages.iopm_pa pages.msrpm_pa (A.page_table_root npt)
      (ending, s) ←
          run A G (vmrun msrs1) exits
            (record { guest = guest; vmcb = vm; gprs = Svm.new; npt = npt; console = [] })
      ok (ending, s, msrs1)
