-- ===== src/X86/Guest.antt =====
-- The guest program on the processor. The processor is not part of the repository: what the theorems
-- need of VMRUN is a record of laws, from the AMD manual, for a processor that runs this guest.
pub mod Prints
pub mod Boot
use app_guestaspace.Base.{
  ℕ, suc, ◌+◌, ◌*◌, ◌%◌, ◌^◌, ◌<◌, ◌≡◌, ◌≢◌, ◌∙◌, true, false, none, some, ok, bit_or, List, length,
  arith,
}
use app_guestaspace.Base.Bits.{bit, bit_or-shift, bit_or_comm}
use app_guestaspace.Base.Bytes.{u64}
use app_guestaspace.AddrSpace.{AddrSpace, IsMapped, in_range}
use app_guestaspace.AddrSpace.Words.{read_bytes, read_u64}
use app_guestaspace.Payload.{Program, putchar, load, exit, x86_64_start}
use app_guestaspace.X86.Vmcb.{
  Vmcb, read_field, save_rip, exit_code, exit_info2, guest_rax, guest_rip, vmexit_vmmcall,
  vmexit_npf,
}
use app_guestaspace.X86.Vmcb.Fields.{IsVmcb, Apart}
use app_guestaspace.X86.Svm.{SvmGuestGprs, Msrs}
use app_guestaspace.X86.Memory.Tables.Walk.{Covered, walk}
use app_guestaspace.X86.Run.{Exit, Vmrun}
use app_guestaspace.X86.Run.Faults.{page_of, read_u32}

-- RAX of `vmmcall_putchar(c)` and of `vmmcall_exit()`.
unfoldable pub vmmcall_putchar : ℕ → ℕ
vmmcall_putchar c = bit_or 1 (c * 2 ^ 8)

abbrev pub vmmcall_exit : ℕ
vmmcall_exit = 0x84000008

-- What `vmmcall_putchar` puts into RAX, as arithmetic.
pub vmmcall_putchar-sum : (c : ℕ) → vmmcall_putchar c ≡ c * 256 + 1
unfolding vmmcall_putchar
vmmcall_putchar-sum c = bit_or_comm 1 (c * 2 ^ 8) ∙ bit_or-shift 8 c 1 (omega arith)

-- What the processor needs for the guest's first instruction: SVM in EFER and a page to save the host in; a control block with the
-- intercepts of VMRUN and VMMCALL, an ASID, nested paging with the page table of the space, long mode
-- with paging, a 64-bit code segment, and the instruction's address; page tables at CR3 that map the
-- RAM and pflash to themselves; and the RAM with the image.
pub record IsEntry (A : AddrSpace) (image : List ℕ) (msrs : Msrs) (vm : Vmcb) (n : A.Space)
    : Type 0 where
  pub svm : bit 12 (msrs 0xC000_0080) ≡ 1
  pub save_area : msrs 0xC001_0117 % 4096 ≡ 0
  pub valid : IsVmcb vm
  pub intercepts : read_field 4 0x010 vm ≡ ok 3
  pub asid : read_field 4 0x058 vm ≡ ok 1
  pub np_enable : read_field 8 0x090 vm ≡ ok 1
  pub n_cr3 : read_field 8 0x0B0 vm ≡ ok (A.page_table_root n)
  pub cs_attrib : read_field 2 0x412 vm ≡ ok 0x0A9B
  pub efer : read_field 8 0x4D0 vm ≡ ok 0x1D00
  pub cr4 : read_field 8 0x548 vm ≡ ok 0x00A0
  pub cr3 : read_field 8 0x550 vm ≡ ok 0x1000
  pub cr0 : read_field 8 0x558 vm ≡ ok 0x8001_0011
  pub rip : read_field 8 0x578 vm ≡ ok 0x10000
  pub rsp : read_field 8 0x5D8 vm ≡ ok 0x80000
  pub tables : (va : ℕ) → Covered va → walk (read_u64 A n) 0x1000 va ≡ some va
  pub ram : (a : ℕ) → a < 0x20_0000 → IsMapped A n a
  pub code : read_bytes A n 0x10000 (length image) ≡ image

-- The control block with RIP moved to `rip`, all that is apart from RIP as it was.
pub record IsMoved (rip : ℕ) (vm vm1 : Vmcb) : Type 0 where
  pub valid : IsVmcb vm1
  pub moved : guest_rip vm1 ≡ ok rip
  pub kept : (m at : ℕ) → Apart 8 save_rip m at → read_field m at vm1 ≡ read_field m at vm

-- Another space with the same nested page table, in which just the page of `a` is mapped anew.
pub record IsEmulated (A : AddrSpace) (a : ℕ) (n m : A.Space) : Type 0 where
  pub same_root : A.page_table_root m ≡ A.page_table_root n
  pub mapped : IsMapped A m a
  pub outside :
      (b : ℕ)
      → in_range (page_of a) 4096 b ≡ false
      → (A.query m b ≡ A.query n b) × (A.byte_at m b ≡ A.byte_at n b)

-- The guest stopped with a VMMCALL at `site`. `Q` holds of the control block with RIP behind the three
-- bytes of the instruction.
pub record IsVmmcall (A : AddrSpace) (G : Type 0) (e : Exit A G) (rax : ℕ) (n : A.Space)
    (Q : Vmcb → Type 0) : Type 0 where
  pub site : ℕ
  pub valid : IsVmcb e.vmcb
  pub code : exit_code e.vmcb ≡ ok vmexit_vmmcall
  pub rax_value : guest_rax e.vmcb ≡ ok rax
  pub rip_value : guest_rip e.vmcb ≡ ok site
  pub continues : (vm : Vmcb) → IsMoved (u64 (site + 3)) e.vmcb vm → Q vm
  pub same_npt : e.npt ≡ n

-- The guest stopped with a nested page fault at `a`. `Q` holds of a space in which the page has been
-- mapped.
pub record IsFault (A : AddrSpace) (G : Type 0) (e : Exit A G) (a : ℕ) (n : A.Space)
    (Q : A.Space → Type 0) : Type 0 where
  pub valid : IsVmcb e.vmcb
  pub code : exit_code e.vmcb ≡ ok vmexit_npf
  pub address : exit_info2 e.vmcb ≡ ok a
  pub continues : (m : A.Space) → IsEmulated A a e.npt m → Q m
  pub same_npt : e.npt ≡ n

-- `P msrs x vm g n p`: the guest `x`, entered with these model-specific registers, this control block
-- and these registers in the space `n`, goes on with `p`. What the guest writes in its memory is part
-- of `x`, and `n` what the hypervisor has made of it.
pub record IsProcessor (A : AddrSpace) (G : Type 0) (vmrun : Msrs → Vmrun A G) (image : List ℕ)
    (first : G) (P : Msrs → G → Vmcb → SvmGuestGprs → A.Space → Program → Type 0) : Type 0 where
  pub starts :
      (msrs : Msrs) (vm : Vmcb) (g : SvmGuestGprs) (n : A.Space)
      → IsEntry A image msrs vm n
      → P msrs first vm g n x86_64_start
  pub on_putchar :
      (msrs : Msrs) (x : G) (c : ℕ) (k : Program) (vm : Vmcb) (g : SvmGuestGprs) (n : A.Space)
      → P msrs x vm g n (putchar c k)
      → c < 256
      → let e = vmrun msrs x vm g n in
        IsVmmcall A G e (vmmcall_putchar c) n (λ vm1. P msrs e.guest vm1 e.gprs e.npt k)
  pub on_exit :
      (msrs : Msrs) (x : G) (vm : Vmcb) (g : SvmGuestGprs) (n : A.Space)
      → P msrs x vm g n exit
      → IsVmmcall A G (vmrun msrs x vm g n) vmmcall_exit n (λ vm1. Unit {0})
  -- The instruction is tried again after the exit.
  pub on_unmapped :
      (msrs : Msrs) (x : G) (a : ℕ) (k : ℕ → Program) (vm : Vmcb) (g : SvmGuestGprs) (n : A.Space)
      → P msrs x vm g n (load a k)
      → a < 2 ^ 64
      → A.query n a ≡ none
      → let e = vmrun msrs x vm g n in
        IsFault A G e a n (λ m. P msrs e.guest e.vmcb e.gprs m (load a k))
  -- A load from mapped memory takes no exit: the guest is as if it had been entered behind it.
  pub on_mapped :
      (msrs : Msrs) (x : G) (a : ℕ) (k : ℕ → Program) (vm : Vmcb) (g : SvmGuestGprs) (n : A.Space)
      → P msrs x vm g n (load a k)
      → a % 4 ≡ 0
      → IsMapped A n a
      → (y : G) × (vm1 : Vmcb) × (h : SvmGuestGprs) × P msrs y vm1 h n (k (read_u32 A n a))
        × (vmrun msrs x vm g n ≡ vmrun msrs y vm1 h n)
