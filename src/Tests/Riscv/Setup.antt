-- ===== src/Tests/Riscv/Setup.antt =====
-- The control and status registers of the RISC-V hypervisor at concrete inputs.
use app_guestaspace.Base.{
  ℕ, ◌*◌, ap, ◌/◌, ◌%◌, ◌^◌, ◌<◌, ◌≡◌, ◌↔◌, ◌⊎◌, ◌∙◌, refl, ok, [], ◌∷◌, arith, bit_and,
}
use Prim.Native.Nat.{max}
use app_guestaspace.Base.Bits.{bit, bit-bit_or, bit-le-one}
use app_guestaspace.AddrSpace.Flat.{flat}
use app_guestaspace.Riscv.Csrs.{
  get_value, write_value, csr_sstatus, csr_hstatus, csr_hedeleg, csr_scause, read_and_set_bits,
}
use app_guestaspace.Riscv.Csrs.Fields.{Field}
use app_guestaspace.Riscv.Csrs.Fields
use app_guestaspace.Riscv.Csrs.Fields.Apart.{fields_apart}
use app_guestaspace.Riscv.Csrs.Masks.{bit-pow, get_value-write_value, get_value-write_value_ne}
use app_guestaspace.Riscv.Csrs.Numbers.{CsrName, number, number_lem}
use app_guestaspace.Riscv.Vcpu
use app_guestaspace.Riscv.Vcpu.{GuestCpuState}
use app_guestaspace.Riscv.Setup.{setup_csrs, prepare_guest_context, vm_entry}
use app_guestaspace.Riscv.Setup.Context.{AreLawful, prepare_guest_context_lem}
use app_guestaspace.Riscv.Regs.{a_regs}
use app_guestaspace.Riscv.Run.{
  Machine, State, stop, unhandled, legacy_shutdown, handle_exception, handle_exit, handle_ecall,
  enter, run, a_reg,
}
use app_guestaspace.Riscv.Run.Ends.{EndsAt, run-EndsAt}
use app_guestaspace.Riscv.Run.Preserve.{Reach}
use app_guestaspace.Riscv.Run.Delegation.{served_exceptions, handle_exception-unhandled_iff}
use app_guestaspace.Tests.Riscv.Hart.{hart, call_regs}
use app_guestaspace.Tests.Riscv.Whole.{crates, empty}

number_lem_example :
    ((number CsrName.sstatus ≡ number CsrName.vsstatus) ↔ (CsrName.sstatus ≡ CsrName.vsstatus))
    × (number CsrName.sstatus < 2 ^ 12)
    × (0 < number CsrName.sstatus / 2 ^ 8 % 4)
    × (number CsrName.sstatus / 2 ^ 8 % 4 < 3)
number_lem_example = number_lem CsrName.sstatus CsrName.vsstatus

abbrev vsbe : Field
vsbe = record { name = "vsbe"; offset = 6; numbits = 1 }

abbrev gva : Field
gva = record { name = "gva"; offset = 6; numbits = 1 }

-- The two fields that share a bit.
fields_apart_example :
    ((◌≡◌ {A = ℕ} 0 1)
      ⊎ ((Fields.Register.hstatus ≡ Fields.Register.hstatus)
          × (◌≡◌ {A = ℕ} 6 6)
          × (◌<◌ 0 2)
          × (◌<◌ 1 2)))
    × (◌<◌ 6 64)
fields_apart_example =
    fields_apart Fields.Register.hstatus 0 1 6 vsbe gva refl refl (omega arith, omega arith)
      (omega arith, omega arith)

abbrev entry_regs : GuestCpuState
entry_regs = Vcpu.default.guest_regs

-- An illegal instruction of the guest.
abbrev trapped : State flat hart
trapped = record {
  guest = [];
  guest_regs = entry_regs;
  csrs = λ c. 2;
  uspace = empty;
  firmware = [];
  uart = [];
}

handle_exception-unhandled_iff_example :
    ((handle_exception flat hart trapped ≡ stop unhandled trapped) ↔ (bit 2 served_exceptions ≡ 0))
    × (bit_and (get_value csr_hedeleg (setup_csrs (λ c. 7))) served_exceptions ≡ 0)
unfolding get_value
handle_exception-unhandled_iff_example = handle_exception-unhandled_iff flat hart trapped (λ c. 7)

pub crates-AreLawful : AreLawful crates
crates-AreLawful = record {
  sets_bit = λ f r k one.
      bit-bit_or k r (2 ^ f.offset * 1)
      ∙ ap (λ m. max (bit k r) (bit k m)) (omega arith)
      ∙ ap (max (bit k r)) (bit-pow f.offset k)
      ∙ ground (arith, bit-le-one k r);
  sets_spp = λ c.
      ap (bit 8) (get_value-write_value csr_sstatus _ c)
      ∙ bit-bit_or 8 (get_value csr_sstatus c) 0x100
      ∙ omega (arith, bit-le-one 8 (get_value csr_sstatus c));
  keeps = λ c csr h. get_value-write_value_ne csr_sstatus csr _ c h;
}

prepare_guest_context_lem_example :
    let (after, made) = prepare_guest_context crates (λ c. 0x30) Vcpu.default in
    (bit 7 made.guest_regs.hstatus ≡ 1)
    × (bit 8 made.guest_regs.hstatus ≡ 1)
    × (bit 5 made.guest_regs.hstatus ≡ bit 5 (get_value csr_hstatus (λ c. 0x30)))
    × (get_value csr_hstatus after ≡ made.guest_regs.hstatus)
    × (bit 8 made.guest_regs.sstatus ≡ 1)
    × (get_value csr_sstatus after ≡ made.guest_regs.sstatus)
    × (made.guest_regs.sepc ≡ vm_entry)
    × (made.guest_regs.gprs ≡ entry_regs.gprs)
    × (made.hyp_regs ≡ Vcpu.default.hyp_regs)
    × (made.vs_csrs ≡ Vcpu.default.vs_csrs)
prepare_guest_context_lem_example =
    prepare_guest_context_lem crates (λ c. 0x30) Vcpu.default 5 crates-AreLawful (omega arith)
      (omega arith)

-- A hart that leaves the guest at a call, with the registers as they were.
abbrev calling : Machine flat
calling = record hart { run_guest = λ g r f n. (g, r, write_value csr_scause 10 f) }

-- The registers of the call that shuts down.
abbrev shutting_down : State flat calling
shutting_down = record {
  guest = [];
  guest_regs = record { gprs = call_regs 0 8; sstatus = 0; hstatus = 0; scounteren = 0; sepc = 4 };
  csrs = λ c. 2;
  uspace = empty;
  firmware = [];
  uart = b'k' ∷ [];
}

shuts_down :
    run flat calling 1 shutting_down ≡ ok (legacy_shutdown, enter flat calling shutting_down)
unfolding run handle_exit handle_exception handle_ecall enter a_reg a_regs get_value write_value
    read_and_set_bits
shuts_down = refl

run-EndsAt_example :
    (u : State flat calling) × Reach flat calling shutting_down u
    × (enter flat calling u ≡ enter flat calling shutting_down)
    × EndsAt flat calling legacy_shutdown (enter flat calling shutting_down)
run-EndsAt_example =
    run-EndsAt flat calling 1 shutting_down legacy_shutdown (enter flat calling shutting_down)
      shuts_down
