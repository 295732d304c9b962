-- ===== src/Tests/Riscv/Whole.antt =====
-- The start of the RISC-V hypervisor at concrete inputs.
use app_guestaspace.Base.{
  ℕ, ◌+◌, ◌*◌, ◌/◌, ◌^◌, ◌≡◌, refl, List, [], ◌∷◌, ok, arith, true, false, length, bit_or, set,
  replicate, some,
}
use app_guestaspace.Base.Bits.{bit}
use app_guestaspace.Base.Utf8.{is_utf8}
use app_guestaspace.AddrSpace.{IsMapped, in_range}
use app_guestaspace.AddrSpace.Flat.{flat, flat-IsLawful, Space}
use app_guestaspace.AddrSpace.Words.{read_bytes}
use app_guestaspace.Riscv.Csrs.{get_value, write_value, csr_sstatus, csr_hvip, csr_sie, csr_hgatp}
use app_guestaspace.Riscv.Setup.{
  Crates, setup_csrs, prepare_guest_context, vm_entry, phy_mem_start, phy_mem_size,
}
use app_guestaspace.Riscv.Run.{State}
use app_guestaspace.Loader.{load_guest}
use app_guestaspace.Riscv.Vcpu
use app_guestaspace.Riscv.Vcpu.{GuestCpuState}
use app_guestaspace.Riscv.Switch.{Machine, num}
use app_guestaspace.Riscv.Switch.Code.{run_guest_code}
use app_guestaspace.Riscv.Switch.Correct.{at_call, IsBack, run_guest_code-returns}
use app_guestaspace.Riscv.Main.{riscv64_start}
use app_guestaspace.Riscv.Main.Start.{KeepsTimer, riscv64_start_lem}
use app_guestaspace.Tests.Images.{disk, disk-IsReader}
use app_guestaspace.Tests.Riscv.Hart.{hart}

abbrev pub image : List ℕ
image = 0x13 ∷ 0x37 ∷ 0x42 ∷ []

abbrev pub empty : Space
empty = record { areas = []; bytes = λ a. 0 }

abbrev pub with_ram : Space
with_ram = record {
  areas = record { start = 0x8000_0000; size = 0x100_0000; paddr = 0x1_0000_8000_0000 } ∷ [];
  bytes = λ a. 0;
}

-- `SPP` is bit 8 of sstatus.
abbrev pub crates : Crates
crates = record {
  modify = λ f v r. bit_or r (2 ^ f.offset * v);
  set_spp = λ c. write_value csr_sstatus (bit_or (get_value csr_sstatus c) 0x100) c;
}

pub crates-KeepsTimer : KeepsTimer crates
unfolding get_value write_value
crates-KeepsTimer c = (refl, refl)

riscv64_start_lem_example :
    (s : State flat hart) × (riscv64_start flat disk hart (λ a. 0x646c_6670) crates 1 [] [] (λ c. 7)
      ≡ ok s)
    × (read_bytes flat s.uspace vm_entry (length image) ≡ image)
    × ((a : ℕ) → in_range phy_mem_start phy_mem_size a ≡ true → IsMapped flat s.uspace a)
    × (s.guest_regs.sepc ≡ vm_entry)
    × (get_value csr_hgatp s.csrs ≡ 8 * 2 ^ 60 + 0x8000_0000 / 4096)
    × (bit 6 (get_value csr_hvip s.csrs) ≡ 0)
    × (bit 5 (get_value csr_sie s.csrs) ≡ 0)
    × ((a : ℕ)
        → in_range phy_mem_start phy_mem_size a ≡ false
        → flat.query s.uspace a ≡ flat.query empty a)
    × (s.guest ≡ [])
    × (s.uart ≡ [])
    × (s.guest_regs
        ≡ (prepare_guest_context crates (setup_csrs (λ c. 7)) Vcpu.default).1.guest_regs)
    × (load_guest flat disk vm_entry false 1 "/sbin/gkernel" with_ram ≡ ok s.uspace)
unfolding is_utf8
riscv64_start_lem_example =
    riscv64_start_lem flat flat-IsLawful disk (λ f. f) disk-IsReader hart crates crates-KeepsTimer
      (λ a. 0x646c_6670) 1 [] [] (λ c. 7) image empty with_ram refl refl (omega arith) (omega arith)
      refl refl (λ s. omega arith)

-- A guest that puts 42 into a0 and traps.
abbrev answering : GuestCpuState → GuestCpuState
answering g = record g { gprs = record { values = set g.gprs.values 10 42 } }

abbrev zeroed : GuestCpuState
zeroed = record {
  gprs = record { values = replicate 32 0 };
  sstatus = 1;
  hstatus = 2;
  scounteren = 3;
  sepc = 4;
}

run_guest_code-returns_example :
    (m : Machine) × (run_guest_code answering (at_call num num (λ r. num 7) zeroed) ≡ some m)
    × IsBack num (λ r. num 7) (answering zeroed) m
run_guest_code-returns_example =
    run_guest_code-returns answering num num (λ r. num 7) zeroed
      (record { sized = refl; hardwired = refl })
