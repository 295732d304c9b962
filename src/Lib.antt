-- ===== src/Lib.antt =====
-- Verification of the guest-address-space application, a small hypervisor for RISC-V, AArch64 and
-- x86_64 on the ArceOS unikernel, and of the guest that it runs.
--
-- Parts of the program and the files that model them (paths from the root of the repository):
--
-- AddrSpace: the address space of the crate axmm, with the laws of its documentation. It is a record
--   that every part which maps or writes guest memory takes as a parameter; AddrSpace/Words reads
--   words of guest memory, AddrSpace/Room is a law about memory that is left, AddrSpace/Passed about
--   a page that is mapped to itself, and AddrSpace/Flat is one concrete instance, for the examples.
-- X86: src/x86_64/vmcb.rs (X86/Vmcb); src/x86_64/svm.rs, the registers (X86/Svm) and the assembly of
--   `_run_guest` with a machine that executes it (X86/Switch); of x86_64_main in src/main.rs the
--   guest's memory (X86/Memory), the control block (X86/Setup), the loop over exits (X86/Run) and the
--   whole (X86/Main). X86/Guest runs the guest under that loop on a processor that is given by laws.
-- Aarch64: src/aarch64/regs.rs (Aarch64/Regs), src/aarch64/vcpu.rs (Aarch64/Vcpu),
--   src/aarch64/hvc.rs (Aarch64/Hvc), src/aarch64/guest.S with a machine that executes it
--   (Aarch64/Switch), of aarch64_main in src/main.rs the loop (Aarch64/Run) and the whole
--   (Aarch64/Main), and the guest under that loop (Aarch64/Guest).
-- Riscv: src/regs.rs (Riscv/Regs), src/csrs.rs (Riscv/Csrs), src/sbi (Riscv/Sbi), src/vcpu.rs
--   (Riscv/Vcpu), src/guest.S with a machine that executes it (Riscv/Switch), and of riscv64_main in
--   src/main.rs the setup of registers (Riscv/Setup), the loop (Riscv/Run), the guest under that loop
--   on a hart that is given by laws (Riscv/Guest), and the whole (Riscv/Main).
-- Loader: src/loader.rs, and the loops of riscv64_main and x86_64_main that load the image.
-- Payload: payload/gkernel/src/main.rs, the guest, as a tree of its requests; Payload/Riscv is the
--   guest for riscv64, whose runtime (the crate axstd) is a record of parameters.
-- BuildScript: build.rs, which gives cargo the linker arguments.
-- Xtask: xtask/src/main.rs, the tool that builds and runs the hypervisor: the commands it runs
--   (Xtask/Build, Xtask/Qemu), the images it makes (Xtask/Images) and `main` (Xtask/Main). A task is a
--   function from the world, files and a log of commands, to a result and the world after it;
--   Xtask/Trace is about that log, Xtask/Refuse about an unknown architecture, and Xtask/Finish about
--   a host on which nothing fails, which is a record of hypotheses on the host's parameters.
-- Base: tests, lists, bits, bytes and results that the parts share. Tests: concrete parameters and
--   the theorems applied to them.
--
-- How the parts meet: main.rs sets up memory and registers, loads the guest with the loader and enters
-- the loop; each round runs the guest to its next exit and serves what it asked for. A handler is a
-- function on the whole state of the loop, named after what it handles (handle_vmmcall, handle_npf,
-- handle_ecall, handle_page_fault, handle_svc, handle_data_abort), and a round gives the next state or
-- says how the loop ends.
--
-- Parameters: the address space, the hardware that runs the guest (VMRUN, the hart, the core), CPUID
-- and the model-specific registers, the SBI firmware, the constants of sbi_spec, the crates
-- tock_registers and riscv, the guest's runtime on riscv64, the file system, and for the build tool
-- and the build script the commands that are run, the host's files, the environment and the crate
-- fatfs. Their laws are records of hypotheses; each has a concrete instance. The hardware's laws say
-- what a guest does only from the state that its first instruction needs (`IsEntry`: image, memory,
-- page tables, control block or registers) and then from states in which the hypervisor has moved it
-- behind the instruction that it called with, or has mapped the page that it missed. What a guest
-- writes in its own memory is part of the guest's state. A file is read in parts that fill the buffer
-- as far as the file goes, and memory for the mappings is assumed as so many pages.
--
-- Bounds: registers are words of 64 bits; wrap-around is written out. Loops run on fuel, which is the
-- number of exits or of reads: 1000 exits are more than the guest of payload/gkernel takes, and a
-- loader needs one read more than the whole buffers of the image. On riscv64 the rounds are those that
-- the guest's program counts and one for each interrupt or other call in between.
--
-- Not modelled: the messages on the host's log and of the build tool, TLB and cache maintenance,
-- floating-point state, read-only fields of control registers, the permissions of mappings, timing,
-- the power-off calls behind the loops, the entry point of src/main.rs, which only calls the function
-- of the architecture that is built, and the panic handler of the bare-metal guests, which halts for
-- ever.
pub mod Aarch64
pub mod AddrSpace
pub mod Base
pub mod BuildScript
pub mod Loader
pub mod Payload
pub mod Riscv
pub mod Tests
pub mod X86
pub mod Xtask
