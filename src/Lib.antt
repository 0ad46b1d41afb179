-- ===== src/Lib.antt =====
-- RincOS: booting, memory management, interrupts and time of the x86-64 kernel.
--
-- The boot loader (crates/bootloader/limine) gives the kernel a `BootInfo` (crates/bootabi), whose
-- memory map the kernel's frame allocator walks (kernel/src/svc/vm.rs). The allocator implements the
-- trait `PageTableFrameAlloc` of crates/hal/src/mmu.rs, through which the page-table code of
-- arch/x86_64/src/mmu.rs takes its frames. kernel/src/kmain.rs starts the processor's tables
-- (gdt.rs, tss.rs, idt.rs), the memory service, the interrupt controller (apic.rs) and the timer
-- (tsc.rs). An interrupt goes from arch/x86_64/src/interrupts/mod.rs through the handler registered
-- in crates/hal/src/interrupt.rs to kernel/src/interrupts.rs, and a tick on to kernel/src/time.rs.
--
-- Prelude: the shared names, native numbers as machine words, lists as arrays, bitwise lemmas.
-- Hal/Mmu: the types and the trait of crates/hal/src/mmu.rs. A function that takes a trait object
--   takes the record of its operations. Hal/Interrupt and Hal/Time have the frame of an interrupt,
--   the handler and the timer that are registered (crates/hal/src/interrupt.rs, time.rs), and
--   Hal/Serial the writer (serial.rs).
-- X86/Machine, X86/Run: the processor and the statics of arch/x86_64 as one state, and commands on
--   it that end well, with an error, or in a panic or a wild read (`fault`).
-- X86/Mmu: arch/x86_64/src/mmu.rs. Entry has the bits of an entry, Table the tables in memory
--   (`zero_frame`, `table_mut`, `ensure_table`), Page `map_4k`, `unmap_4k`, `protect_4k` and
--   `translate`. Walk is the specification: which table a path of indices leads to, which entry a
--   page has, and the invariant that the tables form a tree. Frames says what the code relies on of
--   the trait's implementation. Ensure and the modules below Page are about the operations.
--   Slots has the slots of address spaces, Features the no-execute bit and the flushes of the TLB,
--   Shootdown those that other processors are told of. Spaces has the kernel's own address space and
--   the making, use and end of the others. Requests has the abstract map from pages to frames with
--   flags, as a step relation on requests and answers, and the code's answers to them. Local says
--   what an operation on one address space may touch. System puts all address spaces together: the
--   calls that the kernel may make, the invariant (every space a tree of tables, none shared), and
--   the separate maps of pages that the calls promise, one for each address space.
-- X86/Msr, X86/Apic, X86/Cpuid, X86/Tsc: msr.rs, apic.rs, cpuid.rs and tsc.rs of arch/x86_64/src.
--   The answers of CPUID, and those of the interrupt controller to the delivery bit, are parameters.
-- X86/Descriptors: gdt.rs, tss.rs, idt.rs and `init_core` of lib.rs. Decode and Gates say what the
--   processor reads in a descriptor and in a gate. Addresses of statics and stubs are parameters,
--   and so is what stands in the padding of the task state segment.
-- X86/Serial: serial.rs, on ports whose answers are a parameter.
-- X86/Interrupts, X86/Start: interrupts/mod.rs, and the steps of lib.rs that start the platform.
-- Kernel: kernel/src. Interrupts and Time are interrupts.rs and time.rs, Vm the service of
--   svc/vm.rs over the allocator and mmu.rs (its System and Calls take the calls of
--   X86/Mmu/System to the service), Main `kmain`, with Kept and Clock about its steps. A panic is
--   `fault`, or no result.
--   Console has drivers/console, log/mod.rs and debug/early_serial.rs, BootLog what bootinfo.rs
--   prints, as pieces that the formatting of core, a parameter, turns into text, and Entry `kentry`
--   of main.rs.
-- Bootabi: the types of crates/bootabi/src/lib.rs.
-- Limine: crates/bootloader/limine/src/lib.rs. Memmap has the copy of the memory map and the search
--   in it, Strings the buffer of strings and their bounds, Info `gather_bootinfo`. The answers of the
--   crate `limine` and its constants are parameters, and the kernel's own buffers are apart from the
--   memory that the boot loader's strings lie in.
-- Vm: the allocator of kernel/src/svc/vm.rs. Map says what it relies on of the memory map, Rounds
--   and FromMap are about its loop, Alloc and Source about its operations, Start about `new`.
-- Tests: a small machine, memory map and boot loader, on which the theorems are applied.
--
-- Memory is a function from addresses to 64-bit words, read and written at 8-byte steps of the
-- direct map: a physical address is accessed at its sum with the offset, modulo 2^64. Addresses and
-- entries are natural numbers below 2^64, with the wrap-around written out. An overflow of `+` is
-- taken as a release build takes it, modulo 2^64. The loop of `next_from_map` runs on fuel, a round
-- for each entry that is left, which is enough since every round but the last moves to the next.
--
-- An address space below a limit on the root's indices (256 for user space, 512 for all of it) is
-- taken to be a tree: no frame is used as a table twice. A large page, which the code reads as a
-- table, is outside of this unless it happens to look like one.
--
-- `wait_delivered`, the loop of `send_ipi_all_others`, runs on fuel; any fuel above the number of
-- reads that find the interrupt pending is enough. `await_empty`, the loop of `com1_write`, runs on
-- fuel too; any fuel above the number of answers that say busy is enough.
--
-- A call of the memory management is permitted on an address space that exists, and on pages of its
-- own part: the lower half, or, for the kernel's, indices of the root below a parameter `top`. That
-- the boot loader's tables are a tree apart from the allocator's frames is a hypothesis.
--
-- Not modelled: the processor's own walk and its TLB, of which only the writes of registers and the
-- `invlpg` instructions are kept, as events; the lock around the allocator, whose calls are taken
-- one at a time; the lines that `kmain` and the panic handler print; the functions of gdt.rs and
-- lib.rs that only bundle others and that nothing calls; the stubs in assembly and those of
-- arch/aarch64.
pub mod Prelude
pub mod Hal
pub mod X86
pub mod Kernel
pub mod Bootabi
pub mod Limine
pub mod Vm
pub mod Tests
