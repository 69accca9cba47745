-- ===== src/Lib.antt =====
-- A model of the spy hypervisor for x86: one CPU that runs Linux or another target as a guest, the
-- tables of its memory, ports and interrupts, and the exits through which a guest enters the
-- hypervisor. All paths are from the root of the repository.
--
-- The parts and how they interact:
--   Paging, for hypervisor/arch/x86/paging.c and asm/paging.h: the entries of page tables. A
--     `PagingMode` of the source is a level's functions here: `x86_64_set_terminal_l2` sets an
--     entry of 2 MB, `x86_64_get_phys_l2` reads an address from it. Tables are lists of entries.
--   Vmcs, for the accessors of hypervisor/arch/x86/vmx.c and the encodings of asm/vmx.h: a map
--     from fields to values with the set of fields that the processor has. A run `ok &=
--     vmcs_write64(...)` of the source is a list of writes, in the order of the source;
--     `vmcs_writes` carries it out and `vmcs_writes_ok` is the final `ok`.
--   Cpu, for `struct per_cpu`: the registers of a guest, counters, memory types and the states of
--     Linux; its constants are those of asm/processor.h.
--   Vmx, for the rest of vmx.c: Features checks a processor (`vmx_check_features`), Init enters
--     and leaves VMX operation (`vcpu_init`, `vcpu_exit`, `vcpu_deactivate_vmm`), Setup fills a
--     VMCS (`vmcs_setup`), Cr sets control registers (`vmx_set_guest_cr`), Reset starts a CPU
--     again (`vcpu_vendor_reset`, `vcpu_park`), MsrBitmap is the bitmap of MSRs whose accesses
--     exit.
--   Vcpu, for hypervisor/arch/x86/vcpu.c: Msr, Cpuid, Hypercall and Access are the handlers of
--     those exits, Guest finds the paging mode of a guest (`vcpu_get_guest_paging_structs`).
--   Exit, for `vcpu_handle_exit` and the handlers of vmx.c that it calls. It calls the handlers
--     of Vcpu and the setters of Vmx.
--   Pio, for `vcpu_target_init`, `vcpu_target_exit` and `pio_allow_access` of vcpu.c: the bitmaps
--     of the ports of the root target and of another.
--   Startup, for hypervisor/arch/x86/setup.c: the interrupt gates (`arch_init_early`), and in
--     Startup/Cpu the start of a CPU and its return to Linux (`arch_cpu_init`,
--     `arch_cpu_restore`), which call `vcpu_init` and `vcpu_exit` of Vmx.
--   Spinlock, for asm/spinlock.h: the ticket lock as a step relation of the CPUs that take and
--     release it.
--   Vtd, for hypervisor/arch/x86/vtd.c: Setup is `vtd_init`, with the root target (Setup/Init);
--     Queue is the invalidation queue of a unit and its requests, Remap the table that remaps
--     interrupts, with its search, reservation, release, update and `iommu_map_interrupt`,
--     Context the tables that give a PCI device the memory of its target (`iommu_add_pci_device`,
--     `iommu_remove_pci_device`), Emulation the unit that Linux sees (`vtd_unit_access_handler`),
--     which calls `iommu_map_interrupt` of Remap, Commands what the driver writes to a unit
--     (`vtd_init_unit`, `vtd_restore_ir`), and Commands/Driver that of all units
--     (`iommu_config_commit`, `iommu_prepare_shutdown`), where Commands/Status reads from the
--     list of the writes which tables and which queue a unit uses; Registers are the registers
--     that it writes.
--   Regions, for `vcpu_map_memory_region` and its like of vmx.c and `iommu_map_memory_region` and
--     its like of vtd.c: what the core's paging is asked for.
--   Tools, for tools/spy.c, tools/functions, lib/string.c and `spy_ioctl` of module/device.c: the
--     hash of a command and the parse of a target, and in Tools/Program which calls of `ioctl` a
--     command line makes. A request has the number that the tool gives; what Linux passes on of
--     it is its low 32 bits, and the driver's table of operations does not name `spy_ioctl`. A
--     call there ends the program, returns, or is undefined in C.
--   Bitops, for bitops.h. Base holds lemmas on numbers, bits and lists. Samples holds states at
--     which the theorems on CPUs are applied.
--
-- State and numbers. A function of the source that changes memory is a function from the state
-- before to the result and the state after. Numbers are natural numbers; the wrap of a 16, 32 or
-- 64-bit integer is written out with `u16`, `u32`, `u64` and `not64`. A negative errno is a value
-- of `Errno`. The per-CPU data, the VMCS and the static variables of vmx.c are records; nothing
-- else refers to them, so no aliasing is lost.
--
-- Loops. The loops over tables, ports, regions and the bytes of a PAT go over lists or over a
-- number that gives how many rounds are left, which is the bound in the source. Four loops without
-- a bound wait for a unit: for the end of a request, for the confirmation of a command, at the
-- start for its head to reach its tail, and at the shutdown for its head to be where Linux had it.
-- The answers are a stream or a function of what the unit has seen, of which a call follows as many
-- as `polls` says; at the shutdown 256 rounds are enough. Where none of them reports the end, the
-- model returns `none`, a call that still waits. The loop over the queue of Linux has a number of
-- rounds; 256 are enough, since a page has 256 entries. The search for a power of two has 64
-- rounds, one for each shift that the type has room for. The ticket lock has no fuel: its steps are
-- taken one by one.
--
-- Parameters. Files that the repository does not hold are parameters: the APIC and x2APIC, the
-- hypercalls of the core, events and NMIs, the PCI configuration ports, the i8042, the parser of
-- instructions, the pool of pages, the pages of a guest, ivshmem, `paging_create` and
-- `paging_destroy`, the pins of IOAPICs and the macros that split a PCI address. So are the results
-- of the VMX instructions and of CPUID, the MSRs of a processor, the registers of a unit at the
-- start, and for the tool its files, `ioctl`, `strtoll` and whether a store through a pointer that
-- is not set goes unnoticed. The update of a vector of ivshmem is taken to change the memory of
-- guests alone.
--
-- Not modelled: messages, the stack of a CPU, page allocation, assembly, the report of pending
-- faults of vtd.c, which prints and clears records, `vcpu_activate_vmm` and
-- `arch_cpu_activate_vmm`, the registration of the kernel module, the listing of targets and the
-- check of the hardware.
pub mod Base
pub mod Bitops
pub mod Cpu
pub mod Exit
pub mod Paging
pub mod Pio
pub mod Regions
pub mod Samples
pub mod Spinlock
pub mod Startup
pub mod Tools
pub mod Vcpu
pub mod Vmcs
pub mod Vmx
pub mod Vtd
