-- ===== src/Startup/Tests.antt =====
-- The start of a CPU at work: the table of interrupts, and a CPU taken over from Linux and given back.
use spy.Base.{ℕ, ◌≡◌, refl, arith, false, none}
use spy.Samples
use spy.Startup.{Handlers, Statics, arch_init_early, read_descriptor}
use spy.Startup.Early.{Gates, arch_init_early-Gates}
use spy.Startup.Cpu.{Registers, Start, HvTables, take_over, arch_cpu_restore}

abbrev handlers : Handlers
handlers = record {
  exception_entries = 0xfffffffff0001000;
  nmi_entry = 0xfffffffff0002000;
  irq_entry = 0xfffffffff0002010;
  apic_init = none;
  vcpu_early_init = none;
}

abbrev statics : Statics
statics = record { cache_line_size = 0; idt = λ i. 0 }

arch_init_early-Gates_example :
    ((arch_init_early handlers 0x800 statics).0 ≡ none)
    × Gates handlers statics.idt (arch_init_early handlers 0x800 statics).1.idt
arch_init_early-Gates_example =
    arch_init_early-Gates handlers 0x800 statics refl (omega arith) (omega arith) (omega arith)

cache_line : (arch_init_early handlers 0x800 statics).1.cache_line_size ≡ 64
unfolding arch_init_early
cache_line = refl

abbrev regs : Registers
regs = record {
  gdtr = Samples.table 0xfffffe0000001000;
  idtr = Samples.table 0xfffffe0000000000;
  tr = 0x40;
  cs = 0x10;
  ds = 0;
  es = 0;
  ss = 0x18;
  fs = 0;
  gs = 0;
  cr0 = 0x80050033;
  cr3 = 0x1000;
  cr4 = 0x20;
  msr = λ i. i;
}

-- The memory of Linux: each descriptor is one of 64-bit code, with the mark of a TSS that is busy.
abbrev linux_memory : ℕ → ℕ
linux_memory address = 0x00afbb000000ffff

code_segment :
    read_descriptor linux_memory 0x1000 (Samples.segment 0x10)
    ≡ record { base = 0; limit = 0xffffffff; access_rights = 0xa0bb; selector = 0x10 }
unfolding read_descriptor
code_segment = refl

abbrev start : Start
start = record {
  regs = regs;
  gdt = λ i. 0x8b0000000000;
  cpu = Samples.cpu;
  vmx = Samples.vmx;
  linux_reg = λ n. 0;
  initialized = false;
}

abbrev tables : HvTables
tables = record {
  gdt_base = 0x3000;
  idt_base = 0x4000;
  root_table_phys = 0x2000;
  apic_cpu_init = none;
}

-- The last descriptor of the table as the TSS of Linux: the start of the CPU accepts it, and the return
-- writes its upper half behind the table.
abbrev last : Start
last = take_over linux_memory tables start.gdt (record start { regs = record regs { tr = 0x78 } })

last_overruns : arch_cpu_restore linux_memory last ≡ none
unfolding arch_cpu_restore take_over
last_overruns = refl
