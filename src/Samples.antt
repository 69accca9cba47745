-- ===== src/Samples.antt =====
-- States, processors and devices at which the theorems on CPUs are applied.
use spy.Base.{ℕ, ◌+◌, ◌*◌, ◌^◌, true, false, ◌==◌, if◌then◌else◌}
use spy.Vmcs.{Vmcs}
use spy.Cpu.{Segment, DescTableReg, Linux, PerCpu, vmxoff}
use spy.Cpu.Consts
use spy.Vmx.{Vmx, TargetAddrs}
use spy.Vmx.Setup.{Host}
use spy.Vmx.Features.{CpuidRegs, Processor}
use spy.Vmx.Reset.{ResetConfig}
use spy.Vmx.Init.{Instructions}
use spy.Vcpu.Msr.{X2apic}
use spy.Vcpu.Access.{IoHandler, unhandled, Mmio, mmio_handled}
use spy.Exit.{World}

-- A VMCS with all fields, all zero but the given one.
abbrev pub vmcs_with : ℕ → ℕ → Vmcs
vmcs_with field val = record { fields = λ f. if f == field then val else 0; supported = λ f. true }

abbrev pub vmx : Vmx
vmx = record {
  cr_maybe1 = λ i. if i == 0 then 0xffffffff else 0x3727ff;
  cr_required1 = λ i. if i == 0 then 0x21 else 0x2000;
  secondary_exec_addon = 0;
}

abbrev pub target : TargetAddrs
target = record { io_bitmap_phys = 0x3a000000; ept_root_phys = 0x3a100000 }

abbrev pub segment : ℕ → Segment
segment selector = record { base = 0; limit = 0xfffff; access_rights = 0xa09b; selector = selector }

abbrev pub table : ℕ → DescTableReg
table base = record { limit = 0x7f; base = base }

abbrev pub linux : Linux
linux = record {
  sp = 0x8000;
  ip = 0xffffffff81000000;
  cr0 = 0x80050033;
  cr3 = 0x1000;
  cr4 = 0x20;
  efer = 0xd01;
  gdtr = table 0xfffffe0000001000;
  idtr = table 0xfffffe0000000000;
  cs = segment 0x10;
  ds = segment 0;
  es = segment 0;
  fs = segment 0;
  gs = segment 0;
  tss = segment 0x40;
}

-- A CPU with registers RCX and RAX, before VMX operation.
abbrev pub cpu_with : ℕ → ℕ → Vmcs → PerCpu
cpu_with c a vmcs = record {
  guest_regs = λ r. if r == 15 then a else if r == 14 then c else 0;
  pat = 0x0007040600070406;
  mtrr_def_type = 0;
  pdpte = λ n. 0;
  stats = λ n. 0;
  vmx_state = vmxoff;
  vmcs = vmcs;
  linux = linux;
}

abbrev pub cpu : PerCpu
cpu = cpu_with 0 1 (vmcs_with 0 0)

abbrev pub regs : CpuidRegs
regs = record { eax = 0xffffffff; ebx = 0xffffffff; ecx = 0xffffffff; edx = 0xffffffff }

-- A processor with all features.
abbrev pub processor : Processor
processor = record {
  read_msr = λ msr.
      if msr == Consts.msr_ia32_vmx_basic
      then 6 * 2 ^ 50 + 2 ^ 55
      else if msr == Consts.msr_ia32_vmx_true_procbased_ctls
      then 0
      else 0xffffffffffffffff;
  cpuid = λ function index. regs;
}

abbrev pub host : Host
host = record {
  read_msr = processor.read_msr;
  cr0 = 0x80010021;
  cr3 = 0x2000;
  cr4 = 0x2020;
  gdtr = table 0x3000;
  idtr = table 0x4000;
  stack_end = 0x5000;
  vmx_vmexit = 0x6000;
  msr_bitmap_phys = 0x7000;
  apic_access_page_phys = 0x8000;
}

abbrev pub config : ResetConfig
config = record { cpu_reset_address = 0xfffffff0; apic_bsp_pseudo_sipi = 0x100 }

abbrev pub instructions : Instructions
instructions = record { vmxon_ok = true; vmcs_clear_ok = true; vmcs_load_ok = true }

abbrev pub x2apic : X2apic
x2apic = record { handle_read = λ c. c; handle_write = λ c. (true, c) }

abbrev pub no_ports : IoHandler
no_ports port input size cpu = (unhandled, cpu)

-- Memory that reads as 5, with a two-byte instruction.
abbrev pub memory : Mmio
memory = record {
  parse = λ cpu is_write. record {
    inst_len = 2;
    access_size = 4;
    in_reg_num = 12;
    reg_preserve_mask = 0;
    out_val = 0;
  };
  handle_access = λ access cpu. (mmio_handled, (5, cpu));
}

abbrev pub world : World
world = record {
  check_events = λ cpu. cpu;
  nmi = λ cpu. cpu;
  apic_mmio_access = λ reg is_write cpu. (2, cpu);
  x2apic = x2apic;
  hypercall = λ code arg1 arg2 cpu. (0, cpu);
  pci_config = no_ports;
  i8042 = no_ports;
  mmio = memory;
  cpuid = processor.cpuid;
  is_root = false;
}
