-- ===== src/Cpu.antt =====
-- The state of one CPU that the exit handlers share: parts of `struct per_cpu` of
-- hypervisor/arch/include/spy/percpu.h and asm/percpu.h, with the registers, feature bits and MSRs of
-- asm/processor.h.
pub mod Consts
use spy.Base.{ℕ, ◌+◌, ◌*◌, ◌/◌, ◌%◌, ◌^◌, Bool, ◌<<<◌, ◌>>>◌, bit_or, u32, u64}
use spy.Vmcs.{Vmcs, update, vmcs_read64, vmcs_write64}
use spy.Vmcs.Fields.{guest_rip}

-- `struct segment`
pub record Segment : Type 0 where
  pub base : ℕ
  pub limit : ℕ
  pub access_rights : ℕ
  pub selector : ℕ

-- `struct desc_table_reg`
pub record DescTableReg : Type 0 where
  pub limit : ℕ
  pub base : ℕ

-- `enum vmx_state`
pub data VmxState : Type 0 where
  vmxoff vmxon vmcs_ready : VmxState

-- The states of Linux for the handover.
pub record Linux : Type 0 where
  pub sp : ℕ
  pub ip : ℕ
  pub cr0 : ℕ
  pub cr3 : ℕ
  pub cr4 : ℕ
  pub efer : ℕ
  pub gdtr : DescTableReg
  pub idtr : DescTableReg
  pub cs : Segment
  pub ds : Segment
  pub es : Segment
  pub fs : Segment
  pub gs : Segment
  pub tss : Segment

-- `guest_regs` is `by_index` of `union registers`, `stats` the counters by number.
pub record PerCpu : Type 0 where
  pub guest_regs : ℕ → ℕ
  pub pat : ℕ
  pub mtrr_def_type : ℕ
  pub pdpte : ℕ → ℕ
  pub stats : ℕ → ℕ
  pub vmx_state : VmxState
  pub vmcs : Vmcs
  pub linux : Linux

-- Places of the named registers in `by_index`.
abbrev pub rax : ℕ
rax = 15

abbrev pub rcx : ℕ
rcx = 14

abbrev pub rdx : ℕ
rdx = 13

abbrev pub rbx : ℕ
rbx = 12

abbrev pub rsi : ℕ
rsi = 9

abbrev pub rdi : ℕ
rdi = 8

unfoldable pub set_reg : ℕ → ℕ → PerCpu → PerCpu
unfolding update
set_reg i val cpu = record cpu { guest_regs = update cpu.guest_regs i val }

-- `stats[n]++` on a 32-bit counter
unfoldable pub count : ℕ → PerCpu → PerCpu
unfolding update
count n cpu = record cpu { stats = update cpu.stats n (u32 (cpu.stats n + 1)) }

unfoldable pub set_rdmsr_value : ℕ → PerCpu → PerCpu
unfolding set_reg
set_rdmsr_value val cpu = set_reg rdx (val >>> 32) (set_reg rax (u32 val) cpu)

unfoldable pub get_wrmsr_value : PerCpu → ℕ
get_wrmsr_value cpu = bit_or (u32 (cpu.guest_regs rax)) (u64 (cpu.guest_regs rdx <<< 32))

-- A write to the VMCS of the CPU.
unfoldable pub write_field : ℕ → ℕ → PerCpu → PerCpu
unfolding vmcs_write64
write_field field val cpu = record cpu { vmcs = vmcs_write64 field val cpu.vmcs }

unfoldable pub skip_emulated_instruction : ℕ → PerCpu → PerCpu
unfolding write_field vmcs_read64
skip_emulated_instruction inst_len cpu =
    write_field guest_rip (u64 (vmcs_read64 guest_rip cpu.vmcs + inst_len)) cpu
