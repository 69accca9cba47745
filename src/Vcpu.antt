-- ===== src/Vcpu.antt =====
-- The exit handlers of hypervisor/arch/x86/vcpu.c, with the accessors of vmx.c that they call. A
-- handler takes the state of the CPU to its result and the state afterwards.
pub mod Msr
pub mod Cpuid
pub mod Hypercall
pub mod Guest
pub mod Access
mod Tests
use spy.Base.{ℕ, bit_or, bit_and, u16}
use spy.Vmcs.{Vmcs, vmcs_read32, vmcs_read64}
use spy.Vmcs.Fields
use spy.Cpu.{PerCpu, write_field}

unfoldable pub set_guest_pat : ℕ → PerCpu → PerCpu
unfolding write_field
set_guest_pat val cpu = write_field Fields.guest_ia32_pat val cpu

unfoldable pub get_efer : PerCpu → ℕ
unfolding vmcs_read64
get_efer cpu = vmcs_read64 Fields.guest_ia32_efer cpu.vmcs

unfoldable pub get_rflags : PerCpu → ℕ
unfolding vmcs_read64
get_rflags cpu = vmcs_read64 Fields.guest_rflags cpu.vmcs

unfoldable pub get_rip : PerCpu → ℕ
unfolding vmcs_read64
get_rip cpu = vmcs_read64 Fields.guest_rip cpu.vmcs

unfoldable pub get_cs_attr : PerCpu → ℕ
unfolding vmcs_read32
get_cs_attr cpu = u16 (vmcs_read32 Fields.guest_cs_ar_bytes cpu.vmcs)
