-- ===== src/Vcpu/Hypercall.antt =====
-- `vcpu_handle_hypercall` of vcpu.c.
pub mod Privilege
use spy.Base.{
  ℕ, ◌+◌, ◌-◌, ◌*◌, ◌/◌, ◌%◌, ◌^◌, bit_and, bit_or, ◌==◌, Bool, true, false, not, ◌&&◌, ◌||◌,
  if◌then◌else◌, has,
}
use spy.Cpu.{PerCpu, rax, rdi, rsi, set_reg, skip_emulated_instruction}
use spy.Cpu.Consts
use spy.Vcpu.{get_efer, get_rflags, get_cs_attr}
use spy.Vmx.Init.{deactivate_vmm}

-- The core's `hypercall`: code and arguments, to its result, as 64 bits, and the state afterwards.
abbrev pub Hypercalls : Type 0
Hypercalls = ℕ → ℕ → ℕ → PerCpu → ℕ × PerCpu

-- The guest goes on, or the hypervisor leaves the CPU and Linux goes on natively, with its stack and
-- its return address.
pub data Next : Type 0 where
  resumed : PerCpu → Next
  deactivated : PerCpu × (ℕ × ℕ) → Next

-- `-EPERM` as an unsigned long
abbrev pub minus_eperm : ℕ
minus_eperm = 2 ^ 64 - 1

unfoldable pub long_mode : PerCpu → Bool
unfolding get_efer get_cs_attr
long_mode cpu = has (get_efer cpu) Consts.efer_lma && has (get_cs_attr cpu) Consts.vcpu_cs_l

-- The caller is in virtual-8086 mode, or not in ring 0.
unfoldable pub unprivileged : PerCpu → Bool
unfolding long_mode get_rflags get_cs_attr
unprivileged cpu =
    (not (long_mode cpu) && has (get_rflags cpu) Consts.x86_rflags_vm)
    || has (get_cs_attr cpu) Consts.vcpu_cs_dpl_mask

unfoldable pub arg_mask : PerCpu → ℕ
unfolding long_mode
arg_mask cpu = if long_mode cpu then 0xffffffffffffffff else 0xffffffff

unfoldable pub handle_hypercall : Hypercalls → PerCpu → Next
handle_hypercall hypercall cpu =
    let code = cpu.guest_regs rax in
    let mask = arg_mask cpu in
    let skipped = skip_emulated_instruction Consts.x86_inst_len_hypercall cpu in
    let (result, after) =
      hypercall code (bit_and (cpu.guest_regs rdi) mask) (bit_and (cpu.guest_regs rsi) mask)
        skipped in
    let done = set_reg rax result after in
    if unprivileged cpu
    then resumed (set_reg rax minus_eperm skipped)
    else if code == Consts.spy_hc_disable && result == 0
    then deactivated (deactivate_vmm done)
    else resumed done
