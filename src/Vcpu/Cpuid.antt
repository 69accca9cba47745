-- ===== src/Vcpu/Cpuid.antt =====
-- `vcpu_handle_cpuid` of vcpu.c.
pub mod Filter
use spy.Base.{
  ℕ, ◌+◌, ◌-◌, ◌*◌, ◌/◌, ◌%◌, ◌^◌, bit_and, bit_or, not64, u32, ◌==◌, ltb, Bool, true, false,
  if◌then◌else◌, has,
}
use spy.Cpu.{PerCpu, rax, rbx, rcx, rdx, set_reg, count, skip_emulated_instruction}
use spy.Cpu.Consts
use spy.Vmx.{Vmx}
use spy.Vmx.Cr.{get_guest_cr4}
use spy.Vmx.Features.{CpuidRegs}

-- An `int` as it is joined to an `unsigned long`: the sign fills the high half.
abbrev pub sign_extend : ℕ → ℕ
sign_extend x = if ltb x (2 ^ 31) then x else x + (2 ^ 64 - 2 ^ 32)

-- The first 12 bytes of `signature`, "Spy" and zeros, as three 32-bit numbers.
abbrev pub signature : ℕ
signature = 0x797053

unfoldable pub set_all : ℕ → ℕ → ℕ → ℕ → PerCpu → PerCpu
unfolding set_reg
set_all a b c d cpu = set_reg rdx d (set_reg rcx c (set_reg rbx b (set_reg rax a cpu)))

-- The ECX of leaf 0x01, and of leaf 0x80000001, as it is passed on.
unfoldable pub leaf1_rcx : Bool → ℕ → ℕ → ℕ
leaf1_rcx is_root cr4 c =
    let c1 =
      if is_root
      then c
      else bit_or (bit_and c (not64 Consts.x86_feature_vmx))
          (sign_extend Consts.x86_feature_hypervisor) in
    let c2 = bit_and c1 (not64 Consts.x86_feature_osxsave) in
    if has cr4 Consts.x86_cr4_osxsave then bit_or c2 Consts.x86_feature_osxsave else c2

unfoldable pub ext_rcx : Bool → ℕ → ℕ
ext_rcx is_root c = if is_root then c else bit_and c (not64 Consts.x86_feature_svm)

-- RCX for the leaf.
unfoldable pub filter_rcx : Bool → ℕ → ℕ → ℕ → ℕ
unfolding leaf1_rcx ext_rcx
filter_rcx is_root cr4 function c =
    if function == 0x01
    then leaf1_rcx is_root cr4 c
    else if function == 0x80000001
    then ext_rcx is_root c
    else c

-- The switch over the leaf. `cpuid` is the instruction, from the low halves of RAX and RCX; it writes
-- the low halves of four registers, whose high halves are cleared.
unfoldable pub answer : (ℕ → ℕ → CpuidRegs) → Bool → ℕ → ℕ → PerCpu → PerCpu
unfolding set_all filter_rcx
answer cpuid is_root cr4 function cpu =
    let regs = cpuid function (u32 (cpu.guest_regs rcx)) in
    if function == Consts.spy_cpuid_signature
    then set_all Consts.spy_cpuid_features signature 0 0 cpu
    else if function == Consts.spy_cpuid_features
    then set_all 0 0 0 0 cpu
    else set_all (u32 regs.eax) (u32 regs.ebx) (filter_rcx is_root cr4 function (u32 regs.ecx))
        (u32 regs.edx) cpu

unfoldable pub handle_cpuid : (ℕ → ℕ → CpuidRegs) → Bool → Vmx → PerCpu → PerCpu
unfolding count answer get_guest_cr4 skip_emulated_instruction
handle_cpuid cpuid is_root vmx cpu = skip_emulated_instruction Consts.x86_inst_len_cpuid (
    answer cpuid is_root (get_guest_cr4 vmx cpu.vmcs) (u32 (cpu.guest_regs rax))
      (count Consts.spy_cpu_stat_vmexits_cpuid cpu))
