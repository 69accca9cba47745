-- ===== src/Vcpu/Msr.antt =====
-- MSR accesses and the reset of a CPU in vcpu.c: `vcpu_handle_msr_read`, `vcpu_handle_msr_write` and
-- `vcpu_reset`.
pub mod Cache
use spy.Base.{
  ℕ, zero, suc, ◌+◌, ◌-◌, ◌*◌, ◌/◌, ◌%◌, ◌^◌, bit_and, bit_or, not64, ◌>>>◌, ltb, leb, ◌==◌, Bool,
  true, false, not, ◌&&◌, ◌||◌, if◌then◌else◌, has,
}
use spy.Cpu.{PerCpu, rcx, count, set_rdmsr_value, get_wrmsr_value, skip_emulated_instruction}
use spy.Cpu.Consts
use spy.Vcpu.{set_guest_pat}
use spy.Vmcs.{Vmcs}
use spy.Vmx.{Vmx, TargetAddrs}
use spy.Vmx.Reset.{ResetConfig, vendor_reset}

-- The x2APIC code: what a read and a write do to the CPU, and whether a write succeeds.
pub record X2apic : Type 0 where
  pub handle_read : PerCpu → PerCpu
  pub handle_write : PerCpu → Bool × PerCpu

abbrev pub is_x2apic : ℕ → Bool
is_x2apic msr = leb Consts.msr_x2apic_base msr && leb msr Consts.msr_x2apic_end

-- The loop over the bytes of a PAT value from `bit_pos` on, with `left` to go: whether all are memory
-- types.
unfoldable pub pat_ok_from : ℕ → ℕ → ℕ → Bool
pat_ok_from zero bit_pos val = true
pat_ok_from (suc left) bit_pos val =
    let pa = bit_and (val >>> bit_pos) 0xff in
    let rest = pat_ok_from left (bit_pos + 8) val in
    if pa == 2 || pa == 3 || ltb 7 pa then false else rest

unfoldable pub write_pat : ℕ → PerCpu → Bool × PerCpu
unfolding set_guest_pat skip_emulated_instruction
write_pat val cpu =
    let stored : PerCpu = record cpu { pat = val } in
    if not (pat_ok_from 8 0 val) then (false, cpu) else (
      true,
      skip_emulated_instruction Consts.x86_inst_len_wrmsr
          (if has cpu.mtrr_def_type Consts.mtrr_enable then set_guest_pat val stored else stored),
    )

unfoldable pub write_mtrr : ℕ → PerCpu → Bool × PerCpu
unfolding set_guest_pat skip_emulated_instruction
write_mtrr val cpu =
    let mtrr =
      bit_or (bit_and cpu.mtrr_def_type (not64 Consts.mtrr_enable))
        (bit_and val Consts.mtrr_enable) in
    (
      true,
      skip_emulated_instruction Consts.x86_inst_len_wrmsr (
          set_guest_pat (if has val Consts.mtrr_enable then cpu.pat else 0)
            (record cpu { mtrr_def_type = mtrr })),
    )

module _ (x2apic : X2apic) where
  unfoldable pub handle_msr_read : PerCpu → Bool × PerCpu
  unfolding set_rdmsr_value count skip_emulated_instruction
  handle_msr_read cpu =
      let msr = cpu.guest_regs rcx in
      let counted = count Consts.spy_cpu_stat_vmexits_msr_other cpu in
      let skip = skip_emulated_instruction Consts.x86_inst_len_wrmsr in
      if is_x2apic msr
      then (true, skip (x2apic.handle_read cpu))
      else if msr == Consts.msr_ia32_pat
      then (true, skip (set_rdmsr_value cpu.pat counted))
      else if msr == Consts.msr_ia32_mtrr_def_type
      then (true, skip (set_rdmsr_value cpu.mtrr_def_type counted))
      else (false, cpu)

  unfoldable pub handle_msr_write : PerCpu → Bool × PerCpu
  unfolding write_pat write_mtrr get_wrmsr_value count skip_emulated_instruction
  handle_msr_write cpu =
      let msr = cpu.guest_regs rcx in
      let counted = count Consts.spy_cpu_stat_vmexits_msr_other cpu in
      let (fine, cpu') = x2apic.handle_write cpu in
      if is_x2apic msr
      then if fine
        then (true, skip_emulated_instruction Consts.x86_inst_len_wrmsr cpu')
        else (false, cpu')
      else if msr == Consts.msr_ia32_pat
      then write_pat (get_wrmsr_value cpu) counted
      else if msr == Consts.msr_ia32_mtrr_def_type
      then write_mtrr (get_wrmsr_value cpu) counted
      else (false, cpu)

-- `vcpu_reset`, with the `ok` of the vendor's part.
unfoldable pub vcpu_reset : Vmx → ResetConfig → TargetAddrs → ℕ → PerCpu → Bool × PerCpu
vcpu_reset vmx config target sipi_vector cpu =
    let (fine, vmcs) = vendor_reset vmx config target sipi_vector cpu.vmcs in
    let cleared : PerCpu = record cpu { vmcs = vmcs; guest_regs = λ _. 0 } in
    (
      fine,
      (if sipi_vector == config.apic_bsp_pseudo_sipi
          then set_guest_pat 0 (record cleared {
            pat = Consts.pat_reset_value;
            mtrr_def_type = bit_and cpu.mtrr_def_type (not64 Consts.mtrr_enable);
          })
          else cleared),
    )
