-- ===== src/Exit/Dispatch.antt =====
-- What a read of the PAT through an exit does.
use spy.Base.{◌+◌, ◌%◌, ◌^◌, ◌≡◌, refl, arith, true, u32, ◌>>>◌}
use spy.Vmcs.{update, vmcs_read32}
use spy.Vmcs.Fields
use spy.Cpu.{
  PerCpu, rax, rcx, rdx, count, set_reg, set_rdmsr_value, write_field, skip_emulated_instruction,
}
use spy.Cpu.Consts
use spy.Vmx.{Vmx}
use spy.Vcpu.Msr.{handle_msr_read}
use spy.Exit.{World, goes_on, dispatch, handle_exit, handled_or_parks}

-- What a read of the PAT by the guest of `before` leaves in `after`: the value in EDX:EAX, the
-- instruction skipped, and the counters of exits.
pub record PatRead (before after : PerCpu) : Type 0 where
  pub low : after.guest_regs rax ≡ u32 before.pat
  pub high : after.guest_regs rdx ≡ before.pat >>> 32
  pub total :
      after.stats Consts.spy_cpu_stat_vmexits_total
      ≡ (before.stats Consts.spy_cpu_stat_vmexits_total + 1) % 2 ^ 32
  pub msr_other :
      after.stats Consts.spy_cpu_stat_vmexits_msr_other
      ≡ (before.stats Consts.spy_cpu_stat_vmexits_msr_other + 2) % 2 ^ 32
  pub pat : after.pat ≡ before.pat

-- The state after that exit.
abbrev pub pat_read : PerCpu → PerCpu
pat_read cpu = skip_emulated_instruction Consts.x86_inst_len_wrmsr (
    set_rdmsr_value cpu.pat (
      count Consts.spy_cpu_stat_vmexits_msr_other (
        count Consts.spy_cpu_stat_vmexits_msr_other (count Consts.spy_cpu_stat_vmexits_total cpu))))

pat_read-PatRead : (cpu : PerCpu) → PatRead cpu (pat_read cpu)
unfolding skip_emulated_instruction set_rdmsr_value set_reg count write_field update
pat_read-PatRead cpu = record {
  low = refl;
  high = refl;
  total = refl;
  msr_other = omega arith;
  pat = refl;
}

pat_read-handled :
    (w : World) (cpu : PerCpu)
    → cpu.guest_regs rcx ≡ Consts.msr_ia32_pat
    → handle_msr_read w.x2apic
        (count Consts.spy_cpu_stat_vmexits_msr_other (count Consts.spy_cpu_stat_vmexits_total cpu))
      ≡ (true, pat_read cpu)
unfolding handle_msr_read count
pat_read-handled w cpu h = rw h refl

-- Where a guest's read of MSR_IA32_PAT exits, the guest goes on with the cached PAT in EDX:EAX, and
-- this one exit adds two to the counter of MSR exits.
pat_read-exit :
    (w : World) (vmx : Vmx) (cpu : PerCpu)
    → u32 (cpu.vmcs.fields Fields.vm_exit_reason) ≡ Consts.exit_reason_msr_read
    → cpu.guest_regs rcx ≡ Consts.msr_ia32_pat
    → (handle_exit w vmx cpu ≡ goes_on (pat_read cpu)) × PatRead cpu (pat_read cpu)
unfolding handle_exit dispatch vmcs_read32 handled_or_parks
pat_read-exit w vmx cpu reason pat =
    (rw (reason, pat_read-handled w cpu pat) refl, pat_read-PatRead cpu)
