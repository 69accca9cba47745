-- ===== src/Exit.antt =====
-- The exits of a guest in hypervisor/arch/x86/vmx.c: the `vmx_handle_*` functions, `update_efer` and
-- `vcpu_handle_exit`.
pub mod Mode
pub mod Dispatch
mod Tests
use spy.Base.{
  ℕ, ◌+◌, ◌-◌, ◌*◌, ◌/◌, ◌%◌, ◌^◌, bit_and, bit_or, bit_mask, not64, not32, u32, ◌>>>◌, ◌==◌, Bool,
  true, false, not, ◌&&◌, ◌||◌, if◌then◌else◌, has, Option, none, some,
}
use spy.Vmcs.{Vmcs, vmcs_read32, vmcs_read64, vmcs_write32}
use spy.Vmcs.Fields
use spy.Cpu.{PerCpu, rax, rcx, rdx, count, write_field, skip_emulated_instruction}
use spy.Cpu.Consts
use spy.Vmx.{Vmx, cr0_idx, cr4_idx}
use spy.Vmx.Cr.{set_guest_cr, get_guest_cr4}
use spy.Vmx.Features.{CpuidRegs}
use spy.Vmx.Reset.{preemption_timer_set_enable}
use spy.Vcpu.Msr.{X2apic, handle_msr_read, handle_msr_write}
use spy.Vcpu.Cpuid.{handle_cpuid}
use spy.Vcpu.Hypercall.{Hypercalls, Next, resumed, deactivated, handle_hypercall}
use spy.Vcpu.Guest.{cache_pdptes}
use spy.Vcpu.Access.{IoHandler, Mmio, handle_io_access, handle_mmio_access}

-- What the other files supply to the exits of a CPU: its events and NMIs, the APIC, the calls and the
-- devices, CPUID and the bits that XCR0 may have.
pub record World : Type 0 where
  pub check_events : PerCpu → PerCpu
  pub nmi : PerCpu → PerCpu
  pub apic_mmio_access : ℕ → Bool → PerCpu → ℕ × PerCpu
  pub x2apic : X2apic
  pub hypercall : Hypercalls
  pub pci_config : IoHandler
  pub i8042 : IoHandler
  pub mmio : Mmio
  pub cpuid : ℕ → ℕ → CpuidRegs
  pub is_root : Bool

unfoldable pub check_events : World → PerCpu → PerCpu
unfolding preemption_timer_set_enable
check_events w cpu =
    w.check_events (record cpu { vmcs = preemption_timer_set_enable false cpu.vmcs })

-- An exception other than an NMI is injected again at once.
unfoldable pub reinject : ℕ → PerCpu → PerCpu
unfolding write_field vmcs_read32
reinject intr_info cpu =
    write_field Fields.vm_entry_exception_error_code
      (vmcs_read32 Fields.vm_exit_intr_error_code cpu.vmcs)
      (write_field Fields.vm_entry_intr_info_field
        (u32 (bit_and intr_info Consts.intr_to_vectoring_info_mask)) cpu)

unfoldable pub handle_exception_nmi : World → PerCpu → PerCpu
unfolding count reinject check_events vmcs_read32
handle_exception_nmi w cpu =
    let intr_info = vmcs_read32 Fields.vm_exit_intr_info cpu.vmcs in
    check_events w (
      if bit_and intr_info Consts.intr_info_intr_type_mask == Consts.intr_type_nmi_intr
      then w.nmi (count Consts.spy_cpu_stat_vmexits_management cpu)
      else reinject intr_info (count Consts.spy_cpu_stat_vmexits_exception cpu))

abbrev pub efer_lme_lma : ℕ
efer_lme_lma = bit_or Consts.efer_lme Consts.efer_lma

unfoldable pub update_efer : PerCpu → PerCpu
unfolding write_field vmcs_read32 vmcs_read64
update_efer cpu =
    let efer = vmcs_read64 Fields.guest_ia32_efer cpu.vmcs in
    let active = write_field Fields.guest_ia32_efer (bit_or efer Consts.efer_lma) cpu in
    if not (bit_and efer efer_lme_lma == Consts.efer_lme)
    then cpu
    else write_field Fields.vm_entry_controls
        (u32 (bit_or (vmcs_read32 Fields.vm_entry_controls active.vmcs) Consts.vm_entry_ia32e_mode))
        active

-- The value that a move to a control register takes from register `reg`.
unfoldable pub cr_operand : ℕ → PerCpu → ℕ
unfolding vmcs_read64
cr_operand reg cpu =
    if reg == 4 then vmcs_read64 Fields.guest_rsp cpu.vmcs else cpu.guest_regs (15 - reg)

unfoldable pub write_cr : Vmx → ℕ → ℕ → PerCpu → PerCpu
write_cr vmx cr val cpu =
    let skipped = skip_emulated_instruction Consts.x86_inst_len_mov_to_cr cpu in
    let cpu' : PerCpu = record skipped {
      vmcs = set_guest_cr vmx (if cr == 0 then cr0_idx else cr4_idx) val skipped.vmcs;
    } in
    if cr == 0 && has val Consts.x86_cr0_pg then update_efer cpu' else cpu'

unfoldable pub handle_cr : Vmx → PerCpu → Bool × PerCpu
unfolding cr_operand vmcs_read64
handle_cr vmx cpu =
    let exit_qualification = vmcs_read64 Fields.exit_qualification cpu.vmcs in
    let cr = bit_and exit_qualification 0xf in
    let reg = bit_and (exit_qualification >>> 8) 0xf in
    if bit_and (exit_qualification >>> 4) 3 == 0 && (cr == 0 || cr == 4)
    then (true, write_cr vmx cr (cr_operand reg cpu) cpu)
    else (false, cpu)

unfoldable pub handle_apic_access : World → PerCpu → Bool × PerCpu
unfolding vmcs_read64 cache_pdptes skip_emulated_instruction
handle_apic_access w cpu =
    let qualification = vmcs_read64 Fields.exit_qualification cpu.vmcs in
    let kind = bit_and qualification Consts.apic_access_type_mask in
    let is_write = has qualification Consts.apic_access_type_linear_write in
    let offset = bit_and qualification Consts.apic_access_offset_mask in
    let (inst_len, after) = w.apic_mmio_access (offset >>> 4) is_write (cache_pdptes cpu) in
    if not
      (kind == Consts.apic_access_type_linear_read || kind == Consts.apic_access_type_linear_write)
    then (false, cpu)
    else if has offset 0x00f
    then (false, cpu)
    else if inst_len == 0
    then (false, after)
    else (true, skip_emulated_instruction inst_len after)

-- `xsetbv` with RAX is carried out on the real CPU where the result is `true`.
unfoldable pub handle_xsetbv : World → Vmx → PerCpu → Bool × PerCpu
unfolding get_guest_cr4 skip_emulated_instruction
handle_xsetbv w vmx cpu =
    let val = cpu.guest_regs rax in
    if has (get_guest_cr4 vmx cpu.vmcs) Consts.x86_cr4_osxsave
      && has val Consts.x86_xcr0_fp
      && bit_and val (not32 (u32 (w.cpuid 0x0d 0).eax)) == 0
      && cpu.guest_regs rcx == 0
      && cpu.guest_regs rdx == 0
    then (true, skip_emulated_instruction Consts.x86_inst_len_xsetbv cpu)
    else (false, cpu)

-- How an exit ends: the guest goes on, the hypervisor leaves the CPU, or the CPU is parked.
pub data ExitEnd : Type 0 where
  goes_on : PerCpu → ExitEnd
  leaves : PerCpu × (ℕ × ℕ) → ExitEnd
  parks : PerCpu → ExitEnd

unfoldable pub handled_or_parks : Bool × PerCpu → ExitEnd
handled_or_parks (true, cpu) = goes_on cpu
handled_or_parks (false, cpu) = parks cpu

unfoldable pub end_of : Next → ExitEnd
end_of (resumed cpu) = goes_on cpu
end_of (deactivated end) = leaves end

unfoldable pub handle_msr_write_exit : World → PerCpu → ExitEnd
handle_msr_write_exit w cpu =
    if cpu.guest_regs rcx == Consts.msr_ia32_perf_global_ctrl
    then goes_on (
        skip_emulated_instruction Consts.x86_inst_len_wrmsr
          (count Consts.spy_cpu_stat_vmexits_msr_other cpu))
    else handled_or_parks (handle_msr_write w.x2apic cpu)

-- The switch over the reason.
unfoldable pub dispatch : World → Vmx → ℕ → PerCpu → ExitEnd
dispatch w vmx reason cpu =
    if reason == Consts.exit_reason_exception_nmi
    then goes_on (handle_exception_nmi w cpu)
    else if reason == Consts.exit_reason_preemption_timer
    then goes_on (check_events w (count Consts.spy_cpu_stat_vmexits_management cpu))
    else if reason == Consts.exit_reason_cpuid
    then goes_on (handle_cpuid w.cpuid w.is_root vmx cpu)
    else if reason == Consts.exit_reason_vmcall
    then end_of (handle_hypercall w.hypercall cpu)
    else if reason == Consts.exit_reason_cr_access
    then handled_or_parks (handle_cr vmx (count Consts.spy_cpu_stat_vmexits_cr cpu))
    else if reason == Consts.exit_reason_msr_read
    then handled_or_parks
        (handle_msr_read w.x2apic (count Consts.spy_cpu_stat_vmexits_msr_other cpu))
    else if reason == Consts.exit_reason_msr_write
    then handle_msr_write_exit w cpu
    else if reason == Consts.exit_reason_apic_access
    then handled_or_parks (handle_apic_access w (count Consts.spy_cpu_stat_vmexits_xapic cpu))
    else if reason == Consts.exit_reason_xsetbv
    then handled_or_parks (handle_xsetbv w vmx (count Consts.spy_cpu_stat_vmexits_xsetbv cpu))
    else if reason == Consts.exit_reason_io_instruction
    then handled_or_parks
        (handle_io_access w.pci_config w.i8042 (count Consts.spy_cpu_stat_vmexits_pio cpu))
    else if reason == Consts.exit_reason_ept_violation
    then handled_or_parks (handle_mmio_access w.mmio (count Consts.spy_cpu_stat_vmexits_mmio cpu))
    else parks cpu

unfoldable pub handle_exit : World → Vmx → PerCpu → ExitEnd
unfolding vmcs_read32
handle_exit w vmx cpu =
    dispatch w vmx (vmcs_read32 Fields.vm_exit_reason cpu.vmcs)
      (count Consts.spy_cpu_stat_vmexits_total cpu)
