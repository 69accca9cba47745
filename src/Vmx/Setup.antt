-- ===== src/Vmx/Setup.antt =====
-- `vmcs_setup` of vmx.c: the VMCS with which Linux goes on as a guest.
pub mod Laws
use spy.Base.{
  ℕ, ◌+◌, ◌-◌, ◌*◌, ◌/◌, ◌%◌, ◌^◌, List, [], ◌∷◌, ◌++◌, bit_and, bit_or, not64, u32, u64, ◌<<<◌,
  Bool,
}
use spy.Vmcs.{Vmcs, Write, write16, write32, write64, vmcs_writes, vmcs_writes_ok}
use spy.Vmcs.Fields
use spy.Cpu.{Segment, DescTableReg, PerCpu}
use spy.Cpu.Consts
use spy.Vmx.{Vmx, TargetAddrs, cr0_idx, cr4_idx, target_config_writes, guest_segment_writes}
use spy.Vmx.Cr.{guest_cr_writes}

-- What the processor and the linker supply: MSRs, control registers and tables of the host, and
-- addresses.
pub record Host : Type 0 where
  pub read_msr : ℕ → ℕ
  pub cr0 : ℕ
  pub cr3 : ℕ
  pub cr4 : ℕ
  pub gdtr : DescTableReg
  pub idtr : DescTableReg
  pub stack_end : ℕ
  pub vmx_vmexit : ℕ
  pub msr_bitmap_phys : ℕ
  pub apic_access_page_phys : ℕ

abbrev pub invalid_seg : Segment
invalid_seg = record { base = 0; limit = 0; access_rights = 0x10000; selector = 0 }

-- `NUM_ENTRY_REGS`
abbrev pub num_entry_regs : ℕ
num_entry_regs = 6

unfoldable pub host_writes : Host → List Write
host_writes host =
    write64 Fields.host_cr0 host.cr0
    ∷ write64 Fields.host_cr3 host.cr3
    ∷ write64 Fields.host_cr4 host.cr4
    ∷ write16 Fields.host_cs_selector (Consts.gdt_desc_code * 8)
    ∷ write16 Fields.host_ds_selector 0
    ∷ write16 Fields.host_es_selector 0
    ∷ write16 Fields.host_ss_selector 0
    ∷ write16 Fields.host_fs_selector 0
    ∷ write16 Fields.host_gs_selector 0
    ∷ write16 Fields.host_tr_selector (Consts.gdt_desc_tss * 8)
    ∷ write64 Fields.host_fs_base 0
    ∷ write64 Fields.host_gs_base (host.read_msr Consts.msr_gs_base)
    ∷ write64 Fields.host_tr_base 0
    ∷ write64 Fields.host_gdtr_base host.gdtr.base
    ∷ write64 Fields.host_idtr_base host.idtr.base
    ∷ write64 Fields.host_ia32_pat (host.read_msr Consts.msr_ia32_pat)
    ∷ write64 Fields.host_ia32_efer (bit_or Consts.efer_lma Consts.efer_lme)
    ∷ write32 Fields.host_ia32_sysenter_cs 0
    ∷ write64 Fields.host_ia32_sysenter_eip 0
    ∷ write64 Fields.host_ia32_sysenter_esp 0
    ∷ write64 Fields.host_rsp host.stack_end
    ∷ write64 Fields.host_rip host.vmx_vmexit
    ∷ []

unfoldable pub guest_writes : Host → PerCpu → List Write
unfolding guest_segment_writes
guest_writes host cpu =
    (write64 Fields.guest_cr3 cpu.linux.cr3 ∷ [])
    ++ guest_segment_writes cpu.linux.cs Fields.guest_cs_selector
    ++ guest_segment_writes cpu.linux.ds Fields.guest_ds_selector
    ++ guest_segment_writes cpu.linux.es Fields.guest_es_selector
    ++ guest_segment_writes cpu.linux.fs Fields.guest_fs_selector
    ++ guest_segment_writes cpu.linux.gs Fields.guest_gs_selector
    ++ guest_segment_writes invalid_seg Fields.guest_ss_selector
    ++ guest_segment_writes cpu.linux.tss Fields.guest_tr_selector
    ++ guest_segment_writes invalid_seg Fields.guest_ldtr_selector
    ++ (write64 Fields.guest_gdtr_base cpu.linux.gdtr.base
        ∷ write32 Fields.guest_gdtr_limit cpu.linux.gdtr.limit
        ∷ write64 Fields.guest_idtr_base cpu.linux.idtr.base
        ∷ write32 Fields.guest_idtr_limit cpu.linux.idtr.limit
        ∷ write64 Fields.guest_rflags 0x02
        ∷ write64 Fields.guest_rsp (u64 (cpu.linux.sp + (num_entry_regs + 1) * 8))
        ∷ write64 Fields.guest_rip cpu.linux.ip
        ∷ write32 Fields.guest_sysenter_cs (host.read_msr Consts.msr_ia32_sysenter_cs)
        ∷ write64 Fields.guest_sysenter_eip (host.read_msr Consts.msr_ia32_sysenter_eip)
        ∷ write64 Fields.guest_sysenter_esp (host.read_msr Consts.msr_ia32_sysenter_esp)
        ∷ write64 Fields.guest_dr7 0x00000400
        ∷ write64 Fields.guest_ia32_debugctl 0
        ∷ write32 Fields.guest_activity_state Consts.guest_activity_active
        ∷ write32 Fields.guest_interruptibility_info 0
        ∷ write64 Fields.guest_pending_dbg_exceptions 0
        ∷ write64 Fields.guest_ia32_pat cpu.pat
        ∷ write64 Fields.guest_ia32_efer cpu.linux.efer
        ∷ write64 Fields.vmcs_link_pointer 0xffffffffffffffff
        ∷ write32 Fields.vm_entry_intr_info_field 0
        ∷ [])

-- The controls: MSR values with the bits that the hypervisor needs.
unfoldable pub pin_based_control : Host → ℕ
pin_based_control host =
    bit_or (host.read_msr Consts.msr_ia32_vmx_pinbased_ctls) Consts.pin_based_nmi_exiting

unfoldable pub cpu_based_control : Host → ℕ
cpu_based_control host =
    bit_and
      (bit_or (host.read_msr Consts.msr_ia32_vmx_procbased_ctls) (
        bit_or (bit_or Consts.cpu_based_use_io_bitmaps Consts.cpu_based_use_msr_bitmaps)
          Consts.cpu_based_activate_secondary_controls))
      (not64 (bit_or Consts.cpu_based_cr3_load_exiting Consts.cpu_based_cr3_store_exiting))

unfoldable pub secondary_control : Vmx → Host → ℕ
secondary_control vmx host = bit_or (host.read_msr Consts.msr_ia32_vmx_procbased_ctls2) (
    bit_or
      (bit_or
        (bit_or Consts.secondary_exec_virtualize_apic_accesses Consts.secondary_exec_enable_ept)
        Consts.secondary_exec_unrestricted_guest)
      vmx.secondary_exec_addon)

unfoldable pub exit_controls : Host → ℕ
exit_controls host = bit_or (host.read_msr Consts.msr_ia32_vmx_exit_ctls) (
    bit_or
      (bit_or
        (bit_or (bit_or Consts.vm_exit_host_addr_space_size Consts.vm_exit_save_ia32_pat)
          Consts.vm_exit_load_ia32_pat)
        Consts.vm_exit_save_ia32_efer)
      Consts.vm_exit_load_ia32_efer)

unfoldable pub entry_controls : Host → ℕ
entry_controls host = bit_or (host.read_msr Consts.msr_ia32_vmx_entry_ctls) (
    bit_or (bit_or Consts.vm_entry_ia32e_mode Consts.vm_entry_load_ia32_pat)
      Consts.vm_entry_load_ia32_efer)

unfoldable pub control_writes : Vmx → Host → TargetAddrs → List Write
unfolding pin_based_control cpu_based_control secondary_control exit_controls entry_controls
    target_config_writes
control_writes vmx host target =
    (write32 Fields.pin_based_vm_exec_control (pin_based_control host)
      ∷ write32 Fields.vmx_preemption_timer_value 0
      ∷ write32 Fields.cpu_based_vm_exec_control (cpu_based_control host)
      ∷ write64 Fields.msr_bitmap host.msr_bitmap_phys
      ∷ write32 Fields.secondary_vm_exec_control (secondary_control vmx host)
      ∷ write64 Fields.apic_access_addr host.apic_access_page_phys
      ∷ [])
    ++ target_config_writes target
    ++ (write32 Fields.exception_bitmap (bit_or (1 <<< Consts.db_vector) (1 <<< Consts.ac_vector))
        ∷ write32 Fields.vm_exit_controls (exit_controls host)
        ∷ write32 Fields.vm_exit_msr_store_count 0
        ∷ write32 Fields.vm_exit_msr_load_count 0
        ∷ write32 Fields.vm_entry_msr_load_count 0
        ∷ write32 Fields.vm_entry_controls (entry_controls host)
        ∷ write64 Fields.cr4_guest_host_mask 0
        ∷ write32 Fields.cr3_target_count 0
        ∷ [])

unfoldable pub setup_writes : Vmx → Host → TargetAddrs → PerCpu → List Write
unfolding host_writes guest_cr_writes guest_writes control_writes
setup_writes vmx host target cpu =
    host_writes host
    ++ guest_cr_writes vmx cr0_idx cpu.linux.cr0
    ++ guest_cr_writes vmx cr4_idx cpu.linux.cr4
    ++ guest_writes host cpu
    ++ control_writes vmx host target

-- The result of `vmcs_setup`, and the CPU afterwards.
unfoldable pub vmcs_setup : Vmx → Host → TargetAddrs → PerCpu → Bool × PerCpu
unfolding setup_writes vmcs_writes vmcs_writes_ok
vmcs_setup vmx host target cpu =
    let ws = setup_writes vmx host target cpu in
    (vmcs_writes_ok ws cpu.vmcs, record cpu { vmcs = vmcs_writes ws cpu.vmcs })
