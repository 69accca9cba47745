-- ===== src/Vmx/Reset.antt =====
-- The reset and the parking of a CPU in vmx.c: `vcpu_vendor_reset`, `vcpu_park`,
-- `vmx_preemption_timer_set_enable` and `vcpu_nmi_handler`.
pub mod Laws
use spy.Base.{
  true, ℕ, ◌+◌, ◌-◌, ◌*◌, ◌/◌, ◌%◌, ◌^◌, List, [], ◌∷◌, ◌++◌, bit_and, bit_or, not64, not32, u16,
  u32, u64, ◌<<<◌, ◌>>>◌, ◌==◌, Bool, ◌&&◌, if◌then◌else◌,
}
use spy.Vmcs.{
  Vmcs, Write, write16, write32, write64, vmcs_writes, vmcs_writes_ok, vmcs_read32, vmcs_write64,
  vmcs_write32,
}
use spy.Vmcs.Fields
use spy.Cpu.{PerCpu, VmxState, vmxoff, vmxon, vmcs_ready}
use spy.Cpu.Consts
use spy.Vmx.{Vmx, TargetAddrs, cr0_idx, cr4_idx, target_config_writes}
use spy.Vmx.Cr.{guest_cr_writes}

-- `APIC_BSP_PSEUDO_SIPI` and the reset address of the target's configuration.
pub record ResetConfig : Type 0 where
  pub apic_bsp_pseudo_sipi : ℕ
  pub cpu_reset_address : ℕ

-- The first instruction: from the reset address, or from the start-up vector.
unfoldable pub hard_reset_writes : ℕ → List Write
hard_reset_writes reset_addr =
    write64 Fields.guest_ia32_debugctl 0
    ∷ write64 Fields.guest_rip (bit_and reset_addr 0xffff)
    ∷ write16 Fields.guest_cs_selector (bit_and (reset_addr >>> 4) 0xf000)
    ∷ write64 Fields.guest_cs_base (bit_and reset_addr (not64 0xffff))
    ∷ []

unfoldable pub sipi_writes : ℕ → List Write
sipi_writes sipi_vector =
    write64 Fields.guest_rip 0
    ∷ write16 Fields.guest_cs_selector (u32 (sipi_vector <<< 8))
    ∷ write64 Fields.guest_cs_base (u32 (sipi_vector <<< 12))
    ∷ []

unfoldable pub entry_writes : ResetConfig → ℕ → List Write
unfolding hard_reset_writes sipi_writes
entry_writes config sipi_vector =
    if sipi_vector == config.apic_bsp_pseudo_sipi
    then hard_reset_writes config.cpu_reset_address
    else sipi_writes sipi_vector

-- A segment of real mode at 0, with the access rights `ar`.
unfoldable pub flat_writes : ℕ → ℕ → ℕ → ℕ → ℕ → List Write
flat_writes selector base limit ar_bytes ar =
    write16 selector 0 ∷ write64 base 0 ∷ write32 limit 0xffff ∷ write32 ar_bytes ar ∷ []

-- All writes before `VM_ENTRY_CONTROLS` is read, with `entry` for those of the first instruction.
unfoldable pub reset_writes : Vmx → List Write → List Write
unfolding guest_cr_writes flat_writes
reset_writes vmx entry =
    guest_cr_writes vmx cr0_idx
      (bit_or (bit_or Consts.x86_cr0_nw Consts.x86_cr0_cd) Consts.x86_cr0_et)
    ++ guest_cr_writes vmx cr4_idx 0
    ++ (write64 Fields.guest_cr3 0
        ∷ write64 Fields.guest_rflags 0x02
        ∷ write64 Fields.guest_rsp 0
        ∷ [])
    ++ entry
    ++ (write32 Fields.guest_cs_limit 0xffff ∷ write32 Fields.guest_cs_ar_bytes 0x0009b ∷ [])
    ++ flat_writes Fields.guest_ds_selector Fields.guest_ds_base Fields.guest_ds_limit
        Fields.guest_ds_ar_bytes 0x00093
    ++ flat_writes Fields.guest_es_selector Fields.guest_es_base Fields.guest_es_limit
        Fields.guest_es_ar_bytes 0x00093
    ++ flat_writes Fields.guest_fs_selector Fields.guest_fs_base Fields.guest_fs_limit
        Fields.guest_fs_ar_bytes 0x00093
    ++ flat_writes Fields.guest_gs_selector Fields.guest_gs_base Fields.guest_gs_limit
        Fields.guest_gs_ar_bytes 0x00093
    ++ flat_writes Fields.guest_ss_selector Fields.guest_ss_base Fields.guest_ss_limit
        Fields.guest_ss_ar_bytes 0x00093
    ++ flat_writes Fields.guest_tr_selector Fields.guest_tr_base Fields.guest_tr_limit
        Fields.guest_tr_ar_bytes 0x0008b
    ++ flat_writes Fields.guest_ldtr_selector Fields.guest_ldtr_base Fields.guest_ldtr_limit
        Fields.guest_ldtr_ar_bytes 0x00082
    ++ (write64 Fields.guest_gdtr_base 0
        ∷ write32 Fields.guest_gdtr_limit 0xffff
        ∷ write64 Fields.guest_idtr_base 0
        ∷ write32 Fields.guest_idtr_limit 0xffff
        ∷ write64 Fields.guest_ia32_efer 0
        ∷ write32 Fields.guest_sysenter_cs 0
        ∷ write64 Fields.guest_sysenter_eip 0
        ∷ write64 Fields.guest_sysenter_esp 0
        ∷ write64 Fields.guest_dr7 0x00000400
        ∷ write32 Fields.guest_activity_state Consts.guest_activity_active
        ∷ write32 Fields.guest_interruptibility_info 0
        ∷ write64 Fields.guest_pending_dbg_exceptions 0
        ∷ write32 Fields.vm_entry_intr_info_field 0
        ∷ [])

unfoldable pub leave_long_mode : TargetAddrs → ℕ → List Write
unfolding target_config_writes
leave_long_mode target val =
    write32 Fields.vm_entry_controls (bit_and val (not64 Consts.vm_entry_ia32e_mode))
    ∷ target_config_writes target

-- The final `ok`, where `false` stops the CPU, and the VMCS.
unfoldable pub reset_with : Vmx → List Write → TargetAddrs → Vmcs → Bool × Vmcs
unfolding reset_writes leave_long_mode vmcs_writes vmcs_writes_ok vmcs_read32
reset_with vmx entry target vmcs =
    let ws = reset_writes vmx entry in
    let vmcs1 = vmcs_writes ws vmcs in
    let ws' = leave_long_mode target (vmcs_read32 Fields.vm_entry_controls vmcs1) in
    (vmcs_writes_ok ws vmcs && vmcs_writes_ok ws' vmcs1, vmcs_writes ws' vmcs1)

unfoldable pub vendor_reset : Vmx → ResetConfig → TargetAddrs → ℕ → Vmcs → Bool × Vmcs
unfolding reset_with entry_writes
vendor_reset vmx config target sipi_vector vmcs =
    reset_with vmx (entry_writes config sipi_vector) target vmcs

unfoldable pub preemption_timer_set_enable : Bool → Vmcs → Vmcs
unfolding vmcs_read32 vmcs_write32
preemption_timer_set_enable enable vmcs =
    let ctrl = vmcs_read32 Fields.pin_based_vm_exec_control vmcs in
    vmcs_write32 Fields.pin_based_vm_exec_control
      (if enable
        then bit_or ctrl Consts.pin_based_vmx_preemption_timer
        else bit_and ctrl (not64 Consts.pin_based_vmx_preemption_timer))
      vmcs

unfoldable pub nmi_handler : PerCpu → PerCpu
unfolding preemption_timer_set_enable
nmi_handler cpu = elim cpu.vmx_state [
  | vmcs_ready ↦ record cpu { vmcs = preemption_timer_set_enable true cpu.vmcs }
  | vmxoff ↦ cpu
  | vmxon ↦ cpu
]

-- Parking: the CPU, reset, runs the parking code in the tables at `parking_root_phys`.
-- `crash_target` is whether CONFIG_CRASH_TARGET_ON_PANIC is set and the CPU has failed.
unfoldable pub vcpu_park : Vmx → ResetConfig → TargetAddrs → Bool → ℕ → Vmcs → Vmcs
unfolding vendor_reset vmcs_write64
vcpu_park vmx config target crash_target parking_root_phys vmcs =
    if crash_target
    then vmcs_write64 Fields.guest_rip 0 vmcs
    else vmcs_write64 Fields.ept_pointer
        (bit_or (bit_or parking_root_phys Consts.ept_type_writeback) Consts.ept_page_walk_len)
        (vmcs_write64 Fields.guest_ia32_debugctl 0 (vendor_reset vmx config target 0 vmcs).1)
