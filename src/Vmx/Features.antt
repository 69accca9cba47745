-- ===== src/Vmx/Features.antt =====
-- `vmx_check_features` of vmx.c: whether a CPU can run the hypervisor, and what all CPUs must share.
mod Bits
pub mod Agree
pub mod Accept
use spy.Base.{
  ℕ, ◌+◌, ◌-◌, ◌*◌, ◌/◌, ◌%◌, ◌^◌, bit_and, bit_or, not64, u32, ◌>>>◌, ◌<<<◌, ◌==◌, leb, Bool, not,
  ◌&&◌, ◌||◌, if◌then◌else◌, has, Option, none, some,
}
use spy.Base.Result.{Errno, enodev, eio}
use spy.Cpu.Consts
use spy.Paging.{page_size}
use spy.Vmx.{Vmx, cr0_idx, cr4_idx}
use spy.Vmx.Cr.{define_cr_restrictions}

-- The four registers of a CPUID leaf.
pub record CpuidRegs : Type 0 where
  pub eax : ℕ
  pub ebx : ℕ
  pub ecx : ℕ
  pub edx : ℕ

-- What a CPU answers.
pub record Processor : Type 0 where
  pub read_msr : ℕ → ℕ
  pub cpuid : ℕ → ℕ → CpuidRegs

-- The high half of a capability MSR: the controls that may be one.
abbrev pub allowed1 : Processor → ℕ → ℕ
allowed1 hw msr = hw.read_msr msr >>> 32

unfoldable pub basic_ok : Processor → Bool
basic_ok hw =
    let vmx_basic = hw.read_msr Consts.msr_ia32_vmx_basic in
    leb (bit_and (vmx_basic >>> 32) 0x1fff) page_size
    && bit_and (vmx_basic >>> 50) 0xf == Consts.ept_type_writeback
    && has vmx_basic (1 <<< 55)

unfoldable pub pin_ok : Processor → Bool
pin_ok hw =
    let vmx_pin_ctrl = allowed1 hw Consts.msr_ia32_vmx_pinbased_ctls in
    has vmx_pin_ctrl Consts.pin_based_nmi_exiting
    && has vmx_pin_ctrl Consts.pin_based_vmx_preemption_timer

unfoldable pub proc_ok : Processor → Bool
proc_ok hw =
    let vmx_proc_ctrl = allowed1 hw Consts.msr_ia32_vmx_procbased_ctls in
    has vmx_proc_ctrl Consts.cpu_based_use_io_bitmaps
    && has vmx_proc_ctrl Consts.cpu_based_use_msr_bitmaps
    && has vmx_proc_ctrl Consts.cpu_based_activate_secondary_controls

unfoldable pub cr3_ok : Processor → Bool
cr3_ok hw = not (
    has (hw.read_msr Consts.msr_ia32_vmx_true_procbased_ctls)
      (bit_or Consts.cpu_based_cr3_load_exiting Consts.cpu_based_cr3_store_exiting))

unfoldable pub ept_ok : Processor → Bool
ept_ok hw =
    let vmx_proc_ctrl2 = allowed1 hw Consts.msr_ia32_vmx_procbased_ctls2 in
    let ept_cap = hw.read_msr Consts.msr_ia32_vmx_ept_vpid_cap in
    has vmx_proc_ctrl2 Consts.secondary_exec_virtualize_apic_accesses
    && has vmx_proc_ctrl2 Consts.secondary_exec_enable_ept
    && bit_and ept_cap Consts.ept_mandatory_features == Consts.ept_mandatory_features
    && has ept_cap (bit_or Consts.ept_invept_single Consts.ept_invept_global)
    && has vmx_proc_ctrl2 Consts.secondary_exec_unrestricted_guest

unfoldable pub add_if : Bool → ℕ → ℕ → ℕ
add_if present flag addon = if present then bit_or addon flag else addon

-- `secondary_exec_addon` after the three tests.
unfoldable pub addons : Processor → ℕ → ℕ
unfolding add_if
addons hw addon =
    add_if (has (hw.cpuid 0x0d 1).eax Consts.x86_feature_xsaves) Consts.secondary_exec_xsaves (
      add_if (has (hw.cpuid 0x07 0).ebx Consts.x86_feature_invpcid) Consts.secondary_exec_invpcid (
        add_if (has (hw.cpuid 0x80000001 0).edx Consts.x86_feature_rdtscp)
          Consts.secondary_exec_rdtscp addon))

unfoldable pub entry_exit_ok : Processor → Bool
entry_exit_ok hw =
    let vmx_entry_ctrl = allowed1 hw Consts.msr_ia32_vmx_entry_ctls in
    let vmx_exit_ctrl = allowed1 hw Consts.msr_ia32_vmx_exit_ctls in
    has vmx_entry_ctrl Consts.vm_entry_load_ia32_pat
    && has vmx_entry_ctrl Consts.vm_entry_load_ia32_efer
    && has vmx_exit_ctrl Consts.vm_exit_save_ia32_pat
    && has vmx_exit_ctrl Consts.vm_exit_load_ia32_pat
    && has vmx_exit_ctrl Consts.vm_exit_save_ia32_efer
    && has vmx_exit_ctrl Consts.vm_exit_load_ia32_efer

unfoldable pub misc_ok : Processor → Bool
misc_ok hw = has (hw.read_msr Consts.msr_ia32_vmx_misc) Consts.vmx_misc_activity_hlt

-- What a CPU demands of CR0 and CR4.
unfoldable pub cr0_maybe1 : Processor → ℕ
cr0_maybe1 hw =
    bit_and (hw.read_msr Consts.msr_ia32_vmx_cr0_fixed1)
      (not64 (bit_or Consts.x86_cr0_nw Consts.x86_cr0_cd))

unfoldable pub cr0_required1 : Processor → ℕ
cr0_required1 hw =
    bit_or
      (bit_and (hw.read_msr Consts.msr_ia32_vmx_cr0_fixed0)
        (not64 (bit_or Consts.x86_cr0_pe Consts.x86_cr0_pg)))
      Consts.x86_cr0_et

abbrev pub cr4_maybe1 : Processor → ℕ
cr4_maybe1 hw = hw.read_msr Consts.msr_ia32_vmx_cr4_fixed1

abbrev pub cr4_required1 : Processor → ℕ
cr4_required1 hw = hw.read_msr Consts.msr_ia32_vmx_cr4_fixed0

-- The result, `none` for 0, and the static variables afterwards.
unfoldable pub check_features : Processor → Vmx → Option Errno × Vmx
unfolding basic_ok pin_ok proc_ok cr3_ok ept_ok addons entry_exit_ok misc_ok cr0_maybe1
    cr0_required1 define_cr_restrictions
check_features hw vmx =
    let vmx1 : Vmx = record vmx { secondary_exec_addon = addons hw vmx.secondary_exec_addon } in
    let addon = vmx1.secondary_exec_addon in
    let (same0, vmx2) = define_cr_restrictions cr0_idx (cr0_maybe1 hw) (cr0_required1 hw) vmx1 in
    let (same4, vmx3) = define_cr_restrictions cr4_idx (cr4_maybe1 hw) (cr4_required1 hw) vmx2 in
    if not (has (hw.cpuid 1 0).ecx Consts.x86_feature_vmx)
    then (some enodev, vmx)
    else if not (basic_ok hw)
    then (some eio, vmx)
    else if not (pin_ok hw)
    then (some eio, vmx)
    else if not (proc_ok hw)
    then (some eio, vmx)
    else if not (cr3_ok hw)
    then (some eio, vmx)
    else if not (ept_ok hw)
    then (some eio, vmx)
    else if not (bit_and (allowed1 hw Consts.msr_ia32_vmx_procbased_ctls2) addon == addon)
    then (some eio, vmx1)
    else if not (entry_exit_ok hw)
    then (some eio, vmx1)
    else if not (misc_ok hw)
    then (some eio, vmx1)
    else if not same0
    then (some eio, vmx2)
    else if not same4
    then (some eio, vmx3)
    else (none, vmx3)
