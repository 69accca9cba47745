-- ===== src/Vmx/Init.antt =====
-- `vcpu_init`, `vcpu_exit` and `vcpu_deactivate_vmm` of vmx.c: a CPU enters and leaves VMX operation.
pub mod Laws
pub mod Handover
use spy.Base.{
  ℕ, ◌+◌, ◌-◌, ◌*◌, ◌/◌, ◌%◌, ◌^◌, bit_and, bit_or, not64, u16, u32, u64, ltb, ◌==◌, Bool, true,
  false, not, ◌&&◌, ◌||◌, if◌then◌else◌, has, Option, none, some,
}
use spy.Base.Result.{Errno, ebusy, enodev, eio}
use spy.Vmcs.{Vmcs, vmcs_read16, vmcs_read32, vmcs_read64}
use spy.Vmcs.Fields
use spy.Cpu.{PerCpu, Linux, Segment, DescTableReg, VmxState, vmxoff, vmxon, vmcs_ready}
use spy.Cpu.Consts
use spy.Vmx.{Vmx, TargetAddrs, cr0_idx, cr4_idx}
use spy.Vmx.Features.{Processor, check_features}
use spy.Vmx.Setup.{Host, vmcs_setup}

-- The registers of the real CPU that the code writes.
pub record Machine : Type 0 where
  pub cr0 : ℕ
  pub cr4 : ℕ
  pub feature_control : ℕ
  pub perf_global_ctrl : ℕ

-- The states that change together.
pub record Init : Type 0 where
  pub cpu : PerCpu
  pub vmx : Vmx
  pub machine : Machine

-- Whether the VMX instructions succeed.
pub record Instructions : Type 0 where
  pub vmxon_ok : Bool
  pub vmcs_clear_ok : Bool
  pub vmcs_load_ok : Bool

abbrev pub feature_mask : ℕ
feature_mask = bit_or Consts.feature_control_locked Consts.feature_control_vmxon_enabled_outside_smx

-- Switching on VMX where the firmware has left it off and unlocked; `none` where it is locked off.
unfoldable pub enable_feature : ℕ → Option ℕ
enable_feature feature_ctrl =
    if bit_and feature_ctrl feature_mask == feature_mask
    then some feature_ctrl
    else if has feature_ctrl Consts.feature_control_locked
    then none
    else some (bit_or feature_ctrl feature_mask)

-- Whether a reserved bit is set or must be.
unfoldable pub reserved_bits : PerCpu → Vmx → Bool
reserved_bits cpu vmx =
    has (bit_or cpu.linux.cr0 (vmx.cr_required1 cr0_idx)) Consts.x86_cr0_reserved
    || has (bit_or cpu.linux.cr4 (vmx.cr_required1 cr4_idx)) Consts.x86_cr4_reserved

unfoldable pub host_cr4 : Processor → ℕ
host_cr4 hw =
    bit_or (bit_or Consts.x86_cr4_host_state Consts.x86_cr4_vmxe)
      (if has (hw.cpuid 1 0).ecx Consts.x86_feature_xsave then Consts.x86_cr4_osxsave else 0)

module _ (hw : Processor) (ins : Instructions) (host : Host) (target : TargetAddrs) where
  -- From the write of CR0 on.
  unfoldable pub enter_vmx : Init → Option Errno × Init
  unfolding host_cr4 vmcs_setup
  enter_vmx s =
      let machine = record s.machine { cr0 = Consts.x86_cr0_host_state; cr4 = host_cr4 hw } in
      let on : PerCpu = record s.cpu { vmx_state = vmxon } in
      let host' = record host { cr0 = machine.cr0; cr4 = machine.cr4 } in
      let (set_up, cpu) = vmcs_setup s.vmx host' target on in
      if not ins.vmxon_ok
      then (some eio, record s { machine = record machine { cr4 = s.cpu.linux.cr4 } })
      else if not ins.vmcs_clear_ok || not ins.vmcs_load_ok
      then (some eio, record s { machine = machine; cpu = on })
      else if not set_up
      then (some eio, record s { machine = machine; cpu = cpu })
      else (none, record s { machine = machine; cpu = record cpu { vmx_state = vmcs_ready } })

  -- From the lock bit of the feature control on, which allows the value `ctrl` or nothing.
  unfoldable pub after_feature : Init → Option ℕ → Option Errno × Init
  unfolding reserved_bits enter_vmx
  after_feature s none = (some enodev, s)
  after_feature s (some ctrl) =
      let s' : Init = record s { machine = record s.machine { feature_control = ctrl } } in
      if reserved_bits s.cpu s.vmx then (some eio, s') else enter_vmx s'

  -- From the check of features on, which has given `err` and left `s.vmx`.
  unfoldable pub after_check : Init → Option Errno → Option Errno × Init
  unfolding enable_feature after_feature
  after_check s (some e) = (some e, s)
  after_check s none = after_feature s (enable_feature s.machine.feature_control)

  unfoldable pub vcpu_init : Init → Option Errno × Init
  unfolding after_check
  vcpu_init s =
      let counters = bit_and (hw.cpuid 0x0a 0).eax 0xff in
      let perf = if ltb 0 counters then 0 else s.machine.perf_global_ctrl in
      let s1 : Init = record s { machine = record s.machine { perf_global_ctrl = perf } } in
      let (err, vmx) = check_features hw s.vmx in
      if has s.cpu.linux.cr4 Consts.x86_cr4_vmxe
      then (some ebusy, s1)
      else after_check (record s1 { vmx = vmx }) err

-- `vmxoff`, where the CPU is in VMX operation.
unfoldable pub vcpu_exit : PerCpu → PerCpu
vcpu_exit cpu =
    let off : PerCpu = record cpu {
      vmx_state = vmxoff;
      linux = record cpu.linux { cr4 = bit_and cpu.linux.cr4 (not64 Consts.x86_cr4_vmxe) };
    } in
    elim cpu.vmx_state [ vmxoff ↦ cpu | vmxon ↦ off | vmcs_ready ↦ off ]

-- A segment with the selector or the base replaced.
abbrev pub with_selector : Segment → ℕ → Segment
with_selector seg v = record seg { selector = v }

-- The state of Linux that `vcpu_deactivate_vmm` takes out of the VMCS before `arch_cpu_restore`. The
-- selectors are 16 bits wide, as are the limits of `struct desc_table_reg`.
unfoldable pub linux_of_vmcs : Vmcs → Linux → Linux
unfolding vmcs_read16 vmcs_read32 vmcs_read64
linux_of_vmcs vmcs l = record l {
  cr0 = vmcs_read64 Fields.guest_cr0 vmcs;
  cr3 = vmcs_read64 Fields.guest_cr3 vmcs;
  cr4 = vmcs_read64 Fields.guest_cr4 vmcs;
  gdtr = record {
    base = vmcs_read64 Fields.guest_gdtr_base vmcs;
    limit = u16 (vmcs_read64 Fields.guest_gdtr_limit vmcs);
  };
  idtr = record {
    base = vmcs_read64 Fields.guest_idtr_base vmcs;
    limit = u16 (vmcs_read64 Fields.guest_idtr_limit vmcs);
  };
  cs = with_selector l.cs (u16 (vmcs_read32 Fields.guest_cs_selector vmcs));
  tss = with_selector l.tss (u16 (vmcs_read32 Fields.guest_tr_selector vmcs));
  efer = vmcs_read64 Fields.guest_ia32_efer vmcs;
  fs = record l.fs {
    base = vmcs_read64 Fields.guest_fs_base vmcs;
    selector = vmcs_read16 Fields.guest_fs_selector vmcs;
  };
  gs = record l.gs {
    base = vmcs_read64 Fields.guest_gs_base vmcs;
    selector = vmcs_read16 Fields.guest_gs_selector vmcs;
  };
  ds = with_selector l.ds (vmcs_read16 Fields.guest_ds_selector vmcs);
  es = with_selector l.es (vmcs_read16 Fields.guest_es_selector vmcs);
}

-- `stack` and `linux_ip` with which Linux is entered: the address is pushed on the guest's stack.
unfoldable pub deactivate_vmm : PerCpu → PerCpu × (ℕ × ℕ)
unfolding linux_of_vmcs vmcs_read64
deactivate_vmm cpu = (
  record cpu { linux = linux_of_vmcs cpu.vmcs cpu.linux },
  (
    u64 (vmcs_read64 Fields.guest_rsp cpu.vmcs + (2 ^ 64 - 8)),
    vmcs_read64 Fields.guest_rip cpu.vmcs,
  ),
)
