-- ===== src/Startup/Cpu/Kept.antt =====
-- The state of Linux and the PAT of a CPU stay as they were saved while `vcpu_init` runs.
use spy.Base.{
  ◌≡◌, inl, inr, refl, not, ◌||◌, Option, none, some, bit_and, has, ltb, if◌then◌else◌, Bool-cases,
  Option-cases,
}
use spy.Base.Result.{Errno}
use spy.Cpu.{PerCpu, vmxon}
use spy.Cpu.Consts
use spy.Vmx.{TargetAddrs}
use spy.Vmx.Features.{Processor, check_features}
use spy.Vmx.Setup.{Host, vmcs_setup}
use spy.Vmx.Init.{
  Init, Instructions, host_cr4, enable_feature, reserved_bits, enter_vmx, after_check,
  after_feature, vcpu_init,
}

-- What the start of VMX leaves of the states that are restored.
pub record Keeps (before after : PerCpu) : Type 0 where
  pub linux : after.linux ≡ before.linux
  pub pat : after.pat ≡ before.pat

same : {cpu : PerCpu} → Keeps cpu cpu
same = record { linux = refl; pat = refl }

module _ (hw : Processor) (ins : Instructions) (host : Host) (target : TargetAddrs) where
  enter_vmx-Keeps : (i : Init) → Keeps i.cpu (enter_vmx hw ins host target i).1.cpu
  unfolding enter_vmx vmcs_setup
  enter_vmx-Keeps i = elim (Bool-cases ins.vmxon_ok) [
    | inr off ↦ rw (enter_vmx, off) (record { linux = refl; pat = refl })
    | inl on ↦ elim (Bool-cases (not ins.vmcs_clear_ok || not ins.vmcs_load_ok)) [
      | inl bad ↦ rw (enter_vmx, on, bad) (record { linux = refl; pat = refl })
      | inr good ↦
          let host' = record host { cr0 = Consts.x86_cr0_host_state; cr4 = host_cr4 hw } in
          let on_cpu : PerCpu = record i.cpu { vmx_state = vmxon } in
          elim (Bool-cases (vmcs_setup i.vmx host' target on_cpu).0) [
            | inl set_up ↦ rw (enter_vmx, on, good, set_up) (record { linux = refl; pat = refl })
            | inr failed ↦ rw (enter_vmx, on, good, failed) (record { linux = refl; pat = refl })
          ]
    ]
  ]

  after_check-Keeps :
      (i : Init) (err : Option Errno) → Keeps i.cpu (after_check hw ins host target i err).1.cpu
  unfolding after_check after_feature
  after_check-Keeps i (some e) = same
  after_check-Keeps i none = elim (Option-cases (enable_feature i.machine.feature_control)) [
    | inl locked ↦ rw (after_check, locked) same
    | inr (ctrl, e) ↦
        let k =
          enter_vmx-Keeps (record i { machine = record i.machine { feature_control = ctrl } }) in
        elim (Bool-cases (reserved_bits i.cpu i.vmx)) [
          | inl bad ↦ rw (after_check, e, bad) same
          | inr good ↦ rw (after_check, e, good) k
        ]
  ]

  pub vcpu_init-Keeps : (i : Init) → Keeps i.cpu (vcpu_init hw ins host target i).1.cpu
  unfolding vcpu_init after_check after_feature
  vcpu_init-Keeps i = elim (Bool-cases (has i.cpu.linux.cr4 Consts.x86_cr4_vmxe)) [
    | inl nested ↦ rw (vcpu_init, nested) same
    | inr fine ↦
        let counters = bit_and (hw.cpuid 0x0a 0).eax 0xff in
        let perf = if ltb 0 counters then 0 else i.machine.perf_global_ctrl in
        let i1 : Init = record i {
          machine = record i.machine { perf_global_ctrl = perf };
          vmx = (check_features hw i.vmx).1;
        } in
        let k = after_check-Keeps i1 (check_features hw i.vmx).0 in rw (vcpu_init, fine) k
  ]
