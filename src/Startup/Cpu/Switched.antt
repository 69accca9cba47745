-- ===== src/Startup/Cpu/Switched.antt =====
-- What `vcpu_init` does to the two MSRs that it writes.
use spy.Base.{
  ◌==◌, ℕ, ◌≡◌, ◌⊎◌, inl, inr, refl, ◌∙◌, arith, not, ◌||◌, Option, none, some, bit_and, bit_or,
  has, ltb, if◌then◌else◌, Bool-cases, Option-cases,
}
use spy.Base.Result.{Errno}
use spy.Cpu.{PerCpu, vmxon}
use spy.Cpu.Consts
use spy.Vmx.{TargetAddrs}
use spy.Vmx.Features.{Processor, check_features}
use spy.Vmx.Setup.{Host, vmcs_setup}
use spy.Vmx.Init.{
  Machine, Init, Instructions, host_cr4, enable_feature, reserved_bits, enter_vmx, after_check,
  after_feature, vcpu_init,
}

-- What `vcpu_init` leaves in the two MSRs that it writes.
pub record Switched (before after : Machine) : Type 0 where
  pub perf : (after.perf_global_ctrl ≡ before.perf_global_ctrl) ⊎ (after.perf_global_ctrl ≡ 0)
  pub feature :
      (after.feature_control ≡ before.feature_control)
      ⊎ (after.feature_control ≡ bit_or before.feature_control 0x5)

enabled : (x ctrl : ℕ) → enable_feature x ≡ some ctrl → (ctrl ≡ x) ⊎ (ctrl ≡ bit_or x 0x5)
unfolding enable_feature
enabled x ctrl h = elim (Bool-cases (bit_and x 0x5 == 0x5)) [
  | inl already ↦ inl (ground arith)
  | inr other ↦ elim (Bool-cases (has x Consts.feature_control_locked)) [
    | inl locked ↦ absurd (ground arith)
    | inr free ↦ inr (ground arith)
  ]
]

module _ (hw : Processor) (ins : Instructions) (host : Host) (target : TargetAddrs) where
  enter_vmx-msrs :
      (i : Init)
      → ((enter_vmx hw ins host target i).1.machine.perf_global_ctrl ≡ i.machine.perf_global_ctrl)
        × ((enter_vmx hw ins host target i).1.machine.feature_control ≡ i.machine.feature_control)
  unfolding enter_vmx
  enter_vmx-msrs i = elim (Bool-cases ins.vmxon_ok) [
    | inr off ↦ rw (enter_vmx, off) (refl, refl)
    | inl on ↦ elim (Bool-cases (not ins.vmcs_clear_ok || not ins.vmcs_load_ok)) [
      | inl bad ↦ rw (enter_vmx, on, bad) (refl, refl)
      | inr good ↦
          let host' = record host { cr0 = Consts.x86_cr0_host_state; cr4 = host_cr4 hw } in
          let on_cpu : PerCpu = record i.cpu { vmx_state = vmxon } in
          elim (Bool-cases (vmcs_setup i.vmx host' target on_cpu).0) [
            | inl set_up ↦ rw (enter_vmx, on, good, set_up) (refl, refl)
            | inr failed ↦ rw (enter_vmx, on, good, failed) (refl, refl)
          ]
    ]
  ]

  after_check-Switched :
      (i : Init) (err : Option Errno)
      → ((after_check hw ins host target i err).1.machine.perf_global_ctrl
          ≡ i.machine.perf_global_ctrl)
        × (((after_check hw ins host target i err).1.machine.feature_control
              ≡ i.machine.feature_control)
            ⊎ ((after_check hw ins host target i err).1.machine.feature_control
                ≡ bit_or i.machine.feature_control 0x5))
  unfolding after_check after_feature
  after_check-Switched i (some e) = (refl, inl refl)
  after_check-Switched i none = elim (Option-cases (enable_feature i.machine.feature_control)) [
    | inl locked ↦ rw (after_check, locked) (refl, inl refl)
    | inr (ctrl, e) ↦
        let i' : Init = record i { machine = record i.machine { feature_control = ctrl } } in
        let k = enter_vmx-msrs i' in
        let new = enabled i.machine.feature_control ctrl e in
        elim (Bool-cases (reserved_bits i.cpu i.vmx)) [
          | inl bad ↦ rw (after_check, e, bad) (refl, new)
          | inr good ↦
              rw (after_check, e, good)
                (k.0, elim new [ inl same ↦ inl (k.1 ∙ same) | inr set ↦ inr (k.1 ∙ set) ])
        ]
  ]

  pub vcpu_init-Switched :
      (i : Init) → Switched i.machine (vcpu_init hw ins host target i).1.machine
  unfolding vcpu_init
  vcpu_init-Switched i =
      let counters = bit_and (hw.cpuid 0x0a 0).eax 0xff in
      let perf = if ltb 0 counters then 0 else i.machine.perf_global_ctrl in
      let cleared : (perf ≡ i.machine.perf_global_ctrl) ⊎ (perf ≡ 0) =
        elim (Bool-cases (ltb 0 counters)) [
          | inl some_counter ↦ inr (rw some_counter refl)
          | inr no_counter ↦ inl (rw no_counter refl)
        ] in
      let machine = record i.machine { perf_global_ctrl = perf } in
      elim (Bool-cases (has i.cpu.linux.cr4 Consts.x86_cr4_vmxe)) [
        | inl nested ↦ rw (vcpu_init, nested) (record { perf = cleared; feature = inl refl })
        | inr fine ↦
            let i1 : Init = record i { machine = machine; vmx = (check_features hw i.vmx).1 } in
            let (kept, feature) = after_check-Switched i1 (check_features hw i.vmx).0 in
            rw (vcpu_init, fine)
              (record {
                perf = elim cleared [
                  | inl same ↦ inl (kept ∙ same)
                  | inr zero_ ↦ inr (kept ∙ zero_)
                ];
                feature = feature;
              })
      ]
