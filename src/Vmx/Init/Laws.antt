-- ===== src/Vmx/Init/Laws.antt =====
-- How a CPU enters and leaves VMX operation.
use spy.Base.{
  ℕ, ◌≡◌, ◌≢◌, ◌∙◌, ◌⊎◌, inl, inr, ap, sym, refl, arith, Bool, true, false, not, ◌||◌, ◌==◌,
  bit_and, bit_or, not64, ==_iff, bit_and_assoc, bit_and-zero, bit_and-bit_or_self, Option, none,
  some, if◌then◌else◌, Bool-cases, has, ltb,
}
use spy.Base.Result.{Errno, eio, enodev, ebusy}
use spy.Vmcs.Laws.{AllSupported}
use spy.Cpu.{PerCpu, VmxState, vmxoff, vmxon, vmcs_ready}
use spy.Cpu.Consts
use spy.Vmx.{TargetAddrs}
use spy.Vmx.Features.{Processor, check_features}
use spy.Vmx.Features.Agree.{Passed, check_features-Passed}
use spy.Vmx.Setup.{Host, vmcs_setup}
use spy.Vmx.Setup.Laws.{Ready, vmcs_setup-Ready}
use spy.Vmx.Init.{
  Init, Machine, Instructions, enable_feature, feature_mask, reserved_bits, host_cr4, enter_vmx,
  after_check, after_feature, vcpu_init, vcpu_exit,
}

-- What a successful initialization leaves.
pub record Running (hw : Processor) (host : Host) (target : TargetAddrs) (before after : Init)
    : Type 0 where
  pub state : after.cpu.vmx_state ≡ vmcs_ready
  pub vmxe : has after.machine.cr4 Consts.x86_cr4_vmxe ≡ true
  pub enabled : bit_and after.machine.feature_control feature_mask ≡ feature_mask
  pub features : Passed hw after.vmx
  pub not_nested : has before.cpu.linux.cr4 Consts.x86_cr4_vmxe ≡ false
  pub guest :
      Ready after.vmx
        (record host { cr0 = after.machine.cr0; cr4 = after.machine.cr4 })
        target
        before.cpu.linux
        after.cpu.vmcs

-- After a failure the VMCS is not ready: the CPU is in VMX operation, or out of it with the CR4 that
-- it had or that of Linux.
pub record Failed (before after : Init) : Type 0 where
  pub state :
      (after.cpu.vmx_state ≡ vmxon)
      ⊎ ((after.cpu.vmx_state ≡ vmxoff)
          × ((after.machine.cr4 ≡ before.machine.cr4) ⊎ (after.machine.cr4 ≡ before.cpu.linux.cr4)))

enable_feature_lem :
    (ctrl : ℕ) {ctrl' : ℕ}
    → enable_feature ctrl ≡ some ctrl'
    → bit_and ctrl' feature_mask ≡ feature_mask
unfolding enable_feature
enable_feature_lem ctrl {ctrl'} h = elim (Bool-cases (bit_and ctrl feature_mask == feature_mask)) [
  | inl e ↦
      let same : ctrl ≡ ctrl' = ground arith in
      rw (← same) ((==_iff (bit_and ctrl feature_mask) feature_mask).0 e)
  | inr e ↦ elim (Bool-cases (has ctrl Consts.feature_control_locked)) [
    | inl locked ↦ absurd (ground arith)
    | inr open_ ↦
        let same : bit_or ctrl feature_mask ≡ ctrl' = ground arith in
        rw (← same) (bit_and-bit_or_self ctrl feature_mask)
  ]
]

host_cr4_vmxe : (hw : Processor) → has (host_cr4 hw) Consts.x86_cr4_vmxe ≡ true
unfolding host_cr4
host_cr4_vmxe hw = elim (Bool-cases (has (hw.cpuid 1 0).ecx Consts.x86_feature_xsave)) [
  | inl e ↦ rw e refl
  | inr e ↦ rw e refl
]

module _ (hw : Processor) (ins : Instructions) (host : Host) (target : TargetAddrs) where
  abbrev pub Outcome : Init → Option Errno × Init → Type 0
  Outcome s r =
      ((e : Errno) × (s' : Init) × (r ≡ (some e, s')) × Failed s s')
      ⊎ ((s' : Init) × (r ≡ (none, s')) × Running hw host target s s')

  -- A failure before VMX operation was entered, which leaves CR4.
  early :
      (e : Errno) (s s' : Init)
      → s.cpu.vmx_state ≡ vmxoff
      → s'.cpu.vmx_state ≡ s.cpu.vmx_state
      → s'.machine.cr4 ≡ s.machine.cr4
      → Outcome s (some e, s')
  early e s s' off p q = inl (e, s', refl, record { state = inr (p ∙ off, inl q) })

  module _ (s : Init) where
    abbrev machine_on : Machine
    machine_on = record s.machine { cr0 = Consts.x86_cr0_host_state; cr4 = host_cr4 hw }

    abbrev cpu_on : PerCpu
    cpu_on = record s.cpu { vmx_state = vmxon }

    abbrev set_up : Bool × PerCpu
    set_up =
        vmcs_setup s.vmx (record host { cr0 = machine_on.cr0; cr4 = machine_on.cr4 }) target cpu_on

  -- A failure in VMX operation.
  late : (s0 s' : Init) → s'.cpu.vmx_state ≡ vmxon → Failed s0 s'
  late s0 s' p = record { state = inl p }

  enter_vmx-Outcome :
      (s0 s : Init)
      → s0.cpu.vmx_state ≡ vmxoff
      → AllSupported s.cpu.vmcs
      → s0.cpu ≡ s.cpu
      → bit_and s.machine.feature_control feature_mask ≡ feature_mask
      → Passed hw s.vmx
      → has s0.cpu.linux.cr4 Consts.x86_cr4_vmxe ≡ false
      → Outcome s0 (enter_vmx hw ins host target s)
  unfolding enter_vmx
  enter_vmx-Outcome s0 s off all same enabled passed free =
      let (done, ready) =
        vmcs_setup-Ready s.vmx (record host { cr0 = (machine_on s).cr0; cr4 = (machine_on s).cr4 })
          target (cpu_on s) all in
      elim (Bool-cases ins.vmxon_ok) [
        | inr no_on ↦ inl (
          eio,
          record s { machine = record (machine_on s) { cr4 = s.cpu.linux.cr4 } },
          rw no_on refl,
          record {
            state =
                inr
                  (ap (λ c. c.vmx_state) (sym same) ∙ off, inr (ap (λ c. c.linux.cr4) (sym same)));
          },
        )
        | inl is_on ↦ elim (Bool-cases (not ins.vmcs_clear_ok || not ins.vmcs_load_ok)) [
          | inl stuck ↦ inl (
            eio,
            record s { machine = machine_on s; cpu = cpu_on s },
            rw (is_on, stuck) refl,
            late s0 (record s { machine = machine_on s; cpu = cpu_on s }) refl,
          )
          | inr loaded ↦ inr (
            record s {
              machine = machine_on s;
              cpu = record (set_up s).1 { vmx_state = vmcs_ready };
            },
            rw (is_on, loaded, done) refl,
            record {
              state = refl;
              vmxe = host_cr4_vmxe hw;
              enabled = enabled;
              features = passed;
              not_nested = free;
              guest = rw same ready;
            },
          )
        ]
      ]

  module _ (s0 s : Init) (off : s0.cpu.vmx_state ≡ vmxoff) (all : AllSupported s.cpu.vmcs)
      (same : s0.cpu ≡ s.cpu) (cr4 : s.machine.cr4 ≡ s0.machine.cr4)
      (free : has s0.cpu.linux.cr4 Consts.x86_cr4_vmxe ≡ false) where
    still : s.cpu.vmx_state ≡ s0.cpu.vmx_state
    still = ap (λ c. c.vmx_state) (sym same)

    after_feature-Outcome :
        (ctrl : Option ℕ)
        → Passed hw s.vmx
        → enable_feature s.machine.feature_control ≡ ctrl
        → Outcome s0 (after_feature hw ins host target s ctrl)
    unfolding after_feature
    after_feature-Outcome none passed e = early enodev s0 s off still cr4
    after_feature-Outcome (some ctrl) passed e =
        let s' : Init = record s { machine = record s.machine { feature_control = ctrl } } in
        elim (Bool-cases (reserved_bits s.cpu s.vmx)) [
          | inl reserved ↦ rw reserved (early eio s0 s' off still cr4)
          | inr fine ↦ rw fine (
              enter_vmx-Outcome s0 s' off all same (enable_feature_lem s.machine.feature_control e)
                passed free)
        ]

    after_check-Outcome :
        (err : Option Errno)
        → (err ≡ none → Passed hw s.vmx)
        → Outcome s0 (after_check hw ins host target s err)
    unfolding after_check
    after_check-Outcome (some e) passed = early e s0 s off still cr4
    after_check-Outcome none passed =
        after_feature-Outcome (enable_feature s.machine.feature_control) (passed refl) refl

  -- On a processor that has all fields of the VMCS, an initialization outside VMX operation fails with
  -- what `Failed` says or succeeds with what `Running` says.
  pub vcpu_init-Outcome :
      (s : Init)
      → s.cpu.vmx_state ≡ vmxoff
      → AllSupported s.cpu.vmcs
      → Outcome s (vcpu_init hw ins host target s)
  unfolding vcpu_init
  vcpu_init-Outcome s off all = elim (Bool-cases (has s.cpu.linux.cr4 Consts.x86_cr4_vmxe)) [
    | inl nested ↦ rw nested (early ebusy s _ off refl refl)
    | inr free ↦
        let checked = check_features hw s.vmx in
        let perf =
          if ltb 0 (bit_and (hw.cpuid 0x0a 0).eax 0xff) then 0 else s.machine.perf_global_ctrl in
        let s1 : Init = record s {
          vmx = checked.1;
          machine = record s.machine { perf_global_ctrl = perf };
        } in
        rw free (
          after_check-Outcome s s1 off all refl refl free checked.0
            (λ passed. check_features-Passed hw s.vmx (λ i. (passed i, checked.1))))
  ]

VmxState-cases : (v : VmxState) → (v ≡ vmxoff) ⊎ ((v ≡ vmxon) ⊎ (v ≡ vmcs_ready))
VmxState-cases vmxoff = inl refl
VmxState-cases vmxon = inr (inl refl)
VmxState-cases vmcs_ready = inr (inr refl)

vmxe_cleared : (x : ℕ) → has (bit_and x (not64 Consts.x86_cr4_vmxe)) Consts.x86_cr4_vmxe ≡ false
vmxe_cleared x =
    rw (bit_and_assoc x (not64 Consts.x86_cr4_vmxe) Consts.x86_cr4_vmxe, bit_and-zero x) refl

-- Leaving VMX operation takes a CPU that is in it to the state in which an initialization may begin
-- again, and takes VMXE from Linux's CR4.
vcpu_exit-off :
    (cpu : PerCpu)
    → cpu.vmx_state ≢ vmxoff
    → ((vcpu_exit cpu).vmx_state ≡ vmxoff)
      × (has (vcpu_exit cpu).linux.cr4 Consts.x86_cr4_vmxe ≡ false)
unfolding vcpu_exit
vcpu_exit-off cpu running = elim (VmxState-cases cpu.vmx_state) [
  | inl off ↦ absurd (running off)
  | inr (inl on) ↦ rw on (refl, vmxe_cleared cpu.linux.cr4)
  | inr (inr ready) ↦ rw ready (refl, vmxe_cleared cpu.linux.cr4)
]
