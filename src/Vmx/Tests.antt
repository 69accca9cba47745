-- ===== src/Vmx/Tests.antt =====
-- The theorems on vmx.c at concrete states.
use spy.Base.{ℕ, ◌≡◌, ◌≢◌, refl, arith, true, false, none, inl}
use spy.Cpu.{PerCpu}
use spy.Vmx.{Vmx, cr4_idx}
use spy.Vmx.Cr.{set_guest_cr, define_cr_restrictions}
use spy.Vmx.Cr.Laws.{CrSet, set_guest_cr-CrSet}
use spy.Vmx.Features.{
  basic_ok, pin_ok, proc_ok, cr3_ok, ept_ok, addons, entry_exit_ok, misc_ok, cr0_maybe1,
  cr0_required1, cr4_maybe1, check_features, add_if,
}
use spy.Vmx.Features.Agree.{Passed, check_features-Passed}
use spy.Vmx.Features.Accept.{Suits, check_features-accepts}
use spy.Vmx.Setup.{vmcs_setup}
use spy.Vmx.Setup.Laws.{Ready, vmcs_setup-Ready}
use spy.Vmx.Reset.{vendor_reset}
use spy.Vmx.Reset.Laws.{ResetState, vendor_reset-ResetState}
use spy.Vmx.Init.{Init, vcpu_init, deactivate_vmm}
use spy.Vmx.Init.Laws.{Outcome, vcpu_init-Outcome}
use spy.Vmx.Init.Handover.{IsLinux}
use spy.Cpu.Consts
use spy.Vcpu.Msr.{handle_msr_read}
use spy.Vmx.MsrBitmap.{msr_bitmap, early_msr_bitmap}
use spy.Vmx.MsrBitmap.Guards.{traps, trapped_read-handled, protected_write-traps}
use spy.Samples

set_guest_cr-CrSet_example :
    CrSet Samples.vmx cr4_idx 0x20
      (Samples.vmcs_with 0 0)
      (set_guest_cr Samples.vmx cr4_idx 0x20 (Samples.vmcs_with 0 0))
set_guest_cr-CrSet_example =
    set_guest_cr-CrSet Samples.vmx cr4_idx 0x20 (Samples.vmcs_with 0 0) (λ f. refl) (omega arith)
      (omega arith) (omega arith)

vmcs_setup-Ready_example :
    ((vmcs_setup Samples.vmx Samples.host Samples.target Samples.cpu).0 ≡ true)
    × Ready Samples.vmx Samples.host Samples.target Samples.linux
        (vmcs_setup Samples.vmx Samples.host Samples.target Samples.cpu).1.vmcs
vmcs_setup-Ready_example =
    vmcs_setup-Ready Samples.vmx Samples.host Samples.target Samples.cpu (λ f. refl)

vendor_reset-ResetState_example :
    ((vendor_reset Samples.vmx Samples.config Samples.target 0x9a (Samples.vmcs_with 0 0)).0 ≡ true)
    × ResetState Samples.target 0x9a000
        (vendor_reset Samples.vmx Samples.config Samples.target 0x9a (Samples.vmcs_with 0 0)).1
vendor_reset-ResetState_example =
    vendor_reset-ResetState Samples.vmx Samples.config Samples.target 0x9a (Samples.vmcs_with 0 0)
      (λ f. refl) (omega arith)

abbrev unset : Vmx
unset = record { cr_maybe1 = λ i. 0; cr_required1 = λ i. 0; secondary_exec_addon = 0 }

abbrev checked : Vmx
checked = (check_features Samples.processor unset).1

first_passes : check_features Samples.processor unset ≡ (none, checked)
unfolding check_features basic_ok pin_ok proc_ok cr3_ok ept_ok addons entry_exit_ok misc_ok
    cr0_maybe1 cr0_required1 define_cr_restrictions add_if
first_passes = refl

abbrev checked_again : Vmx
checked_again = (check_features Samples.processor checked).1

second_passes : check_features Samples.processor checked ≡ (none, checked_again)
unfolding check_features basic_ok pin_ok proc_ok cr3_ok ept_ok addons entry_exit_ok misc_ok
    cr0_maybe1 cr0_required1 define_cr_restrictions add_if
second_passes = refl

cr0_some : cr0_maybe1 Samples.processor ≢ 0
unfolding cr0_maybe1
cr0_some = λ e. absurd (omega arith)

cr4_some : cr4_maybe1 Samples.processor ≢ 0
cr4_some = λ e. absurd (omega arith)

check_features-Passed_example : Passed Samples.processor checked
check_features-Passed_example = check_features-Passed Samples.processor unset first_passes

processor-Suits : Suits Samples.processor unset
unfolding addons add_if
processor-Suits = record { addon_allowed = refl; cr0 = inl refl; cr4 = inl refl }

check_features-accepts_example : (check_features Samples.processor unset).0 ≡ none
check_features-accepts_example =
    check_features-accepts Samples.processor unset
      (check_features-Passed Samples.processor unset first_passes).supports processor-Suits

abbrev start : Init
start = record {
  cpu = Samples.cpu;
  vmx = unset;
  machine = record { cr0 = 0x80050033; cr4 = 0x20; feature_control = 0; perf_global_ctrl = 0 };
}

vcpu_init-Outcome_example :
    Outcome Samples.processor Samples.instructions Samples.host Samples.target start
      (vcpu_init Samples.processor Samples.instructions Samples.host Samples.target start)
vcpu_init-Outcome_example =
    vcpu_init-Outcome Samples.processor Samples.instructions Samples.host Samples.target start refl
      (λ f. refl)

sizes : IsLinux Samples.linux
sizes = record {
  gdtr_limit = omega arith;
  idtr_limit = omega arith;
  cs = omega arith;
  ds = omega arith;
  es = omega arith;
  fs = omega arith;
  gs = omega arith;
  tss = omega arith;
}

abbrev returned : PerCpu × (ℕ × ℕ)
returned = deactivate_vmm (vmcs_setup Samples.vmx Samples.host Samples.target Samples.cpu).1

abbrev pat_reader : PerCpu
pat_reader = Samples.cpu_with Consts.msr_ia32_pat 0 (Samples.vmcs_with 0 0)

pat_traps : traps (early_msr_bitmap true msr_bitmap).reads Consts.msr_ia32_pat ≡ true
unfolding traps early_msr_bitmap msr_bitmap
pat_traps = refl

trapped_read-handled_example : (handle_msr_read Samples.x2apic pat_reader).0 ≡ true
trapped_read-handled_example =
    trapped_read-handled true Samples.x2apic pat_reader (omega arith) pat_traps

protected_write-traps_example : traps (early_msr_bitmap false msr_bitmap).writes 0x20f ≡ true
protected_write-traps_example = protected_write-traps false 0x20f refl
