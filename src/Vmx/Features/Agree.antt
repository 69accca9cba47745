-- ===== src/Vmx/Features/Agree.antt =====
-- What holds once CPUs have passed the check of features.
use spy.Base.{
  ℕ, ◌≡◌, ◌≢◌, ◌∙◌, ap, sym, refl, arith, Bool, true, false, not, ◌==◌, bit_and, bit_or, ◌-◌, ◌/◌,
  ◌%◌, ◌^◌, Option, none, some, if◌then◌else◌, Bool-cases, inl, inr, has, ==_iff, ==_ne, ==_self,
}
use spy.Base.Flags.{has_bit}
use spy.Base.Result.{Errno}
use spy.Cpu.Consts
use spy.Vmcs.{update}
use spy.Vmx.{Vmx, cr0_idx, cr4_idx}
use spy.Vmx.Cr.{define_cr_restrictions}
use spy.Vmx.Features.Bits.{
  Bit, Basic, Pins, Primary, Secondary, EntryExit, basic_ok-Basic, pin_ok-Pins, proc_ok-Primary,
  cr3_ok-free, ept_ok-Secondary, entry_exit_ok-EntryExit, misc_ok-hlt,
}
use spy.Vmx.Features.{
  Processor, basic_ok, pin_ok, proc_ok, cr3_ok, ept_ok, addons, entry_exit_ok, misc_ok, cr0_maybe1,
  cr0_required1, cr4_maybe1, cr4_required1, check_features, allowed1,
}

-- The static variables hold the restrictions of the CPU.
record Known (hw : Processor) (vmx : Vmx) : Type 0 where
  cr0_may : vmx.cr_maybe1 cr0_idx ≡ cr0_maybe1 hw
  cr0_must : vmx.cr_required1 cr0_idx ≡ cr0_required1 hw
  cr4_may : vmx.cr_maybe1 cr4_idx ≡ cr4_maybe1 hw
  cr4_must : vmx.cr_required1 cr4_idx ≡ cr4_required1 hw

-- What a CPU must have: VMX of CPUID leaf 1, and the bits of the capability MSRs.
pub record Supports (hw : Processor) : Type 0 where
  pub vmx_present : Bit (hw.cpuid 1 0).ecx 5
  pub basic : Basic hw
  pub pins : Pins hw
  pub primary : Primary hw
  pub cr3_free : hw.read_msr 0x48e / 2 ^ 15 % 2 ^ 2 ≡ 0
  pub secondary : Secondary hw
  pub entry_exit : EntryExit hw
  pub hlt : Bit (hw.read_msr 0x485) 6

-- The static variables after a check that passed name secondary controls that the CPU may set, and hold the fixed
-- bits of CR4, and of CR0 less NW and CD that may be one, and less PE and PG that must be one, with ET.
pub record Passed (hw : Processor) (vmx : Vmx) : Type 0 where
  pub supports : Supports hw
  pub addon_allowed :
      bit_and (hw.read_msr 0x48b / 2 ^ 32) vmx.secondary_exec_addon ≡ vmx.secondary_exec_addon
  pub cr0_may : vmx.cr_maybe1 0 ≡ bit_and (hw.read_msr 0x487) (2 ^ 64 - 1 - 0x60000000)
  pub cr0_must :
      vmx.cr_required1 0 ≡ bit_or (bit_and (hw.read_msr 0x486) (2 ^ 64 - 1 - 0x80000001)) 0x10
  pub cr4_may : vmx.cr_maybe1 1 ≡ hw.read_msr 0x489
  pub cr4_must : vmx.cr_required1 1 ≡ hw.read_msr 0x488

-- A guard that a run without an error has passed.
passes :
    (test : Bool) (e : Errno) (v : Vmx) (rest : Option Errno × Vmx) {vmx' : Vmx}
    → (if not test then (some e, v) else rest) ≡ (none, vmx')
    → (test ≡ true) × (rest ≡ (none, vmx'))
passes true e v rest h = (refl, h)
passes false e v rest h = cc

define_known :
    (cr_idx m r : ℕ) (vmx : Vmx)
    → (define_cr_restrictions cr_idx m r vmx).0 ≡ true
    → ((define_cr_restrictions cr_idx m r vmx).1.cr_maybe1 cr_idx ≡ m)
      × ((define_cr_restrictions cr_idx m r vmx).1.cr_required1 cr_idx ≡ r)
unfolding define_cr_restrictions update
define_known cr_idx m r vmx h = elim (Bool-cases (vmx.cr_maybe1 cr_idx == 0)) [
  | inl e ↦ rw (e, ==_self cr_idx) (refl, refl)
  | inr e ↦ rw e (ground arith)
]

pub define_other :
    (cr_idx m r other : ℕ) (vmx : Vmx)
    → other ≢ cr_idx
    → ((define_cr_restrictions cr_idx m r vmx).1.cr_maybe1 other ≡ vmx.cr_maybe1 other)
      × ((define_cr_restrictions cr_idx m r vmx).1.cr_required1 other ≡ vmx.cr_required1 other)
unfolding define_cr_restrictions update
define_other cr_idx m r other vmx ne = elim (Bool-cases (vmx.cr_maybe1 cr_idx == 0)) [
  | inl e ↦ rw (e, ==_ne other cr_idx ne) (refl, refl)
  | inr e ↦ rw e (refl, refl)
]

define_addon :
    (cr_idx m r : ℕ) (vmx : Vmx)
    → (define_cr_restrictions cr_idx m r vmx).1.secondary_exec_addon ≡ vmx.secondary_exec_addon
unfolding define_cr_restrictions
define_addon cr_idx m r vmx = ground arith

module _ (hw : Processor) (vmx : Vmx) where
  abbrev vmx1 : Vmx
  vmx1 = record vmx { secondary_exec_addon = addons hw vmx.secondary_exec_addon }

  abbrev step0 : Bool × Vmx
  step0 = define_cr_restrictions cr0_idx (cr0_maybe1 hw) (cr0_required1 hw) vmx1

  abbrev step4 : Bool × Vmx
  step4 = define_cr_restrictions cr4_idx (cr4_maybe1 hw) (cr4_required1 hw) step0.1

  steps-Known : step0.0 ≡ true → step4.0 ≡ true → Known hw step4.1
  steps-Known h0 h4 =
      let k0 = define_known cr0_idx (cr0_maybe1 hw) (cr0_required1 hw) vmx1 h0 in
      let k4 = define_known cr4_idx (cr4_maybe1 hw) (cr4_required1 hw) step0.1 h4 in
      let o =
        define_other cr4_idx (cr4_maybe1 hw) (cr4_required1 hw) cr0_idx step0.1 (omega arith) in
      record { cr0_may = o.0 ∙ k0.0; cr0_must = o.1 ∙ k0.1; cr4_may = k4.0; cr4_must = k4.1 }

  abbrev addon_test : Bool
  addon_test =
      bit_and (allowed1 hw Consts.msr_ia32_vmx_procbased_ctls2) vmx1.secondary_exec_addon
      == vmx1.secondary_exec_addon

  -- All tests of a check that passed.
  record Tests (vmx' : Vmx) : Type 0 where
    vmx_present : has (hw.cpuid 1 0).ecx Consts.x86_feature_vmx ≡ true
    basic : basic_ok hw ≡ true
    pin : pin_ok hw ≡ true
    proc : proc_ok hw ≡ true
    cr3 : cr3_ok hw ≡ true
    ept : ept_ok hw ≡ true
    addon : addon_test ≡ true
    entry_exit : entry_exit_ok hw ≡ true
    misc : misc_ok hw ≡ true
    same0 : step0.0 ≡ true
    same4 : step4.0 ≡ true
    end : step4.1 ≡ vmx'

  tests : {vmx' : Vmx} → check_features hw vmx ≡ (none, vmx') → Tests vmx'
  unfolding check_features
  tests h =
      let (c1, h1) = passes (has (hw.cpuid 1 0).ecx Consts.x86_feature_vmx) _ _ _ h in
      let (c2, h2) = passes (basic_ok hw) _ _ _ h1 in
      let (c3, h3) = passes (pin_ok hw) _ _ _ h2 in
      let (c4, h4) = passes (proc_ok hw) _ _ _ h3 in
      let (c5, h5) = passes (cr3_ok hw) _ _ _ h4 in
      let (c6, h6) = passes (ept_ok hw) _ _ _ h5 in
      let (c7, h7) = passes addon_test _ _ _ h6 in
      let (c8, h8) = passes (entry_exit_ok hw) _ _ _ h7 in
      let (c9, h9) = passes (misc_ok hw) _ _ _ h8 in
      let (c10, h10) = passes step0.0 _ _ _ h9 in
      let (c11, h11) = passes step4.0 _ _ _ h10 in
      record {
        vmx_present = c1;
        basic = c2;
        pin = c3;
        proc = c4;
        cr3 = c5;
        ept = c6;
        addon = c7;
        entry_exit = c8;
        misc = c9;
        same0 = c10;
        same4 = c11;
        end = ap (λ p. p.1) h11;
      }

  passed-Supports : {vmx' : Vmx} → Tests vmx' → Supports hw
  passed-Supports t = record {
    vmx_present = has_bit 5 (hw.cpuid 1 0).ecx t.vmx_present;
    basic = basic_ok-Basic hw t.basic;
    pins = pin_ok-Pins hw t.pin;
    primary = proc_ok-Primary hw t.proc;
    cr3_free = cr3_ok-free hw t.cr3;
    secondary = ept_ok-Secondary hw t.ept;
    entry_exit = entry_exit_ok-EntryExit hw t.entry_exit;
    hlt = misc_ok-hlt hw t.misc;
  }

  passed-addon :
      {vmx' : Vmx}
      → Tests vmx'
      → bit_and (hw.read_msr 0x48b / 2 ^ 32) vmx'.secondary_exec_addon ≡ vmx'.secondary_exec_addon
  passed-addon t =
      let addon = vmx1.secondary_exec_addon in
      let same : step4.1.secondary_exec_addon ≡ addon =
        define_addon cr4_idx (cr4_maybe1 hw) (cr4_required1 hw) step0.1
        ∙ define_addon cr0_idx (cr0_maybe1 hw) (cr0_required1 hw) vmx1 in
      rw (← t.end, same)
        ((==_iff (bit_and (allowed1 hw Consts.msr_ia32_vmx_procbased_ctls2) addon) addon).0 t.addon)

  passed-Known : {vmx' : Vmx} → Tests vmx' → Known hw vmx'
  passed-Known t = rw (← t.end) (steps-Known t.same0 t.same4)

  -- A CPU that passes the check has all features that the hypervisor needs, told in the bits of CPUID and of the
  -- capability MSRs. Afterwards the static variables hold what its MSRs demand of CR0 and CR4, and name no
  -- secondary control that it lacks.
  pub check_features-Passed : {vmx' : Vmx} → check_features hw vmx ≡ (none, vmx') → Passed hw vmx'
  unfolding cr0_maybe1 cr0_required1
  check_features-Passed h =
      let t = tests h in
      let known = passed-Known t in
      record {
        supports = passed-Supports t;
        addon_allowed = passed-addon t;
        cr0_may = known.cr0_may;
        cr0_must = known.cr0_must;
        cr4_may = known.cr4_may;
        cr4_must = known.cr4_must;
      }

  steps_kept :
      vmx.cr_maybe1 cr0_idx ≢ 0
      → vmx.cr_maybe1 cr4_idx ≢ 0
      → (step4.1.cr_maybe1 ≡ vmx.cr_maybe1) × (step4.1.cr_required1 ≡ vmx.cr_required1)
  unfolding define_cr_restrictions
  steps_kept some0 some4 =
      rw (==_ne (vmx.cr_maybe1 cr0_idx) 0 some0, ==_ne (vmx.cr_maybe1 cr4_idx) 0 some4) (refl, refl)

-- All CPUs that pass the check one after the other, where the first allows some bit of CR0 and some
-- bit of CR4 to be one, have the same restrictions on CR0 and CR4.
check_features_agree :
    (hw hw' : Processor) (vmx : Vmx) {vmx1 vmx2 : Vmx}
    → check_features hw vmx ≡ (none, vmx1)
    → check_features hw' vmx1 ≡ (none, vmx2)
    → cr0_maybe1 hw ≢ 0
    → cr4_maybe1 hw ≢ 0
    → ((cr0_maybe1 hw' ≡ cr0_maybe1 hw) × (cr0_required1 hw' ≡ cr0_required1 hw))
      × ((cr4_maybe1 hw' ≡ cr4_maybe1 hw) × (cr4_required1 hw' ≡ cr4_required1 hw))
check_features_agree hw hw' vmx {vmx1} {vmx2} h h' some0 some4 =
    let k = passed-Known hw vmx (tests hw vmx h) in
    let t' = tests hw' vmx1 h' in
    let k' = passed-Known hw' vmx1 t' in
    let kept =
      steps_kept hw' vmx1 (λ z. some0 (sym k.cr0_may ∙ z)) (λ z. some4 (sym k.cr4_may ∙ z)) in
    let may : (i : ℕ) → vmx2.cr_maybe1 i ≡ vmx1.cr_maybe1 i =
      λ i. rw (← t'.end) (ap (λ f. f i) kept.0) in
    let must : (i : ℕ) → vmx2.cr_required1 i ≡ vmx1.cr_required1 i =
      λ i. rw (← t'.end) (ap (λ f. f i) kept.1) in
    (
      (sym k'.cr0_may ∙ may cr0_idx ∙ k.cr0_may, sym k'.cr0_must ∙ must cr0_idx ∙ k.cr0_must),
      (sym k'.cr4_may ∙ may cr4_idx ∙ k.cr4_may, sym k'.cr4_must ∙ must cr4_idx ∙ k.cr4_must),
    )
