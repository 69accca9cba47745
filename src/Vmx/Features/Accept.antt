-- ===== src/Vmx/Features/Accept.antt =====
-- Which CPUs `vmx_check_features` lets run the hypervisor.
use spy.Base.{
  ℕ, ◌-◌, ◌/◌, ◌%◌, ◌^◌, ◌≡◌, ◌⊎◌, refl, arith, true, ◌==◌, leb, bit_and, bit_or, bit_and_mask,
  none, inl, inr, ==_self, Bool-cases, ==_iff,
}
use spy.Base.Flags.{bit_has, none_has, some_has, all_has}
use spy.Cpu.Consts
use spy.Vmx.{Vmx, cr0_idx, cr4_idx}
use spy.Vmx.Cr.{define_cr_restrictions}
use spy.Vmx.Features.Bits.{Basic, Pins, Primary, Secondary, EntryExit}
use spy.Vmx.Features.Agree.{Supports, define_other}
use spy.Vmx.Features.{
  Processor, addons, basic_ok, pin_ok, proc_ok, cr3_ok, ept_ok, entry_exit_ok, misc_ok, cr0_maybe1,
  cr0_required1, cr4_maybe1, cr4_required1, check_features,
}

Basic-basic_ok : (hw : Processor) → Basic hw → basic_ok hw ≡ true
unfolding basic_ok
Basic-basic_ok hw (size, kind, controls) =
    let x = hw.read_msr 0x480 in
    let small : leb (bit_and (x / 2 ^ 32) 0x1fff) 4096 ≡ true =
      rw (bit_and_mask 13 (x / 2 ^ 32)) (ground arith) in
    let back : (bit_and (x / 2 ^ 50) 0xf == 6) ≡ true =
      rw (bit_and_mask 4 (x / 2 ^ 50), kind) refl in
    rw (small, back, bit_has 55 x controls) refl

Pins-pin_ok : (hw : Processor) → Pins hw → pin_ok hw ≡ true
unfolding pin_ok
Pins-pin_ok hw (nmi, timer) =
    let x = hw.read_msr 0x481 / 2 ^ 32 in rw (bit_has 3 x nmi, bit_has 6 x timer) refl

Primary-proc_ok : (hw : Processor) → Primary hw → proc_ok hw ≡ true
unfolding proc_ok
Primary-proc_ok hw (io, msr, second) =
    let x = hw.read_msr 0x482 / 2 ^ 32 in
    rw (bit_has 25 x io, bit_has 28 x msr, bit_has 31 x second) refl

free-cr3_ok : (hw : Processor) → hw.read_msr 0x48e / 2 ^ 15 % 2 ^ 2 ≡ 0 → cr3_ok hw ≡ true
unfolding cr3_ok
free-cr3_ok hw h = rw (none_has 15 2 (hw.read_msr 0x48e) h) refl

Secondary-ept_ok : (hw : Processor) → Secondary hw → ept_ok hw ≡ true
unfolding ept_ok
Secondary-ept_ok hw (apic, ept, unrestricted, walk, back, invept, kinds) =
    let x = hw.read_msr 0x48b / 2 ^ 32 in
    let cap = hw.read_msr 0x48c in
    let all : (bit_and cap Consts.ept_mandatory_features == Consts.ept_mandatory_features) ≡ true =
      all_has 6 14 20 cap walk back invept in
    rw (bit_has 0 x apic, bit_has 1 x ept, all, some_has 25 2 cap kinds, bit_has 7 x unrestricted)
      refl

EntryExit-entry_exit_ok : (hw : Processor) → EntryExit hw → entry_exit_ok hw ≡ true
unfolding entry_exit_ok
EntryExit-entry_exit_ok hw (n14, n15, x18, x19, x20, x21) =
    let n = hw.read_msr 0x484 / 2 ^ 32 in
    let x = hw.read_msr 0x483 / 2 ^ 32 in
    rw
      (
        bit_has 14 n n14,
        bit_has 15 n n15,
        bit_has 18 x x18,
        bit_has 19 x x19,
        bit_has 20 x x20,
        bit_has 21 x x21,
      )
      refl

hlt-misc_ok : (hw : Processor) → hw.read_msr 0x485 / 2 ^ 6 % 2 ≡ 1 → misc_ok hw ≡ true
unfolding misc_ok
hlt-misc_ok hw h = bit_has 6 (hw.read_msr 0x485) h

-- Restrictions that suit those of CPUs checked before: none was checked, or they are the same.
abbrev pub Fits : Vmx → ℕ → ℕ → ℕ → Type 0
Fits vmx cr_idx maybe1 required1 =
    (vmx.cr_maybe1 cr_idx ≡ 0)
    ⊎ ((vmx.cr_maybe1 cr_idx ≡ maybe1) × (vmx.cr_required1 cr_idx ≡ required1))

-- The secondary controls that are asked for may be one, and the fixed bits of CR0 and CR4 suit the CPUs checked before.
pub record Suits (hw : Processor) (vmx : Vmx) : Type 0 where
  pub addon_allowed :
      bit_and (hw.read_msr 0x48b / 2 ^ 32) (addons hw vmx.secondary_exec_addon)
      ≡ addons hw vmx.secondary_exec_addon
  pub cr0 :
      Fits vmx 0
        (bit_and (hw.read_msr 0x487) (2 ^ 64 - 1 - 0x60000000))
        (bit_or (bit_and (hw.read_msr 0x486) (2 ^ 64 - 1 - 0x80000001)) 0x10)
  pub cr4 : Fits vmx 1 (hw.read_msr 0x489) (hw.read_msr 0x488)

define-Fits :
    (cr_idx maybe1 required1 : ℕ) (vmx : Vmx)
    → Fits vmx cr_idx maybe1 required1
    → (define_cr_restrictions cr_idx maybe1 required1 vmx).0 ≡ true
unfolding define_cr_restrictions
define-Fits cr_idx maybe1 required1 vmx (inl unset) = rw unset refl
define-Fits cr_idx maybe1 required1 vmx (inr (m, r)) =
    elim (Bool-cases (vmx.cr_maybe1 cr_idx == 0)) [
      | inl e ↦ rw e refl
      | inr e ↦ rw (e, m, r, ==_self maybe1, ==_self required1) refl
    ]

-- The check does not fail on a CPU that has the features, may set the secondary controls that it is asked to set, and
-- has restrictions that suit those of the CPUs checked before.
pub check_features-accepts :
    (hw : Processor) (vmx : Vmx) → Supports hw → Suits hw vmx → (check_features hw vmx).0 ≡ none
unfolding check_features cr0_maybe1 cr0_required1
check_features-accepts hw vmx has_all suits =
    let addon = addons hw vmx.secondary_exec_addon in
    let vmx1 : Vmx = record vmx { secondary_exec_addon = addon } in
    let step0 = define_cr_restrictions cr0_idx (cr0_maybe1 hw) (cr0_required1 hw) vmx1 in
    let other =
      define_other cr0_idx (cr0_maybe1 hw) (cr0_required1 hw) cr4_idx vmx1 (omega arith) in
    let same4 : Fits step0.1 1 (cr4_maybe1 hw) (cr4_required1 hw) =
      rw (other.0, other.1) suits.cr4 in
    rw
      (
        bit_has 5 (hw.cpuid 1 0).ecx has_all.vmx_present,
        Basic-basic_ok hw has_all.basic,
        Pins-pin_ok hw has_all.pins,
        Primary-proc_ok hw has_all.primary,
        free-cr3_ok hw has_all.cr3_free,
        Secondary-ept_ok hw has_all.secondary,
        (==_iff (bit_and (hw.read_msr 0x48b / 2 ^ 32) addon) addon).1 suits.addon_allowed,
        EntryExit-entry_exit_ok hw has_all.entry_exit,
        hlt-misc_ok hw has_all.hlt,
        define-Fits cr0_idx (cr0_maybe1 hw) (cr0_required1 hw) vmx1 suits.cr0,
        define-Fits cr4_idx (cr4_maybe1 hw) (cr4_required1 hw) step0.1 same4,
      )
      refl
