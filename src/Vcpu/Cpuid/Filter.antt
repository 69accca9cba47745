-- ===== src/Vcpu/Cpuid/Filter.antt =====
-- What a target learns from CPUID.
use spy.Base.{
  ℕ, ◌≡◌, ◌≢◌, ◌∙◌, ap, refl, arith, Bool, true, false, bit_and, bit_or, not64, u32, has,
  if◌then◌else◌, Bool-cases, inl, inr, bit_and_assoc, bit_and-bit_or, bit_and-zero, bit_or-zero,
  bit_and-bit_or_self, ==_ne,
}
use spy.Cpu.{PerCpu, rax, rcx, set_reg, count, skip_emulated_instruction, write_field}
use spy.Cpu.Consts
use spy.Vmcs.{update}
use spy.Vmx.{Vmx}
use spy.Vmx.Cr.{get_guest_cr4}
use spy.Vmx.Features.{CpuidRegs}
use spy.Vcpu.Cpuid.{sign_extend, leaf1_rcx, ext_rcx, filter_rcx, set_all, answer, handle_cpuid}
use spy.Vmx.Setup.Laws.{or_has}

-- A flag that was cleared last but for one that does not touch it.
lost : (x f : ℕ) → bit_and (not64 f) f ≡ 0 → bit_and (bit_and x (not64 f)) f ≡ 0
lost x f h = rw (bit_and_assoc x (not64 f) f, h) (bit_and-zero x)

module _ (cr4 c : ℕ) where
  -- The bits of leaf 0x01 in a target that is not the root.
  abbrev hidden : ℕ
  hidden =
      bit_or (bit_and c (not64 Consts.x86_feature_vmx)) (sign_extend Consts.x86_feature_hypervisor)

  vmx-hidden : has hidden Consts.x86_feature_vmx ≡ false
  vmx-hidden =
      rw
        (
          bit_and-bit_or (bit_and c (not64 Consts.x86_feature_vmx))
              (sign_extend Consts.x86_feature_hypervisor) Consts.x86_feature_vmx,
          lost c Consts.x86_feature_vmx refl,
        )
        refl

-- OSXSAVE does not touch another flag.
osxsave-other :
    (is_root : Bool) (cr4 c f : ℕ)
    → bit_and (not64 Consts.x86_feature_osxsave) f ≡ f
    → bit_and Consts.x86_feature_osxsave f ≡ 0
    → bit_and (leaf1_rcx is_root cr4 c) f ≡ bit_and (if is_root then c else hidden cr4 c) f
unfolding leaf1_rcx
osxsave-other is_root cr4 c f keep apart =
    let c1 = if is_root then c else hidden cr4 c in
    elim (Bool-cases (has cr4 Consts.x86_cr4_osxsave)) [
      | inl on ↦
          rw
            (
              on,
              bit_and-bit_or (bit_and c1 (not64 Consts.x86_feature_osxsave))
                  Consts.x86_feature_osxsave f,
              bit_and_assoc c1 (not64 Consts.x86_feature_osxsave) f,
              keep,
              apart,
            )
            (bit_or-zero _)
      | inr off ↦ rw (off, bit_and_assoc c1 (not64 Consts.x86_feature_osxsave) f, keep) refl
    ]

osxsave-mirrors :
    (is_root : Bool) (cr4 c : ℕ)
    → has (leaf1_rcx is_root cr4 c) Consts.x86_feature_osxsave ≡ has cr4 Consts.x86_cr4_osxsave
unfolding leaf1_rcx
osxsave-mirrors is_root cr4 c =
    let c1 = if is_root then c else hidden cr4 c in
    elim (Bool-cases (has cr4 Consts.x86_cr4_osxsave)) [
      | inl on ↦
          rw
            (
              on,
              bit_and-bit_or_self (bit_and c1 (not64 Consts.x86_feature_osxsave))
                  Consts.x86_feature_osxsave,
            )
            refl
      | inr off ↦ rw (off, lost c1 Consts.x86_feature_osxsave refl) refl
    ]

-- What the guest reads of leaf `function`.
abbrev pub seen : (ℕ → ℕ → CpuidRegs) → Bool → Vmx → PerCpu → ℕ → ℕ
seen cpuid is_root vmx cpu reg = (handle_cpuid cpuid is_root vmx cpu).guest_regs reg

module _ (cpuid : ℕ → ℕ → CpuidRegs) (vmx : Vmx) (cpu : PerCpu) where
  abbrev cr4 : ℕ
  cr4 = get_guest_cr4 vmx cpu.vmcs

  -- RCX after a leaf that is passed on.
  module _ (is_root : Bool) (function : ℕ) (leaf : u32 (cpu.guest_regs rax) ≡ function)
      (not_own : function ≢ Consts.spy_cpuid_signature)
      (not_own' : function ≢ Consts.spy_cpuid_features) where
    abbrev ecx : ℕ
    ecx = u32 (cpuid function (u32 (cpu.guest_regs rcx))).ecx

    seen-rcx : seen cpuid is_root vmx cpu rcx ≡ filter_rcx is_root cr4 function ecx
    unfolding handle_cpuid answer set_all set_reg update skip_emulated_instruction write_field count
    seen-rcx =
        ap
          (λ f.
            (answer cpuid is_root cr4 f (count Consts.spy_cpu_stat_vmexits_cpuid cpu)).guest_regs
              rcx)
          leaf
        ∙ rw
            (
              ==_ne function Consts.spy_cpuid_signature not_own,
              ==_ne function Consts.spy_cpuid_features not_own',
            )
            refl

  leaf1 :
      (is_root : Bool) (leaf : u32 (cpu.guest_regs rax) ≡ 1)
      → seen cpuid is_root vmx cpu rcx
        ≡ leaf1_rcx is_root cr4 (ecx is_root 1 leaf (omega arith) (omega arith))
  unfolding filter_rcx
  leaf1 is_root leaf = seen-rcx is_root 1 leaf (omega arith) (omega arith)

  -- In every target the OSXSAVE flag of leaf 0x01 is that of the guest's CR4.
  cpuid_osxsave :
      (is_root : Bool)
      → u32 (cpu.guest_regs rax) ≡ 1
      → has (seen cpuid is_root vmx cpu rcx) Consts.x86_feature_osxsave
        ≡ has cr4 Consts.x86_cr4_osxsave
  cpuid_osxsave is_root leaf = rw (leaf1 is_root leaf) (osxsave-mirrors is_root cr4 _)

  -- Leaf 0x01 in a target that is not the root hides VMX and shows a hypervisor. But RCX has a high
  -- half of ones there.
  cpuid_leaf1 :
      u32 (cpu.guest_regs rax) ≡ 1
      → (has (seen cpuid false vmx cpu rcx) Consts.x86_feature_vmx ≡ false)
        × (has (seen cpuid false vmx cpu rcx) Consts.x86_feature_hypervisor ≡ true)
        × (bit_and (seen cpuid false vmx cpu rcx) 0xffffffff00000000 ≡ 0xffffffff00000000)
  cpuid_leaf1 leaf = rw (leaf1 false leaf) (
    rw (osxsave-other false cr4 _ Consts.x86_feature_vmx refl refl) (vmx-hidden cr4 _),
    rw
        (
          osxsave-other false cr4 _ Consts.x86_feature_hypervisor refl refl,
          or_has _ (sign_extend Consts.x86_feature_hypervisor) Consts.x86_feature_hypervisor refl,
        )
        refl,
    osxsave-other false cr4 _ 0xffffffff00000000 refl refl
        ∙ or_has _ (sign_extend Consts.x86_feature_hypervisor) 0xffffffff00000000 refl,
  )

  -- Leaf 0x80000001 in a target that is not the root hides SVM.
  cpuid_svm :
      u32 (cpu.guest_regs rax) ≡ 0x80000001
      → has (seen cpuid false vmx cpu rcx) Consts.x86_feature_svm ≡ false
  unfolding filter_rcx ext_rcx
  cpuid_svm leaf =
      rw
        (
          seen-rcx false 0x80000001 leaf (omega arith) (omega arith),
          lost _ Consts.x86_feature_svm refl,
        )
        refl
