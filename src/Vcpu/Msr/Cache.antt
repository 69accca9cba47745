-- ===== src/Vcpu/Msr/Cache.antt =====
-- The memory types of a guest: its PAT is always valid, and the VMCS holds it just while MTRRs are on.
use spy.Base.{
  ℕ, zero, suc, ◌+◌, ◌*◌, ◌/◌, ◌%◌, ◌^◌, ◌<◌, ◌≤◌, ◌≡◌, ◌≢◌, ◌↔◌, ◌∙◌, ap, sym, refl, arith, Bool,
  true, false, not, ◌||◌, ltb, ◌==◌, bit_and, bit_or, not64, ◌>>>◌, has, if◌then◌else◌, Bool-cases,
  inl, inr, bit_and_mask, bit_and-bit_or, bit_and_assoc, bit_and-zero, zero-bit_or, bit_or_fields,
  bit_or_comm, ℕ_discrete,
}
use spy.Vmcs.{update}
use spy.Vmcs.Fields
use spy.Vmcs.Laws.{AllSupported, write-fields, write-supported}
use spy.Cpu.{
  PerCpu, rcx, count, set_rdmsr_value, get_wrmsr_value, set_reg, skip_emulated_instruction,
  write_field,
}
use spy.Cpu.Consts
use spy.Vmx.{Vmx, TargetAddrs}
use spy.Vmx.Reset.{ResetConfig, vendor_reset}
use spy.Vmx.Reset.Laws.{vendor_reset-pat, vendor_reset-AllSupported}
use spy.Vcpu.{set_guest_pat}
use spy.Vcpu.Msr.{
  X2apic, is_x2apic, pat_ok_from, write_pat, write_mtrr, handle_msr_write, vcpu_reset,
}

-- Every byte is a memory type: UC, WC, WT, WP, WB or UC-.
abbrev pub IsPat : ℕ → Type 0
IsPat val =
    (i : ℕ)
    → i < 8
    → (val / 2 ^ (8 * i) % 256 ≢ 2) × (val / 2 ^ (8 * i) % 256 ≢ 3) × (val / 2 ^ (8 * i) % 256 ≤ 7)

byte_ok : ℕ → ℕ → Bool
byte_ok val bit_pos =
    let pa = bit_and (val >>> bit_pos) 0xff in not (pa == 2 || pa == 3 || ltb 7 pa)

byte_ok_iff :
    (val bit_pos : ℕ)
    → (byte_ok val bit_pos ≡ true) ↔ (
        (val / 2 ^ bit_pos % 256 ≢ 2)
        × (val / 2 ^ bit_pos % 256 ≢ 3)
        × (val / 2 ^ bit_pos % 256 ≤ 7))
unfolding byte_ok
byte_ok_iff val bit_pos = rw (bit_and_mask 8 (val >>> bit_pos)) (ground arith)

pat_ok_sound :
    (left n val i : ℕ)
    → pat_ok_from left (8 * n) val ≡ true
    → n ≤ i
    → i < n + left
    → byte_ok val (8 * i) ≡ true
unfolding pat_ok_from byte_ok
pat_ok_sound zero n val i h lo hi = absurd (omega arith)
pat_ok_sound (suc left) n val i h lo hi =
    let e : 8 * (n + 1) ≡ 8 * n + 8 = omega arith in
    let ih = pat_ok_sound left (n + 1) val i in
    elim (ℕ_discrete n i) [ yes same ↦ ground arith | no ne ↦ ground (arith, rw e at ih) ]

pat_ok_complete :
    (left n val : ℕ)
    → ((i : ℕ) → i < n + left → byte_ok val (8 * i) ≡ true)
    → pat_ok_from left (8 * n) val ≡ true
unfolding pat_ok_from byte_ok
pat_ok_complete zero n val h = refl
pat_ok_complete (suc left) n val h =
    let e : 8 * (n + 1) ≡ 8 * n + 8 = omega arith in
    let ih = pat_ok_complete left (n + 1) val (λ i lt. h i (omega arith)) in
    ground (arith, h n (omega arith), rw e at ih)

-- The loop accepts a value exactly when it is a PAT value.
pub pat_ok_from-IsPat : (val : ℕ) → (pat_ok_from 8 0 val ≡ true) ↔ IsPat val
pat_ok_from-IsPat val = (
  λ h i lt. (byte_ok_iff val (8 * i)).0 (pat_ok_sound 8 0 val i h (omega arith) (omega arith)),
  λ h. pat_ok_complete 8 0 val (λ i lt. (byte_ok_iff val (8 * i)).1 (h i (omega arith))),
)

-- The PAT that the VMCS should hold: with MTRRs off all memory is uncached.
abbrev pub effective_pat : PerCpu → ℕ
effective_pat cpu = if has cpu.mtrr_def_type Consts.mtrr_enable then cpu.pat else 0

pub record IsCached (cpu : PerCpu) : Type 0 where
  pub valid : IsPat cpu.pat
  pub coherent : cpu.vmcs.fields Fields.guest_ia32_pat ≡ effective_pat cpu

module _ (cpu : PerCpu) (all : AllSupported cpu.vmcs) where
  skip-pat :
      (len : ℕ)
      → (skip_emulated_instruction len cpu).vmcs.fields Fields.guest_ia32_pat
        ≡ cpu.vmcs.fields Fields.guest_ia32_pat
  unfolding skip_emulated_instruction write_field
  skip-pat len = write-fields Fields.guest_rip _ cpu.vmcs Fields.guest_ia32_pat (all _)

  skip-IsCached : (len : ℕ) → IsCached cpu → IsCached (skip_emulated_instruction len cpu)
  unfolding skip_emulated_instruction write_field
  skip-IsCached len c = record { valid = c.valid; coherent = skip-pat len ∙ c.coherent }

  set-IsCached :
      (val : ℕ) → IsPat cpu.pat → val ≡ effective_pat cpu → IsCached (set_guest_pat val cpu)
  unfolding set_guest_pat write_field
  set-IsCached val valid e = record {
    valid = valid;
    coherent = write-fields Fields.guest_ia32_pat val cpu.vmcs Fields.guest_ia32_pat (all _) ∙ e;
  }

  set-AllSupported : (val : ℕ) → AllSupported (set_guest_pat val cpu).vmcs
  unfolding set_guest_pat write_field
  set-AllSupported val f = write-supported Fields.guest_ia32_pat val cpu.vmcs f ∙ all f

-- The MTRR bit that a write takes over.
mtrr_bit :
    (old val : ℕ)
    → has
        (bit_or (bit_and old (not64 Consts.mtrr_enable)) (bit_and val Consts.mtrr_enable))
        Consts.mtrr_enable
      ≡ has val Consts.mtrr_enable
mtrr_bit old val =
    let e = Consts.mtrr_enable in
    rw
      (
        bit_and-bit_or (bit_and old (not64 e)) (bit_and val e) e,
        bit_and_assoc old (not64 e) e,
        bit_and-zero old,
        bit_and_assoc val e e,
        zero-bit_or,
      )
      refl

module _ (cpu : PerCpu) (all : AllSupported cpu.vmcs) (c : IsCached cpu) where
  write_pat-IsCached : (val : ℕ) → IsCached (write_pat val cpu).1
  unfolding write_pat
  write_pat-IsCached val =
      let stored : PerCpu = record cpu { pat = val } in
      elim (Bool-cases (pat_ok_from 8 0 val)) [
        | inr bad ↦ rw bad c
        | inl fine ↦
            let valid = (pat_ok_from-IsPat val).0 fine in
            elim (Bool-cases (has cpu.mtrr_def_type Consts.mtrr_enable)) [
              | inl on ↦
                  rw (fine, on)
                    (skip-IsCached (set_guest_pat val stored) (set-AllSupported stored all val) 2
                      (set-IsCached stored all val valid (rw on refl)))
              | inr off ↦
                  rw (fine, off)
                    (skip-IsCached stored all 2
                      (record { valid = valid; coherent = c.coherent ∙ rw off refl }))
            ]
      ]

  write_mtrr-IsCached : (val : ℕ) → IsCached (write_mtrr val cpu).1
  unfolding write_mtrr
  write_mtrr-IsCached val =
      let mtrr =
        bit_or (bit_and cpu.mtrr_def_type (not64 Consts.mtrr_enable))
          (bit_and val Consts.mtrr_enable) in
      let stored : PerCpu = record cpu { mtrr_def_type = mtrr } in
      let pat = if has val Consts.mtrr_enable then cpu.pat else 0 in
      skip-IsCached (set_guest_pat pat stored) (set-AllSupported stored all pat) 2 (
        set-IsCached stored all pat c.valid
          (ap (λ b. if b then cpu.pat else 0) (sym (mtrr_bit cpu.mtrr_def_type val))))

mtrr_off : (x : ℕ) → has (bit_and x (not64 Consts.mtrr_enable)) Consts.mtrr_enable ≡ false
mtrr_off x = rw (bit_and_assoc x (not64 Consts.mtrr_enable) Consts.mtrr_enable, bit_and-zero x) refl

pat_reset_ok : pat_ok_from 8 0 Consts.pat_reset_value ≡ true
unfolding pat_ok_from
pat_reset_ok = refl

hard_off :
    (cpu : PerCpu) (val : ℕ)
    → has cpu.mtrr_def_type Consts.mtrr_enable ≡ false
    → effective_pat (set_guest_pat val cpu) ≡ 0
unfolding set_guest_pat write_field
hard_off cpu val off = rw off refl

-- Every MSR write of a guest, accepted or not, keeps the guest's PAT valid and the PAT of the VMCS in
-- step with it, on a processor that has all fields of the VMCS and with x2APIC code that does the same.
pub handle_msr_write-IsCached :
    (x2apic : X2apic) (cpu : PerCpu)
    → AllSupported cpu.vmcs
    → AllSupported (x2apic.handle_write cpu).1.vmcs
    → (IsCached cpu → IsCached (x2apic.handle_write cpu).1)
    → IsCached cpu
    → IsCached (handle_msr_write x2apic cpu).1
unfolding handle_msr_write
handle_msr_write-IsCached x2apic cpu all all' keeps c =
    let msr = cpu.guest_regs rcx in
    let counted = count Consts.spy_cpu_stat_vmexits_msr_other cpu in
    elim (Bool-cases (is_x2apic msr)) [
      | inl apic ↦ elim (Bool-cases (x2apic.handle_write cpu).0) [
        | inl fine ↦ rw (apic, fine) (skip-IsCached (x2apic.handle_write cpu).1 all' 2 (keeps c))
        | inr bad ↦ rw (apic, bad) (keeps c)
      ]
      | inr other ↦ elim (Bool-cases (msr == Consts.msr_ia32_pat)) [
        | inl is_pat ↦
            rw (other, is_pat)
              (write_pat-IsCached counted all (record { valid = c.valid; coherent = c.coherent })
                (get_wrmsr_value cpu))
        | inr other' ↦ elim (Bool-cases (msr == Consts.msr_ia32_mtrr_def_type)) [
          | inl is_mtrr ↦
              rw (other, other', is_mtrr)
                (write_mtrr-IsCached counted all (record { valid = c.valid; coherent = c.coherent })
                  (get_wrmsr_value cpu))
          | inr none_ ↦ rw (other, other', none_) c
        ]
      ]
    ]

-- On a processor that has all fields of the VMCS, a reset keeps the guest's PAT valid and the PAT of the
-- VMCS in step with it; after a hard reset all memory is uncached, and any other reset keeps the
-- guest's memory types.
vcpu_reset-IsCached :
    (vmx : Vmx) (config : ResetConfig) (target : TargetAddrs) (sipi_vector : ℕ) (cpu : PerCpu)
    → AllSupported cpu.vmcs
    → IsCached cpu
    → IsCached (vcpu_reset vmx config target sipi_vector cpu).1
      × (effective_pat (vcpu_reset vmx config target sipi_vector cpu).1
          ≡ (if sipi_vector == config.apic_bsp_pseudo_sipi then 0 else effective_pat cpu))
unfolding vcpu_reset
vcpu_reset-IsCached vmx config target sipi_vector cpu all c =
    let r = vendor_reset vmx config target sipi_vector cpu.vmcs in
    let cleared : PerCpu = record cpu { vmcs = r.1; guest_regs = λ _. 0 } in
    let hard : PerCpu = record cleared {
      pat = Consts.pat_reset_value;
      mtrr_def_type = bit_and cpu.mtrr_def_type (not64 Consts.mtrr_enable);
    } in
    let off : has hard.mtrr_def_type Consts.mtrr_enable ≡ false = mtrr_off cpu.mtrr_def_type in
    let all' = vendor_reset-AllSupported vmx config target sipi_vector cpu.vmcs all in
    elim (Bool-cases (sipi_vector == config.apic_bsp_pseudo_sipi)) [
      | inl bsp ↦ rw bsp (
        set-IsCached hard all' 0 ((pat_ok_from-IsPat Consts.pat_reset_value).0 pat_reset_ok)
            (rw off refl),
        hard_off hard 0 off,
      )
      | inr sipi ↦ rw sipi (
        record {
          valid = c.valid;
          coherent = vendor_reset-pat vmx config target sipi_vector cpu.vmcs all ∙ c.coherent;
        },
        refl,
      )
    ]

-- The two halves in which the guest reads a value are those from which it is written.
get_wrmsr_value-set_rdmsr_value :
    (val : ℕ) (cpu : PerCpu) → val < 2 ^ 64 → get_wrmsr_value (set_rdmsr_value val cpu) ≡ val
unfolding get_wrmsr_value set_rdmsr_value set_reg update
get_wrmsr_value-set_rdmsr_value val cpu lt =
    let hi = val / 2 ^ 32 in
    let lo = val % 2 ^ 32 in
    let cut : hi * 2 ^ 32 % 2 ^ 64 ≡ hi * 2 ^ 32 = omega arith in
    let low : val % 2 ^ 32 % 2 ^ 32 ≡ lo = omega arith in
    rw (low, cut, bit_or_comm lo (hi * 2 ^ 32), bit_or_fields 32 hi lo (omega arith)) (omega arith)
