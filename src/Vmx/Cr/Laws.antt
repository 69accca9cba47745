-- ===== src/Vmx/Cr/Laws.antt =====
-- What the guest and the processor see of a control register that was set.
use spy.Base.{
  ℕ, ◌^◌, ◌<◌, ◌≡◌, ◌≢◌, ◌↔◌, ◌∙◌, refl, arith, Bool, true, bit_and, bit_or, not64, digit,
  digit-bit_and, digit-bit_or, digit-complement, digit-le_one, digit_ext, digit_of_lt, dec_lt,
  if◌then◌else◌, ◌||◌, ◌==◌, ==_self, ==_ne, bit_or_lt, bit_and-bit_or_self, Bool-cases, inl, inr,
}
use spy.Vmcs.{Vmcs, update}
use spy.Vmcs.Fields.{
  guest_cr0, guest_cr4, cr0_read_shadow, cr4_read_shadow, cr0_guest_host_mask, cr4_guest_host_mask,
}
use spy.Vmcs.Laws.{AllSupported, writes-fields}
use spy.Cpu.Consts.{x86_cr4_vmxe}
use spy.Vmx.{Vmx, cr4_idx}
use spy.Vmx.Cr.{define_cr_restrictions, shown_cr, guest_cr_writes, set_guest_cr, get_guest_cr4}

-- What a guest reads of a register whose bits in `mask` come from the shadow.
abbrev pub guest_view : ℕ → ℕ → ℕ → ℕ
guest_view shadow real mask = bit_or (bit_and shadow mask) (bit_and real (not64 mask))

module _ (val maybe1 required1 : ℕ) (small : val < 2 ^ 64) (small' : maybe1 < 2 ^ 64)
    (small'' : required1 < 2 ^ 64) where
  abbrev mask : ℕ
  mask = bit_or required1 (not64 maybe1)

  abbrev real : ℕ
  real = bit_or (bit_and val maybe1) required1

  view-digit : (n : ℕ) → digit n (guest_view val real mask) ≡ digit n val
  view-digit n = elim (dec_lt n 64) [
    | yes lt ↦ omega (
      arith,
      digit-complement 64 n mask (bit_or_lt 64 required1 (not64 maybe1) small'' (omega arith)) lt,
      digit-complement 64 n maybe1 small' lt,
      digit-bit_or n (bit_and val mask) (bit_and real (not64 mask)),
      digit-bit_and n val mask,
      digit-bit_and n real (not64 mask),
      digit-bit_or n required1 (not64 maybe1),
      digit-bit_or n (bit_and val maybe1) required1,
      digit-bit_and n val maybe1,
      digit-le_one n val,
      digit-le_one n maybe1,
      digit-le_one n required1,
    )
    | no ge ↦
        let z = digit_of_lt 64 n val small (omega arith) in
        let z' = digit_of_lt 64 n (not64 mask) (omega arith) (omega arith) in
        omega (
          arith,
          z,
          z',
          digit-bit_or n (bit_and val mask) (bit_and real (not64 mask)),
          digit-bit_and n val mask,
          digit-bit_and n real (not64 mask),
        )
  ]

  view-real : guest_view val real mask ≡ val
  view-real = digit_ext (guest_view val real mask) val view-digit

  real-allowed : bit_and real (not64 (bit_or maybe1 required1)) ≡ 0
  real-allowed = digit_ext _ 0 (λ n. elim (dec_lt n 64) [
    | yes lt ↦ omega (
      arith,
      digit-complement 64 n (bit_or maybe1 required1) (bit_or_lt 64 maybe1 required1 small' small'')
          lt,
      digit-bit_and n real (not64 (bit_or maybe1 required1)),
      digit-bit_or n maybe1 required1,
      digit-bit_or n (bit_and val maybe1) required1,
      digit-bit_and n val maybe1,
      digit_of_lt 0 n 0 (omega arith) (omega arith),
    )
    | no ge ↦
        let z' = digit_of_lt 64 n (not64 (bit_or maybe1 required1)) (omega arith) (omega arith) in
        omega (
          arith,
          z',
          digit-bit_and n real (not64 (bit_or maybe1 required1)),
          digit_of_lt 0 n 0 (omega arith) (omega arith),
        )
  ])

-- The fields of CR0, where the index is 0, or of CR4.
abbrev pub real_field : ℕ → ℕ
real_field cr_idx = if cr_idx == 0 then guest_cr0 else guest_cr4

abbrev pub shadow_field : ℕ → ℕ
shadow_field cr_idx = if cr_idx == 0 then cr0_read_shadow else cr4_read_shadow

abbrev pub mask_field : ℕ → ℕ
mask_field cr_idx = if cr_idx == 0 then cr0_guest_host_mask else cr4_guest_host_mask

abbrev pub touches : ℕ → ℕ → Bool
touches cr_idx field =
    field == real_field cr_idx || field == shadow_field cr_idx || field == mask_field cr_idx

-- What is left once a control register is set to `val`: the guest reads `val` from it, with VMXE added
-- in CR4; in the real register the bits that must be one are, and none that must be zero; and no field
-- but the register, its shadow and its mask has changed.
pub record CrSet (vmx : Vmx) (cr_idx val : ℕ) (before after : Vmcs) : Type 0 where
  pub shown :
      guest_view
        (after.fields (shadow_field cr_idx))
        (after.fields (real_field cr_idx))
        (after.fields (mask_field cr_idx))
      ≡ shown_cr cr_idx val
  pub required :
      bit_and (after.fields (real_field cr_idx)) (vmx.cr_required1 cr_idx) ≡ vmx.cr_required1 cr_idx
  pub allowed :
      bit_and
        (after.fields (real_field cr_idx))
        (not64 (bit_or (vmx.cr_maybe1 cr_idx) (vmx.cr_required1 cr_idx)))
      ≡ 0
  pub kept :
      (field : ℕ)
      → after.fields field
        ≡ (if touches cr_idx field then after.fields field else before.fields field)

module _ (vmx : Vmx) (cr_idx val : ℕ) (vmcs : Vmcs) (all : AllSupported vmcs) (small : val < 2 ^ 64)
    (small' : vmx.cr_maybe1 cr_idx < 2 ^ 64) (small'' : vmx.cr_required1 cr_idx < 2 ^ 64) where
  abbrev m : ℕ
  m = vmx.cr_maybe1 cr_idx

  abbrev r : ℕ
  r = vmx.cr_required1 cr_idx

  abbrev v : ℕ
  v = shown_cr cr_idx val

  abbrev after : Vmcs
  after = set_guest_cr vmx cr_idx val vmcs

  shown-small : v < 2 ^ 64
  unfolding shown_cr
  shown-small = elim (Bool-cases (cr_idx == 0)) [
    | inl e ↦ rw e small
    | inr e ↦ rw e (bit_or_lt 64 val x86_cr4_vmxe small (omega arith))
  ]

  field-real : after.fields (real_field cr_idx) ≡ bit_or (bit_and v m) r
  unfolding set_guest_cr guest_cr_writes
  field-real =
      writes-fields (guest_cr_writes vmx cr_idx val) vmcs (real_field cr_idx) all
      ∙ elim (Bool-cases (cr_idx == 0)) [ inl e ↦ rw e refl | inr e ↦ rw e refl ]

  field-shadow : after.fields (shadow_field cr_idx) ≡ v
  unfolding set_guest_cr guest_cr_writes
  field-shadow =
      writes-fields (guest_cr_writes vmx cr_idx val) vmcs (shadow_field cr_idx) all
      ∙ elim (Bool-cases (cr_idx == 0)) [ inl e ↦ rw e refl | inr e ↦ rw e refl ]

  field-mask : after.fields (mask_field cr_idx) ≡ bit_or r (not64 m)
  unfolding set_guest_cr guest_cr_writes
  field-mask =
      writes-fields (guest_cr_writes vmx cr_idx val) vmcs (mask_field cr_idx) all
      ∙ elim (Bool-cases (cr_idx == 0)) [ inl e ↦ rw e refl | inr e ↦ rw e refl ]

  -- Where the VMCS has all fields and the values fit 64 bits, setting a control register leaves what
  -- `CrSet` says.
  pub set_guest_cr-CrSet : CrSet vmx cr_idx val vmcs after
  unfolding set_guest_cr guest_cr_writes
  set_guest_cr-CrSet = record {
    shown = rw (field-shadow, field-real, field-mask) (view-real v m r shown-small small' small'');
    required = rw field-real (bit_and-bit_or_self (bit_and v m) r);
    allowed = rw field-real (real-allowed v m r shown-small small' small'');
    kept = λ field. elim (Bool-cases (touches cr_idx field)) [
      | inl touched ↦ rw touched refl
      | inr other ↦
          rw other (writes-fields (guest_cr_writes vmx cr_idx val) vmcs field all ∙ ground arith)
    ];
  }

-- After CR4 is set, `vcpu_vendor_get_guest_cr4` gives back the value that was set, with VMXE added.
get_guest_cr4-set_guest_cr :
    (vmx : Vmx) (val : ℕ) (vmcs : Vmcs)
    → AllSupported vmcs
    → val < 2 ^ 64
    → vmx.cr_maybe1 cr4_idx < 2 ^ 64
    → vmx.cr_required1 cr4_idx < 2 ^ 64
    → get_guest_cr4 vmx (set_guest_cr vmx cr4_idx val vmcs) ≡ bit_or val x86_cr4_vmxe
unfolding get_guest_cr4 shown_cr
get_guest_cr4-set_guest_cr vmx val vmcs all small small' small'' =
    let h = set_guest_cr-CrSet vmx cr4_idx val vmcs all small small' small'' in
    let e = field-mask vmx cr4_idx val vmcs all small small' small'' in rw (← e) h.shown

-- Once the restrictions on a control register are known from one CPU, with some bit that may be one,
-- another CPU is accepted just if its restrictions are the same, and changes nothing.
define_cr_restrictions_twice :
    (cr_idx m r m' r' : ℕ) (vmx : Vmx)
    → vmx.cr_maybe1 cr_idx ≡ 0
    → m ≢ 0
    → ((define_cr_restrictions cr_idx m r vmx).0 ≡ true)
      × (((define_cr_restrictions cr_idx m' r' (define_cr_restrictions cr_idx m r vmx).1).0 ≡ true)
          ↔ ((m' ≡ m) × (r' ≡ r)))
      × ((define_cr_restrictions cr_idx m' r' (define_cr_restrictions cr_idx m r vmx).1).1
          ≡ (define_cr_restrictions cr_idx m r vmx).1)
unfolding define_cr_restrictions update
define_cr_restrictions_twice cr_idx m r m' r' vmx unset some =
    rw (unset, ==_self cr_idx, ==_ne m 0 some) (refl, ground arith, refl)
