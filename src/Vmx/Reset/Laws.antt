-- ===== src/Vmx/Reset/Laws.antt =====
-- Where a CPU goes on after a reset, and with what rights.
use spy.Base.{
  ℕ, ◌+◌, ◌*◌, ◌^◌, ◌<◌, ◌≡◌, ◌∙◌, refl, arith, Bool, true, false, bit_and, bit_or, not64, u32,
  bit_and_mask, bit_and_field, ap, ◌==◌, if◌then◌else◌, Bool-cases, inl, inr, has, List,
}
use spy.Vmcs.{Vmcs, Write, vmcs_writes, vmcs_read32}
use spy.Vmcs.Fields
use spy.Vmcs.Laws.{AllSupported, writes-fields, writes-ok, writes-supported, last_write}
use spy.Vmx.Setup.Laws.{flags_cleared}
use spy.Cpu.Consts
use spy.Paging.{page_size}
use spy.Vmx.{Vmx, TargetAddrs, target_config_writes}
use spy.Vmx.Cr.{guest_cr_writes, shown_cr}
use spy.Vmx.Reset.{
  ResetConfig, entry_writes, flat_writes, reset_writes, leave_long_mode, vendor_reset, reset_with,
  hard_reset_writes, sipi_writes,
}

-- The linear address of the first instruction in real mode.
abbrev pub first_instruction : ResetConfig → ℕ → ℕ
first_instruction config sipi_vector =
    if sipi_vector == config.apic_bsp_pseudo_sipi
    then config.cpu_reset_address
    else u32 (sipi_vector * 2 ^ 12)

-- A segment of 64 KB at address 0 with the given access rights.
abbrev pub Flat : Vmcs → ℕ → ℕ → ℕ → ℕ → ℕ → Type 0
Flat vmcs selector base limit ar_bytes ar =
    (vmcs.fields selector ≡ 0)
    × (vmcs.fields base ≡ 0)
    × (vmcs.fields limit ≡ 0xffff)
    × (vmcs.fields ar_bytes ≡ ar)

-- The state after a reset.
pub record ResetState (target : TargetAddrs) (start : ℕ) (vmcs : Vmcs) : Type 0 where
  -- Execution starts at the reset address or at the page of the start-up vector.
  pub starts : vmcs.fields Fields.guest_cs_base + vmcs.fields Fields.guest_rip ≡ start
  -- Real mode: caches off, no paging, no long mode.
  pub cr0 : vmcs.fields Fields.cr0_read_shadow ≡ 0x60000010
  pub no_long_mode :
      (vmcs.fields Fields.guest_ia32_efer ≡ 0)
      × (has (vmcs.fields Fields.vm_entry_controls) Consts.vm_entry_ia32e_mode ≡ false)
  pub cleared :
      (vmcs.fields Fields.guest_cr3 ≡ 0)
      × (vmcs.fields Fields.guest_rsp ≡ 0)
      × (vmcs.fields Fields.guest_rflags ≡ 2)
      × (vmcs.fields Fields.vm_entry_intr_info_field ≡ 0)
  pub ds :
      Flat vmcs Fields.guest_ds_selector Fields.guest_ds_base Fields.guest_ds_limit
        Fields.guest_ds_ar_bytes 0x93
  pub ss :
      Flat vmcs Fields.guest_ss_selector Fields.guest_ss_base Fields.guest_ss_limit
        Fields.guest_ss_ar_bytes 0x93
  pub tr :
      Flat vmcs Fields.guest_tr_selector Fields.guest_tr_base Fields.guest_tr_limit
        Fields.guest_tr_ar_bytes 0x8b
  pub ldtr :
      Flat vmcs Fields.guest_ldtr_selector Fields.guest_ldtr_base Fields.guest_ldtr_limit
        Fields.guest_ldtr_ar_bytes 0x82
  -- The CPU is confined to the target that owns it now.
  pub confined :
      (vmcs.fields Fields.ept_pointer ≡ bit_or (bit_or target.ept_root_phys 6) 24)
      × (vmcs.fields Fields.io_bitmap_a ≡ target.io_bitmap_phys)
      × (vmcs.fields Fields.io_bitmap_b ≡ target.io_bitmap_phys + page_size)

-- The parts of the reset address make it up.
reset_parts : (x : ℕ) → x < 2 ^ 64 → bit_and x (not64 0xffff) + bit_and x 0xffff ≡ x
reset_parts x lt =
    let hi = bit_and_field 16 48 x in let lo = bit_and_mask 16 x in omega (arith, hi, lo)

abbrev Succeeds : TargetAddrs → ℕ → Bool × Vmcs → Type 0
Succeeds target start r = (r.0 ≡ true) × ResetState target start r.1

module _ (vmx : Vmx) (target : TargetAddrs) (vmcs : Vmcs) (all : AllSupported vmcs) where
  module _ (entry : List Write) where
    abbrev ws : List Write
    ws = reset_writes vmx entry

    abbrev ws' : List Write
    ws' = leave_long_mode target (vmcs_read32 Fields.vm_entry_controls (vmcs_writes ws vmcs))

    still_all : AllSupported (vmcs_writes ws vmcs)
    still_all f = writes-supported ws vmcs f ∙ all f

    reset_with-ok : (reset_with vmx entry target vmcs).0 ≡ true
    unfolding reset_with
    reset_with-ok = rw (writes-ok ws vmcs all, writes-ok ws' (vmcs_writes ws vmcs) still_all) refl

    -- The value of a field, by the last write to it.
    value :
        (g : ℕ)
        → (reset_with vmx entry target vmcs).1.fields g
          ≡ last_write ws' g (last_write ws g (vmcs.fields g))
    unfolding reset_with
    value g =
        writes-fields ws' (vmcs_writes ws vmcs) g still_all
        ∙ ap (last_write ws' g) (writes-fields ws vmcs g all)

    no_long_mode_lem :
        has
          ((reset_with vmx entry target vmcs).1.fields Fields.vm_entry_controls)
          Consts.vm_entry_ia32e_mode
        ≡ false
    unfolding leave_long_mode target_config_writes
    no_long_mode_lem =
        rw
          (
            value Fields.vm_entry_controls,
            flags_cleared (vmcs_read32 Fields.vm_entry_controls (vmcs_writes ws vmcs))
                Consts.vm_entry_ia32e_mode (omega arith) refl,
          )
          refl

  after_hard_reset :
      (reset_addr : ℕ)
      → reset_addr < 2 ^ 64
      → Succeeds target reset_addr (reset_with vmx (hard_reset_writes reset_addr) target vmcs)
  unfolding hard_reset_writes reset_writes leave_long_mode target_config_writes guest_cr_writes
      flat_writes shown_cr
  after_hard_reset reset_addr fits =
      let entry = hard_reset_writes reset_addr in
      let at = value entry in
      (
        reset_with-ok entry,
        record {
          starts = rw (at Fields.guest_cs_base, at Fields.guest_rip) (reset_parts reset_addr fits);
          cr0 = at _;
          no_long_mode = (at _, no_long_mode_lem entry);
          cleared = (at _, at _, at _, at _);
          ds = (at _, at _, at _, at _);
          ss = (at _, at _, at _, at _);
          tr = (at _, at _, at _, at _);
          ldtr = (at _, at _, at _, at _);
          confined = (at _, at _, at _);
        },
      )

  after_sipi :
      (sipi_vector : ℕ)
      → Succeeds target
          (u32 (sipi_vector * 2 ^ 12))
          (reset_with vmx (sipi_writes sipi_vector) target vmcs)
  unfolding sipi_writes reset_writes leave_long_mode target_config_writes guest_cr_writes
      flat_writes shown_cr
  after_sipi sipi_vector =
      let entry = sipi_writes sipi_vector in
      let at = value entry in
      (
        reset_with-ok entry,
        record {
          starts = rw (at Fields.guest_cs_base, at Fields.guest_rip) (omega arith);
          cr0 = at _;
          no_long_mode = (at _, no_long_mode_lem entry);
          cleared = (at _, at _, at _, at _);
          ds = (at _, at _, at _, at _);
          ss = (at _, at _, at _, at _);
          tr = (at _, at _, at _, at _);
          ldtr = (at _, at _, at _, at _);
          confined = (at _, at _, at _);
        },
      )

-- On a processor that has all fields of the VMCS, and with a reset address of 64 bits, a reset
-- succeeds and leaves what `ResetState` says, with the first instruction at the reset address where
-- the pseudo vector asks for a hard reset, and else in the page of the start-up vector.
pub vendor_reset-ResetState :
    (vmx : Vmx) (config : ResetConfig) (target : TargetAddrs) (sipi_vector : ℕ) (vmcs : Vmcs)
    → AllSupported vmcs
    → config.cpu_reset_address < 2 ^ 64
    → ((vendor_reset vmx config target sipi_vector vmcs).0 ≡ true)
      × ResetState target
          (first_instruction config sipi_vector)
          (vendor_reset vmx config target sipi_vector vmcs).1
unfolding vendor_reset entry_writes
vendor_reset-ResetState vmx config target sipi_vector vmcs all fits =
    elim (Bool-cases (sipi_vector == config.apic_bsp_pseudo_sipi)) [
      | inl e ↦ rw e (after_hard_reset vmx target vmcs all config.cpu_reset_address fits)
      | inr e ↦ rw e (after_sipi vmx target vmcs all sipi_vector)
    ]

module _ (vmx : Vmx) (config : ResetConfig) (target : TargetAddrs) (sipi_vector : ℕ) (vmcs : Vmcs)
    (all : AllSupported vmcs) where
  -- A reset leaves the PAT to its caller.
  pub vendor_reset-pat :
      (vendor_reset vmx config target sipi_vector vmcs).1.fields Fields.guest_ia32_pat
      ≡ vmcs.fields Fields.guest_ia32_pat
  unfolding vendor_reset entry_writes hard_reset_writes sipi_writes reset_writes leave_long_mode
      target_config_writes guest_cr_writes flat_writes
  vendor_reset-pat =
      value vmx target vmcs all (entry_writes config sipi_vector) Fields.guest_ia32_pat
      ∙ elim (Bool-cases (sipi_vector == config.apic_bsp_pseudo_sipi)) [
        | inl e ↦ rw e refl
        | inr e ↦ rw e refl
      ]

  pub vendor_reset-AllSupported : AllSupported (vendor_reset vmx config target sipi_vector vmcs).1
  unfolding vendor_reset reset_with
  vendor_reset-AllSupported f =
      writes-supported (ws' vmx target vmcs all (entry_writes config sipi_vector))
        (vmcs_writes (reset_writes vmx (entry_writes config sipi_vector)) vmcs) f
      ∙ writes-supported (reset_writes vmx (entry_writes config sipi_vector)) vmcs f
      ∙ all f
