-- ===== src/Exit/Mode.antt =====
-- The mode of a guest across writes of its control registers.
use spy.Base.{
  ℕ, ◌/◌, ◌^◌, ◌≡◌, ◌∙◌, sym, refl, arith, true, ◌&&◌, ◌||◌, ◌==◌, bit_and, bit_or, u32,
  if◌then◌else◌, Bool-cases, inl, inr, has, bit_and-bit_or_self,
}
use spy.Vmcs.{Vmcs, vmcs_read32}
use spy.Vmcs.Fields
use spy.Vmcs.Laws.{AllSupported, write-fields, write-supported, writes-fields, writes-supported}
use spy.Cpu.{PerCpu, write_field, skip_emulated_instruction}
use spy.Cpu.Consts
use spy.Vmx.{Vmx, cr0_idx, cr4_idx}
use spy.Vmx.Cr.{set_guest_cr, guest_cr_writes}
use spy.Vmx.Setup.Laws.{flags_set}
use spy.Exit.{update_efer, efer_lme_lma, write_cr, handle_cr}

-- The processor enters the guest in long mode just if the guest's EFER says that it is active.
abbrev pub IsModeConsistent : Vmcs → Type 0
IsModeConsistent vmcs =
    has (vmcs.fields Fields.vm_entry_controls) Consts.vm_entry_ia32e_mode
    ≡ has (vmcs.fields Fields.guest_ia32_efer) Consts.efer_lma

module _ (cpu : PerCpu) (all : AllSupported cpu.vmcs) where
  skip-AllSupported : (len : ℕ) → AllSupported (skip_emulated_instruction len cpu).vmcs
  unfolding skip_emulated_instruction write_field
  skip-AllSupported len f = write-supported Fields.guest_rip _ cpu.vmcs f ∙ all f

  write-AllSupported : (field val : ℕ) → AllSupported (write_field field val cpu).vmcs
  unfolding write_field
  write-AllSupported field val f = write-supported field val cpu.vmcs f ∙ all f

  write-field :
      (field val g : ℕ)
      → (write_field field val cpu).vmcs.fields g ≡ (if g == field then val else cpu.vmcs.fields g)
  unfolding write_field
  write-field field val g = write-fields field val cpu.vmcs g (all field)

  skip-IsModeConsistent :
      (len : ℕ)
      → IsModeConsistent cpu.vmcs
      → IsModeConsistent (skip_emulated_instruction len cpu).vmcs
  unfolding skip_emulated_instruction write_field
  skip-IsModeConsistent len h =
      rw
        (
          write-fields Fields.guest_rip _ cpu.vmcs Fields.vm_entry_controls (all Fields.guest_rip),
          write-fields Fields.guest_rip _ cpu.vmcs Fields.guest_ia32_efer (all Fields.guest_rip),
        )
        h

  -- The step of `update_efer` that activates long mode.
  module _ (ctrl : ℕ) where
    abbrev efer' : ℕ
    efer' = bit_or (cpu.vmcs.fields Fields.guest_ia32_efer) Consts.efer_lma

    abbrev active : PerCpu
    active = write_field Fields.guest_ia32_efer efer' cpu

    abbrev entered : PerCpu
    entered =
        write_field Fields.vm_entry_controls (u32 (bit_or ctrl Consts.vm_entry_ia32e_mode)) active

    entered-both :
        (has (entered.vmcs.fields Fields.vm_entry_controls) Consts.vm_entry_ia32e_mode ≡ true)
        × (has (entered.vmcs.fields Fields.guest_ia32_efer) Consts.efer_lma ≡ true)
    unfolding write_field
    entered-both =
        let a = write-AllSupported Fields.guest_ia32_efer efer' in
        let c = u32 (bit_or ctrl Consts.vm_entry_ia32e_mode) in
        (
          rw
              (
                write-fields Fields.vm_entry_controls c active.vmcs Fields.vm_entry_controls
                    (a Fields.vm_entry_controls),
                flags_set ctrl Consts.vm_entry_ia32e_mode (omega arith),
              )
              refl,
          rw
              (
                write-fields Fields.vm_entry_controls c active.vmcs Fields.guest_ia32_efer
                    (a Fields.vm_entry_controls),
                write-fields Fields.guest_ia32_efer efer' cpu.vmcs Fields.guest_ia32_efer
                    (all Fields.guest_ia32_efer),
                bit_and-bit_or_self (cpu.vmcs.fields Fields.guest_ia32_efer) Consts.efer_lma,
              )
              refl,
        )

  update_efer-IsModeConsistent : IsModeConsistent cpu.vmcs → IsModeConsistent (update_efer cpu).vmcs
  unfolding update_efer
  update_efer-IsModeConsistent h =
      let efer = cpu.vmcs.fields Fields.guest_ia32_efer in
      elim (Bool-cases (bit_and efer efer_lme_lma == Consts.efer_lme)) [
        | inr other ↦ rw other h
        | inl enabled ↦ rw enabled (
            let e = entered-both (vmcs_read32 Fields.vm_entry_controls (active 0).vmcs) in
            e.0 ∙ sym e.1)
      ]

module _ (vmx : Vmx) where
  set_guest_cr-IsModeConsistent :
      (idx val : ℕ) (vmcs : Vmcs)
      → AllSupported vmcs
      → IsModeConsistent vmcs
      → IsModeConsistent (set_guest_cr vmx idx val vmcs)
  unfolding set_guest_cr guest_cr_writes
  set_guest_cr-IsModeConsistent idx val vmcs all h =
      let at = λ (g : ℕ). writes-fields (guest_cr_writes vmx idx val) vmcs g all in
      elim (Bool-cases (idx == 0)) [
        | inl e ↦ rw (at Fields.vm_entry_controls, at Fields.guest_ia32_efer, e) h
        | inr e ↦ rw (at Fields.vm_entry_controls, at Fields.guest_ia32_efer, e) h
      ]

  set_guest_cr-AllSupported :
      (idx val : ℕ) (vmcs : Vmcs) → AllSupported vmcs → AllSupported (set_guest_cr vmx idx val vmcs)
  unfolding set_guest_cr
  set_guest_cr-AllSupported idx val vmcs all f =
      writes-supported (guest_cr_writes vmx idx val) vmcs f ∙ all f

  write_cr-IsModeConsistent :
      (cr val : ℕ) (cpu : PerCpu)
      → AllSupported cpu.vmcs
      → IsModeConsistent cpu.vmcs
      → IsModeConsistent (write_cr vmx cr val cpu).vmcs
  unfolding write_cr
  write_cr-IsModeConsistent cr val cpu all h =
      let skipped = skip_emulated_instruction Consts.x86_inst_len_mov_to_cr cpu in
      let idx = if cr == 0 then cr0_idx else cr4_idx in
      let all1 : AllSupported skipped.vmcs = skip-AllSupported cpu all _ in
      let cpu' : PerCpu = record skipped { vmcs = set_guest_cr vmx idx val skipped.vmcs } in
      let all2 : AllSupported cpu'.vmcs = set_guest_cr-AllSupported idx val skipped.vmcs all1 in
      let h2 : IsModeConsistent cpu'.vmcs =
        set_guest_cr-IsModeConsistent idx val skipped.vmcs all1
          (skip-IsModeConsistent cpu all Consts.x86_inst_len_mov_to_cr h) in
      elim (Bool-cases (cr == 0 && has val Consts.x86_cr0_pg)) [
        | inl pg ↦ rw pg (update_efer-IsModeConsistent cpu' all2 h2)
        | inr other ↦ rw other h2
      ]

  -- Whatever a guest moves to a control register, and whether the move is handled or not, on a
  -- processor that has all fields of the VMCS the entry controls keep in step with the guest's EFER: the
  -- guest is entered in long mode just if its EFER says that long mode is active.
  pub handle_cr-IsModeConsistent :
      (cpu : PerCpu)
      → AllSupported cpu.vmcs
      → IsModeConsistent cpu.vmcs
      → IsModeConsistent (handle_cr vmx cpu).1.vmcs
  unfolding handle_cr
  handle_cr-IsModeConsistent cpu all h =
      let q = cpu.vmcs.fields Fields.exit_qualification in
      let cr = bit_and q 0xf in
      elim (Bool-cases (bit_and (q / 2 ^ 4) 3 == 0 && (cr == 0 || cr == 4))) [
        | inl move ↦ rw move (write_cr-IsModeConsistent cr _ cpu all h)
        | inr other ↦ rw other h
      ]
