-- ===== src/Vmx/Cr.antt =====
-- The control registers of a guest: `vmx_define_cr_restrictions`, `vmx_set_guest_cr` and
-- `vcpu_vendor_get_guest_cr4` of vmx.c.
pub mod Laws
use spy.Base.{
  ℕ, ◌-◌, ◌*◌, ◌/◌, ◌%◌, ◌^◌, Bool, true, false, ◌&&◌, List, [], ◌∷◌, bit_and, bit_or, not64, ◌==◌,
  if◌then◌else◌,
}
use spy.Vmcs.{Vmcs, Write, write64, update, vmcs_writes, vmcs_writes_ok, vmcs_read64}
use spy.Vmcs.Fields.{
  guest_cr0, guest_cr4, cr0_read_shadow, cr4_read_shadow, cr0_guest_host_mask, cr4_guest_host_mask,
}
use spy.Cpu.Consts.{x86_cr4_vmxe}
use spy.Vmx.{Vmx, cr4_idx}

unfoldable pub define_cr_restrictions : ℕ → ℕ → ℕ → Vmx → Bool × Vmx
unfolding update
define_cr_restrictions cr_idx maybe1 required1 vmx =
    if vmx.cr_maybe1 cr_idx == 0
    then (
      true,
      record vmx {
        cr_maybe1 = update vmx.cr_maybe1 cr_idx maybe1;
        cr_required1 = update vmx.cr_required1 cr_idx required1;
      },
    )
    else (vmx.cr_maybe1 cr_idx == maybe1 && vmx.cr_required1 cr_idx == required1, vmx)

-- `val |= X86_CR4_VMXE` for CR4
unfoldable pub shown_cr : ℕ → ℕ → ℕ
shown_cr cr_idx val = if cr_idx == 0 then val else bit_or val x86_cr4_vmxe

-- The bits that the hypervisor owns.
abbrev pub host_mask : Vmx → ℕ → ℕ
host_mask vmx cr_idx = bit_or (vmx.cr_required1 cr_idx) (not64 (vmx.cr_maybe1 cr_idx))

unfoldable pub guest_cr_writes : Vmx → ℕ → ℕ → List Write
unfolding shown_cr
guest_cr_writes vmx cr_idx val =
    let val' = shown_cr cr_idx val in
    write64 (if cr_idx == 0 then guest_cr0 else guest_cr4)
      (bit_or (bit_and val' (vmx.cr_maybe1 cr_idx)) (vmx.cr_required1 cr_idx))
    ∷ write64 (if cr_idx == 0 then cr0_read_shadow else cr4_read_shadow) val'
    ∷ write64 (if cr_idx == 0 then cr0_guest_host_mask else cr4_guest_host_mask)
        (host_mask vmx cr_idx)
    ∷ []

unfoldable pub set_guest_cr : Vmx → ℕ → ℕ → Vmcs → Vmcs
unfolding guest_cr_writes vmcs_writes
set_guest_cr vmx cr_idx val vmcs = vmcs_writes (guest_cr_writes vmx cr_idx val) vmcs

unfoldable pub get_guest_cr4 : Vmx → Vmcs → ℕ
unfolding vmcs_read64
get_guest_cr4 vmx vmcs =
    bit_or (bit_and (vmcs_read64 cr4_read_shadow vmcs) (host_mask vmx cr4_idx))
      (bit_and (vmcs_read64 guest_cr4 vmcs) (not64 (host_mask vmx cr4_idx)))
