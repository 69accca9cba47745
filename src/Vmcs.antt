-- ===== src/Vmcs.antt =====
-- The VMCS accessors of hypervisor/arch/x86/vmx.c: `vmcs_read64`, `vmcs_write64` and their narrow
-- forms. The VMCS maps the encoding of a field to its value.
pub mod Fields
pub mod Laws
use spy.Base.{
  ℕ, ◌%◌, ◌^◌, Bool, true, false, ◌&&◌, List, [], ◌∷◌, u16, u32, u64, ◌==◌, if◌then◌else◌,
}

-- `supported` tells the fields that the processor has; `vmwrite` fails on the others.
pub record Vmcs : Type 0 where
  pub fields : ℕ → ℕ
  pub supported : ℕ → Bool

-- A map with the value at one key replaced.
unfoldable pub update : (ℕ → ℕ) → ℕ → ℕ → ℕ → ℕ
update f i v = λ j. if j == i then v else f j

unfoldable pub vmcs_read64 : ℕ → Vmcs → ℕ
vmcs_read64 field vmcs = vmcs.fields field

unfoldable pub vmcs_read32 : ℕ → Vmcs → ℕ
unfolding vmcs_read64
vmcs_read32 field vmcs = u32 (vmcs_read64 field vmcs)

unfoldable pub vmcs_read16 : ℕ → Vmcs → ℕ
unfolding vmcs_read64
vmcs_read16 field vmcs = u16 (vmcs_read64 field vmcs)

-- The state after a write, and its result.
unfoldable pub vmcs_write64 : ℕ → ℕ → Vmcs → Vmcs
unfolding update
vmcs_write64 field val vmcs =
    if vmcs.supported field then record vmcs { fields = update vmcs.fields field val } else vmcs

unfoldable pub vmcs_write_ok : ℕ → Vmcs → Bool
vmcs_write_ok field vmcs = vmcs.supported field

unfoldable pub vmcs_write32 : ℕ → ℕ → Vmcs → Vmcs
unfolding vmcs_write64
vmcs_write32 field val vmcs = vmcs_write64 field (u32 val) vmcs

-- One write of a sequence `ok &= vmcs_write64(field, value);`: `width` cuts what a narrow form writes.
pub record Write : Type 0 where
  pub field : ℕ
  pub value : ℕ

abbrev pub write64 : ℕ → ℕ → Write
write64 field value = record { field = field; value = value }

abbrev pub write32 : ℕ → ℕ → Write
write32 field value = record { field = field; value = u32 value }

abbrev pub write16 : ℕ → ℕ → Write
write16 field value = record { field = field; value = u16 value }

-- The sequence of writes, which goes on after one that failed, and the final `ok`.
unfoldable pub vmcs_writes : List Write → Vmcs → Vmcs
unfolding vmcs_write64
vmcs_writes [] vmcs = vmcs
vmcs_writes (w ∷ ws) vmcs = vmcs_writes ws (vmcs_write64 w.field w.value vmcs)

unfoldable pub vmcs_writes_ok : List Write → Vmcs → Bool
unfolding vmcs_write_ok
vmcs_writes_ok [] vmcs = true
vmcs_writes_ok (w ∷ ws) vmcs = vmcs_write_ok w.field vmcs && vmcs_writes_ok ws vmcs
