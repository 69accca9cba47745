-- ===== src/Vcpu/Guest.antt =====
-- The paging structures of a guest: `vcpu_get_guest_paging_structs` of vmx.c.
use spy.Base.{ℕ, ◌+◌, ◌*◌, bit_and, bit_mask, ◌==◌, not, ◌||◌, if◌then◌else◌, has}
use spy.Vmcs.{vmcs_read32, vmcs_read64}
use spy.Vmcs.Fields
use spy.Cpu.{PerCpu}
use spy.Cpu.Consts

-- `struct guest_paging_structures`: the tables of a mode and the address of the root.
pub data GuestPaging : Type 0 where
  no_paging : GuestPaging
  four_levels pae two_levels : ℕ → GuestPaging

unfoldable pub paging_structs : PerCpu → GuestPaging
unfolding vmcs_read32 vmcs_read64
paging_structs cpu =
    let cr3 = vmcs_read64 Fields.guest_cr3 cpu.vmcs in
    if has (vmcs_read32 Fields.vm_entry_controls cpu.vmcs) Consts.vm_entry_ia32e_mode
    then four_levels (bit_and cr3 (bit_mask 51 12))
    else if not (has (vmcs_read64 Fields.guest_cr0 cpu.vmcs) Consts.x86_cr0_pg)
    then no_paging
    else if has (vmcs_read64 Fields.guest_cr4 cpu.vmcs) Consts.x86_cr4_pae
    then pae (bit_and cr3 (bit_mask 31 5))
    else two_levels (bit_and cr3 (bit_mask 31 12))

-- The PDPTEs that are read in PAE mode.
unfoldable pub cache_pdptes : PerCpu → PerCpu
unfolding vmcs_read64 paging_structs
cache_pdptes cpu = elim (paging_structs cpu) [
  | pae root ↦ record cpu {
    pdpte = λ n.
        if n == 0 || n == 1 || n == 2 || n == 3
        then vmcs_read64 (Fields.guest_pdptr0 + n * 2) cpu.vmcs
        else cpu.pdpte n;
  }
  | no_paging ↦ cpu
  | four_levels root ↦ cpu
  | two_levels root ↦ cpu
]
