-- ===== src/Regions.antt =====
-- The memory regions of a target in the tables of the processor, `vcpu_map_memory_region` and its like of
-- hypervisor/arch/x86/vmx.c, and in those of the IOMMU, `iommu_map_memory_region` and its like of vtd.c.
pub mod Rights
mod Tests
use spy.Base.{
  ℕ, zero, suc, ◌+◌, ◌-◌, ◌*◌, ◌/◌, ◌%◌, ◌^◌, Bool, true, false, not, Option, none, some, bit_and,
  bit_or, bit_mask, has, not64, ◌<<<◌, List, if◌then◌else◌,
}
use spy.Base.Result.{Errno, e2big}
use spy.Cpu.Consts
use spy.Paging.{page_size, Paging, x86_64_paging, set_page_size, set_next_pts}
use spy.Vmcs.{Vmcs, vmcs_read64}
use spy.Vmcs.Fields
use spy.Vtd.Setup.Init.{vtd_page_read, vtd_page_write}

abbrev pub mem_read : ℕ
mem_read = 0x0001

abbrev pub mem_write : ℕ
mem_write = 0x0002

abbrev pub mem_execute : ℕ
mem_execute = 0x0004

abbrev pub mem_dma : ℕ
mem_dma = 0x0008

abbrev pub mem_comm_region : ℕ
mem_comm_region = 0x0020

abbrev pub mem_no_hugepages : ℕ
mem_no_hugepages = 0x0100

abbrev pub paging_non_coherent : ℕ
paging_non_coherent = 0

abbrev pub paging_coherent : ℕ
paging_coherent = 0x1

abbrev pub paging_no_huge : ℕ
paging_no_huge = 0

abbrev pub paging_huge : ℕ
paging_huge = 0x2

-- `struct spy_memory`
pub record Memory : Type 0 where
  pub phys_start : ℕ
  pub virt_start : ℕ
  pub size : ℕ
  pub flags : ℕ

-- The arguments of `paging_create` and of `paging_destroy` behind the tables.
pub record Mapping : Type 0 where
  pub phys : ℕ
  pub size : ℕ
  pub virt : ℕ
  pub access_flags : ℕ
  pub paging_flags : ℕ

pub record Unmapping : Type 0 where
  pub virt : ℕ
  pub size : ℕ
  pub paging_flags : ℕ

-- The two functions of the core on tables of type `T`.
pub record Tables (T : Type 0) : Type 0 where
  pub create : Mapping → T → Option Errno × T
  pub destroy : Unmapping → T → Option Errno × T

-- `if (mem->flags & flag) access_flags |= access;`
abbrev pub grant : ℕ → ℕ → ℕ → ℕ → ℕ
grant flags flag access access_flags =
    if has flags flag then bit_or access_flags access else access_flags

-- `comm_page` is the physical address of the target's page of that name.
unfoldable pub vcpu_mapping : ℕ → Memory → Mapping
vcpu_mapping comm_page mem = record {
  phys = if has mem.flags mem_comm_region then comm_page else mem.phys_start;
  size = mem.size;
  virt = mem.virt_start;
  access_flags = grant mem.flags mem_execute Consts.ept_flag_execute (
      grant mem.flags mem_write Consts.ept_flag_write
        (grant mem.flags mem_read Consts.ept_flag_read Consts.ept_flag_wb_type));
  paging_flags =
      let flags = bit_or paging_non_coherent paging_huge in
      if has mem.flags mem_no_hugepages then bit_and flags (not64 paging_huge) else flags;
}

unfoldable pub iommu_mapping : Memory → Mapping
iommu_mapping mem = record {
  phys = mem.phys_start;
  size = mem.size;
  virt = mem.virt_start;
  access_flags =
      grant mem.flags mem_write vtd_page_write (grant mem.flags mem_read vtd_page_read 0);
  paging_flags =
      let flags = bit_or paging_coherent paging_huge in
      if has mem.flags mem_no_hugepages then bit_and flags (not64 paging_huge) else flags;
}

module _ {T : Type 0} (tables : Tables T) where
  unfoldable pub vcpu_map_memory_region : ℕ → Memory → T → Option Errno × T
  unfolding vcpu_mapping
  vcpu_map_memory_region comm_page mem t = tables.create (vcpu_mapping comm_page mem) t

  unfoldable pub vcpu_unmap_memory_region : Memory → T → Option Errno × T
  vcpu_unmap_memory_region mem t =
      tables.destroy
        (record { virt = mem.virt_start; size = mem.size; paging_flags = paging_non_coherent }) t

  unfoldable pub iommu_map_memory_region : ℕ → Memory → T → Option Errno × T
  unfolding iommu_mapping
  iommu_map_memory_region dmar_pt_levels mem t =
      if not (has mem.flags mem_dma)
      then (none, t)
      else if has mem.virt_start (bit_mask 63 (12 + 9 * dmar_pt_levels))
      then (some e2big, t)
      else tables.create (iommu_mapping mem) t

  unfoldable pub iommu_unmap_memory_region : Memory → T → Option Errno × T
  iommu_unmap_memory_region mem t =
      if not (has mem.flags mem_dma)
      then (none, t)
      else tables.destroy
          (record { virt = mem.virt_start; size = mem.size; paging_flags = paging_coherent }) t

  -- `apic_page` is the physical address of `apic_access_page`, `xapic_base` a constant of another file.
  unfoldable pub vendor_target_init : ℕ → ℕ → T → Option Errno × T
  vendor_target_init apic_page xapic_base t =
      tables.create
        (record {
          phys = apic_page;
          size = page_size;
          virt = xapic_base;
          access_flags =
              bit_or (bit_or Consts.ept_flag_read Consts.ept_flag_write) Consts.ept_flag_wb_type;
          paging_flags = bit_or paging_non_coherent paging_no_huge;
        })
        t

  unfoldable pub vendor_target_exit : ℕ → T → T
  vendor_target_exit xapic_base t =
      (tables.destroy
        (record { virt = xapic_base; size = page_size; paging_flags = paging_non_coherent }) t).1

unfoldable pub ept_set_next_pt : ℕ → ℕ
ept_set_next_pt next_pt =
    bit_or
      (bit_or (bit_or (bit_and next_pt (bit_mask 51 12)) Consts.ept_flag_read)
        Consts.ept_flag_write)
      Consts.ept_flag_execute

-- `ept_paging`, from `MSR_IA32_VMX_EPT_VPID_CAP` and the core's `paging_get_phys_invalid`.
unfoldable pub ept_paging : (ℕ → ℕ → ℕ) → ℕ → List Paging
unfolding x86_64_paging set_page_size set_next_pts ept_set_next_pt
ept_paging paging_get_phys_invalid ept_cap =
    let copied = set_next_pts (x86_64_paging paging_get_phys_invalid) ept_set_next_pt in
    let without_1g = if has ept_cap Consts.ept_1g_pages then copied else set_page_size copied 1 0 in
    if has ept_cap Consts.ept_2m_pages then without_1g else set_page_size without_1g 2 0

-- What `vcpu_tlb_flush` gives to `invept`: the type and `eptp`.
unfoldable pub tlb_flush : ℕ → Vmcs → ℕ × ℕ
unfolding vmcs_read64
tlb_flush ept_cap vmcs =
    if has ept_cap Consts.ept_invept_single
    then (Consts.vmx_invept_single, vmcs_read64 Fields.ept_pointer vmcs)
    else (Consts.vmx_invept_global, 0)
