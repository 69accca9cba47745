-- ===== src/Vtd/Context.antt =====
-- The root and context tables of vtd.c: `iommu_add_pci_device` and `iommu_remove_pci_device`.
pub mod Devices
pub mod Add
pub mod Remove
mod Tests
use spy.Base.Store.{put}
use spy.Base.{
  ℕ, zero, suc, ◌+◌, ◌-◌, ◌*◌, ◌/◌, ◌%◌, ◌^◌, bit_and, bit_or, not64, u32, ◌<<<◌, ◌==◌, max, Bool,
  true, false, not, if◌then◌else◌, has, Option, none, some, List,
}
use spy.Base.Result.{Result, ok, err, enomem}
use spy.Paging.{page_size}
use spy.Vtd.{Entry}
use spy.Vtd.Queue.{Hardware}
use spy.Vtd.Remap.{Remap, reserve_int_remap_region, free_int_remap_region}

abbrev pub root_present : ℕ
root_present = 0x00000001

abbrev pub ctx_present : ℕ
ctx_present = 0x00000001

abbrev pub ctx_ttype_mlp_untrans : ℕ
ctx_ttype_mlp_untrans = 0x00000000

abbrev pub ctx_agaw_39 : ℕ
ctx_agaw_39 = 0x00000001

abbrev pub ctx_agaw_48 : ℕ
ctx_agaw_48 = 0x00000002

abbrev pub ctx_did_shift : ℕ
ctx_did_shift = 8

-- The parts of `struct pci_device` that the functions read.
pub record PciDevice : Type 0 where
  pub bdf : ℕ
  pub num_msi_vectors : ℕ
  pub num_msix_vectors : ℕ

-- The parts of `struct target`: the physical address of the root of its tables, and its id.
pub record Domain : Type 0 where
  pub root_table_phys : ℕ
  pub id : ℕ

-- The pool of pages of another file: an allocation gives the physical address and what the page holds.
pub record PagePool (S : Type 0) : Type 0 where
  pub alloc : S → Option ((ℕ × (ℕ → Entry)) × S)
  pub free : ℕ → S → S

-- The bus and the device and function of a PCI address, macros of another file.
pub record PciAddress : Type 0 where
  pub bus : ℕ → ℕ
  pub devfn : ℕ → ℕ

-- `lo_word` of the root table by bus, the context tables by physical address, the table of interrupts
-- and the pool.
pub record Iommu (S : Type 0) : Type 0 where
  pub root_lo : ℕ → ℕ
  pub tables : ℕ → ℕ → Entry
  pub remap : Remap
  pub pool : S

abbrev pub page_mask : ℕ
page_mask = not64 (page_size - 1)

unfoldable pub max_vectors : PciDevice → ℕ
max_vectors device = max device.num_msi_vectors device.num_msix_vectors

unfoldable pub context_entry : ℕ → Domain → Entry
context_entry dmar_pt_levels target = record {
  lo_word = bit_or (bit_or ctx_present ctx_ttype_mlp_untrans) target.root_table_phys;
  hi_word =
      bit_or (if dmar_pt_levels == 3 then ctx_agaw_39 else ctx_agaw_48)
        (u32 (target.id <<< ctx_did_shift));
}

-- Whether one of the entries below `n` is present.
unfoldable pub any_present : (ℕ → Entry) → ℕ → Bool
any_present table zero = false
any_present table (suc n) =
    let rest = any_present table n in if has (table n).lo_word ctx_present then true else rest

unfoldable pub set_entry : {S : Type 0} → ℕ → ℕ → Entry → Iommu S → Iommu S
unfolding put
set_entry phys devfn entry s = record s {
  tables = put s.tables phys (put (s.tables phys) devfn entry);
}

module _ {S : Type 0} (pages : PagePool S) (pci : PciAddress) (dmar_pt_levels limit : ℕ)
    (hw : Hardware) where
  -- The table of the bus, which is made where there is none; `none` is an allocation that failed.
  unfoldable pub context_table : ℕ → Iommu S → Option (ℕ × Iommu S)
  unfolding put
  context_table bus s =
      if has (s.root_lo bus) root_present
      then some (bit_and (s.root_lo bus) page_mask, s)
      else elim (pages.alloc s.pool) [
        | none ↦ none
        | some ((phys, content), pool) ↦ some (
          phys,
          record s {
            root_lo = put s.root_lo bus (bit_or root_present phys);
            tables = put s.tables phys content;
            pool = pool;
          },
        )
      ]

  unfoldable pub add_entry :
      Domain → PciDevice → Option (ℕ × Iommu S) → Iommu S → Option (Result ℕ × Iommu S)
  unfolding max_vectors context_entry set_entry free_int_remap_region
  add_entry target device none s =
      elim (free_int_remap_region limit hw device.bdf (max_vectors device) s.remap) [
        | none ↦ none
        | some remap ↦ some (err enomem, record s { remap = remap })
      ]
  add_entry target device (some (phys, s')) s =
      some (ok 0, set_entry phys (pci.devfn device.bdf) (context_entry dmar_pt_levels target) s')

  -- The result and the state; `none` is a call that waits for the hardware.
  unfoldable pub add_pci_device : Domain → PciDevice → Iommu S → Option (Result ℕ × Iommu S)
  unfolding max_vectors reserve_int_remap_region context_table add_entry
  add_pci_device target device s =
      let (result, table) =
        reserve_int_remap_region limit device.bdf (max_vectors device) s.remap.table in
      let s' : Iommu S = record s { remap = record s.remap { table = table } } in
      elim result [
        | err e ↦ some (err e, s')
        | ok start ↦ add_entry target device (context_table (pci.bus device.bdf) s') s'
      ]

  -- From the context entry on.
  unfoldable pub remove_entry : PciDevice → Iommu S → Iommu S
  unfolding set_entry any_present put
  remove_entry device s =
      let bus = pci.bus device.bdf in
      let phys = bit_and (s.root_lo bus) page_mask in
      let devfn = pci.devfn device.bdf in
      let entry = s.tables phys devfn in
      let cleared : Entry = record entry { lo_word = bit_and entry.lo_word (not64 ctx_present) } in
      let s' = set_entry phys devfn cleared s in
      if any_present (s'.tables phys) 256 then s' else record s' {
        root_lo = put s'.root_lo bus (bit_and (s'.root_lo bus) (not64 root_present));
        pool = pages.free phys s'.pool;
      }

  unfoldable pub remove_pci_device : PciDevice → Iommu S → Option (Iommu S)
  unfolding max_vectors free_int_remap_region remove_entry
  remove_pci_device device s =
      elim (free_int_remap_region limit hw device.bdf (max_vectors device) s.remap) [
        | none ↦ none
        | some remap ↦ some (remove_entry device (record s { remap = remap }))
      ]
