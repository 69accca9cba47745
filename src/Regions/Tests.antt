-- ===== src/Regions/Tests.antt =====
-- Regions of a target at work.
use spy.Base.{
  ◌+◌, ◌*◌, ◌^◌, ◌≤◌, ◌<◌, ◌≡◌, ◌⊎◌, refl, arith, true, false, Option, none, some, inr, has,
}
use spy.Base.Result.{e2big}
use spy.Regions.{Memory, Mapping, Tables, mem_dma, iommu_map_memory_region, vcpu_map_memory_region}
use spy.Regions.Rights.{SameMemory, iommu_map_memory_region-vcpu_map_memory_region}

-- RAM that the target reads, writes, executes and uses for DMA.
abbrev ram : Memory
ram = record { phys_start = 0x3b000000; virt_start = 0x1000; size = 0x100000; flags = 0xf }

-- Tables that keep the last mapping.
abbrev last_mapping : Tables (Option Mapping)
last_mapping = record {
  create = λ mapping t. (none, some mapping);
  destroy = λ unmapping t. (none, none);
}

maps_ram : iommu_map_memory_region last_mapping 4 ram none ≡ (
  none,
  some (record {
    phys = 0x3b000000;
    size = 0x100000;
    virt = 0x1000;
    access_flags = 3;
    paging_flags = 3;
  }),
)
unfolding iommu_map_memory_region
maps_ram = refl

iommu_map_memory_region-vcpu_map_memory_region_example :
    ((has ram.flags mem_dma ≡ false)
      × (iommu_map_memory_region last_mapping 4 ram none ≡ (none, none)))
    ⊎ (((has ram.flags mem_dma ≡ true)
          × (2 ^ (12 + 9 * 4) ≤ ram.virt_start)
          × (iommu_map_memory_region last_mapping 4 ram none ≡ (some e2big, none)))
        ⊎ ((has ram.flags mem_dma ≡ true)
            × (ram.virt_start < 2 ^ (12 + 9 * 4))
            × (io : Mapping) × (cpu : Mapping) × (iommu_map_memory_region last_mapping 4 ram none
                ≡ last_mapping.create io none)
            × (vcpu_map_memory_region last_mapping 0x9000 ram none ≡ last_mapping.create cpu none)
            × SameMemory ram io cpu))
iommu_map_memory_region-vcpu_map_memory_region_example =
    iommu_map_memory_region-vcpu_map_memory_region last_mapping last_mapping 4 0x9000 ram none none
      (inr refl) (omega arith) refl
