-- ===== src/Regions/Rights.antt =====
-- What a region may do: the processor and the devices of a target get the same memory and the same rights,
-- and devices only that of regions for DMA.
use spy.Base.{
  ℕ, ◌+◌, ◌*◌, ◌^◌, ◌<◌, ◌≤◌, ◌≡◌, ◌⊎◌, inl, inr, refl, sym, ap, ◌∙◌, arith, Bool, true, false, not,
  none, some, bit_and, bit_or, bit_mask, has, if◌then◌else◌, Bool-cases, bit_and_field, ◌==◌,
  ==_iff, false≢true, ◌≢◌,
}
use spy.Base.Result.{e2big}
use spy.Regions.{
  Mapping, vcpu_map_memory_region, Memory, Tables, vcpu_mapping, iommu_mapping,
  iommu_map_memory_region, mem_read, mem_write, mem_execute, mem_dma, mem_comm_region,
  mem_no_hugepages,
}

same_rights :
    (r w x : Bool)
    → (if w then bit_or (if r then bit_or 0 0x1 else 0) 0x2 else (if r then bit_or 0 0x1 else 0))
      ≡ bit_and
          (let read_write =
              if w
              then bit_or (if r then bit_or 0x30 0x1 else 0x30) 0x2
              else (if r then bit_or 0x30 0x1 else 0x30) in
            if x then bit_or read_write 0x4 else read_write)
          0x3
same_rights true true true = refl
same_rights true true false = refl
same_rights true false true = refl
same_rights true false false = refl
same_rights false true true = refl
same_rights false true false = refl
same_rights false false true = refl
same_rights false false false = refl

same_pages :
    (small : Bool) → bit_and (if small then 0x1 else 0x3) 0x2 ≡ (if small then 0x0 else 0x2)
same_pages true = refl
same_pages false = refl

unset : (x m : ℕ) → has x m ≡ false → (bit_and x m == 0) ≡ true
unset x m h = ground arith

is_set : (x m : ℕ) → has x m ≡ true → bit_and x m ≢ 0
is_set x m h e = false≢true (sym (ap not ((==_iff _ 0).1 e)) ∙ h)

-- Two mappings give a region's memory at its address, the one with the rights to read and to write that the other
-- has, and both use huge pages or neither does.
pub record SameMemory (mem : Memory) (io cpu : Mapping) : Type 0 where
  pub phys : (io.phys ≡ mem.phys_start) × (cpu.phys ≡ mem.phys_start)
  pub virt : (io.virt ≡ mem.virt_start) × (cpu.virt ≡ mem.virt_start)
  pub size : (io.size ≡ mem.size) × (cpu.size ≡ mem.size)
  pub rights : io.access_flags ≡ bit_and cpu.access_flags 0x3
  pub pages : bit_and io.paging_flags 0x2 ≡ cpu.paging_flags

iommu_mapping-vcpu_mapping :
    (comm_page : ℕ) (mem : Memory)
    → has mem.flags mem_comm_region ≡ false
    → SameMemory mem (iommu_mapping mem) (vcpu_mapping comm_page mem)
unfolding iommu_mapping vcpu_mapping
iommu_mapping-vcpu_mapping comm_page mem plain = record {
  phys = (refl, rw plain refl);
  virt = (refl, refl);
  size = (refl, refl);
  rights =
      same_rights (has mem.flags mem_read) (has mem.flags mem_write) (has mem.flags mem_execute);
  pages = same_pages (has mem.flags mem_no_hugepages);
}

within_39 : (virt : ℕ) → virt < 2 ^ 64 → has virt (bit_mask 63 39) ≡ false → virt < 2 ^ 39
within_39 virt lt h =
    let none_set : bit_and virt (bit_mask 63 39) ≡ 0 =
      (==_iff _ 0).0 (unset virt (bit_mask 63 39) h) in
    omega (arith, none_set, bit_and_field 39 25 virt)

beyond_39 : (virt : ℕ) → has virt (bit_mask 63 39) ≡ true → 2 ^ 39 ≤ virt
beyond_39 virt h = omega (arith, is_set virt (bit_mask 63 39) h, bit_and_field 39 25 virt)

within_48 : (virt : ℕ) → virt < 2 ^ 64 → has virt (bit_mask 63 48) ≡ false → virt < 2 ^ 48
within_48 virt lt h =
    let none_set : bit_and virt (bit_mask 63 48) ≡ 0 =
      (==_iff _ 0).0 (unset virt (bit_mask 63 48) h) in
    omega (arith, none_set, bit_and_field 48 16 virt)

beyond_48 : (virt : ℕ) → has virt (bit_mask 63 48) ≡ true → 2 ^ 48 ≤ virt
beyond_48 virt h = omega (arith, is_set virt (bit_mask 63 48) h, bit_and_field 48 16 virt)

-- A region for the IOMMU: one that is not for DMA is passed over; one
-- that starts where the levels do not reach, at 2^39 or 2^48 or above, is refused with E2BIG, and the tables
-- are as they were; and any other is mapped.
iommu_map_memory_region_lem :
    {T : Type 0} (tables : Tables T) (levels : ℕ) (mem : Memory) (t : T)
    → (levels ≡ 3) ⊎ (levels ≡ 4)
    → mem.virt_start < 2 ^ 64
    → ((has mem.flags mem_dma ≡ false) × (iommu_map_memory_region tables levels mem t ≡ (none, t)))
      ⊎ (((has mem.flags mem_dma ≡ true)
            × (2 ^ (12 + 9 * levels) ≤ mem.virt_start)
            × (iommu_map_memory_region tables levels mem t ≡ (some e2big, t)))
          ⊎ ((has mem.flags mem_dma ≡ true)
              × (mem.virt_start < 2 ^ (12 + 9 * levels))
              × (iommu_map_memory_region tables levels mem t
                  ≡ tables.create (iommu_mapping mem) t)))
unfolding iommu_map_memory_region
iommu_map_memory_region_lem tables levels mem t which lt =
    elim (Bool-cases (has mem.flags mem_dma)) [
      | inr no_dma ↦ inl (no_dma, rw (iommu_map_memory_region, no_dma) refl)
      | inl dma ↦ elim which [
        | inl three ↦ elim (Bool-cases (has mem.virt_start (bit_mask 63 39))) [
          | inl high ↦ rw three (
              inr (
                inl (
                  dma,
                  beyond_39 mem.virt_start high,
                  rw (iommu_map_memory_region, dma, high) refl,
                )))
          | inr low ↦ rw three (
              inr (
                inr (
                  dma,
                  within_39 mem.virt_start lt low,
                  rw (iommu_map_memory_region, dma, low) refl,
                )))
        ]
        | inr four ↦ elim (Bool-cases (has mem.virt_start (bit_mask 63 48))) [
          | inl high ↦ rw four (
              inr (
                inl (
                  dma,
                  beyond_48 mem.virt_start high,
                  rw (iommu_map_memory_region, dma, high) refl,
                )))
          | inr low ↦ rw four (
              inr (
                inr (
                  dma,
                  within_48 mem.virt_start lt low,
                  rw (iommu_map_memory_region, dma, low) refl,
                )))
        ]
      ]
    ]

-- A region that is not the communication region, with 3 or 4 levels of page tables for the devices. Where it is
-- not for DMA, the devices get nothing. Where it starts at 2^39 or 2^48 or above, beyond the levels, it is refused
-- with E2BIG, and the tables of the devices are as they were. Any other is created for the devices as it is for
-- the processor: at the same address, with the same memory, with the processor's rights to read and to write, and
-- with huge pages just if the processor's has them.
pub iommu_map_memory_region-vcpu_map_memory_region :
    {D C : Type 0} (devices : Tables D) (processor : Tables C) (levels comm_page : ℕ) (mem : Memory)
    (d : D) (c : C)
    → (levels ≡ 3) ⊎ (levels ≡ 4)
    → mem.virt_start < 2 ^ 64
    → has mem.flags mem_comm_region ≡ false
    → ((has mem.flags mem_dma ≡ false) × (iommu_map_memory_region devices levels mem d ≡ (none, d)))
      ⊎ (((has mem.flags mem_dma ≡ true)
            × (2 ^ (12 + 9 * levels) ≤ mem.virt_start)
            × (iommu_map_memory_region devices levels mem d ≡ (some e2big, d)))
          ⊎ ((has mem.flags mem_dma ≡ true)
              × (mem.virt_start < 2 ^ (12 + 9 * levels))
              × (io : Mapping) × (cpu : Mapping) × (iommu_map_memory_region devices levels mem d
                  ≡ devices.create io d)
              × (vcpu_map_memory_region processor comm_page mem c ≡ processor.create cpu c)
              × SameMemory mem io cpu))
unfolding vcpu_map_memory_region
iommu_map_memory_region-vcpu_map_memory_region devices processor levels comm_page mem d c which lt
      plain =
    elim (iommu_map_memory_region_lem devices levels mem d which lt) [
      | inl not_dma ↦ inl not_dma
      | inr (inl beyond) ↦ inr (inl beyond)
      | inr (inr (dma, below, e)) ↦ inr (
          inr (
            dma,
            below,
            iommu_mapping mem,
            vcpu_mapping comm_page mem,
            e,
            refl,
            iommu_mapping-vcpu_mapping comm_page mem plain,
          ))
    ]
