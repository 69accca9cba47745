-- ===== src/Vtd/Emulation/Message.antt =====
-- `iommu_get_remapped_root_int`: which messages it hands out, and what it records.
use spy.Base.{
  ℕ, ◌+◌, ◌*◌, ◌%◌, ◌^◌, ◌<◌, ◌≡◌, inl, inr, arith, true, false, some, leb, Bool-cases,
  Option-cases, bit_and, u16,
}
use spy.Base.Store.{put}
use spy.Vtd.Remap.{Apic}
use spy.Vtd.Emulation.{
  EmulatedUnit, Emulation, GuestMemory, set_unit, set_usage, irta_addr_mask, page_offs_mask,
  message_of, get_remapped_root_int,
}

-- An entry of the guest's table, at `index` of a unit, that is mapped, present, and of the device.
pub record Routed {M : Type 0} (mem : GuestMemory M) (unit : EmulatedUnit) (device_id index : ℕ)
    (memory : M) : Type 0 where
  pub below : index < unit.irt_entries
  pub page : ℕ
  pub mapped : mem.get_page (bit_and unit.irta irta_addr_mask + index * 16) false memory ≡ some page
  pub is_present :
      (mem.irte_at
        (page + bit_and (bit_and unit.irta irta_addr_mask + index * 16) page_offs_mask)
        memory).p
      ≡ true
  pub of_device :
      (mem.irte_at
        (page + bit_and (bit_and unit.irta irta_addr_mask + index * 16) page_offs_mask)
        memory).sid
      ≡ device_id

module _ {M : Type 0} (mem : GuestMemory M) (apic : Apic) (iommu device_id vector index : ℕ)
    (s : Emulation M) where
  -- A message that is valid comes from an entry below the number of entries of the guest's table that is
  -- mapped, present and of the device, and the call has recorded the device and the vector for that entry.
  pub get_remapped_root_int-Routed :
      (get_remapped_root_int mem apic iommu device_id vector index s).0.valid ≡ true
      → Routed mem (s.units iommu) device_id index s.memory
        × ((((get_remapped_root_int mem apic iommu device_id vector index s).1.units iommu).irte_map
              index)
            ≡ record { device_id = u16 device_id; vector = vector % 2 ^ 10; used = true })
  unfolding get_remapped_root_int message_of set_usage set_unit put
  get_remapped_root_int-Routed h = elim (Bool-cases (leb (s.units iommu).irt_entries index)) [
    | inl out ↦ absurd (ground arith)
    | inr within ↦
        elim (Option-cases (
          mem.get_page (bit_and (s.units iommu).irta irta_addr_mask + index * 16) false s.memory)) [
            | inl unmapped ↦ absurd (ground arith)
            | inr (page, mapped) ↦ (
              record {
                below = ground arith;
                page = page;
                mapped = mapped;
                is_present = ground arith;
                of_device = ground arith;
              },
              ground arith,
            )
          ]
  ]
