-- ===== src/Paging/Index.antt =====
-- How the paging modes of paging.c cut an address into table indices and an offset.
use spy.Base.{
  ℕ, ◌+◌, ◌*◌, ◌/◌, ◌%◌, ◌^◌, ◌≡◌, arith, bit_and_mask, u32, bit_or_fields, bit_and_field, has,
  true,
}
use spy.Paging.{
  x86_64_get_entry_l4, x86_64_get_entry_l3, x86_64_get_entry_l2, x86_64_get_entry_l1,
  i386_get_entry_l2, i386_get_entry_l1, vcpu_pae_get_pdpte, i386_get_phys_l2, x86_flag_hugepage,
}

abbrev pub IndicesCover : ℕ → Type 0
IndicesCover virt =
    (x86_64_get_entry_l4 virt * 2 ^ 39
        + x86_64_get_entry_l3 virt * 2 ^ 30
        + x86_64_get_entry_l2 virt * 2 ^ 21
        + x86_64_get_entry_l1 virt * 2 ^ 12
        + virt % 2 ^ 12
      ≡ virt % 2 ^ 48)
    × (vcpu_pae_get_pdpte virt * 2 ^ 30
          + x86_64_get_entry_l2 virt * 2 ^ 21
          + x86_64_get_entry_l1 virt * 2 ^ 12
          + virt % 2 ^ 12
        ≡ virt % 2 ^ 32)
    × (i386_get_entry_l2 virt * 2 ^ 22 + i386_get_entry_l1 virt * 2 ^ 12 + virt % 2 ^ 12
        ≡ virt % 2 ^ 32)

module _ (virt : ℕ) where
  l4 : x86_64_get_entry_l4 virt ≡ virt / 2 ^ 39 % 512
  unfolding x86_64_get_entry_l4
  l4 = bit_and_mask 9 (virt / 2 ^ 39)

  l3 : x86_64_get_entry_l3 virt ≡ virt / 2 ^ 30 % 512
  unfolding x86_64_get_entry_l3
  l3 = bit_and_mask 9 (virt / 2 ^ 30)

  l2 : x86_64_get_entry_l2 virt ≡ virt / 2 ^ 21 % 512
  unfolding x86_64_get_entry_l2
  l2 = bit_and_mask 9 (virt / 2 ^ 21)

  l1 : x86_64_get_entry_l1 virt ≡ virt / 2 ^ 12 % 512
  unfolding x86_64_get_entry_l1
  l1 = bit_and_mask 9 (virt / 2 ^ 12)

  pdpte : vcpu_pae_get_pdpte virt ≡ virt / 2 ^ 30 % 4
  unfolding vcpu_pae_get_pdpte
  pdpte = bit_and_mask 2 (virt / 2 ^ 30)

  i386_l2 : i386_get_entry_l2 virt ≡ virt / 2 ^ 22 % 1024
  unfolding i386_get_entry_l2
  i386_l2 = bit_and_mask 10 (virt / 2 ^ 22)

  i386_l1 : i386_get_entry_l1 virt ≡ virt / 2 ^ 12 % 1024
  unfolding i386_get_entry_l1
  i386_l1 = bit_and_mask 10 (virt / 2 ^ 12)

  -- In each paging mode the indices of all levels and the offset in a 4 KB page make up the address:
  -- its low 48 bits in x86-64 mode, its low 32 bits in PAE and in i386 mode.
  indices_cover : IndicesCover virt
  indices_cover =
      (omega (arith, l4, l3, l2, l1), omega (arith, pdpte, l2, l1), omega (arith, i386_l2, i386_l1))

-- `i386_get_phys_l2` on a 4 MB page: bits 16 to 13 of the entry are bits 35 to 32 of the address,
-- bits 31 to 22 stay in place, and the offset is that of the virtual address.
i386_large_page :
    (pte virt : ℕ)
    → has (u32 pte) x86_flag_hugepage ≡ true
    → i386_get_phys_l2 pte virt
      ≡ pte / 2 ^ 13 % 16 * 2 ^ 32 + pte / 2 ^ 22 % 1024 * 2 ^ 22 + virt % 2 ^ 22
unfolding i386_get_phys_l2
i386_large_page pte virt h =
    let hi = u32 pte / 2 ^ 13 % 2 ^ 4 in
    let mid = u32 pte / 2 ^ 22 % 2 ^ 10 in
    let shifted : hi * 2 ^ 13 * 2 ^ 19 % 2 ^ 64 ≡ hi * 2 ^ 32 = omega arith in
    let joined : hi * 2 ^ 32 + mid * 2 ^ 22 ≡ (hi * 2 ^ 10 + mid) * 2 ^ 22 = omega arith in
    rw
      (
        h,
        bit_and_field 13 4 (u32 pte),
        bit_and_field 22 10 (u32 pte),
        bit_and_mask 22 virt,
        shifted,
        bit_or_fields 32 hi (mid * 2 ^ 22) (omega arith),
        joined,
        bit_or_fields 22 (hi * 2 ^ 10 + mid) (virt % 2 ^ 22) (omega arith),
      )
      (omega arith)
