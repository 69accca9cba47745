-- ===== src/Paging/Next.antt =====
-- The entries of paging.c that point to a table of the next level, for every writer of such entries.
use spy.Base.{
  ℕ, ◌*◌, ◌/◌, ◌%◌, ◌^◌, ◌≡◌, refl, ◌∙◌, bit_and, bit_or, bit_mask, true, ==_self,
  bit_and-bit_or_self, bit_and_assoc, bit_and-bit_or, bit_and-zero, mask_or_self, bit_and_field,
}
use spy.Paging.{
  x86_flag_hugepage, x86_64_set_next_pt, x86_64_get_next_pt, x86_64_get_phys_l2, x86_64_get_phys_l3,
  x86_64_entry_valid, invalid_phys_addr, page_default_flags,
}

-- What a walk reads from an entry for the table at `next_pt` with the flags `flags`: the table's
-- address cut to a page and to 52 bits, the flags, and that it is no large page.
abbrev pub PointsTo : ℕ → ℕ → ℕ → Type 0
PointsTo pte next_pt flags =
    (x86_64_get_next_pt pte ≡ next_pt / 2 ^ 12 % 2 ^ 40 * 2 ^ 12)
    × (x86_64_entry_valid pte flags ≡ true)
    × ((virt : ℕ) → x86_64_get_phys_l2 pte virt ≡ invalid_phys_addr)
    × ((virt : ℕ) → x86_64_get_phys_l3 pte virt ≡ invalid_phys_addr)

pub points_to :
    (next_pt flags : ℕ)
    → bit_and flags (bit_mask 51 12) ≡ 0
    → bit_and flags x86_flag_hugepage ≡ 0
    → PointsTo (bit_or (bit_and next_pt (bit_mask 51 12)) flags) next_pt flags
unfolding x86_64_get_next_pt x86_64_entry_valid x86_64_get_phys_l2 x86_64_get_phys_l3
points_to next_pt flags z w =
    let pte = bit_or (bit_and next_pt (bit_mask 51 12)) flags in
    let small : bit_and pte x86_flag_hugepage ≡ 0 =
      rw
        (
          bit_and-bit_or (bit_and next_pt (bit_mask 51 12)) flags x86_flag_hugepage,
          w,
          bit_and_assoc next_pt (bit_mask 51 12) x86_flag_hugepage,
          bit_and-zero,
        )
        refl in
    (
      mask_or_self next_pt flags (bit_mask 51 12) z ∙ bit_and_field 12 40 next_pt,
      rw (bit_and-bit_or_self (bit_and next_pt (bit_mask 51 12)) flags) (==_self flags),
      λ virt. rw small refl,
      λ virt. rw small refl,
    )

-- An entry that `set_next_pt` writes is present and writable, gives back the address of the table,
-- cut to a page and to 52 bits, and is taken for a large page at no level.
set_next_pt-PointsTo :
    (next_pt : ℕ) → PointsTo (x86_64_set_next_pt next_pt) next_pt page_default_flags
unfolding x86_64_set_next_pt
set_next_pt-PointsTo next_pt = points_to next_pt page_default_flags refl refl
