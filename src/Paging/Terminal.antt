-- ===== src/Paging/Terminal.antt =====
-- The terminal entries of paging.c: what is written by `set_terminal` is read by `get_phys`,
-- `get_flags` and `entry_valid`.
use spy.Base.{
  ℕ, ◌+◌, ◌*◌, ◌/◌, ◌%◌, ◌^◌, ◌≡◌, refl, ◌∙◌, bit_and, bit_or, bit_mask, arith, true, has,
  bit_and-bit_or, bit_and_assoc, zero-bit_or, bit_and-bit_or_self, bit_or_assoc, bit_and-zero,
  bit_or_fields, bit_and_field, bit_and_mask, mask_or_self, bit_or-bit_and_self, bit_and_comm,
}
use spy.Paging.{
  flags_mask, x86_flag_hugepage, x86_64_set_terminal_l1, x86_64_set_terminal_l2,
  x86_64_set_terminal_l3, x86_64_get_phys_l1, x86_64_get_phys_l2, x86_64_get_phys_l3,
  x86_64_get_flags, x86_64_entry_valid,
}

-- Access flags use the flag bits of an entry alone.
abbrev pub IsFlags : ℕ → Type 0
IsFlags flags = bit_and flags flags_mask ≡ flags

-- Flags do not meet a mask that has no flag bit.
flags_apart : (flags m : ℕ) → IsFlags flags → bit_and flags_mask m ≡ 0 → bit_and flags m ≡ 0
flags_apart flags m h z = rw (← h) (rw (bit_and_assoc flags flags_mask m, z) (bit_and-zero flags))

huge_apart :
    (flags m : ℕ)
    → IsFlags flags
    → bit_and flags_mask m ≡ 0
    → bit_and x86_flag_hugepage m ≡ 0
    → bit_and (bit_or x86_flag_hugepage flags) m ≡ 0
huge_apart flags m h z w =
    rw (bit_and-bit_or x86_flag_hugepage flags m, w, flags_apart flags m h z) refl

-- The large page flag of an entry that has it.
huge_set :
    (x m flags : ℕ)
    → bit_and m x86_flag_hugepage ≡ 0
    → has (bit_or (bit_or (bit_and x m) x86_flag_hugepage) flags) x86_flag_hugepage ≡ true
huge_set x m flags z =
    let e : bit_and (bit_or (bit_or (bit_and x m) x86_flag_hugepage) flags) x86_flag_hugepage
        ≡ x86_flag_hugepage =
      rw
        (
          bit_and-bit_or (bit_or (bit_and x m) x86_flag_hugepage) flags x86_flag_hugepage,
          bit_and-bit_or_self (bit_and x m) x86_flag_hugepage,
        )
        (bit_or-bit_and_self x86_flag_hugepage flags) in
    rw e refl

-- A 4 KB entry translates an address to the page's frame and the offset of the address in it.
phys_l1 :
    (phys flags virt : ℕ)
    → IsFlags flags
    → x86_64_get_phys_l1 (x86_64_set_terminal_l1 phys flags) virt
      ≡ phys / 2 ^ 12 % 2 ^ 40 * 2 ^ 12 + virt % 2 ^ 12
unfolding x86_64_get_phys_l1 x86_64_set_terminal_l1
phys_l1 phys flags virt h =
    rw
      (
        mask_or_self phys flags (bit_mask 51 12) (flags_apart flags (bit_mask 51 12) h refl),
        bit_and_field 12 40 phys,
        bit_and_mask 12 virt,
      )
      (bit_or_fields 12 (phys / 2 ^ 12 % 2 ^ 40) (virt % 2 ^ 12) (omega arith))

phys_l2 :
    (phys flags virt : ℕ)
    → IsFlags flags
    → x86_64_get_phys_l2 (x86_64_set_terminal_l2 phys flags) virt
      ≡ phys / 2 ^ 21 % 2 ^ 31 * 2 ^ 21 + virt % 2 ^ 21
unfolding x86_64_get_phys_l2 x86_64_set_terminal_l2
phys_l2 phys flags virt h =
    let m = bit_mask 51 21 in
    let f = bit_or x86_flag_hugepage flags in
    rw
      (
        huge_set phys m flags refl,
        bit_or_assoc (bit_and phys m) x86_flag_hugepage flags,
        mask_or_self phys f m (huge_apart flags m h refl refl),
        bit_and_field 21 31 phys,
        bit_and_mask 21 virt,
      )
      (bit_or_fields 21 (phys / 2 ^ 21 % 2 ^ 31) (virt % 2 ^ 21) (omega arith))

phys_l3 :
    (phys flags virt : ℕ)
    → IsFlags flags
    → x86_64_get_phys_l3 (x86_64_set_terminal_l3 phys flags) virt
      ≡ phys / 2 ^ 30 % 2 ^ 22 * 2 ^ 30 + virt % 2 ^ 30
unfolding x86_64_get_phys_l3 x86_64_set_terminal_l3
phys_l3 phys flags virt h =
    let m = bit_mask 51 30 in
    let f = bit_or x86_flag_hugepage flags in
    rw
      (
        huge_set phys m flags refl,
        bit_or_assoc (bit_and phys m) x86_flag_hugepage flags,
        mask_or_self phys f m (huge_apart flags m h refl refl),
        bit_and_field 30 22 phys,
        bit_and_mask 30 virt,
      )
      (bit_or_fields 30 (phys / 2 ^ 30 % 2 ^ 22) (virt % 2 ^ 30) (omega arith))

-- At each of the three page sizes a terminal entry, written with access flags that use flag bits
-- only, translates an address to the frame that was written, cut to the size of the page and to 52
-- bits, plus the offset of the address in the page.
pub get_phys-set_terminal :
    (phys flags virt : ℕ)
    → IsFlags flags
    → (x86_64_get_phys_l1 (x86_64_set_terminal_l1 phys flags) virt
        ≡ phys / 2 ^ 12 % 2 ^ 40 * 2 ^ 12 + virt % 2 ^ 12)
      × (x86_64_get_phys_l2 (x86_64_set_terminal_l2 phys flags) virt
          ≡ phys / 2 ^ 21 % 2 ^ 31 * 2 ^ 21 + virt % 2 ^ 21)
      × (x86_64_get_phys_l3 (x86_64_set_terminal_l3 phys flags) virt
          ≡ phys / 2 ^ 30 % 2 ^ 22 * 2 ^ 30 + virt % 2 ^ 30)
get_phys-set_terminal phys flags virt h =
    (phys_l1 phys flags virt h, phys_l2 phys flags virt h, phys_l3 phys flags virt h)

-- Reading a mask `m` of an entry made of an address in `a` and flags in `g`, where `m` has no
-- address bit.
read_or : (x a g m : ℕ) → bit_and a m ≡ 0 → bit_and (bit_or (bit_and x a) g) m ≡ bit_and g m
read_or x a g m z =
    rw (bit_and-bit_or (bit_and x a) g m, bit_and_assoc x a m, z, bit_and-zero) (zero-bit_or _)

-- The same for a large page, whose flag `m` does not read.
read_huge :
    (x a f m : ℕ)
    → bit_and a m ≡ 0
    → bit_and x86_flag_hugepage m ≡ 0
    → bit_and (bit_or (bit_or (bit_and x a) x86_flag_hugepage) f) m ≡ bit_and f m
read_huge x a f m z w =
    rw
      (
        bit_or_assoc (bit_and x a) x86_flag_hugepage f,
        read_or x a (bit_or x86_flag_hugepage f) m z,
        bit_and-bit_or x86_flag_hugepage f m,
        w,
      )
      (zero-bit_or _)

-- At each page size `get_flags` reads back from a terminal entry the access flags that were written.
get_flags-set_terminal :
    (phys flags : ℕ)
    → IsFlags flags
    → (x86_64_get_flags (x86_64_set_terminal_l1 phys flags) ≡ flags)
      × (x86_64_get_flags (x86_64_set_terminal_l2 phys flags) ≡ flags)
      × (x86_64_get_flags (x86_64_set_terminal_l3 phys flags) ≡ flags)
unfolding x86_64_get_flags x86_64_set_terminal_l1 x86_64_set_terminal_l2 x86_64_set_terminal_l3
get_flags-set_terminal phys flags h = (
  read_or phys (bit_mask 51 12) flags flags_mask refl ∙ h,
  read_huge phys (bit_mask 51 21) flags flags_mask refl refl ∙ h,
  read_huge phys (bit_mask 51 30) flags flags_mask refl refl ∙ h,
)

within : (a wanted : ℕ) → IsFlags wanted → bit_and a flags_mask ≡ 0 → bit_and a wanted ≡ 0
within a wanted h z = rw (← h) (
    rw (bit_and_comm wanted flags_mask, ← bit_and_assoc a flags_mask wanted, z)
      (bit_and_comm 0 wanted ∙ bit_and-zero wanted))

-- At each page size a terminal entry is valid for the access flags `wanted` exactly when the flags
-- that were written include them.
entry_valid-set_terminal :
    (phys flags wanted : ℕ)
    → IsFlags wanted
    → (x86_64_entry_valid (x86_64_set_terminal_l1 phys flags) wanted
        ≡ x86_64_entry_valid flags wanted)
      × (x86_64_entry_valid (x86_64_set_terminal_l2 phys flags) wanted
          ≡ x86_64_entry_valid flags wanted)
      × (x86_64_entry_valid (x86_64_set_terminal_l3 phys flags) wanted
          ≡ x86_64_entry_valid flags wanted)
unfolding x86_64_entry_valid x86_64_set_terminal_l1 x86_64_set_terminal_l2 x86_64_set_terminal_l3
entry_valid-set_terminal phys flags wanted h = (
  rw (read_or phys (bit_mask 51 12) flags wanted (within _ wanted h refl)) refl,
  rw
      (read_huge phys (bit_mask 51 21) flags wanted (within _ wanted h refl)
        (within _ wanted h refl))
      refl,
  rw
      (read_huge phys (bit_mask 51 30) flags wanted (within _ wanted h refl)
        (within _ wanted h refl))
      refl,
)
