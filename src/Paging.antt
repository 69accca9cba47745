-- ===== src/Paging.antt =====
-- hypervisor/arch/x86/paging.c, with the page sizes and masks of asm/paging.h and spy/paging.h.
-- A page table is the list of its entries, a page table entry is its 64-bit value, and the pointer
-- that `get_entry` returns is the index of the entry in its table. A callback that the C tables
-- leave out is `none`.
pub mod Terminal
pub mod Next
pub mod Index
pub mod Empty
mod Tests
use spy.Base.{
  ℕ, zero, suc, ◌+◌, ◌*◌, ◌/◌, ◌^◌, Bool, true, false, not, Option, none, some, List, [], ◌∷◌,
  bit_and, bit_or, bit_mask, u32, u64, ◌>>>◌, ◌<<<◌, ◌==◌, if◌then◌else◌, has, get_or,
}

abbrev pub page_shift : ℕ
page_shift = 12

abbrev pub page_size : ℕ
page_size = 2 ^ page_shift

abbrev pub page_flag_present : ℕ
page_flag_present = 0x01

abbrev pub page_flag_rw : ℕ
page_flag_rw = 0x02

abbrev pub page_flag_us : ℕ
page_flag_us = 0x04

abbrev pub page_flag_device : ℕ
page_flag_device = 0x10

abbrev pub page_default_flags : ℕ
page_default_flags = bit_or page_flag_present page_flag_rw

abbrev pub page_readonly_flags : ℕ
page_readonly_flags = page_flag_present

abbrev pub invalid_phys_addr : ℕ
invalid_phys_addr = 0xffffffffffffffff

abbrev pub page_nonpresent_flags : ℕ
page_nonpresent_flags = bit_and invalid_phys_addr (bit_mask 51 30)

abbrev pub x86_flag_hugepage : ℕ
x86_flag_hugepage = 0x80

-- The bits that `x86_64_get_flags` reads.
abbrev pub flags_mask : ℕ
flags_mask = bit_or (bit_or (bit_mask 63 52) (bit_mask 11 8)) (bit_mask 6 0)

unfoldable pub x86_64_entry_valid : ℕ → ℕ → Bool
x86_64_entry_valid pte flags = bit_and pte flags == flags

unfoldable pub x86_64_get_flags : ℕ → ℕ
x86_64_get_flags pte = bit_and pte flags_mask

unfoldable pub x86_64_set_next_pt : ℕ → ℕ
x86_64_set_next_pt next_pt = bit_or (bit_and next_pt (bit_mask 51 12)) page_default_flags

unfoldable pub x86_64_clear_entry : ℕ
x86_64_clear_entry = page_nonpresent_flags

-- The loop with `left` rounds to go, at entry `n`.
empty_from : ℕ → ℕ → List ℕ → Bool
empty_from zero n page_table = true
empty_from (suc left) n page_table =
    let rest = empty_from left (n + 1) page_table in
    if x86_64_entry_valid (get_or page_table n 0) page_flag_present then false else rest

-- `PAGE_SIZE / sizeof(u64)`
abbrev pub entries_per_table : ℕ
entries_per_table = page_size / 8

unfoldable pub x86_64_page_table_empty : List ℕ → Bool
unfolding empty_from
x86_64_page_table_empty page_table = empty_from entries_per_table 0 page_table

unfoldable pub x86_64_get_entry_l4 : ℕ → ℕ
x86_64_get_entry_l4 virt = bit_and (virt >>> 39) 0x1ff

unfoldable pub x86_64_get_entry_l3 : ℕ → ℕ
x86_64_get_entry_l3 virt = bit_and (virt >>> 30) 0x1ff

unfoldable pub x86_64_get_entry_l2 : ℕ → ℕ
x86_64_get_entry_l2 virt = bit_and (virt >>> 21) 0x1ff

unfoldable pub x86_64_get_entry_l1 : ℕ → ℕ
x86_64_get_entry_l1 virt = bit_and (virt >>> 12) 0x1ff

unfoldable pub x86_64_set_terminal_l3 : ℕ → ℕ → ℕ
x86_64_set_terminal_l3 phys flags =
    bit_or (bit_or (bit_and phys (bit_mask 51 30)) x86_flag_hugepage) flags

unfoldable pub x86_64_set_terminal_l2 : ℕ → ℕ → ℕ
x86_64_set_terminal_l2 phys flags =
    bit_or (bit_or (bit_and phys (bit_mask 51 21)) x86_flag_hugepage) flags

unfoldable pub x86_64_set_terminal_l1 : ℕ → ℕ → ℕ
x86_64_set_terminal_l1 phys flags = bit_or (bit_and phys (bit_mask 51 12)) flags

unfoldable pub x86_64_get_phys_l3 : ℕ → ℕ → ℕ
x86_64_get_phys_l3 pte virt =
    if not (has pte x86_flag_hugepage)
    then invalid_phys_addr
    else bit_or (bit_and pte (bit_mask 51 30)) (bit_and virt (bit_mask 29 0))

unfoldable pub x86_64_get_phys_l2 : ℕ → ℕ → ℕ
x86_64_get_phys_l2 pte virt =
    if not (has pte x86_flag_hugepage)
    then invalid_phys_addr
    else bit_or (bit_and pte (bit_mask 51 21)) (bit_and virt (bit_mask 20 0))

unfoldable pub x86_64_get_phys_l1 : ℕ → ℕ → ℕ
x86_64_get_phys_l1 pte virt = bit_or (bit_and pte (bit_mask 51 12)) (bit_and virt (bit_mask 11 0))

unfoldable pub x86_64_get_next_pt : ℕ → ℕ
x86_64_get_next_pt pte = bit_and pte (bit_mask 51 12)

unfoldable pub i386_entry_valid : ℕ → ℕ → Bool
i386_entry_valid pte flags = bit_and (u32 pte) flags == flags

unfoldable pub i386_get_entry_l2 : ℕ → ℕ
i386_get_entry_l2 virt = bit_and (virt >>> 22) 0x3ff

unfoldable pub i386_get_entry_l1 : ℕ → ℕ
i386_get_entry_l1 virt = bit_and (virt >>> 12) 0x3ff

unfoldable pub i386_get_phys_l2 : ℕ → ℕ → ℕ
i386_get_phys_l2 pte virt =
    let pte32 = u32 pte in
    if not (has pte32 x86_flag_hugepage)
    then invalid_phys_addr
    else bit_or
        (bit_or (u64 (bit_and pte32 (bit_mask 16 13) <<< 19)) (bit_and pte32 (bit_mask 31 22)))
        (bit_and virt (bit_mask 21 0))

unfoldable pub i386_get_phys_l1 : ℕ → ℕ → ℕ
i386_get_phys_l1 pte virt =
    bit_or (bit_and (u32 pte) (bit_mask 31 12)) (bit_and virt (bit_mask 11 0))

unfoldable pub i386_get_next_pt : ℕ → ℕ
i386_get_next_pt pte = bit_and (u32 pte) (bit_mask 31 12)

-- The weak `vcpu_pae_get_pdpte`; the one of vmx.c reads the same index of the cached PDPTEs.
unfoldable pub vcpu_pae_get_pdpte : ℕ → ℕ
vcpu_pae_get_pdpte virt = bit_and (virt >>> 30) 0x3

-- `struct paging`
pub record Paging : Type 0 where
  pub page_size : ℕ
  pub get_entry : ℕ → ℕ
  pub entry_valid : ℕ → ℕ → Bool
  pub set_terminal : Option (ℕ → ℕ → ℕ)
  pub get_phys : ℕ → ℕ → ℕ
  pub get_flags : Option (ℕ → ℕ)
  pub set_next_pt : Option (ℕ → ℕ)
  pub get_next_pt : Option (ℕ → ℕ)
  pub clear_entry : Option ℕ
  pub page_table_empty : Option (List ℕ → Bool)

-- An entry of the tables: `X86_64_PAGING_COMMON` and what differs by level.
x86_64_level : ℕ → (ℕ → ℕ) → Option (ℕ → ℕ → ℕ) → (ℕ → ℕ → ℕ) → Option (ℕ → ℕ) → Paging
x86_64_level size entry terminal phys next = record {
  page_size = size;
  get_entry = entry;
  entry_valid = x86_64_entry_valid;
  set_terminal = terminal;
  get_phys = phys;
  get_flags = some x86_64_get_flags;
  set_next_pt = some x86_64_set_next_pt;
  get_next_pt = next;
  clear_entry = some x86_64_clear_entry;
  page_table_empty = some x86_64_page_table_empty;
}

-- A level of the tables that are only read.
read_only_level : ℕ → (ℕ → ℕ → Bool) → (ℕ → ℕ) → (ℕ → ℕ → ℕ) → Option (ℕ → ℕ) → Paging
read_only_level size valid entry phys next = record {
  page_size = size;
  get_entry = entry;
  entry_valid = valid;
  set_terminal = none;
  get_phys = phys;
  get_flags = none;
  set_next_pt = none;
  get_next_pt = next;
  clear_entry = none;
  page_table_empty = none;
}

-- The hypervisor's core supplies `paging_get_phys_invalid`.
module _ (paging_get_phys_invalid : ℕ → ℕ → ℕ) where
  unfoldable pub x86_64_paging : List Paging
  unfolding x86_64_level
  x86_64_paging =
      x86_64_level 0 x86_64_get_entry_l4 none paging_get_phys_invalid (some x86_64_get_next_pt)
      ∷ x86_64_level (1024 * 1024 * 1024) x86_64_get_entry_l3 (some x86_64_set_terminal_l3)
          x86_64_get_phys_l3 (some x86_64_get_next_pt)
      ∷ x86_64_level (2 * 1024 * 1024) x86_64_get_entry_l2 (some x86_64_set_terminal_l2)
          x86_64_get_phys_l2 (some x86_64_get_next_pt)
      ∷ x86_64_level page_size x86_64_get_entry_l1 (some x86_64_set_terminal_l1) x86_64_get_phys_l1
          none
      ∷ []

  unfoldable pub pae_paging : List Paging
  unfolding read_only_level
  pae_paging =
      read_only_level 0 x86_64_entry_valid vcpu_pae_get_pdpte paging_get_phys_invalid
        (some x86_64_get_next_pt)
      ∷ read_only_level (2 * 1024 * 1024) x86_64_entry_valid x86_64_get_entry_l2 x86_64_get_phys_l2
          (some x86_64_get_next_pt)
      ∷ read_only_level page_size x86_64_entry_valid x86_64_get_entry_l1 x86_64_get_phys_l1 none
      ∷ []

unfoldable pub i386_paging : List Paging
unfolding read_only_level
i386_paging =
    read_only_level (4 * 1024 * 1024) i386_entry_valid i386_get_entry_l2 i386_get_phys_l2
      (some i386_get_next_pt)
    ∷ read_only_level page_size i386_entry_valid i386_get_entry_l1 i386_get_phys_l1 none
    ∷ []

-- `paging[n].page_size = size`, and `paging[n].set_next_pt = f` for every level.
unfoldable pub set_page_size : List Paging → ℕ → ℕ → List Paging
set_page_size [] n size = []
set_page_size (p ∷ ps) zero size = record p { page_size = size } ∷ ps
set_page_size (p ∷ ps) (suc n) size = p ∷ set_page_size ps n size

unfoldable pub set_next_pts : List Paging → (ℕ → ℕ) → List Paging
set_next_pts [] f = []
set_next_pts (p ∷ ps) f = record p { set_next_pt = some f } ∷ set_next_pts ps f

abbrev pub x86_feature_gbpages : ℕ
x86_feature_gbpages = 1 <<< 26

-- `arch_paging_init` from EDX of CPUID leaf 0x80000001: what it stores as the hypervisor's paging.
unfoldable pub arch_paging_init : (ℕ → ℕ → ℕ) → ℕ → List Paging
unfolding x86_64_paging set_page_size
arch_paging_init paging_get_phys_invalid edx =
    let hv_paging = x86_64_paging paging_get_phys_invalid in
    if not (has edx x86_feature_gbpages) then set_page_size hv_paging 1 0 else hv_paging
