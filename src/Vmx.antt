-- ===== src/Vmx.antt =====
-- hypervisor/arch/x86/vmx.c: the state of the file and what its parts share.
pub mod Cr
pub mod Setup
pub mod Features
pub mod Init
pub mod Reset
pub mod MsrBitmap
mod Tests
use spy.Base.{ℕ, ◌+◌, ◌*◌, ◌/◌, ◌%◌, ◌^◌, bit_or, List, [], ◌∷◌}
use spy.Vmcs.{Write, write64, write32, write16}
use spy.Vmcs.Fields.{
  guest_seg_base, guest_seg_limit, guest_seg_ar_bytes, io_bitmap_a, io_bitmap_b, ept_pointer,
}
use spy.Cpu.{Segment}
use spy.Cpu.Consts.{ept_type_writeback, ept_page_walk_len}
use spy.Paging.{page_size}

abbrev pub cr0_idx : ℕ
cr0_idx = 0

abbrev pub cr4_idx : ℕ
cr4_idx = 1

-- The static variables of the file: `cr_maybe1`, `cr_required1` and `secondary_exec_addon`.
pub record Vmx : Type 0 where
  pub cr_maybe1 : ℕ → ℕ
  pub cr_required1 : ℕ → ℕ
  pub secondary_exec_addon : ℕ

-- Physical addresses of what a target owns: its I/O bitmap and the root of its EPT tables.
pub record TargetAddrs : Type 0 where
  pub io_bitmap_phys : ℕ
  pub ept_root_phys : ℕ

-- The second page of the bitmap lies behind the first in physical memory too, as the pages of one
-- allocation do.
unfoldable pub target_config_writes : TargetAddrs → List Write
target_config_writes target =
    write64 io_bitmap_a target.io_bitmap_phys
    ∷ write64 io_bitmap_b (target.io_bitmap_phys + page_size)
    ∷ write64 ept_pointer
        (bit_or (bit_or target.ept_root_phys ept_type_writeback) ept_page_walk_len)
    ∷ []

unfoldable pub guest_segment_writes : Segment → ℕ → List Write
guest_segment_writes seg selector_field =
    write16 selector_field seg.selector
    ∷ write64 (selector_field + guest_seg_base) seg.base
    ∷ write32 (selector_field + guest_seg_limit) seg.limit
    ∷ write32 (selector_field + guest_seg_ar_bytes) seg.access_rights
    ∷ []
