-- ===== src/Vtd.antt =====
-- hypervisor/arch/x86/vtd.c, the driver of the Intel IOMMU: what its parts share.
pub mod Queue
pub mod Remap
pub mod Context
pub mod Emulation
pub mod Setup
pub mod Registers
pub mod Commands
use spy.Base.{ℕ, ◌+◌, ◌*◌, ◌/◌, ◌^◌, bit_or, ◌<<<◌, bit_mask}

-- `struct vtd_entry`: an entry of the root table, of a context table or of an invalidation queue.
pub record Entry : Type 0 where
  pub lo_word : ℕ
  pub hi_word : ℕ

abbrev pub no_entry : Entry
no_entry = record { lo_word = 0; hi_word = 0 }

abbrev pub req_inv_context : ℕ
req_inv_context = 0x01

abbrev pub inv_context_domain : ℕ
inv_context_domain = 2 <<< 4

abbrev pub inv_context_domain_shift : ℕ
inv_context_domain_shift = 16

abbrev pub req_inv_iotlb : ℕ
req_inv_iotlb = 0x02

abbrev pub inv_iotlb_domain : ℕ
inv_iotlb_domain = 2 <<< 4

abbrev pub inv_iotlb_dw : ℕ
inv_iotlb_dw = 1 <<< 6

abbrev pub inv_iotlb_dr : ℕ
inv_iotlb_dr = 1 <<< 7

abbrev pub inv_iotlb_domain_shift : ℕ
inv_iotlb_domain_shift = 16

abbrev pub req_inv_int : ℕ
req_inv_int = 0x04

abbrev pub inv_int_index : ℕ
inv_int_index = 1 <<< 4

abbrev pub inv_int_iidx_shift : ℕ
inv_int_iidx_shift = 32

abbrev pub req_inv_wait : ℕ
req_inv_wait = 0x05

abbrev pub inv_wait_if : ℕ
inv_wait_if = 1 <<< 4

abbrev pub inv_wait_sw : ℕ
inv_wait_sw = 1 <<< 5

abbrev pub inv_wait_fn : ℕ
inv_wait_fn = 1 <<< 6

abbrev pub inv_wait_sdata_shift : ℕ
inv_wait_sdata_shift = 32
