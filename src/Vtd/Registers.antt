-- ===== src/Vtd/Registers.antt =====
-- The registers of a unit in vtd.c that its commands write, with their fields.
use spy.Base.{ℕ, bit_mask, ◌<<<◌}

abbrev pub cap_fro_mask : ℕ
cap_fro_mask = bit_mask 33 24

abbrev pub cap_nfr_mask : ℕ
cap_nfr_mask = bit_mask 47 40

abbrev pub gcmd_reg : ℕ
gcmd_reg = 0x18

abbrev pub gsts_reg : ℕ
gsts_reg = 0x1c

abbrev pub iqh_reg : ℕ
iqh_reg = 0x80

abbrev pub gcmd_sirtp : ℕ
gcmd_sirtp = 1 <<< 24

abbrev pub gcmd_ire : ℕ
gcmd_ire = 1 <<< 25

abbrev pub gcmd_qie : ℕ
gcmd_qie = 1 <<< 26

abbrev pub gcmd_srtp : ℕ
gcmd_srtp = 1 <<< 30

abbrev pub gcmd_te : ℕ
gcmd_te = 1 <<< 31

abbrev pub rtaddr_reg : ℕ
rtaddr_reg = 0x20

abbrev pub fsts_pfo : ℕ
fsts_pfo = 1 <<< 0

abbrev pub fsts_pfo_clear : ℕ
fsts_pfo_clear = 1

abbrev pub fectl_im : ℕ
fectl_im = 1 <<< 31

abbrev pub fedata_reg : ℕ
fedata_reg = 0x3c

abbrev pub feaddr_reg : ℕ
feaddr_reg = 0x40

abbrev pub iqa_reg : ℕ
iqa_reg = 0x90

abbrev pub irta_reg : ℕ
irta_reg = 0xb8

abbrev pub irta_eime : ℕ
irta_eime = 1 <<< 11

abbrev pub inv_context_global : ℕ
inv_context_global = 1 <<< 4

abbrev pub inv_iotlb_global : ℕ
inv_iotlb_global = 1 <<< 4

abbrev pub inv_int_global : ℕ
inv_int_global = 0 <<< 4

abbrev pub frcd_hi_reg : ℕ
frcd_hi_reg = 0x8

abbrev pub frcd_hi_f : ℕ
frcd_hi_f = 1 <<< 63

abbrev pub frcd_hi_f_clear : ℕ
frcd_hi_f_clear = 1
