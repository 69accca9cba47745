-- ===== src/Vtd/Commands.antt =====
-- What vtd.c writes to the registers of a unit: `vtd_update_gcmd_reg`, `vtd_init_fault_nmi`, `vtd_init_unit`,
-- `iommu_config_commit`, `vtd_restore_ir` and `iommu_prepare_shutdown`.
pub mod Driver
pub mod Status
pub mod Controls
pub mod Start
pub mod Return
pub mod All
mod Tests
use spy.Base.{
  ℕ, zero, suc, ◌+◌, ◌-◌, ◌*◌, ◌/◌, ◌^◌, Bool, true, false, Option, none, some, List, [], ◌∷◌,
  bit_and, bit_or, bit_mask, not32, ◌<<<◌, ◌>>>◌, u32, if◌then◌else◌, ◌==◌, map,
}
use spy.Vtd.{Entry, req_inv_context, req_inv_iotlb, inv_iotlb_dw, inv_iotlb_dr, req_inv_int}
use spy.Vtd.Queue.{InvUnit, Hardware, submit_iq_request, inv_context, inv_iotlb}
use spy.Vtd.Emulation.{EmulatedUnit, fsts_reg, fectl_reg, feuaddr_reg, iqt_reg}
use spy.Vtd.Registers.{
  cap_fro_mask, cap_nfr_mask, gcmd_reg, gsts_reg, iqh_reg, gcmd_sirtp, gcmd_ire, gcmd_qie,
  gcmd_srtp, gcmd_te, rtaddr_reg, fsts_pfo, fsts_pfo_clear, fectl_im, fedata_reg, feaddr_reg,
  iqa_reg, irta_reg, irta_eime, inv_context_global, inv_iotlb_global, inv_int_global, frcd_hi_reg,
  frcd_hi_f, frcd_hi_f_clear,
}
use spy.Vtd.Setup.{gsts_used_ctrls}

abbrev pub global_context : Entry
global_context = record { lo_word = bit_or req_inv_context inv_context_global; hi_word = 0 }

abbrev pub global_iotlb : Entry
global_iotlb = record {
  lo_word = bit_or (bit_or (bit_or req_inv_iotlb inv_iotlb_global) inv_iotlb_dw) inv_iotlb_dr;
  hi_word = 0;
}

abbrev pub global_int : Entry
global_int = record { lo_word = bit_or req_inv_int inv_int_global; hi_word = 0 }

-- What a unit sees: a register is read or written, or the field of one under a mask is written, or a request is
-- submitted.
pub data Event : Type 0 where
  did_read : ℕ → Event
  wrote : ℕ → ℕ → Event
  wrote_field : ℕ → ℕ → ℕ → Event
  requested : Option Entry → Event

-- A unit: what it has seen, the last first, and its queue.
pub record DmarUnit : Type 0 where
  pub log : List Event
  pub inv : InvUnit

-- The answers of a unit, given what it has seen: its status register, the head of its queue, its capabilities;
-- and how many reads of a loop are followed.
pub record Answers : Type 0 where
  pub status : List Event → ℕ
  pub head : DmarUnit → ℕ
  pub cap : ℕ
  pub polls : ℕ
  pub queue : Hardware

-- Here and below `none` is a call that waits for a unit.
infixl 5 ◌>>=◌
unfoldable pub ◌>>=◌ : Option DmarUnit → (DmarUnit → Option DmarUnit) → Option DmarUnit
none >>= f = none
some u >>= f = f u

unfoldable pub see : Event → DmarUnit → DmarUnit
see e u = record u { log = e ∷ u.log }

-- `mmio_write64(reg_base + VTD_IQT_REG, 0);`
unfoldable pub reset_tail : DmarUnit → DmarUnit
reset_tail u = record { log = wrote iqt_reg 0 ∷ u.log; inv = record u.inv { tail = 0 } }

-- `mmio_write64(reg_base + VTD_IQA_REG, phys);` where the page at `phys` holds `queue`.
unfoldable pub use_queue : ℕ → List Entry → DmarUnit → DmarUnit
use_queue phys queue u = record {
  log = wrote iqa_reg phys ∷ u.log;
  inv = record u.inv { queue = queue };
}

-- The value that `vtd_update_gcmd_reg` writes.
unfoldable pub command : ℕ → ℕ → Bool → ℕ
command status mask on =
    let val = bit_and status gsts_used_ctrls in
    if on then bit_or val mask else bit_and val (not32 mask)

module _ (hw : Answers) where
  unfoldable pub wait_status : ℕ → ℕ → ℕ → DmarUnit → Option DmarUnit
  unfolding see
  wait_status zero mask val u = none
  wait_status (suc left) mask val u =
      let u' = see (did_read gsts_reg) u in
      let rest = wait_status left mask val u' in
      if bit_and (hw.status u.log) mask == bit_and val mask then some u' else rest

  unfoldable pub update_gcmd_reg : ℕ → Bool → DmarUnit → Option DmarUnit
  unfolding command see wait_status
  update_gcmd_reg mask on u =
      let val = command (hw.status u.log) mask on in
      wait_status hw.polls mask val (see (wrote gcmd_reg val) (see (did_read gsts_reg) u))

  unfoldable pub submit : Option Entry → DmarUnit → Option DmarUnit
  unfolding submit_iq_request
  submit request u = elim (submit_iq_request hw.queue u.inv request) [
    | none ↦ none
    | some inv ↦ some (record { log = requested request ∷ u.log; inv = inv })
  ]

  -- The offset of the first fault record.
  abbrev pub fault_rec_reg_addr : ℕ
  fault_rec_reg_addr = 16 * (bit_and hw.cap cap_fro_mask >>> 24)

  -- The loop over the fault records, from record `n` on.
  unfoldable pub clear_records : ℕ → ℕ → DmarUnit → DmarUnit
  unfolding see
  clear_records zero n u = u
  clear_records (suc left) n u =
      clear_records left (n + 1)
        (see (wrote_field (fault_rec_reg_addr + 16 * n + frcd_hi_reg) frcd_hi_f frcd_hi_f_clear) u)

  -- `vtd_init_unit`, given the physical addresses of the tables and of the unit's queue, and the size of the
  -- table of interrupts.
  unfoldable pub init_unit : Bool → ℕ → ℕ → ℕ → ℕ → DmarUnit → Option DmarUnit
  unfolding ◌>>=◌ update_gcmd_reg see clear_records reset_tail submit
  init_unit using_x2apic root_phys table_phys table_size_log2 queue_phys u0 = do
    u1 ← update_gcmd_reg gcmd_qie false u0
    u2 ← update_gcmd_reg gcmd_ire false u1
    let nfr = bit_and hw.cap cap_nfr_mask >>> 40
    let u3 = see (wrote_field fsts_reg fsts_pfo fsts_pfo_clear) (clear_records nfr 0 u2)
    u4 ← update_gcmd_reg gcmd_srtp true (see (wrote rtaddr_reg root_phys) u3)
    let irta =
        bit_or (bit_or table_phys (if using_x2apic then irta_eime else 0))
          (u32 (table_size_log2 + 2 ^ 32 - 1))
    u5 ← update_gcmd_reg gcmd_sirtp true (see (wrote irta_reg irta) u4)
    u6 ← update_gcmd_reg gcmd_qie true (see (wrote iqa_reg queue_phys) (reset_tail u5))
    u7 ← submit (some global_context) u6
    u8 ← submit (some global_iotlb) u7
    u9 ← submit (some global_int) u8
    u10 ← update_gcmd_reg gcmd_te true u9
    update_gcmd_reg gcmd_ire true u10

  -- `while (mmio_read64(reg_base + VTD_IQH_REG) != iqh) ...`
  unfoldable pub restore_head : ℕ → ℕ → DmarUnit → Option DmarUnit
  unfolding ◌>>=◌ see submit
  restore_head zero iqh u = none
  restore_head (suc left) iqh u =
      let u' = see (did_read iqh_reg) u in
      let rest = submit none u' >>= restore_head left iqh in
      if hw.head u == iqh then some u' else rest

  -- `vtd_restore_ir`; `root_queue` is the page that Linux uses as its queue, where it is mapped.
  unfoldable pub restore_ir : ℕ → EmulatedUnit → Option (List Entry) → DmarUnit → Option DmarUnit
  unfolding ◌>>=◌ update_gcmd_reg see reset_tail use_queue submit restore_head
  restore_ir rounds unit root_queue u0 = do
    u1 ← update_gcmd_reg gcmd_sirtp true (see (wrote irta_reg unit.irta) u0)
    u2 ← submit (some global_int) u1
    u3 ← update_gcmd_reg gcmd_qie false u2
    let u4 = reset_tail u3
    let page : List Entry = elim root_queue [ none ↦ u4.inv.queue | some queue ↦ queue ]
    u5 ← update_gcmd_reg gcmd_qie true (use_queue unit.iqa page u4)
    u6 ← elim root_queue [ none ↦ some u5 | some queue ↦ restore_head rounds unit.iqh u5 ]
    u7 ← update_gcmd_reg gcmd_ire true u6
    let regs = unit.fault_event_regs
    let u8 = see (wrote_field fectl_reg fectl_im 1) u7
    let u9 = see (wrote (fectl_reg + 2 * 4) (regs 2)) (see (wrote (fectl_reg + 3 * 4) (regs 3)) u8)
    some (see (wrote fectl_reg (regs 0)) (see (wrote (fectl_reg + 1 * 4) (regs 1)) u9))

  -- One round of `iommu_prepare_shutdown`.
  unfoldable pub shutdown_unit :
      ℕ → Bool → EmulatedUnit → Option (List Entry) → DmarUnit → Option DmarUnit
  unfolding ◌>>=◌ update_gcmd_reg restore_ir
  shutdown_unit rounds ir_emulation unit root_queue u0 = do
    u1 ← update_gcmd_reg gcmd_te false u0
    u2 ← update_gcmd_reg gcmd_ire false u1
    if ir_emulation then restore_ir rounds unit root_queue u2 else update_gcmd_reg gcmd_qie false u2
