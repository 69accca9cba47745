-- ===== src/Vtd/Commands/Return.antt =====
-- `vtd_restore_ir` and a round of `iommu_prepare_shutdown` return, and what they leave to Linux.
use spy.Base.{
  ℕ, zero, suc, ◌+◌, ◌*◌, ◌/◌, ◌%◌, ◌<◌, ◌≤◌, ◌≡◌, inl, inr, refl, sym, ap, ◌∙◌, arith, true, false,
  Option, none, some, List, ◌∷◌, bit_or, ◌==◌, ==_iff, Bool-cases,
}
use spy.Vtd.{Entry}
use spy.Vtd.Queue.{InvUnit, enqueue, inv_queue_write, submit_iq_request}
use spy.Vtd.Queue.Submit.{poll-true}
use spy.Vtd.Emulation.{EmulatedUnit, iqt_reg, fectl_reg, feuaddr_reg}
use spy.Vtd.Emulation.Answers.{Completes}
use spy.Vtd.Setup.{gsts_ires, gsts_qies}
use spy.Vtd.Commands.{
  did_read, wrote, wrote_field, requested, DmarUnit, Answers, global_int, see, reset_tail,
  use_queue, submit, restore_head, restore_ir, shutdown_unit,
}
use spy.Vtd.Registers.{
  gcmd_te, gcmd_ire, gcmd_qie, gcmd_sirtp, irta_reg, iqa_reg, iqh_reg, fectl_im, fedata_reg,
  feaddr_reg,
}
use spy.Vtd.Commands.Status.{
  latched, queue_in_use, switches_te, switches_ire, switches_qie, sets_table, told, newest, Steady,
  Obeys, update_gcmd_reg-Updated, next_controls,
}
use spy.Vtd.Commands.Controls.{
  controls, without_queue, queue_back, controls-queue, told-AreControls, controls-off,
  controls-restored,
}
use spy.Vtd.Commands.Start.{bind-some, Kept, submit-Kept}

-- The manual: a unit that has completed what is in its queue has its head at its tail.
abbrev pub Drains : Answers → Type 0
Drains hw = (u : DmarUnit) → hw.head u ≡ u.inv.tail * 16

module _ (hw : Answers) (obeys : Obeys hw) (completes : Completes hw.queue)
    (drains : Drains hw) where
  -- A dummy request moves the tail by one.
  submit-none :
      (u : DmarUnit)
      → Steady hw u.log
      → (u' : DmarUnit) × (submit hw none u ≡ some u')
        × Kept hw u.log u'.log
        × (u'.inv.tail ≡ (u.inv.tail + 1) % 256)
  unfolding submit submit_iq_request enqueue inv_queue_write told newest latched queue_in_use
  submit-none u steady =
      let inv = enqueue hw.queue u.inv none in
      let (k, lt, c) = completes inv in
      let e : submit_iq_request hw.queue u.inv none ≡ some inv =
        rw (poll-true (hw.queue.completed inv) hw.queue.polls 0 k (omega arith) (omega arith) c)
          refl in
      (
        record { log = requested none ∷ u.log; inv = inv },
        rw (submit, e) refl,
        record {
          steady = obeys.stays u.log (requested none) steady refl;
          controls = refl;
          registers = λ reg. refl;
          tables = λ bit reg. refl;
          queue = refl;
        },
        refl,
      )

  -- The loop returns with the head where Linux has it.
  restore_head-Kept :
      (rounds k iqh : ℕ) (u : DmarUnit)
      → Steady hw u.log
      → k < rounds
      → u.inv.tail + k < 256
      → iqh ≡ (u.inv.tail + k) * 16
      → (u' : DmarUnit) × (restore_head hw rounds iqh u ≡ some u')
        × Kept hw u.log u'.log
        × (hw.head u' ≡ iqh)
  unfolding restore_head see told newest latched queue_in_use
  restore_head-Kept zero k iqh u steady lt below target = absurd (omega arith)
  restore_head-Kept (suc rounds) zero iqh u steady lt below target =
      let at : hw.head u ≡ iqh = omega (arith, drains u, target) in
      let u' = see (did_read iqh_reg) u in
      (
        u',
        rw (restore_head, (==_iff _ _).1 at) refl,
        record {
          steady = obeys.stays u.log (did_read iqh_reg) steady refl;
          controls = refl;
          registers = λ reg. refl;
          tables = λ bit reg. refl;
          queue = refl;
        },
        omega (arith, drains u', target),
      )
  restore_head-Kept (suc rounds) (suc k) iqh u steady lt below target =
      let u1 = see (did_read iqh_reg) u in
      let (u2, e2, k2, moved) = submit-none u1 (obeys.stays u.log (did_read iqh_reg) steady refl) in
      let (u3, e3, k3, at) =
        restore_head-Kept rounds k iqh u2 k2.steady (omega arith) (omega (arith, moved))
          (omega (arith, moved, target)) in
      let away : (hw.head u == iqh) ≡ false = elim (Bool-cases (hw.head u == iqh)) [
        | inl same ↦ absurd (omega (arith, drains u, (==_iff _ _).0 same, target))
        | inr other ↦ other
      ] in
      (
        u3,
        rw (restore_head, away) (bind-some _ e2 e3),
        record {
          steady = k3.steady;
          controls = k3.controls ∙ k2.controls;
          registers = λ reg. k3.registers reg ∙ k2.registers reg;
          tables = λ bit reg. k3.tables bit reg ∙ k2.tables bit reg;
          queue = k3.queue ∙ k2.queue;
        },
        at,
      )

-- The table that the unit was told to use, the queue that was switched on, with its head, and the registers of
-- faults are those that Linux had.
pub record IsOfLinux (hw : Answers) (unit : EmulatedUnit) (u : DmarUnit) : Type 0 where
  pub table : latched gcmd_sirtp irta_reg u.log ≡ some unit.irta
  pub queue : queue_in_use u.log ≡ some unit.iqa
  pub head : hw.head u ≡ unit.iqh
  pub control : newest fectl_reg u.log ≡ some (unit.fault_event_regs 0)
  pub message :
      (newest fedata_reg u.log ≡ some (unit.fault_event_regs 1))
      × (newest feaddr_reg u.log ≡ some (unit.fault_event_regs 2))
      × (newest feuaddr_reg u.log ≡ some (unit.fault_event_regs 3))

-- Translation is off; remapping and queued requests are on, with what Linux had.
pub record Returned (hw : Answers) (unit : EmulatedUnit) (u : DmarUnit) : Type 0 where
  pub on : told u.log ≡ bit_or gsts_ires gsts_qies
  pub of_linux : IsOfLinux hw unit u

module _ (hw : Answers) (obeys : Obeys hw) (completes : Completes hw.queue) (drains : Drains hw)
    (rounds : ℕ) (unit : EmulatedUnit) (u : DmarUnit) (steady : Steady hw u.log) where
  restore_ir-IsOfLinux :
      (page : List Entry)
      → unit.iqh < 4096
      → unit.iqh % 16 ≡ 0
      → 256 ≤ rounds
      → (u' : DmarUnit) × (restore_ir hw rounds unit (some page) u ≡ some u')
        × IsOfLinux hw unit u'
        × (told u'.log ≡ next_controls (queue_back (told u.log)) gcmd_ire true)
  unfolding restore_ir see reset_tail use_queue told newest latched queue_in_use
  restore_ir-IsOfLinux page below on_slot enough =
      let regs = unit.fault_event_regs in
      let irta = wrote irta_reg unit.irta in
      let a1 =
        update_gcmd_reg-Updated hw gcmd_sirtp true (see irta u) sets_table obeys
          (obeys.stays u.log irta steady refl) in
      let (u2, e2, k2, new) = submit-Kept hw obeys (some global_int) a1.final completes a1.steady in
      let a3 = update_gcmd_reg-Updated hw gcmd_qie false u2 (switches_qie false) obeys k2.steady in
      let s3 = obeys.stays a3.final.log (wrote iqt_reg 0) a3.steady refl in
      let s4 = obeys.stays (wrote iqt_reg 0 ∷ a3.final.log) (wrote iqa_reg unit.iqa) s3 refl in
      let a5 =
        update_gcmd_reg-Updated hw gcmd_qie true (use_queue unit.iqa page (reset_tail a3.final))
          (switches_qie true) obeys s4 in
      let at_start : a5.final.inv.tail ≡ 0 = ap (λ (inv : InvUnit). inv.tail) a5.same_queue in
      let (u6, e6, k6, at) =
        restore_head-Kept hw obeys completes drains rounds (unit.iqh / 16) unit.iqh a5.final
          a5.steady (omega arith) (omega (arith, at_start)) (omega (arith, at_start)) in
      let a7 = update_gcmd_reg-Updated hw gcmd_ire true u6 (switches_ire true) obeys k6.steady in
      let before = told-AreControls u.log in
      let c = controls before.ire before.qie before.te in
      let (off, on) = controls-queue before.ire before.qie before.te in
      let told3 : told a3.final.log ≡ without_queue c =
        a3.now ∙ rw (k2.controls, a1.now, before.are) refl in
      let told6 : told u6.log ≡ queue_back c = k6.controls ∙ a5.now ∙ rw told3 refl in
      let u' : DmarUnit = record a7.final {
        log =
            wrote fectl_reg (regs 0)
            ∷ wrote (fectl_reg + 1 * 4) (regs 1)
            ∷ wrote (fectl_reg + 2 * 4) (regs 2)
            ∷ wrote (fectl_reg + 3 * 4) (regs 3)
            ∷ wrote_field fectl_reg fectl_im 1
            ∷ a7.final.log;
      } in
      (
        u',
        bind-some _ a1.result (
            bind-some _ e2 (
              bind-some _ a3.result
                (bind-some _ a5.result (bind-some _ e6 (bind-some _ a7.result refl))))),
        record {
          table =
              a7.table gcmd_sirtp irta_reg refl
              ∙ k6.tables gcmd_sirtp irta_reg
              ∙ a5.table gcmd_sirtp irta_reg refl
              ∙ a3.table gcmd_sirtp irta_reg refl
              ∙ k2.tables gcmd_sirtp irta_reg
              ∙ a1.table gcmd_sirtp irta_reg refl;
          queue =
              a7.queue_kept (rw told6 on) ∙ k6.queue ∙ a5.queue_set (rw told3 on) (rw told3 off);
          head =
              drains u'
              ∙ ap (λ (inv : InvUnit). inv.tail * 16) a7.same_queue
              ∙ sym (drains u6)
              ∙ at;
          control = refl;
          message = (refl, refl, refl);
        },
        a7.now ∙ rw (told6, before.are) refl,
      )

  pub shutdown_unit-off :
      (root_queue : Option (List Entry))
      → (u' : DmarUnit) × (shutdown_unit hw rounds false unit root_queue u ≡ some u')
        × (told u'.log ≡ 0)
  unfolding shutdown_unit
  shutdown_unit-off root_queue =
      let a1 = update_gcmd_reg-Updated hw gcmd_te false u (switches_te false) obeys steady in
      let a2 =
        update_gcmd_reg-Updated hw gcmd_ire false a1.final (switches_ire false) obeys a1.steady in
      let a3 =
        update_gcmd_reg-Updated hw gcmd_qie false a2.final (switches_qie false) obeys a2.steady in
      let before = told-AreControls u.log in
      (
        a3.final,
        bind-some _ a1.result (bind-some _ a2.result a3.result),
        a3.now ∙ rw (a2.now, a1.now, before.are) (controls-off before.ire before.qie before.te),
      )

module _ (hw : Answers) (obeys : Obeys hw) (completes : Completes hw.queue) (drains : Drains hw)
    (rounds : ℕ) (unit : EmulatedUnit) (u : DmarUnit) (steady : Steady hw u.log) where
  pub shutdown_unit-Returned :
      (page : List Entry)
      → unit.iqh < 4096
      → unit.iqh % 16 ≡ 0
      → 256 ≤ rounds
      → (u' : DmarUnit) × (shutdown_unit hw rounds true unit (some page) u ≡ some u')
        × Returned hw unit u'
  unfolding shutdown_unit
  shutdown_unit-Returned page below on_slot enough =
      let a1 = update_gcmd_reg-Updated hw gcmd_te false u (switches_te false) obeys steady in
      let a2 =
        update_gcmd_reg-Updated hw gcmd_ire false a1.final (switches_ire false) obeys a1.steady in
      let (u', e, of_linux, on) =
        restore_ir-IsOfLinux hw obeys completes drains rounds unit a2.final a2.steady page below
          on_slot enough in
      let before = told-AreControls u.log in
      (
        u',
        bind-some _ a1.result (bind-some _ a2.result e),
        record {
          on =
              on
              ∙ rw (a2.now, a1.now, before.are) (controls-restored before.ire before.qie before.te);
          of_linux = of_linux;
        },
      )
