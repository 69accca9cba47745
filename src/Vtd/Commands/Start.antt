-- ===== src/Vtd/Commands/Start.antt =====
-- `vtd_init_unit` returns, and what the unit then works with.
use spy.Base.{
  [], ℕ, zero, suc, ◌+◌, ◌-◌, ◌*◌, ◌^◌, ◌≡◌, refl, ap, ◌∙◌, Bool, true, false, Option, some, List,
  ◌∷◌, bit_and, bit_or, u32, ◌>>>◌, if◌then◌else◌,
}
use spy.Vtd.{Entry}
use spy.Vtd.Emulation.{iqt_reg, fsts_reg}
use spy.Vtd.Emulation.Answers.{Completes, submit_iq_request-Returns}
use spy.Vtd.Setup.{gsts_used_ctrls}
use spy.Vtd.Commands.{
  Event, wrote, wrote_field, requested, DmarUnit, Answers, ◌>>=◌, global_context, global_iotlb,
  global_int, see, reset_tail, submit, fault_rec_reg_addr, clear_records, init_unit,
}
use spy.Vtd.Registers.{
  gcmd_te, gcmd_ire, gcmd_qie, gcmd_srtp, gcmd_sirtp, rtaddr_reg, irta_reg, irta_eime, iqa_reg,
  frcd_hi_reg, frcd_hi_f, frcd_hi_f_clear, fsts_pfo, fsts_pfo_clear, cap_nfr_mask,
}
use spy.Vtd.Commands.Status.{
  latched, since, queue_in_use, switches_te, switches_ire, switches_qie, sets_root, sets_table,
  told, newest, Steady, Obeys, update_gcmd_reg-Updated,
}
use spy.Vtd.Commands.Controls.{
  controls, with_tables, with_queue, translating, told-AreControls, controls-started,
}

pub bind-some :
    {m : Option DmarUnit} (f : DmarUnit → Option DmarUnit) {u : DmarUnit} {r : Option DmarUnit}
    → m ≡ some u
    → f u ≡ r
    → (m >>= f) ≡ r
unfolding ◌>>=◌
bind-some f e h = ap (λ (call : Option DmarUnit). call >>= f) e ∙ h

-- What a step that is no command keeps: the status, the controls, the registers written as a whole, and the
-- tables and the queue in use.
pub record Kept (hw : Answers) (before after : List Event) : Type 0 where
  pub steady : Steady hw after
  pub controls : told after ≡ told before
  pub registers : (reg : ℕ) → newest reg after ≡ newest reg before
  pub tables : (bit reg : ℕ) → latched bit reg after ≡ latched bit reg before
  pub queue : queue_in_use after ≡ queue_in_use before

module _ (hw : Answers) (obeys : Obeys hw) where
  pub submit-Kept :
      (request : Option Entry) (u : DmarUnit)
      → Completes hw.queue
      → Steady hw u.log
      → (u' : DmarUnit) × (submit hw request u ≡ some u')
        × Kept hw u.log u'.log
        × ((bit : ℕ) → since bit u'.log ≡ request ∷ since bit u.log)
  unfolding submit told newest latched since queue_in_use
  submit-Kept request u completes steady =
      let (inv, e) = submit_iq_request-Returns hw.queue completes u.inv request in
      (
        record { log = requested request ∷ u.log; inv = inv },
        rw (submit, e) refl,
        record {
          steady = obeys.stays u.log (requested request) steady refl;
          controls = refl;
          registers = λ reg. refl;
          tables = λ bit reg. refl;
          queue = refl;
        },
        λ bit. refl,
      )

  clear_records-Kept :
      (left n : ℕ) (u : DmarUnit) → Steady hw u.log → Kept hw u.log (clear_records hw left n u).log
  unfolding clear_records see told newest latched queue_in_use
  clear_records-Kept zero n u steady = record {
    steady = steady;
    controls = refl;
    registers = λ reg. refl;
    tables = λ bit reg. refl;
    queue = refl;
  }
  clear_records-Kept (suc left) n u steady =
      let e =
        wrote_field (fault_rec_reg_addr hw + 16 * n + frcd_hi_reg) frcd_hi_f frcd_hi_f_clear in
      let rest = clear_records-Kept left (n + 1) (see e u) (obeys.stays u.log e steady refl) in
      record {
        steady = rest.steady;
        controls = rest.controls;
        registers = rest.registers;
        tables = rest.tables;
        queue = rest.queue;
      }

-- Translation, remapping and queued requests are on. The tables that the unit was told to use and the queue that
-- was switched on are those of the hypervisor, and since the last table was set all caches were invalidated.
pub record Started (using_x2apic : Bool) (root_phys table_phys table_size_log2 queue_phys : ℕ)
    (log : List Event) : Type 0 where
  pub all_on : told log ≡ gsts_used_ctrls
  pub root : latched gcmd_srtp rtaddr_reg log ≡ some root_phys
  pub table :
      latched gcmd_sirtp irta_reg log
      ≡ some (
          bit_or
            (bit_or table_phys (if using_x2apic then irta_eime else 0))
            (u32 (table_size_log2 + 2 ^ 32 - 1)))
  pub queue : queue_in_use log ≡ some queue_phys
  pub invalidated :
      since gcmd_sirtp log ≡ some global_int ∷ some global_iotlb ∷ some global_context ∷ []

module _ (hw : Answers) (obeys : Obeys hw) (completes : Completes hw.queue) where
  -- The three requests that invalidate all caches.
  invalidate :
      (u : DmarUnit) (f : DmarUnit → Option DmarUnit)
      → Steady hw u.log
      → (u' : DmarUnit) × ((r : Option DmarUnit)
          → f u' ≡ r
          → (submit hw (some global_context) u >>= λ u7.
              submit hw (some global_iotlb) u7 >>= λ u8. submit hw (some global_int) u8 >>= f)
            ≡ r)
        × Kept hw u.log u'.log
        × ((bit : ℕ)
            → since bit u'.log
              ≡ some global_int ∷ some global_iotlb ∷ some global_context ∷ since bit u.log)
  invalidate u f steady =
      let (u7, e7, k7, s7) = submit-Kept hw obeys (some global_context) u completes steady in
      let (u8, e8, k8, s8) = submit-Kept hw obeys (some global_iotlb) u7 completes k7.steady in
      let (u9, e9, k9, s9) = submit-Kept hw obeys (some global_int) u8 completes k8.steady in
      (
        u9,
        λ r e. bind-some _ e7 (bind-some _ e8 (bind-some _ e9 e)),
        record {
          steady = k9.steady;
          controls = k9.controls ∙ k8.controls ∙ k7.controls;
          registers = λ reg. k9.registers reg ∙ k8.registers reg ∙ k7.registers reg;
          tables = λ bit reg. k9.tables bit reg ∙ k8.tables bit reg ∙ k7.tables bit reg;
          queue = k9.queue ∙ k8.queue ∙ k7.queue;
        },
        λ bit.
            s9 bit
            ∙ ap (λ (l : List (Option Entry)). some global_int ∷ l)
                (s8 bit ∙ ap (λ (l : List (Option Entry)). some global_iotlb ∷ l) (s7 bit)),
      )

module _ (hw : Answers) (obeys : Obeys hw) (completes : Completes hw.queue) (using_x2apic : Bool)
    (root_phys table_phys table_size_log2 queue_phys : ℕ) (u : DmarUnit) where
  -- A unit that follows commands as the manual says and completes each request is set up by a call that returns, from
  -- whatever commands it had before: it is then as `Started` says.
  pub init_unit-Started :
      Steady hw u.log
      → (u' : DmarUnit) × (init_unit hw using_x2apic root_phys table_phys table_size_log2 queue_phys
            u
          ≡ some u')
        × Steady hw u'.log
        × Started using_x2apic root_phys table_phys table_size_log2 queue_phys u'.log
  unfolding init_unit see reset_tail told newest latched since queue_in_use
  init_unit-Started steady =
      let a1 = update_gcmd_reg-Updated hw gcmd_qie false u (switches_qie false) obeys steady in
      let a2 =
        update_gcmd_reg-Updated hw gcmd_ire false a1.final (switches_ire false) obeys a1.steady in
      let nfr = bit_and hw.cap cap_nfr_mask >>> 40 in
      let cleared = clear_records-Kept hw obeys nfr 0 a2.final a2.steady in
      let b3 = clear_records hw nfr 0 a2.final in
      let u3 = see (wrote_field fsts_reg fsts_pfo fsts_pfo_clear) b3 in
      let s3 =
        obeys.stays b3.log (wrote_field fsts_reg fsts_pfo fsts_pfo_clear) cleared.steady refl in
      let a4 =
        update_gcmd_reg-Updated hw gcmd_srtp true (see (wrote rtaddr_reg root_phys) u3) sets_root
          obeys (obeys.stays u3.log (wrote rtaddr_reg root_phys) s3 refl) in
      let irta =
        bit_or (bit_or table_phys (if using_x2apic then irta_eime else 0))
          (u32 (table_size_log2 + 2 ^ 32 - 1)) in
      let a5 =
        update_gcmd_reg-Updated hw gcmd_sirtp true (see (wrote irta_reg irta) a4.final) sets_table
          obeys (obeys.stays a4.final.log (wrote irta_reg irta) a4.steady refl) in
      let s5 = obeys.stays a5.final.log (wrote iqt_reg 0) a5.steady refl in
      let a6 =
        update_gcmd_reg-Updated hw gcmd_qie true
          (see (wrote iqa_reg queue_phys) (reset_tail a5.final)) (switches_qie true) obeys
          (obeys.stays (wrote iqt_reg 0 ∷ a5.final.log) (wrote iqa_reg queue_phys) s5 refl) in
      let (u9, run, k9, new) = invalidate hw obeys completes a6.final _ a6.steady in
      let a10 = update_gcmd_reg-Updated hw gcmd_te true u9 (switches_te true) obeys k9.steady in
      let a11 =
        update_gcmd_reg-Updated hw gcmd_ire true a10.final (switches_ire true) obeys a10.steady in
      let before = told-AreControls u.log in
      let c = controls before.ire before.qie before.te in
      let (off, on, on_te, all) = controls-started before.ire before.qie before.te in
      let told5 : told a5.final.log ≡ with_tables c =
        a5.now ∙ rw (a4.now, cleared.controls, a2.now, a1.now, before.are) refl in
      let told9 : told u9.log ≡ with_queue c = k9.controls ∙ a6.now ∙ rw told5 refl in
      let told10 : told a10.final.log ≡ translating c = a10.now ∙ rw told9 refl in
      (
        a11.final,
        bind-some _ a1.result (
            bind-some _ a2.result (
              bind-some _ a4.result (
                bind-some _ a5.result
                  (bind-some _ a6.result (run _ (bind-some _ a10.result a11.result)))))),
        a11.steady,
        record {
          all_on = a11.now ∙ rw told10 all;
          root =
              a11.table gcmd_srtp rtaddr_reg refl
              ∙ a10.table gcmd_srtp rtaddr_reg refl
              ∙ k9.tables gcmd_srtp rtaddr_reg
              ∙ a6.table gcmd_srtp rtaddr_reg refl
              ∙ a5.table gcmd_srtp rtaddr_reg refl
              ∙ a4.table gcmd_srtp rtaddr_reg refl;
          table =
              a11.table gcmd_sirtp irta_reg refl
              ∙ a10.table gcmd_sirtp irta_reg refl
              ∙ k9.tables gcmd_sirtp irta_reg
              ∙ a6.table gcmd_sirtp irta_reg refl
              ∙ a5.table gcmd_sirtp irta_reg refl;
          queue =
              a11.queue_kept (rw told10 on_te)
              ∙ a10.queue_kept (rw told9 on)
              ∙ k9.queue
              ∙ a6.queue_set (rw told5 on) (rw told5 off);
          invalidated =
              a11.requests gcmd_sirtp refl
              ∙ a10.requests gcmd_sirtp refl
              ∙ new gcmd_sirtp
              ∙ ap
                  (λ (l : List (Option Entry)).
                    some global_int ∷ some global_iotlb ∷ some global_context ∷ l)
                  (a6.requests gcmd_sirtp refl ∙ a5.requests gcmd_sirtp refl);
        },
      )
