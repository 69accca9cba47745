-- ===== src/Vtd/Emulation/Answers.antt =====
-- Where the hardware completes every request, the calls that wait for it return: `vtd_submit_iq_request`
-- up to `vtd_emulate_qi_request`. None of them moves the head of the guest's queue.
use spy.Base.{
  ℕ, zero, suc, ◌+◌, ◌<◌, ◌≡◌, inl, inr, refl, arith, true, Option, some, List, [], ◌∷◌, leb, ◌==◌,
  Bool-cases, ◌∙◌, bit_and, bit_or, u64, ◌>>>◌, ◌<<<◌, has,
}
use spy.Base.Result.{Result, ok, err, einval}
use spy.Base.Store.{put}
use spy.Vtd.{Entry, req_inv_int, inv_int_index, inv_int_iidx_shift, req_inv_wait}
use spy.Vtd.Queue.{InvUnit, Hardware, enqueue, submit_iq_request, submit_each, submit_all}
use spy.Vtd.Queue.Submit.{poll-true}
use spy.Vtd.Remap.{
  Irte, Remap, IrqMessage, Apic, write_irte, update_irte, check_interrupt, map_interrupt,
}
use spy.Vtd.Remap.Find.{Result-cases}
use spy.Vtd.Emulation.{
  Emulation, GuestMemory, RootDevices, set_unit, set_usage, get_remapped_root_int, emulate_inv_int,
  emulate_range, emulate_wait, req_inv_mask, inv_int_im_mask, inv_int_im_shift, inv_int_iidx_mask,
  emulate_qi_request,
}

abbrev pub Returns {ℓ} : {A : Type ℓ} → Option A → Type ℓ
Returns {A = A} call = (result : A) × (call ≡ some result)

-- The head of the queue that the guest has for a unit.
abbrev pub head : {M : Type 0} → ℕ → Emulation M → ℕ
head unit_no s = (s.units unit_no).iqh

-- The hardware reports each request complete at one of the polls that are followed.
abbrev pub Completes : Hardware → Type 0
Completes hw = (unit : InvUnit) → (k : ℕ) × (k < hw.polls) × (hw.completed unit k ≡ true)

module _ (hw : Hardware) (completes : Completes hw) where
  pub submit_iq_request-Returns :
      (unit : InvUnit) (request : Option Entry) → Returns (submit_iq_request hw unit request)
  unfolding submit_iq_request
  submit_iq_request-Returns unit request =
      let unit' = enqueue hw unit request in
      let (k, lt, c) = completes unit' in
      (unit', rw (poll-true (hw.completed unit') hw.polls 0 k (omega arith) (omega arith) c) refl)

  submit_each-Returns :
      (requests : List Entry) (unit : InvUnit) → Returns (submit_each hw requests unit)
  unfolding submit_each
  submit_each-Returns [] unit = (unit, refl)
  submit_each-Returns (r ∷ rs) unit =
      let (unit', e) = submit_iq_request-Returns unit (some r) in
      let (last, e') = submit_each-Returns rs unit' in (last, rw (submit_each, e) e')

  submit_all-Returns :
      (requests : List Entry) (units : List InvUnit) → Returns (submit_all hw requests units)
  unfolding submit_all
  submit_all-Returns requests [] = ([], refl)
  submit_all-Returns requests (unit ∷ units) =
      let (unit', e) = submit_each-Returns requests unit in
      let (units', e') = submit_all-Returns requests units in
      (unit' ∷ units', rw (submit_all, e, e') refl)

  update_irte-Returns :
      (index : ℕ) (content : Irte) (r : Remap) → Returns (update_irte hw index content r)
  unfolding update_irte
  update_irte-Returns index content r =
      let inv_int : Entry = record {
        lo_word = bit_or (bit_or req_inv_int inv_int_index) (u64 (index <<< inv_int_iidx_shift));
        hi_word = 0;
      } in
      let (units, e) = submit_all-Returns (inv_int ∷ []) r.units in
      (record { table = write_irte r.table index content; units = units }, rw (update_irte, e) refl)

  module _ (limit : ℕ) (apic : Apic) where
    map_interrupt-Returns :
        (device_id vector : ℕ) (msg : IrqMessage) (r : Remap)
        → Returns (map_interrupt limit hw apic device_id vector msg r)
    unfolding map_interrupt
    map_interrupt-Returns device_id vector msg r =
        elim (Result-cases (check_interrupt limit apic device_id vector msg r.table)) [
          | inr (x, e) ↦ ((err x, r), rw (map_interrupt, e) refl)
          | inl ((index, irte), e) ↦
              let (r', e') = update_irte-Returns index irte r in
              ((ok index, r'), ground (arith, e, e'))
        ]

module _ {M : Type 0} (mem : GuestMemory M) (apic : Apic) where
  remapped-head :
      (iommu device_id vector index : ℕ) (s : Emulation M) (u : ℕ)
      → head u (get_remapped_root_int mem apic iommu device_id vector index s).1 ≡ head u s
  unfolding get_remapped_root_int set_usage set_unit put
  remapped-head iommu device_id vector index s u = ground arith

  module _ (limit : ℕ) (hw : Hardware) (completes : Completes hw) (devices : RootDevices M)
      (unit_no : ℕ) where
    -- The call returns and leaves the head.
    abbrev Settles : Emulation M → Option (Result ℕ × Emulation M) → Type 0
    Settles s call =
        (result : Result ℕ) × (s' : Emulation M) × (call ≡ some (result, s'))
        × (head unit_no s' ≡ head unit_no s)

    emulate_inv_int-Settles :
        (index : ℕ) (s : Emulation M)
        → Settles s (emulate_inv_int mem apic limit hw devices unit_no index s)
    unfolding emulate_inv_int
    emulate_inv_int-Settles index s =
        let usage = (s.units unit_no).irte_map index in
        let (msg, s1) =
          get_remapped_root_int mem apic unit_no usage.device_id usage.vector index s in
        let same = remapped-head unit_no usage.device_id usage.vector index s unit_no in
        let (mapped, e) =
          map_interrupt-Returns hw completes limit apic usage.device_id usage.vector msg s1.remap in
        elim (Bool-cases (leb (s.units unit_no).irt_entries index)) [
          | inl out ↦ (ok 0, s, ground arith, refl)
          | inr within ↦ elim (Bool-cases usage.used) [
            | inr unused ↦ (ok 0, s, ground arith, refl)
            | inl in_use ↦ elim (Bool-cases (devices.is_ivshmem usage.device_id)) [
              | inl ivshmem ↦
                  let (result, memory) =
                    devices.update_msix_vector usage.device_id usage.vector s.memory in
                  (result, record s { memory = memory }, ground arith, refl)
              | inr other ↦ (mapped.0, record s1 { remap = mapped.1 }, ground (arith, e), same)
            ]
          ]
        ]

    emulate_range-Settles :
        (left n : ℕ) (s : Emulation M)
        → Settles s (emulate_range mem apic limit hw devices unit_no left n s)
    unfolding emulate_range
    emulate_range-Settles zero n s = (ok 0, s, refl, refl)
    emulate_range-Settles (suc left) n s =
        let (r, s1, e, same) = emulate_inv_int-Settles n s in
        let (r', s2, e', same') = emulate_range-Settles left (n + 1) s1 in
        elim (Result-cases r) [
          | inr (x, failed) ↦ (r, s1, ground (arith, e), same)
          | inl (i, done) ↦ (r', s2, ground (arith, e), same' ∙ same)
        ]

    pub qi_request-Settles :
        (inv_desc : Entry) (s : Emulation M)
        → Settles s (emulate_qi_request mem apic limit hw devices unit_no inv_desc s)
    unfolding emulate_qi_request emulate_wait
    qi_request-Settles inv_desc s =
        let kind = bit_and inv_desc.lo_word req_inv_mask in
        let start = bit_and inv_desc.lo_word inv_int_iidx_mask >>> inv_int_iidx_shift in
        let count = 1 <<< (bit_and inv_desc.lo_word inv_int_im_mask >>> inv_int_im_shift) in
        elim (Bool-cases (kind == req_inv_int)) [
          | inl interrupts ↦ elim (Bool-cases (has inv_desc.lo_word inv_int_index)) [
            | inl some_of ↦
                let (r, s', e, same) = emulate_range-Settles count start s in
                (r, s', ground (arith, e), same)
            | inr all ↦
                let (r, s', e, same) = emulate_range-Settles (s.units unit_no).irt_entries 0 s in
                (r, s', ground (arith, e), same)
          ]
          | inr other ↦ elim (Bool-cases (kind == req_inv_wait)) [
            | inl wait ↦
                let (r, s') = emulate_wait mem inv_desc s in (r, s', ground arith, ground arith)
            | inr unknown ↦ (err einval, s, ground arith, refl)
          ]
        ]
