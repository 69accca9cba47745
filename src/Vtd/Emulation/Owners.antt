-- ===== src/Vtd/Emulation/Owners.antt =====
-- What the guest's accesses to an emulated unit do to the table of interrupts: `vtd_emulate_inv_int`
-- up to `vtd_unit_access_handler`.
use spy.Base.{
  u16, ◌&&◌, ℕ, zero, suc, ◌+◌, ◌≤◌, ◌≡◌, ◌⊎◌, inl, inr, refl, arith, Bool, true, false, some, List,
  length, get_or, ◌==◌, ==_iff, Bool-cases, Option-cases, ℕ_discrete, ◌∙◌, sym, ap, leb, ◌||◌, not,
  bit_and, ◌>>>◌, ◌<<<◌, has,
}
use spy.Base.Result.{Result, ok, err}
use spy.Vcpu.Access.{MmioAccess, MmioResult}
use spy.Vtd.{Entry, req_inv_int, inv_int_index, inv_int_iidx_shift}
use spy.Vtd.Queue.{Hardware}
use spy.Vtd.Remap.{
  Irte, zero_irte, Remap, IrqMessage, Apic, update_irte, check_interrupt, map_interrupt,
}
use spy.Vtd.Remap.Find.{owns, Result-cases}
use spy.Vtd.Remap.Update.{update_irte-table, length-write_irte}
use spy.Vtd.Remap.Map.{map_interrupt-Mapped}
use spy.Vtd.Emulation.{
  Emulation, GuestMemory, RootDevices, set_unit, set_usage, get_remapped_root_int, emulate_inv_int,
  emulate_range, emulate_wait, iqh_qh_shift, iqt_reg, fectl_reg, feuaddr_reg, iqt_qt_mask,
  page_offs_mask, req_inv_mask, inv_int_im_mask, inv_int_im_shift, inv_int_iidx_mask,
  emulate_qi_request, consume, unit_access_handler,
}

-- An entry that delivers nothing, or for which the unit verifies the source id.
abbrev pub IsGuarded : Irte → Type 0
IsGuarded irte = (irte.p ≡ false) ⊎ ((irte.sq ≡ 0) × (irte.svt ≡ 1))

-- Each entry belongs to the device it belonged to, and is as it was or guarded.
pub record Kept (before after : List Irte) : Type 0 where
  pub room : length after ≡ length before
  pub owners : (device_id i : ℕ) → owns device_id after i ≡ owns device_id before i
  pub guarded :
      (i : ℕ)
      → (get_or after i zero_irte ≡ get_or before i zero_irte)
        ⊎ IsGuarded (get_or after i zero_irte)

Kept-same : (table : List Irte) → Kept table table
Kept-same table = record { room = refl; owners = λ d i. refl; guarded = λ i. inl refl }

Kept-then : {a b c : List Irte} → Kept a b → Kept b c → Kept a c
Kept-then {a} {b} {c} k l = record {
  room = l.room ∙ k.room;
  owners = λ d i. l.owners d i ∙ k.owners d i;
  guarded = λ i. elim (l.guarded i) [
    | inr g ↦ inr g
    | inl e ↦ elim (k.guarded i) [ inl e' ↦ inl (e ∙ e') | inr g ↦ inr (rw e g) ]
  ];
}

owns_alone :
    (d d' : ℕ) (table : List Irte) (i : ℕ) → owns d table i ≡ true → owns d' table i ≡ (d == d')
owns_alone d d' table i h = ground (arith, ==_iff (get_or table i zero_irte).sid d, h)

map_interrupt-length :
    (limit : ℕ) (hw : Hardware) (apic : Apic) (device_id vector : ℕ) (msg : IrqMessage) (r : Remap)
    {res : Result ℕ} {r' : Remap}
    → map_interrupt limit hw apic device_id vector msg r ≡ some (res, r')
    → length r'.table ≡ length r.table
unfolding map_interrupt
map_interrupt-length limit hw apic device_id vector msg r {res} {r'} h =
    elim (Result-cases (check_interrupt limit apic device_id vector msg r.table)) [
      | inr (e, c) ↦ ground arith
      | inl ((index, irte), c) ↦ elim (Option-cases (update_irte hw index irte r)) [
        | inl stuck ↦ absurd (ground arith)
        | inr (r1, u) ↦
            let same : r1 ≡ r' = ground arith in
            rw (← same, update_irte-table hw index irte r u) (length-write_irte r.table index irte)
      ]
    ]

map_interrupt-Kept :
    (limit : ℕ) (hw : Hardware) (apic : Apic) (device_id vector : ℕ) (msg : IrqMessage) (r : Remap)
    {res : Result ℕ} {r' : Remap}
    → limit ≤ length r.table
    → map_interrupt limit hw apic device_id vector msg r ≡ some (res, r')
    → Kept r.table r'.table
map_interrupt-Kept limit hw apic device_id vector msg r {res} {r'} room h =
    elim (map_interrupt-Mapped limit hw apic device_id vector msg r room h) [
      | inl (e, _, same) ↦ rw same (Kept-same r.table)
      | inr (index, _, m) ↦ record {
        room = map_interrupt-length limit hw apic device_id vector msg r h;
        owners = λ d i. elim (ℕ_discrete index i) [
          | yes e ↦ rw (← e) (
              owns_alone device_id d r'.table index m.still_owned
              ∙ sym (owns_alone device_id d r.table index m.owned))
          | no ne ↦ rw (m.kept i ne) refl
        ];
        guarded = λ i. elim (ℕ_discrete index i) [
          | yes e ↦ inr (
              rw (← e)
                (elim m.present [ inl absent ↦ inl absent | inr (sq, svt, _) ↦ inr (sq, svt) ]))
          | no ne ↦ inl (m.kept i ne)
        ];
      }
    ]

module _ {M : Type 0} (mem : GuestMemory M) (apic : Apic) where
  remapped-remap :
      (iommu device_id vector index : ℕ) (s : Emulation M)
      → (get_remapped_root_int mem apic iommu device_id vector index s).1.remap ≡ s.remap
  unfolding get_remapped_root_int set_usage set_unit
  remapped-remap iommu device_id vector index s = ground arith

  emulate_wait-remap :
      (inv_desc : Entry) (s : Emulation M) → (emulate_wait mem inv_desc s).1.remap ≡ s.remap
  unfolding emulate_wait
  emulate_wait-remap inv_desc s = ground arith

  module _ (limit : ℕ) (hw : Hardware) (devices : RootDevices M) where
    -- A call leaves the table, or its changes are those of one update of an interrupt.
    inv_int-remap :
        (unit_no index : ℕ) (s : Emulation M) {res : Result ℕ} {s' : Emulation M}
        → emulate_inv_int mem apic limit hw devices unit_no index s ≡ some (res, s')
        → (s'.remap ≡ s.remap)
          ⊎ ((device_id : ℕ) × (vector : ℕ) × (msg : IrqMessage) × (map_interrupt limit hw apic
                  device_id vector msg s.remap
                ≡ some (res, s'.remap)))
    unfolding emulate_inv_int
    inv_int-remap unit_no index s {res} {s'} h =
        let usage = (s.units unit_no).irte_map index in
        let (msg, s1) =
          get_remapped_root_int mem apic unit_no usage.device_id usage.vector index s in
        let same = remapped-remap unit_no usage.device_id usage.vector index s in
        elim (Option-cases
          (map_interrupt limit hw apic usage.device_id usage.vector msg s1.remap)) [
            | inl stuck ↦ inl (ground (arith, stuck))
            | inr ((mapped, remap), e) ↦
                elim (Bool-cases (
                  leb (s.units unit_no).irt_entries index
                  || not usage.used
                  || devices.is_ivshmem usage.device_id)) [
                    | inl early ↦ inl (ground arith)
                    | inr late ↦ inr (
                      usage.device_id,
                      usage.vector,
                      msg,
                      sym (
                            ap (λ r. map_interrupt limit hw apic usage.device_id usage.vector msg r)
                              same)
                          ∙ e
                          ∙ ground arith,
                    )
                  ]
          ]

    emulate_inv_int-Kept :
        (unit_no index : ℕ) (s : Emulation M) {res : Result ℕ} {s' : Emulation M}
        → limit ≤ length s.remap.table
        → emulate_inv_int mem apic limit hw devices unit_no index s ≡ some (res, s')
        → Kept s.remap.table s'.remap.table
    emulate_inv_int-Kept unit_no index s {res} {s'} room h =
        elim (inv_int-remap unit_no index s h) [
          | inl same ↦ rw same (Kept-same s.remap.table)
          | inr (device_id, vector, msg, e) ↦
              map_interrupt-Kept limit hw apic device_id vector msg s.remap room e
        ]

    emulate_range-Kept :
        (unit_no left n : ℕ) (s : Emulation M) {res : Result ℕ} {s' : Emulation M}
        → limit ≤ length s.remap.table
        → emulate_range mem apic limit hw devices unit_no left n s ≡ some (res, s')
        → Kept s.remap.table s'.remap.table
    unfolding emulate_range
    emulate_range-Kept unit_no zero n s {res} {s'} room h =
        let same : s ≡ s' = ground arith in rw (← same) (Kept-same s.remap.table)
    emulate_range-Kept unit_no (suc left) n s {res} {s'} room h =
        elim (Option-cases (emulate_inv_int mem apic limit hw devices unit_no n s)) [
          | inl stuck ↦ absurd (ground arith)
          | inr ((err x, s1), e) ↦
              let same : s1 ≡ s' = ground arith in
              rw (← same) (emulate_inv_int-Kept unit_no n s room e)
          | inr ((ok i, s1), e) ↦
              let k = emulate_inv_int-Kept unit_no n s room e in
              Kept-then k (
                emulate_range-Kept unit_no left (n + 1) s1 {res = res} {s' = s'} (rw k.room room)
                  (ground arith))
        ]

    qi_request-Kept :
        (unit_no : ℕ) (inv_desc : Entry) (s : Emulation M) {res : Result ℕ} {s' : Emulation M}
        → limit ≤ length s.remap.table
        → emulate_qi_request mem apic limit hw devices unit_no inv_desc s ≡ some (res, s')
        → Kept s.remap.table s'.remap.table
    unfolding emulate_qi_request
    qi_request-Kept unit_no inv_desc s {res} {s'} room h =
        let kind = bit_and inv_desc.lo_word req_inv_mask in
        let start = bit_and inv_desc.lo_word inv_int_iidx_mask >>> inv_int_iidx_shift in
        let count = 1 <<< (bit_and inv_desc.lo_word inv_int_im_mask >>> inv_int_im_shift) in
        let same = emulate_wait-remap inv_desc s in
        elim (Bool-cases (kind == req_inv_int)) [
          | inl interrupts ↦ elim (Bool-cases (has inv_desc.lo_word inv_int_index)) [
            | inl some_of ↦
                emulate_range-Kept unit_no count start s {res = res} {s' = s'} room (ground arith)
            | inr all ↦
                emulate_range-Kept unit_no (s.units unit_no).irt_entries 0 s {res = res} {s' = s'}
                  room (ground arith)
          ]
          | inr other ↦ let e : s'.remap ≡ s.remap = ground arith in rw e (Kept-same s.remap.table)
        ]

    consume-Kept :
        (rounds unit_no tail : ℕ) (s : Emulation M) {consumed : Bool} {s' : Emulation M}
        → limit ≤ length s.remap.table
        → consume mem apic limit hw devices rounds unit_no tail s ≡ some (consumed, s')
        → Kept s.remap.table s'.remap.table
    unfolding consume set_unit
    consume-Kept zero unit_no tail s room h = cc
    consume-Kept (suc rounds) unit_no tail s {consumed} {s'} room h =
        let unit = s.units unit_no in
        elim (Bool-cases (unit.iqh == tail)) [
          | inl done ↦ let same : s ≡ s' = ground arith in rw (← same) (Kept-same s.remap.table)
          | inr more ↦ elim (Option-cases (mem.get_page unit.iqa false s.memory)) [
            | inl unmapped ↦
                let same : s ≡ s' = ground arith in rw (← same) (Kept-same s.remap.table)
            | inr (page, e) ↦
                let inv_desc = mem.entry_at (page + unit.iqh) s.memory in
                elim (Option-cases
                  (emulate_qi_request mem apic limit hw devices unit_no inv_desc s)) [
                    | inl stuck ↦ absurd (ground arith)
                    | inr ((err x, s1), e') ↦
                        let same : s1 ≡ s' = ground arith in
                        rw (← same) (qi_request-Kept unit_no inv_desc s room e')
                    | inr ((ok (suc n), s1), e') ↦
                        let same : s1 ≡ s' = ground arith in
                        rw (← same) (qi_request-Kept unit_no inv_desc s room e')
                    | inr ((ok zero, s1), e') ↦
                        let k = qi_request-Kept unit_no inv_desc s room e' in
                        let unit' = s1.units unit_no in
                        Kept-then k (
                          consume-Kept rounds unit_no tail
                            (set_unit unit_no
                              (record unit' {
                                iqh =
                                    bit_and (u16 (unit'.iqh + (1 <<< iqh_qh_shift))) page_offs_mask;
                              })
                              s1)
                            {consumed = consumed} {s' = s'} (rw k.room room) (ground arith))
                  ]
          ]
        ]

    -- An access of the guest to a unit that returns, whatever it writes and whatever its memory holds,
    -- keeps the number of entries of the hypervisor's table and the device that each entry belongs to,
    -- and each entry is as it was, or delivers nothing, or has its source id verified, given a table
    -- that holds all entries below the limit.
    pub unit_access_handler-Kept :
        (rounds unit_no : ℕ) (mmio : MmioAccess) (s : Emulation M) {res : MmioResult}
        {mmio' : MmioAccess} {s' : Emulation M}
        → limit ≤ length s.remap.table
        → unit_access_handler mem apic limit hw devices rounds unit_no mmio s
          ≡ some (res, (mmio', s'))
        → Kept s.remap.table s'.remap.table
    unfolding unit_access_handler set_unit
    unit_access_handler-Kept rounds unit_no mmio s {res} {mmio'} {s'} room h =
        let tail = bit_and (bit_and mmio.value iqt_qt_mask) page_offs_mask in
        elim (Option-cases (consume mem apic limit hw devices rounds unit_no tail s)) [
          | inl stuck ↦ let e : s'.remap ≡ s.remap = ground arith in rw e (Kept-same s.remap.table)
          | inr ((consumed, s1), e) ↦
              elim (Bool-cases (
                mmio.address == iqt_reg
                && mmio.is_write
                && not (leb fectl_reg mmio.address && leb mmio.address feuaddr_reg))) [
                  | inl tail_written ↦
                      let same : s1.remap ≡ s'.remap = ground arith in
                      rw (← same) (consume-Kept rounds unit_no tail s room e)
                  | inr other ↦
                      let same : s'.remap ≡ s.remap = ground arith in
                      rw same (Kept-same s.remap.table)
                ]
        ]
