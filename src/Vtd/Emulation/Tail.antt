-- ===== src/Vtd/Emulation/Tail.antt =====
-- A write of the tail register of an emulated unit: it serves the slots that wait and ends.
use spy.Base.{
  ℕ, zero, suc, ◌+◌, ◌-◌, ◌*◌, ◌/◌, ◌%◌, ◌<◌, ◌≤◌, ◌≡◌, ◌⊎◌, inl, inr, refl, arith, Bool, true,
  false, Option, none, some, Bool-cases, Option-cases, ◌∙◌, ap, if◌then◌else◌, bit_and, ◌==◌, leb,
  not, ◌&&◌, u32,
}
use spy.Base.Store.{put, put_same}
use spy.Vcpu.Access.{MmioAccess, MmioResult, mmio_handled, mmio_error}
use spy.Vtd.Queue.{Hardware}
use spy.Vtd.Remap.{Apic}
use spy.Vtd.Emulation.{
  Emulation, EmulatedUnit, GuestMemory, RootDevices, set_unit, consume, unit_access_handler,
  iqt_qt_mask, page_offs_mask, iqt_reg, fsts_reg, fectl_reg, feuaddr_reg,
}
use spy.Vtd.Emulation.Answers.{Completes, head, qi_request-Settles}
use spy.Vtd.Emulation.Queue.{
  slots, pending, move_head, serve, dec_done, serve-step, serve-stop, consume-serve, tail_slot,
}

-- The head stands on one of the 256 slots of its page.
abbrev pub IsOnSlot : {M : Type 0} → ℕ → Emulation M → Type 0
IsOnSlot unit_no s = (head unit_no s % 16 ≡ 0) × (head unit_no s < 4096)

-- What the handler makes of a loop: the access was handled if all entries were consumed.
abbrev pub answer :
    {M : Type 0}
    → MmioAccess
    → Option (Bool × Emulation M)
    → Option (MmioResult × (MmioAccess × Emulation M))
answer mmio none = none
answer mmio (some (consumed, s)) = some (if consumed then mmio_handled else mmio_error, (mmio, s))

module _ {M : Type 0} (mem : GuestMemory M) (apic : Apic) (limit : ℕ) (hw : Hardware)
    (completes : Completes hw) (devices : RootDevices M) (unit_no : ℕ) where
  -- Serving returns with the head on a slot, behind the last one unless a request was refused.
  record Served (count slot : ℕ) (s : Emulation M) : Type 0 where
    done : Bool
    final : Emulation M
    result : serve mem apic limit hw devices unit_no (slots count slot) s ≡ some (done, final)
    on_slot : IsOnSlot unit_no final
    at_end : (done ≡ false) ⊎ ((done ≡ true) × (head unit_no final ≡ (slot + count) % 256 * 16))

  serve-Served :
      (count slot : ℕ) (s : Emulation M)
      → head unit_no s ≡ slot * 16
      → slot < 256
      → Served count slot s
  unfolding serve slots put set_unit
  serve-Served zero slot s at_slot lt = record {
    done = true;
    final = s;
    result = refl;
    on_slot = (omega arith, omega arith);
    at_end = inr (refl, omega arith);
  }
  serve-Served (suc count) slot s at_slot lt =
      elim (Option-cases (mem.get_page (s.units unit_no).iqa false s.memory)) [
        | inl unmapped ↦ record {
          done = false;
          final = s;
          result = rw (serve, unmapped) refl;
          on_slot = (omega arith, omega arith);
          at_end = inl refl;
        }
        | inr (page, mapped) ↦
            let inv_desc = mem.entry_at (page + slot * 16) s.memory in
            let next = (slot + 1) % 256 in
            let (r, s1, e, same) =
              qi_request-Settles mem apic limit hw completes devices unit_no inv_desc s in
            elim (dec_done r) [
              | inr refused ↦ record {
                done = false;
                final = s1;
                result =
                    serve-stop mem apic limit hw completes devices unit_no slot page
                      (slots count next) s s1 r refused mapped e;
                on_slot = (omega (arith, same, at_slot), omega (arith, same, at_slot));
                at_end = inl refl;
              }
              | inl ended ↦
                  let rest =
                    serve-Served count next (move_head mem apic limit hw devices unit_no next s1)
                      (ap (λ (u : EmulatedUnit). u.iqh) (put_same s1.units unit_no _))
                      (omega arith) in
                  record {
                    done = rest.done;
                    final = rest.final;
                    result =
                        serve-step mem apic limit hw completes devices unit_no slot page
                          (slots count next) s s1 mapped (e ∙ (λ j. some (ended j, s1)))
                        ∙ rest.result;
                    on_slot = rest.on_slot;
                    at_end = elim rest.at_end [
                      | inl x ↦ inl x
                      | inr (t, x) ↦ inr (t, omega (arith, x))
                    ];
                  }
            ]
      ]

  module _ (rounds : ℕ) (mmio : MmioAccess) (s : Emulation M) (enough : 256 ≤ rounds)
      (on_slot : IsOnSlot unit_no s) where
    consume-pending :
        consume mem apic limit hw devices rounds unit_no
          (bit_and (bit_and mmio.value iqt_qt_mask) page_offs_mask)
          s
        ≡ serve mem apic limit hw devices unit_no
            (pending (head unit_no s / 16) (mmio.value / 16 % 256))
            s
    consume-pending =
        let from = head unit_no s / 16 in
        let to = mmio.value / 16 % 256 in
        rw (tail_slot mmio.value) (
          consume-serve mem apic limit hw completes devices unit_no ((to + 256 - from) % 256) rounds
            from to s (omega (arith, on_slot)) (omega (arith, on_slot)) (omega arith) (omega arith)
            (omega (arith, on_slot)))

    -- Where the hardware completes every request, a write of the tail, with a head on a slot and 256 rounds
    -- or more, is the service of the slots from the head to the tail, round the end of the page, each one
    -- once and in order, up to the first request that is refused.
    pub tail_write-serve :
        mmio.address ≡ iqt_reg
        → mmio.is_write ≡ true
        → unit_access_handler mem apic limit hw devices rounds unit_no mmio s
          ≡ answer mmio (
              serve mem apic limit hw devices unit_no
                (pending (head unit_no s / 16) (mmio.value / 16 % 256))
                s)
    unfolding unit_access_handler
    tail_write-serve at write = simp (at, write) (ap (answer mmio) consume-pending)

    -- Where the hardware completes every request, a write of the tail that is handled leaves the head at
    -- the tail; one that is not handled is an error, and leaves it on a slot.
    tail_write-Ends :
        mmio.address ≡ iqt_reg
        → mmio.is_write ≡ true
        → (s' : Emulation M) × IsOnSlot unit_no s'
          × ((unit_access_handler mem apic limit hw devices rounds unit_no mmio s
                ≡ some (mmio_error, (mmio, s')))
              ⊎ ((unit_access_handler mem apic limit hw devices rounds unit_no mmio s
                    ≡ some (mmio_handled, (mmio, s')))
                  × (head unit_no s' ≡ mmio.value / 16 % 256 * 16)))
    tail_write-Ends at write =
        let from = head unit_no s / 16 in
        let to = mmio.value / 16 % 256 in
        let served =
          serve-Served ((to + 256 - from) % 256) from s (omega (arith, on_slot))
            (omega (arith, on_slot)) in
        let e = tail_write-serve at write ∙ ap (answer mmio) served.result in
        (
          served.final,
          served.on_slot,
          elim served.at_end [
            | inl refused ↦ inl (e ∙ rw refused refl)
            | inr (done, at_end) ↦ inr (e ∙ rw done refl, omega (arith, at_end, on_slot))
          ],
        )

    -- Where the hardware completes every request, each access of the guest with a head on a slot and 256
    -- rounds or more returns, with the head on a slot again.
    pub unit_access_handler-Returns :
        (res : MmioResult) × (mmio' : MmioAccess) × (s' : Emulation M) × (unit_access_handler mem
            apic limit hw devices rounds unit_no mmio s
          ≡ some (res, (mmio', s')))
        × IsOnSlot unit_no s'
    unfolding unit_access_handler set_unit put
    unit_access_handler-Returns =
        elim (Bool-cases (mmio.address == fsts_reg && not mmio.is_write)) [
          | inl status ↦ (mmio_handled, record mmio { value = 0 }, s, ground arith, on_slot)
          | inr other ↦
              elim (Bool-cases (leb fectl_reg mmio.address && leb mmio.address feuaddr_reg)) [
                | inl shadow ↦ elim (Bool-cases mmio.is_write) [
                  | inl write ↦
                      let regs =
                        put (s.units unit_no).fault_event_regs ((mmio.address - fectl_reg) / 4)
                          (u32 mmio.value) in
                      let s' =
                        set_unit unit_no (record (s.units unit_no) { fault_event_regs = regs }) s in
                      let kept : head unit_no s' ≡ head unit_no s =
                        ap (λ (u : EmulatedUnit). u.iqh)
                          (put_same s.units unit_no
                            (record (s.units unit_no) { fault_event_regs = regs })) in
                      (
                        mmio_handled,
                        mmio,
                        s',
                        ground arith,
                        (omega (arith, kept, on_slot), omega (arith, kept, on_slot)),
                      )
                  | inr read ↦
                      let value =
                        (s.units unit_no).fault_event_regs ((mmio.address - fectl_reg) / 4) in
                      (mmio_handled, record mmio { value = value }, s, ground arith, on_slot)
                ]
                | inr not_shadow ↦ elim (Bool-cases (mmio.address == iqt_reg && mmio.is_write)) [
                  | inl tail ↦
                      let (s', on_slot', ends) = tail_write-Ends (ground arith) (ground arith) in
                      elim ends [
                        | inl failed ↦ (mmio_error, mmio, s', failed, on_slot')
                        | inr (handled, _) ↦ (mmio_handled, mmio, s', handled, on_slot')
                      ]
                  | inr none_of ↦ (mmio_error, mmio, s, ground arith, on_slot)
                ]
              ]
        ]
