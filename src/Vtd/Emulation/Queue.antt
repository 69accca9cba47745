-- ===== src/Vtd/Emulation/Queue.antt =====
-- The consumption of the guest's invalidation queue by `vtd_unit_access_handler`, against the list of the
-- slots that wait.
use spy.Base.{
  ℕ, zero, suc, ◌+◌, ◌-◌, ◌*◌, ◌/◌, ◌%◌, ◌^◌, ◌<◌, ◌≡◌, ◌≢◌, ◌⊎◌, inl, inr, refl, arith, Bool, true,
  false, Option, none, some, List, [], ◌∷◌, ◌==◌, ==_self, ==_ne, Option-cases, ◌∙◌, sym, ap,
  bit_and, u16, ◌<<<◌, bit_and_mask, bit_and_field,
}
use spy.Base.Result.{Result, ok, err}
use spy.Base.Store.{put_same}
use spy.Vtd.Queue.{Hardware}
use spy.Vtd.Remap.{Apic}
use spy.Vtd.Emulation.{
  Emulation, EmulatedUnit, GuestMemory, RootDevices, set_unit, emulate_qi_request, consume,
  iqt_qt_mask, page_offs_mask, iqh_qh_shift,
}
use spy.Vtd.Emulation.Answers.{Completes, head, qi_request-Settles}

-- `count` slots of the queue from `slot` on, round the end of its page of 256 entries.
unfoldable pub slots : ℕ → ℕ → List ℕ
slots zero slot = []
slots (suc count) slot = slot ∷ slots count ((slot + 1) % 256)

-- The slots that wait when the head is at one slot and the tail at another.
abbrev pub pending : ℕ → ℕ → List ℕ
pending from to = slots ((to + 256 - from) % 256) from

module _ {M : Type 0} (mem : GuestMemory M) (apic : Apic) (limit : ℕ) (hw : Hardware)
    (devices : RootDevices M) (unit_no : ℕ) where
  abbrev pub move_head : ℕ → Emulation M → Emulation M
  move_head slot s = set_unit unit_no (record (s.units unit_no) { iqh = slot * 16 }) s

  -- One request after the other from a list of slots, up to the first that is refused.
  unfoldable pub serve : List ℕ → Emulation M → Option (Bool × Emulation M)
  serve [] s = some (true, s)
  serve (slot ∷ rest) s = elim (mem.get_page (s.units unit_no).iqa false s.memory) [
    | none ↦ some (false, s)
    | some page ↦
        elim (emulate_qi_request mem apic limit hw devices unit_no
          (mem.entry_at (page + slot * 16) s.memory) s) [
            | none ↦ none
            | some (err e, s') ↦ some (false, s')
            | some (ok (suc n), s') ↦ some (false, s')
            | some (ok zero, s') ↦ serve rest (move_head ((slot + 1) % 256) s')
          ]
  ]

pub dec_done : (r : Result ℕ) → (r ≡ ok 0) ⊎ (r ≢ ok 0)
dec_done (ok zero) = inl refl
dec_done (ok (suc n)) = inr (λ e. cc e)
dec_done (err x) = inr (λ e. cc e)

next_head :
    (slot : ℕ)
    → slot < 256
    → bit_and (u16 (slot * 16 + (1 <<< iqh_qh_shift))) page_offs_mask ≡ (slot + 1) % 256 * 16
next_head slot lt = bit_and_mask 12 (u16 (slot * 16 + 16)) ∙ omega (arith, lt)

pub tail_slot :
    (value : ℕ) → bit_and (bit_and value iqt_qt_mask) page_offs_mask ≡ value / 16 % 256 * 16
tail_slot value =
    rw (bit_and_field 4 15 value) (bit_and_mask 12 (value / 16 % 2 ^ 15 * 16) ∙ omega arith)

module _ {M : Type 0} (mem : GuestMemory M) (apic : Apic) (limit : ℕ) (hw : Hardware)
    (completes : Completes hw) (devices : RootDevices M) (unit_no : ℕ) where
  consume-step :
      (rounds tail page : ℕ) (s s1 : Emulation M)
      → (head unit_no s == tail) ≡ false
      → mem.get_page (s.units unit_no).iqa false s.memory ≡ some page
      → emulate_qi_request mem apic limit hw devices unit_no
          (mem.entry_at (page + head unit_no s) s.memory)
          s
        ≡ some (ok 0, s1)
      → consume mem apic limit hw devices (suc rounds) unit_no tail s
        ≡ consume mem apic limit hw devices rounds unit_no tail (
            set_unit unit_no
              (record (s1.units unit_no) {
                iqh = bit_and (u16 (head unit_no s1 + (1 <<< iqh_qh_shift))) page_offs_mask;
              })
              s1)
  unfolding consume
  consume-step rounds tail page s s1 ne mapped e = rw (consume, ne, mapped, e) refl

  pub serve-step :
      (slot page : ℕ) (rest : List ℕ) (s s1 : Emulation M)
      → mem.get_page (s.units unit_no).iqa false s.memory ≡ some page
      → emulate_qi_request mem apic limit hw devices unit_no
          (mem.entry_at (page + slot * 16) s.memory)
          s
        ≡ some (ok 0, s1)
      → serve mem apic limit hw devices unit_no (slot ∷ rest) s
        ≡ serve mem apic limit hw devices unit_no rest
            (move_head mem apic limit hw devices unit_no ((slot + 1) % 256) s1)
  unfolding serve
  serve-step slot page rest s s1 mapped e = rw (serve, mapped, e) refl

  consume-stop :
      (rounds tail page : ℕ) (s s1 : Emulation M) (r : Result ℕ)
      → r ≢ ok 0
      → (head unit_no s == tail) ≡ false
      → mem.get_page (s.units unit_no).iqa false s.memory ≡ some page
      → emulate_qi_request mem apic limit hw devices unit_no
          (mem.entry_at (page + head unit_no s) s.memory)
          s
        ≡ some (r, s1)
      → consume mem apic limit hw devices (suc rounds) unit_no tail s ≡ some (false, s1)
  unfolding consume
  consume-stop rounds tail page s s1 (err x) failed ne mapped e = rw (consume, ne, mapped, e) refl
  consume-stop rounds tail page s s1 (ok (suc n)) failed ne mapped e =
      rw (consume, ne, mapped, e) refl
  consume-stop rounds tail page s s1 (ok zero) failed ne mapped e = absurd (failed refl)

  pub serve-stop :
      (slot page : ℕ) (rest : List ℕ) (s s1 : Emulation M) (r : Result ℕ)
      → r ≢ ok 0
      → mem.get_page (s.units unit_no).iqa false s.memory ≡ some page
      → emulate_qi_request mem apic limit hw devices unit_no
          (mem.entry_at (page + slot * 16) s.memory)
          s
        ≡ some (r, s1)
      → serve mem apic limit hw devices unit_no (slot ∷ rest) s ≡ some (false, s1)
  unfolding serve
  serve-stop slot page rest s s1 (err x) failed mapped e = rw (serve, mapped, e) refl
  serve-stop slot page rest s s1 (ok (suc n)) failed mapped e = rw (serve, mapped, e) refl
  serve-stop slot page rest s s1 (ok zero) failed mapped e = absurd (failed refl)

  pub consume-serve :
      (count rounds slot to : ℕ) (s : Emulation M)
      → head unit_no s ≡ slot * 16
      → slot < 256
      → count < 256
      → count < rounds
      → to ≡ (slot + count) % 256
      → consume mem apic limit hw devices rounds unit_no (to * 16) s
        ≡ serve mem apic limit hw devices unit_no (slots count slot) s
  unfolding consume serve slots
  consume-serve count zero slot to s at_slot lt few enough end = absurd (omega arith)
  consume-serve zero (suc rounds) slot to s at_slot lt few enough end =
      let e : head unit_no s ≡ to * 16 = omega arith in rw (e, ==_self (to * 16)) refl
  consume-serve (suc count) (suc rounds) slot to s at_slot lt few enough end =
      elim (Option-cases (mem.get_page (s.units unit_no).iqa false s.memory)) [
        | inl unmapped ↦ ground (arith, unmapped)
        | inr (page, mapped) ↦
            let inv_desc = mem.entry_at (page + head unit_no s) s.memory in
            let (r, s1, e, same) =
              qi_request-Settles mem apic limit hw completes devices unit_no inv_desc s in
            let same_request = ap (λ (h : ℕ). mem.entry_at (page + h) s.memory) at_slot in
            let e' =
              sym (ap (λ d. emulate_qi_request mem apic limit hw devices unit_no d s) same_request)
              ∙ e in
            let ne = ==_ne (head unit_no s) (to * 16) (λ h. omega (arith, h)) in
            elim (dec_done r) [
              | inr refused ↦
                  consume-stop rounds (to * 16) page s s1 r refused ne mapped e
                  ∙ sym (
                      serve-stop slot page (slots count ((slot + 1) % 256)) s s1 r refused mapped
                        e')
              | inl done ↦
                  let next = (slot + 1) % 256 in
                  let s2 = move_head mem apic limit hw devices unit_no next s1 in
                  let e1 = e ∙ (λ j. some (done j, s1)) in
                  let e2 = e' ∙ (λ j. some (done j, s1)) in
                  let moved : bit_and (u16 (head unit_no s1 + (1 <<< iqh_qh_shift))) page_offs_mask
                      ≡ next * 16 =
                    rw (same, at_slot) (next_head slot lt) in
                  consume-step rounds (to * 16) page s s1 ne mapped e1
                  ∙ ap
                      (λ h.
                        consume mem apic limit hw devices rounds unit_no (to * 16)
                          (set_unit unit_no (record (s1.units unit_no) { iqh = h }) s1))
                      moved
                  ∙ consume-serve count rounds next to s2
                      (ap (λ (u : EmulatedUnit). u.iqh) (put_same s1.units unit_no _)) (omega arith)
                      (omega arith) (omega arith) (omega arith)
                  ∙ sym (serve-step slot page (slots count next) s s1 mapped e2)
            ]
      ]
