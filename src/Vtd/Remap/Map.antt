-- ===== src/Vtd/Remap/Map.antt =====
-- `iommu_map_interrupt`: a target reaches the entries of its own device alone, and with a message
-- that was checked.
use spy.Base.{
  ℕ, ◌+◌, ◌-◌, ◌<◌, ◌≤◌, ◌≡◌, ◌≢◌, ◌⊎◌, inl, inr, arith, true, false, some, List, length, get_or,
  Bool-cases, Option-cases,
}
use spy.Base.Result.{Result, ok, err, Errno}
use spy.Vtd.Queue.{Hardware}
use spy.Vtd.Remap.{
  Irte, zero_irte, Remap, IrqMessage, Apic, fill_irte, write_lower, write_irte,
  find_int_remap_region, update_irte, check_interrupt, map_interrupt,
}
use spy.Vtd.Remap.Find.{owns, Result-cases}
use spy.Vtd.Remap.Update.{update_irte-table, write_irte_ne, write_irte_present, write_irte_absent}

-- A message that may make an entry present: valid, of one of the two delivery modes, and to a
-- destination that the target may address.
abbrev pub IsPermitted : Apic → IrqMessage → Type 0
IsPermitted apic msg =
    (msg.valid ≡ true)
    × ((msg.delivery_mode ≡ apic.dlvr_fixed) ⊎ (msg.delivery_mode ≡ apic.dlvr_lowpri))
    × ((apic.filter_irq_dest msg).0 ≡ true)

-- What a check that passes says of the entry `irte` to be written at `index`.
record Checked (limit : ℕ) (apic : Apic) (device_id vector : ℕ) (msg : IrqMessage)
    (table : List Irte) (index : ℕ) (irte : Irte) : Type 0 where
  base : find_int_remap_region limit device_id table ≡ ok (index - vector)
  place : (index - vector) + vector ≡ index
  below : index < limit
  owned : owns device_id table index ≡ true
  same_owner : (irte.sid ≡ (get_or table index zero_irte).sid) × (irte.assigned ≡ true)
  absent_or :
      (irte.p ≡ false)
      ⊎ ((irte ≡ fill_irte apic (get_or table index zero_irte) (apic.filter_irq_dest msg).1)
          × IsPermitted apic msg)

module _ (limit : ℕ) (apic : Apic) (device_id vector : ℕ) (msg : IrqMessage)
    (table : List Irte) where
  check-Checked :
      {index : ℕ} {irte : Irte}
      → check_interrupt limit apic device_id vector msg table ≡ ok (index, irte)
      → Checked limit apic device_id vector msg table index irte
  unfolding check_interrupt
  check-Checked {index} {irte} h =
      elim (Result-cases (find_int_remap_region limit device_id table)) [
        | inr (x, e) ↦ absurd (ground arith)
        | inl (base, e) ↦ record {
          base = ground arith;
          place = ground arith;
          below = ground arith;
          owned = ground arith;
          same_owner = ground arith;
          absent_or = ground arith;
        }
      ]

-- What a successful call leaves: it wrote the one entry `vector` behind the start of the device's
-- region, below the limit; that entry belongs to the device before and after; every other entry is
-- as it was; and the entry is not present, or the message was permitted and the unit verifies the
-- source id of its interrupts.
pub record Mapped (limit : ℕ) (apic : Apic) (device_id vector : ℕ) (msg : IrqMessage)
    (before : List Irte) (index : ℕ) (after : List Irte) : Type 0 where
  pub base : find_int_remap_region limit device_id before ≡ ok (index - vector)
  pub place : (index - vector) + vector ≡ index
  pub below : index < limit
  pub owned : owns device_id before index ≡ true
  pub still_owned : owns device_id after index ≡ true
  pub kept : (j : ℕ) → index ≢ j → get_or after j zero_irte ≡ get_or before j zero_irte
  pub present :
      ((get_or after index zero_irte).p ≡ false)
      ⊎ (((get_or after index zero_irte).sq ≡ 0)
          × ((get_or after index zero_irte).svt ≡ 1)
          × IsPermitted apic msg)

Written :
    (limit : ℕ) (apic : Apic) (device_id vector : ℕ) (msg : IrqMessage) (before : List Irte)
    (index : ℕ) (irte : Irte)
    → limit ≤ length before
    → Checked limit apic device_id vector msg before index irte
    → Mapped limit apic device_id vector msg before index (write_irte before index irte)
unfolding write_lower fill_irte
Written limit apic device_id vector msg before index irte room c =
    let lt : index < length before = omega (arith, c.below) in
    elim (Bool-cases irte.p) [
      | inl present ↦
          let e = write_irte_present before index irte lt present in
          record {
            base = c.base;
            place = c.place;
            below = c.below;
            owned = c.owned;
            still_owned = rw e (ground (arith, c.owned, c.same_owner));
            kept = write_irte_ne before index irte;
            present = rw e (ground (arith, c.absent_or));
          }
      | inr absent ↦
          let e = write_irte_absent before index irte lt absent in
          record {
            base = c.base;
            place = c.place;
            below = c.below;
            owned = c.owned;
            still_owned = rw e (ground (arith, c.owned, c.same_owner));
            kept = write_irte_ne before index irte;
            present = rw e (inl absent);
          }
    ]

-- A call that returns, on a table that holds all entries below the limit, fails and leaves everything
-- as it was, or succeeds with what `Mapped` says.
pub map_interrupt-Mapped :
    (limit : ℕ) (hw : Hardware) (apic : Apic) (device_id vector : ℕ) (msg : IrqMessage) (r : Remap)
    {res : Result ℕ} {r' : Remap}
    → limit ≤ length r.table
    → map_interrupt limit hw apic device_id vector msg r ≡ some (res, r')
    → ((e : Errno) × (res ≡ err e) × (r' ≡ r))
      ⊎ ((index : ℕ) × (res ≡ ok index)
          × Mapped limit apic device_id vector msg r.table index r'.table)
unfolding map_interrupt
map_interrupt-Mapped limit hw apic device_id vector msg r {res} {r'} room h =
    elim (Result-cases (check_interrupt limit apic device_id vector msg r.table)) [
      | inr (e, c) ↦ inl (e, ground arith, ground arith)
      | inl ((index, irte), c) ↦ elim (Option-cases (update_irte hw index irte r)) [
        | inl stuck ↦ absurd (ground arith)
        | inr (r1, u) ↦
            let same : r1 ≡ r' = ground arith in
            inr (
              index,
              ground arith,
              rw (← same, update_irte-table hw index irte r u)
                  (Written limit apic device_id vector msg r.table index irte room
                    (check-Checked limit apic device_id vector msg r.table c)),
            )
      ]
    ]
