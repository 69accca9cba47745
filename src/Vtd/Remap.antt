-- ===== src/Vtd/Remap.antt =====
-- The interrupt remapping table of vtd.c: `vtd_update_irte`, `vtd_find_int_remap_region`,
-- `vtd_reserve_int_remap_region`, `vtd_free_int_remap_region` and `iommu_map_interrupt`.
pub mod Find
pub mod Reserve
pub mod Update
pub mod Map
mod Tests
use spy.Base.{
  ℕ, zero, suc, ◌+◌, ◌-◌, ◌*◌, ◌/◌, ◌%◌, ◌^◌, Bool, true, false, not, ◌&&◌, ◌||◌, Option, none,
  some, List, [], ◌∷◌, bit_or, ◌<<<◌, u8, u16, u32, u64, get_or, set, if◌then◌else◌, ltb, leb, ◌==◌,
}
use spy.Base.Result.{Result, ok, err, Errno, enoent, e2big, erange, einval, eperm, ◌>>=◌}
use spy.Vtd.{Entry, req_inv_int, inv_int_index, inv_int_iidx_shift}
use spy.Vtd.Queue.{InvUnit, Hardware, submit_all}

-- `union vtd_irte`. The fields down to `destination` are the lower half, `raw[0]`, the others the
-- upper half, `raw[1]`.
pub record Irte : Type 0 where
  pub p : Bool
  pub fpd : ℕ
  pub dest_logical : ℕ
  pub redir_hint : ℕ
  pub level_triggered : ℕ
  pub delivery_mode : ℕ
  pub assigned : Bool
  pub reserved : ℕ
  pub vector : ℕ
  pub reserved2 : ℕ
  pub destination : ℕ
  pub sid : ℕ
  pub sq : ℕ
  pub svt : ℕ
  pub reserved3 : ℕ
  pub reserved4 : ℕ

abbrev pub zero_irte : Irte
zero_irte = record {
  p = false;
  fpd = 0;
  dest_logical = 0;
  redir_hint = 0;
  level_triggered = 0;
  delivery_mode = 0;
  assigned = false;
  reserved = 0;
  vector = 0;
  reserved2 = 0;
  destination = 0;
  sid = 0;
  sq = 0;
  svt = 0;
  reserved3 = 0;
  reserved4 = 0;
}

-- `int_remap_table` and the DMAR units.
pub record Remap : Type 0 where
  pub table : List Irte
  pub units : List InvUnit

-- `irte->raw[1] = content.raw[1]` and `irte->raw[0] = content.raw[0]`
unfoldable pub write_upper : Irte → Irte → Irte
write_upper irte content = record irte {
  sid = content.sid;
  sq = content.sq;
  svt = content.svt;
  reserved3 = content.reserved3;
  reserved4 = content.reserved4;
}

unfoldable pub write_lower : Irte → Irte → Irte
write_lower irte content = record content {
  sid = irte.sid;
  sq = irte.sq;
  svt = irte.svt;
  reserved3 = irte.reserved3;
  reserved4 = irte.reserved4;
}

-- The values that the entry takes one after the other.
unfoldable pub irte_writes : Irte → Irte → List Irte
unfolding write_upper write_lower
irte_writes irte content =
    if content.p
    then write_upper irte content ∷ write_lower (write_upper irte content) content ∷ []
    else write_lower irte content ∷ []

unfoldable pub last_of : Irte → List Irte → Irte
last_of irte [] = irte
last_of irte (w ∷ ws) = last_of w ws

-- What `vtd_update_irte` leaves in the table.
unfoldable pub write_irte : List Irte → ℕ → Irte → List Irte
unfolding irte_writes last_of
write_irte table index content =
    let irte = get_or table index zero_irte in
    set table index (last_of irte (irte_writes irte content))

module _ (hw : Hardware) where
  -- `none` is a call that still waits for the hardware.
  unfoldable pub update_irte : ℕ → Irte → Remap → Option Remap
  unfolding write_irte
  update_irte index content r =
      let inv_int : Entry = record {
        lo_word = bit_or (bit_or req_inv_int inv_int_index) (u64 (index <<< inv_int_iidx_shift));
        hi_word = 0;
      } in
      elim (submit_all hw (inv_int ∷ []) r.units) [
        | none ↦ none
        | some units ↦ some (record { table = write_irte r.table index content; units = units })
      ]

  -- `while (length-- > 0) vtd_update_irte(pos++, free_irte);`
  unfoldable pub free_from : ℕ → ℕ → Remap → Option Remap
  unfolding update_irte
  free_from zero pos r = some r
  free_from (suc length) pos r = elim (update_irte pos zero_irte r) [
    | none ↦ none
    | some r' ↦ free_from length (pos + 1) r'
  ]

unfoldable pub find_from : ℕ → ℕ → ℕ → List Irte → Result ℕ
find_from device_id zero n table = err enoent
find_from device_id (suc left) n table =
    let irte = get_or table n zero_irte in
    let rest = find_from device_id left (n + 1) table in
    if irte.assigned && irte.sid == device_id then ok n else rest

-- The inner loop of the reservation, with `left` entries to go from `n` on.
unfoldable pub assign : ℕ → ℕ → ℕ → List Irte → List Irte
assign device_id zero n table = table
assign device_id (suc left) n table =
    assign device_id left (n + 1)
      (set table n (record (get_or table n zero_irte) { assigned = true; sid = u16 device_id }))

-- `if (start < 0) start = n;`, where `none` is `-E2BIG`.
abbrev pub start_at : Option ℕ → ℕ → ℕ
start_at none n = n
start_at (some s) n = s

-- The outer loop of the reservation at `n`: `start` is `none` while it is `-E2BIG`.
unfoldable pub search_from : ℕ → ℕ → ℕ → Option ℕ → List Irte → Result ℕ
search_from length zero n start table = err e2big
search_from length (suc left) n start table =
    let taken = (get_or table n zero_irte).assigned in
    let begin = start_at start n in
    let rest = search_from length left (n + 1) (if taken then none else some begin) table in
    if taken then rest else if n + 1 == u32 (begin + length) then ok begin else rest

-- `limit` is `VTD_INTERRUPT_LIMIT()`.
module _ (limit : ℕ) where
  unfoldable pub find_int_remap_region : ℕ → List Irte → Result ℕ
  unfolding find_from
  find_int_remap_region device_id table = find_from device_id limit 0 table

  -- The result and the table after the call.
  unfoldable pub reserve_int_remap_region : ℕ → ℕ → List Irte → Result ℕ × List Irte
  unfolding search_from assign find_int_remap_region
  reserve_int_remap_region device_id length table =
      if length == 0 then (ok 0, table) else elim (find_int_remap_region device_id table) [
        | ok pos ↦ (ok 0, table)
        | err e ↦ elim (search_from length limit 0 none table) [
          | ok start ↦ (ok start, assign device_id length start table)
          | err e' ↦ (err e', table)
        ]
      ]

module _ (limit : ℕ) (hw : Hardware) where
  unfoldable pub free_int_remap_region : ℕ → ℕ → Remap → Option Remap
  unfolding free_from find_int_remap_region
  free_int_remap_region device_id length r = elim (find_int_remap_region limit device_id r.table) [
    | ok pos ↦ free_from hw length pos r
    | err e ↦ some r
  ]

-- The fields of `struct apic_irq_message` that vtd.c names.
pub record IrqMessage : Type 0 where
  pub valid : Bool
  pub vector : ℕ
  pub delivery_mode : ℕ
  pub dest_logical : ℕ
  pub level_triggered : ℕ
  pub redir_hint : ℕ
  pub destination : ℕ

-- What the APIC code supplies: its delivery modes, whether x2APIC is in use, and the check of a
-- message's destination for the target, which may change the message.
pub record Apic : Type 0 where
  pub dlvr_fixed : ℕ
  pub dlvr_lowpri : ℕ
  pub using_x2apic : Bool
  pub filter_irq_dest : IrqMessage → Bool × IrqMessage

-- The fields that `iommu_map_interrupt` writes for a valid message. The bit fields cut what is
-- stored into them.
unfoldable pub fill_irte : Apic → Irte → IrqMessage → Irte
fill_irte apic irte msg = record irte {
  p = true;
  dest_logical = msg.dest_logical % 2;
  redir_hint = msg.redir_hint % 2;
  level_triggered = msg.level_triggered % 2;
  delivery_mode = msg.delivery_mode % 8;
  vector = u8 msg.vector;
  destination =
      if not apic.using_x2apic then u32 (u32 msg.destination <<< 8) else u32 msg.destination;
  sq = 0x0;
  svt = 0x1;
}

module _ (limit : ℕ) (apic : Apic) where
  -- The checks: the entry to write and its index, or the error.
  unfoldable pub check_interrupt : ℕ → ℕ → IrqMessage → List Irte → Result (ℕ × Irte)
  unfolding find_int_remap_region fill_irte
  check_interrupt device_id vector irq_msg table = do
    base_index ← find_int_remap_region limit device_id table
    let irte = get_or table (base_index + vector) zero_irte
    let (passes, msg) = apic.filter_irq_dest irq_msg
    if leb limit vector || leb (limit - vector) base_index
        then err erange
        else if not irte.assigned || not (irte.sid == device_id)
        then err erange
        else if not irq_msg.valid
        then ok (base_index + vector, record irte { p = false })
        else if not (irq_msg.delivery_mode == apic.dlvr_fixed)
            && not (irq_msg.delivery_mode == apic.dlvr_lowpri)
        then err einval
        else if not passes
        then err eperm
        else ok (base_index + vector, fill_irte apic irte msg)

module _ (limit : ℕ) (hw : Hardware) (apic : Apic) where
  unfoldable pub map_interrupt : ℕ → ℕ → IrqMessage → Remap → Option (Result ℕ × Remap)
  unfolding check_interrupt update_irte
  map_interrupt device_id vector irq_msg r =
      elim (check_interrupt limit apic device_id vector irq_msg r.table) [
        | err e ↦ some (err e, r)
        | ok (index, irte) ↦ elim (update_irte hw index irte r) [
          | none ↦ none
          | some r' ↦ some (ok index, r')
        ]
      ]
