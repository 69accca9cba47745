-- ===== src/Vtd/Setup/Init.antt =====
-- `vtd_set_next_pt`, `vtd_target_init`, `vtd_target_exit` and the whole of `vtd_init`.
use spy.Base.{
  ℕ, zero, suc, ◌-◌, ◌^◌, Bool, true, false, not, Option, none, some, List, [], ◌∷◌, length,
  bit_and, bit_or, bit_mask, has, if◌then◌else◌, leb, ◌==◌,
}
use spy.Base.Result.{Result, ok, err, Errno, einval, enomem, erange}
use spy.Paging.{Paging, x86_64_paging, set_page_size, set_next_pts}
use spy.Vtd.Remap.{Irte, reserve_int_remap_region}
use spy.Vtd.Setup.{UnitRegs, Dmar, cap_sllps1g, cap_sllps2m, roundup_log2, probe_units}

abbrev pub vtd_page_read : ℕ
vtd_page_read = 0x00000001

abbrev pub vtd_page_write : ℕ
vtd_page_write = 0x00000002

unfoldable pub vtd_set_next_pt : ℕ → ℕ
vtd_set_next_pt next_pt =
    bit_or (bit_or (bit_and next_pt (bit_mask 51 12)) vtd_page_read) vtd_page_write

unfoldable pub drop : ℕ → List Paging → List Paging
drop zero ps = ps
drop (suc n) [] = []
drop (suc n) (p ∷ ps) = drop n ps

-- `vtd_paging`, from the core's `paging_get_phys_invalid`.
unfoldable pub vtd_paging : (ℕ → ℕ → ℕ) → ℕ → ℕ → List Paging
unfolding x86_64_paging set_page_size set_next_pts drop vtd_set_next_pt
vtd_paging paging_get_phys_invalid pt_levels sllps_caps =
    let copied =
      set_next_pts (drop (4 - pt_levels) (x86_64_paging paging_get_phys_invalid)) vtd_set_next_pt in
    let without_1g =
      if has sllps_caps cap_sllps1g then copied else set_page_size copied (pt_levels - 3) 0 in
    if has sllps_caps cap_sllps2m then without_1g else set_page_size without_1g (pt_levels - 2) 0

-- An interrupt chip of a target: its id, and the pins of the IOAPIC that another file finds for it.
pub record Irqchip : Type 0 where
  pub id : ℕ
  pub pins : Result ℕ

-- `target->arch.vtd.pg_structs.root_table` and `int_remap_table`, and whether the page of the root table has been
-- given back to the pool. The source leaves the pointer to such a page as it is.
pub record TargetTables : Type 0 where
  pub root_table : Option ℕ
  pub root_freed : Bool
  pub table : List Irte

unfoldable pub target_exit : TargetTables → TargetTables
target_exit t = record t { root_freed = true }

module _ (limit : ℕ) where
  -- The loop over the interrupt chips.
  unfoldable pub reserve_chips : List Irqchip → TargetTables → Option Errno × TargetTables
  unfolding reserve_int_remap_region target_exit
  reserve_chips [] t = (none, t)
  reserve_chips (chip ∷ chips) t = elim chip.pins [
    | err e ↦ (some e, target_exit t)
    | ok pins ↦
        let (result, table) = reserve_int_remap_region limit chip.id pins t.table in
        let t' = record t { table = table } in
        elim result [ err e ↦ (some e, target_exit t') | ok pos ↦ reserve_chips chips t' ]
  ]

  -- `page` is the page that the pool gives, if it has one.
  unfoldable pub target_init :
      ℕ → ℕ → Option ℕ → List Irqchip → TargetTables → Option Errno × TargetTables
  unfolding reserve_chips
  target_init num_did target_id page chips t =
      if leb num_did target_id then (some erange, t) else elim page [
        | none ↦ (some enomem, record t { root_table = none })
        | some phys ↦ reserve_chips chips (record t { root_table = some phys; root_freed = false })
      ]

-- What other files give to the start: the limit of interrupts, a table of 2^n entries, whether there is room
-- for the registers and the queues, the root target with its page and its chips, and the rest.
pub record Environment : Type 0 where
  pub limit : ℕ
  pub new_table : ℕ → Option (List Irte)
  pub has_remap_pages : Bool
  pub has_queue_pages : Bool
  pub root_id : ℕ
  pub root_page : Option ℕ
  pub root_chips : List Irqchip
  pub using_x2apic : Bool
  pub polls : ℕ
  pub paging_get_phys_invalid : ℕ → ℕ → ℕ

-- The static variables of the driver.
pub record Driver : Type 0 where
  pub table_size_log2 : ℕ
  pub dmar : Dmar
  pub dmar_units : ℕ
  pub paging : List Paging
  pub root : TargetTables

-- From the loop over the units on.
unfoldable pub init_units : Environment → List UnitRegs → Driver → Option (Option Errno × Driver)
unfolding probe_units target_init vtd_paging
init_units env units v = elim (probe_units env.using_x2apic env.polls 0 units v.dmar) [
  | none ↦ none
  | some (some e, dmar) ↦ some (some e, record v { dmar = dmar })
  | some (none, dmar) ↦
      let (result, root) =
        target_init env.limit dmar.num_did env.root_id env.root_page env.root_chips v.root in
      some (
        result,
        record v {
          dmar = dmar;
          dmar_units = length units;
          paging = vtd_paging env.paging_get_phys_invalid dmar.pt_levels dmar.sllps_caps;
          root = root;
        },
      )
]

-- From the check of `n` on.
unfoldable pub init_table :
    Environment → List UnitRegs → ℕ → Driver → Option (Option Errno × Driver)
unfolding init_units
init_table env units n v = if leb 16 n then some (some einval, v) else elim (env.new_table n) [
  | none ↦ some (some enomem, v)
  | some table ↦
      let v' = record v { table_size_log2 = n; root = record v.root { table = table } } in
      if length units == 0
      then some (some einval, v')
      else if not env.has_remap_pages
      then some (some enomem, v')
      else if not env.has_queue_pages
      then some (some enomem, v')
      else init_units env units v'
]

-- `none` is a call that waits for a unit, or a limit above 2^63, for which the source shifts too far.
unfoldable pub vtd_init : Environment → List UnitRegs → Driver → Option (Option Errno × Driver)
unfolding init_table roundup_log2
vtd_init env units v = elim (roundup_log2 env.limit) [
  | none ↦ none
  | some n ↦ init_table env units n (record v { dmar = record v.dmar { sllps_caps = 2 ^ 64 - 1 } })
]
