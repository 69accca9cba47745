-- ===== src/Vtd/Setup.antt =====
-- The start of the driver, vtd.c: `vtd_init` with `vtd_init_ir_emulation`, and what it keeps of the units.
pub mod Init
pub mod Log2
pub mod Probe
pub mod Ready
mod Tests
use spy.Base.{
  ℕ, zero, suc, ◌+◌, ◌-◌, ◌*◌, ◌/◌, ◌%◌, ◌^◌, Bool, true, false, not, ◌&&◌, ◌||◌, Option, none,
  some, List, [], ◌∷◌, length, bit_and, bit_or, bit_mask, not64, has, min, u16, u32, ◌<<<◌,
  if◌then◌else◌, ltb, leb, ◌==◌,
}
use spy.Base.Result.{Errno, einval, enomem, eio, ebusy}
use spy.Base.Store.{put}
use spy.Vtd.Emulation.{IrteUsage, EmulatedUnit}

abbrev pub ver_mask : ℕ
ver_mask = bit_mask 7 0

abbrev pub ver_min : ℕ
ver_min = 0x10

abbrev pub cap_num_did_mask : ℕ
cap_num_did_mask = bit_mask 2 0

abbrev pub cap_sagaw39 : ℕ
cap_sagaw39 = 1 <<< 9

abbrev pub cap_sagaw48 : ℕ
cap_sagaw48 = 1 <<< 10

abbrev pub cap_sllps2m : ℕ
cap_sllps2m = 1 <<< 34

abbrev pub cap_sllps1g : ℕ
cap_sllps1g = 1 <<< 35

abbrev pub ecap_qi : ℕ
ecap_qi = 1 <<< 1

abbrev pub ecap_ir : ℕ
ecap_ir = 1 <<< 3

abbrev pub ecap_eim : ℕ
ecap_eim = 1 <<< 4

abbrev pub gsts_ires : ℕ
gsts_ires = 1 <<< 25

abbrev pub gsts_qies : ℕ
gsts_qies = 1 <<< 26

abbrev pub gsts_tes : ℕ
gsts_tes = 1 <<< 31

abbrev pub gsts_used_ctrls : ℕ
gsts_used_ctrls = bit_or (bit_or gsts_ires gsts_qies) gsts_tes

abbrev pub irta_size_mask : ℕ
irta_size_mask = bit_mask 3 0

abbrev pub iqa_addr_mask : ℕ
iqa_addr_mask = bit_mask 63 12

-- The empty loop that looks for `n`, from `n` on with `left` rounds; `none` where they are used up.
unfoldable pub log2_from : ℕ → ℕ → ℕ → Option ℕ
log2_from zero n limit = none
log2_from (suc left) n limit =
    let rest = log2_from left (n + 1) limit in if ltb (1 <<< n) limit then rest else some n

-- A shift by 63 is the last that the source can make.
unfoldable pub roundup_log2 : ℕ → Option ℕ
unfolding log2_from
roundup_log2 limit = log2_from 64 0 limit

-- A unit as the configuration and its registers show it. `mapped` is the result of `paging_create`, `iqh`
-- the head at each poll, `usage` the pages for `irte_map` where there are some.
pub record UnitRegs : Type 0 where
  pub is_intel : Bool
  pub mapped : Option Errno
  pub ver : ℕ
  pub cap : ℕ
  pub ecap : ℕ
  pub gsts : ℕ
  pub irta : ℕ
  pub iqt : ℕ
  pub iqh : ℕ → ℕ
  pub iqa : ℕ
  pub fault_event : ℕ → ℕ
  pub usage : Option (ℕ → IrteUsage)

-- `dmar_pt_levels`, `dmar_num_did`, `root_target.arch.vtd.ir_emulation`, `root_target_units` and the local
-- `sllps_caps`.
pub record Dmar : Type 0 where
  pub pt_levels : ℕ
  pub num_did : ℕ
  pub ir_emulation : Bool
  pub emulated : ℕ → EmulatedUnit
  pub sllps_caps : ℕ

-- `while (mmio_read64(reg_base + VTD_IQH_REG) != iqt) cpu_relax();`
unfoldable pub head_arrives : (ℕ → ℕ) → ℕ → ℕ → ℕ → Bool
head_arrives iqh iqt zero n = false
head_arrives iqh iqt (suc left) n =
    let rest = head_arrives iqh iqt left (n + 1) in if iqh n == iqt then true else rest

-- `none` is a call that waits for the hardware after `polls` reads.
unfoldable pub init_ir_emulation : ℕ → ℕ → UnitRegs → Dmar → Option (Option Errno × Dmar)
unfolding head_arrives put
init_ir_emulation polls unit_no regs d =
    let old = d.emulated unit_no in
    let first : EmulatedUnit = record old {
      irta = regs.irta;
      irt_entries = u32 (2 <<< bit_and regs.irta irta_size_mask);
    } in
    let set : EmulatedUnit → Dmar =
      λ unit. record d { ir_emulation = true; emulated = put d.emulated unit_no unit } in
    elim regs.usage [
      | none ↦ some (some enomem, set first)
      | some usage ↦
          let second : EmulatedUnit = record first {
            irte_map = usage;
            iqh = u16 regs.iqt;
            iqa = regs.iqa;
          } in
          if not (head_arrives regs.iqh regs.iqt polls 0)
          then none
          else if has regs.iqa (not64 iqa_addr_mask)
          then some (some eio, set second)
          else some (
            none,
            set (record second {
              fault_event_regs =
                  λ n. if ltb n 4 then regs.fault_event n else old.fault_event_regs n;
            }),
          )
    ]

-- The levels of the page tables of a unit, 0 where it supports neither.
abbrev pub levels_of : ℕ → ℕ
levels_of caps = if has caps cap_sagaw39 then 3 else if has caps cap_sagaw48 then 4 else 0

abbrev pub num_did_of : ℕ → ℕ
num_did_of caps = 1 <<< (4 + bit_and caps cap_num_did_mask * 2)

-- `if (num_did < dmar_num_did) dmar_num_did = num_did;`
unfoldable pub count_domains : UnitRegs → Dmar → Dmar
count_domains regs d = record d {
  num_did = if ltb (num_did_of regs.cap) d.num_did then num_did_of regs.cap else d.num_did;
}

module _ (using_x2apic : Bool) (polls : ℕ) where
  -- From the read of the status register on.
  unfoldable pub probe_controls : ℕ → UnitRegs → Dmar → Option (Option Errno × Dmar)
  unfolding init_ir_emulation count_domains
  probe_controls unit_no regs d =
      let ctrls = bit_and regs.gsts gsts_used_ctrls in
      if not (ctrls == 0)
      then if not (ctrls == bit_or gsts_ires gsts_qies)
        then some (some ebusy, d)
        else elim (init_ir_emulation polls unit_no regs d) [
          | none ↦ none
          | some (some err, d') ↦ some (some err, d')
          | some (none, d') ↦ some (none, count_domains regs d')
        ]
      else if d.ir_emulation
      then some (some eio, d)
      else some (none, count_domains regs d)

  -- One round of the loop over the units.
  unfoldable pub probe_unit : ℕ → UnitRegs → Dmar → Option (Option Errno × Dmar)
  unfolding probe_controls
  probe_unit unit_no regs d =
      let version = bit_and regs.ver ver_mask in
      let levels = levels_of regs.cap in
      let d1 = record d { sllps_caps = bit_and d.sllps_caps regs.cap } in
      let d2 = record d1 { pt_levels = levels } in
      if not regs.is_intel then some (some einval, d) else elim regs.mapped [
        | some err ↦ some (some err, d)
        | none ↦
            if ltb version ver_min || version == 0xff
            then some (some eio, d)
            else if levels == 0
            then some (some eio, d)
            else if ltb 0 d.pt_levels && not (d.pt_levels == levels)
            then some (some eio, d1)
            else if not (has regs.ecap ecap_qi)
                || not (has regs.ecap ecap_ir)
                || using_x2apic && not (has regs.ecap ecap_eim)
            then some (some eio, d2)
            else probe_controls unit_no regs d2
      ]

  unfoldable pub probe_units : ℕ → List UnitRegs → Dmar → Option (Option Errno × Dmar)
  unfolding probe_unit
  probe_units unit_no [] d = some (none, d)
  probe_units unit_no (regs ∷ units) d = elim (probe_unit unit_no regs d) [
    | none ↦ none
    | some (some err, d') ↦ some (some err, d')
    | some (none, d') ↦ probe_units (unit_no + 1) units d'
  ]
