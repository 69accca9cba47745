-- ===== src/Vtd/Setup/Tests.antt =====
-- The start of the driver at work, with two units.
use spy.Base.{◌+◌, ◌^◌, ◌≡◌, refl, arith, true, false, none, some, [], ◌∷◌, replicate}
use spy.Base.Result.{ok, eio}
use spy.Vtd.Emulation.{EmulatedUnit}
use spy.Vtd.Remap.{zero_irte}
use spy.Vtd.Setup.{UnitRegs, Dmar, probe_units}
use spy.Vtd.Setup.Init.{Environment, Driver, vtd_init}
use spy.Vtd.Setup.Ready.{Ready, vtd_init-Ready}

-- A unit with 4 levels and all page sizes, that Linux has off.
abbrev unit_off : UnitRegs
unit_off = record {
  is_intel = true;
  mapped = none;
  ver = 0x10;
  cap = 0xc00000402;
  ecap = 0x1a;
  gsts = 0;
  irta = 0x6001;
  iqt = 0x20;
  iqh = λ poll. 0x20;
  iqa = 0x5000;
  fault_event = λ n. 0;
  usage = some (λ i. record { device_id = 0; vector = 0; used = false });
}

-- One of which Linux uses the queue and the remapping of interrupts.
abbrev unit_on : UnitRegs
unit_on = record unit_off { gsts = 2 ^ 25 + 2 ^ 26 }

abbrev no_unit : EmulatedUnit
no_unit = record {
  irta = 0;
  irt_entries = 0;
  irte_map = λ i. record { device_id = 0; vector = 0; used = false };
  iqa = 0;
  iqh = 0;
  fault_event_regs = λ n. 0;
}

abbrev dmar : Dmar
dmar = record {
  pt_levels = 0;
  num_did = 0xffffffff;
  ir_emulation = false;
  emulated = λ n. no_unit;
  sllps_caps = 0xffffffffffffffff;
}

abbrev env : Environment
env = record {
  limit = 4;
  new_table = λ n. some (replicate 4 zero_irte);
  has_remap_pages = true;
  has_queue_pages = true;
  root_id = 0;
  root_page = some 0x9000;
  root_chips = record { id = 0x20; pins = ok 3 } ∷ [];
  using_x2apic = true;
  polls = 1;
  paging_get_phys_invalid = λ pte virt. 0;
}

abbrev driver : Driver
driver = record {
  table_size_log2 = 0;
  dmar = dmar;
  dmar_units = 0;
  paging = [];
  root = record { root_table = none; root_freed = false; table = [] };
}

abbrev after : Driver
after = elim (vtd_init env (unit_on ∷ unit_on ∷ []) driver) [ none ↦ driver | some (e, v) ↦ v ]

runs : vtd_init env (unit_on ∷ unit_on ∷ []) driver ≡ some (none, after)
unfolding vtd_init
runs = refl

levels : after.dmar.pt_levels ≡ 4
unfolding vtd_init
levels = refl

domains : after.dmar.num_did ≡ 256
unfolding vtd_init
domains = refl

vtd_init-Ready_example : Ready env (unit_on ∷ unit_on ∷ []) after
vtd_init-Ready_example = vtd_init-Ready env (unit_on ∷ unit_on ∷ []) driver (omega arith) runs

-- A unit that is off behind one that is on is refused.
on_off :
    (elim (probe_units true 1 0 (unit_on ∷ unit_off ∷ []) dmar) [ none ↦ none | some (e, d) ↦ e ])
    ≡ some eio
unfolding probe_units
on_off = refl

-- The other order is not: both start, and the emulation is on for both.
off_on :
    (elim (probe_units true 1 0 (unit_off ∷ unit_on ∷ []) dmar) [
      | none ↦ false
      | some (e, d) ↦ d.ir_emulation
    ])
    ≡ true
unfolding probe_units
off_on = refl
