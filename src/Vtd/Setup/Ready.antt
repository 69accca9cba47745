-- ===== src/Vtd/Setup/Ready.antt =====
-- What a start of the driver that succeeds leaves.
use spy.Base.{
  ℕ, ◌-◌, ◌^◌, ◌<◌, ◌≤◌, ◌≡◌, ◌≢◌, inl, inr, sym, ◌∙◌, arith, Option, none, some, List, length, leb,
  ◌==◌, Bool-cases, Option-cases, false≢true, ==_iff,
}
use spy.Vtd.Setup.{UnitRegs, probe_units}
use spy.Vtd.Setup.Init.{
  Environment, Driver, TargetTables, target_init, init_units, init_table, vtd_init,
}
use spy.Vtd.Setup.Log2.{IsLog2, roundup_log2-IsLog2}
use spy.Vtd.Setup.Probe.{EachUsable, probe_units-EachUsable}

-- The table of interrupts has the least power of two that the limit needs, fewer than 2^16 entries; there are
-- units, and each is usable; and the id of the root target is below the number of domains of each unit.
pub record Ready (env : Environment) (units : List UnitRegs) (v : Driver) : Type 0 where
  pub table_size : IsLog2 env.limit v.table_size_log2
  pub small : v.table_size_log2 < 16
  pub counted : v.dmar_units ≡ length units
  pub some_unit : v.dmar_units ≢ 0
  pub usable : EachUsable env.using_x2apic v.dmar units
  pub root_domain : env.root_id < v.dmar.num_did
  pub root_page : (phys : ℕ) × (env.root_page ≡ some phys)

target_init-fits :
    (limit num_did target_id : ℕ) (page : Option ℕ) (env : Environment) (t : TargetTables)
    → (target_init limit num_did target_id page env.root_chips t).0 ≡ none
    → (target_id < num_did) × ((phys : ℕ) × (page ≡ some phys))
unfolding target_init
target_init-fits limit num_did target_id page env t h = elim (Bool-cases (leb num_did target_id)) [
  | inl beyond ↦ absurd (ground arith)
  | inr fits ↦ elim (Option-cases page) [
    | inl e ↦ absurd (ground arith)
    | inr (phys, e) ↦ (ground arith, (phys, e))
  ]
]

units-Ready :
    (env : Environment) (units : List UnitRegs) (v : Driver) {v' : Driver}
    → init_units env units v ≡ some (none, v')
    → (v'.table_size_log2 ≡ v.table_size_log2)
      × (v'.dmar_units ≡ length units)
      × EachUsable env.using_x2apic v'.dmar units
      × (env.root_id < v'.dmar.num_did)
      × ((phys : ℕ) × (env.root_page ≡ some phys))
unfolding init_units
units-Ready env units v {v'} h =
    elim (Option-cases (probe_units env.using_x2apic env.polls 0 units v.dmar)) [
      | inl waits ↦ absurd (ground arith)
      | inr ((some x, d), e) ↦ absurd (ground arith)
      | inr ((none, d), e) ↦
          let result : (target_init env.limit d.num_did env.root_id env.root_page env.root_chips
                v.root).0
              ≡ none =
            ground arith in
          let (fits, page) =
            target_init-fits env.limit d.num_did env.root_id env.root_page env v.root result in
          let same : v'.dmar ≡ d = ground arith in
          (
            ground arith,
            ground arith,
            rw same (probe_units-EachUsable env.using_x2apic env.polls units 0 v.dmar e),
            rw same fits,
            page,
          )
    ]

table-Ready :
    (env : Environment) (units : List UnitRegs) (n : ℕ) (v : Driver) {v' : Driver}
    → IsLog2 env.limit n
    → init_table env units n v ≡ some (none, v')
    → Ready env units v'
unfolding init_table
table-Ready env units n v {v'} is_log2 h = elim (Bool-cases (leb 16 n)) [
  | inl large ↦ absurd (ground arith)
  | inr small ↦ elim (Option-cases (env.new_table n)) [
    | inl full ↦ absurd (ground arith)
    | inr (table, e) ↦ elim (Bool-cases (length units == 0)) [
      | inl no_unit ↦ absurd (ground arith)
      | inr there_are ↦
          let start = record v { table_size_log2 = n; root = record v.root { table = table } } in
          let h' : init_units env units start ≡ some (none, v') = ground arith in
          let (size, counted, usable, root_domain, root_page) = units-Ready env units start h' in
          record {
            table_size = rw size is_log2;
            small = ground arith;
            counted = counted;
            some_unit =
                λ z. false≢true (sym there_are ∙ (==_iff (length units) 0).1 (sym counted ∙ z));
            usable = usable;
            root_domain = root_domain;
            root_page = root_page;
          }
    ]
  ]
]

-- A start of the driver that succeeds, with a limit of interrupts up to 2^63, leaves what `Ready` says.
pub vtd_init-Ready :
    (env : Environment) (units : List UnitRegs) (v : Driver) {v' : Driver}
    → env.limit ≤ 2 ^ 63
    → vtd_init env units v ≡ some (none, v')
    → Ready env units v'
unfolding vtd_init
vtd_init-Ready env units v {v'} top h =
    let (n, log2, _, is_log2) = roundup_log2-IsLog2 env.limit top in
    let start = record v { dmar = record v.dmar { sllps_caps = 2 ^ 64 - 1 } } in
    table-Ready env units n start {v' = v'} is_log2 (rw (vtd_init, log2) at h)
