-- ===== src/Vtd/Commands/Driver.antt =====
-- The commands over all units: `vtd_init_fault_nmi`, `iommu_config_commit` and `iommu_prepare_shutdown`.
use spy.Base.{ℕ, ◌+◌, Bool, true, Option, none, some, List, [], ◌∷◌, u32, if◌then◌else◌, map}
use spy.Vtd.{Entry}
use spy.Vtd.Queue.{inv_context, inv_iotlb}
use spy.Vtd.Emulation.{EmulatedUnit, fectl_reg, feuaddr_reg}
use spy.Vtd.Commands.{
  did_read, wrote, wrote_field, DmarUnit, Answers, ◌>>=◌, see, submit, init_unit, shutdown_unit,
}
use spy.Vtd.Registers.{fectl_im, fedata_reg, feaddr_reg}

-- The message of a fault: `MSI_DM_NMI`, and the address with the APIC id of the CPU that reports faults.
pub record FaultMessage : Type 0 where
  pub data_value : ℕ
  pub address : ℕ

-- `vtd_init_fault_nmi` for one unit.
unfoldable pub init_fault_nmi : FaultMessage → DmarUnit → DmarUnit
unfolding see
init_fault_nmi msg u =
    let masked = see (did_read fectl_reg) (see (wrote_field fectl_reg fectl_im 1) u) in
    let told =
      see (wrote feaddr_reg (u32 msg.address)) (see (wrote fedata_reg msg.data_value) masked) in
    see (wrote_field fectl_reg fectl_im 0) (see (wrote feuaddr_reg 0) told)

-- The argument of `iommu_config_commit`: no target, the root target, or another by its id.
pub data Change : Type 0 where
  no_target : Change
  root_target : Change
  other_target : ℕ → Change

-- What the driver knows: the parameters of each call, and the id of the root target.
pub record Settings : Type 0 where
  pub using_x2apic : Bool
  pub root_phys : ℕ
  pub table_phys : ℕ
  pub table_size_log2 : ℕ
  pub queue_phys : ℕ → ℕ
  pub root_id : ℕ
  pub message : FaultMessage
  pub ir_emulation : Bool
  pub emulated : ℕ → EmulatedUnit
  pub root_queue : ℕ → Option (List Entry)
  pub rounds : ℕ

-- A loop over the units from unit `n` on.
unfoldable pub each_unit :
    (ℕ → DmarUnit → Option DmarUnit) → ℕ → List DmarUnit → Option (List DmarUnit)
each_unit f n [] = some []
each_unit f n (u ∷ us) = elim (f n u) [
  | none ↦ none
  | some u' ↦ elim (each_unit f (n + 1) us) [ none ↦ none | some us' ↦ some (u' ∷ us') ]
]

module _ (hw : ℕ → Answers) (d : Settings) where
  unfoldable pub init_unit_of : ℕ → DmarUnit → Option DmarUnit
  unfolding init_unit
  init_unit_of n =
      init_unit (hw n) d.using_x2apic d.root_phys d.table_phys d.table_size_log2 (d.queue_phys n)

  unfoldable pub flush_unit : ℕ → ℕ → DmarUnit → Option DmarUnit
  unfolding ◌>>=◌ submit
  flush_unit did n u =
      submit (hw n) (some (inv_context did)) u >>= submit (hw n) (some (inv_iotlb did))

  -- With `dmar_units_initialized`.
  unfoldable pub config_commit : Change → List DmarUnit → Bool → Option (List DmarUnit × Bool)
  unfolding each_unit init_unit_of flush_unit init_fault_nmi
  config_commit no_target us initialized = elim (each_unit (flush_unit d.root_id) 0 us) [
    | none ↦ none
    | some us' ↦ some (us', initialized)
  ]
  config_commit root_target us initialized =
      elim (each_unit init_unit_of 0 (map (init_fault_nmi d.message) us)) [
        | none ↦ none
        | some us' ↦ some (us', true)
      ]
  config_commit (other_target did) us initialized =
      elim (each_unit (flush_unit did) 0 (map (init_fault_nmi d.message) us)) [
        | none ↦ none
        | some us1 ↦ elim (each_unit (flush_unit d.root_id) 0 us1) [
          | none ↦ none
          | some us2 ↦ some (us2, initialized)
        ]
      ]

  unfoldable pub shutdown_unit_of : ℕ → DmarUnit → Option DmarUnit
  unfolding shutdown_unit
  shutdown_unit_of n = shutdown_unit (hw n) d.rounds d.ir_emulation (d.emulated n) (d.root_queue n)

  unfoldable pub prepare_shutdown : Bool → List DmarUnit → Option (List DmarUnit)
  unfolding each_unit shutdown_unit_of
  prepare_shutdown initialized us = if initialized then each_unit shutdown_unit_of 0 us else some us
