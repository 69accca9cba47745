-- ===== src/Vtd/Commands/All.antt =====
-- `iommu_config_commit` for the root target and `iommu_prepare_shutdown`, over all units.
use spy.Base.{ℕ, ◌+◌, ◌%◌, ◌<◌, ◌≡◌, true, false, some, List, [], ◌∷◌}
use spy.Vtd.{Entry}
use spy.Vtd.Emulation.Answers.{Completes}
use spy.Vtd.Commands.{DmarUnit, Answers}
use spy.Vtd.Commands.Driver.{Settings}
use spy.Vtd.Commands.Status.{told, Steady, Obeys}
use spy.Vtd.Commands.Start.{Started}
use spy.Vtd.Commands.Return.{Returned}

-- `P` holds of each unit from number `n` on.
pub data Each (P : ℕ → DmarUnit → Type 0) : ℕ → List DmarUnit → Type 0 where
  no_units : {n : ℕ} → Each P n []
  and_then :
      {n : ℕ} {u : DmarUnit} {us : List DmarUnit} → P n u → Each P (n + 1) us → Each P n (u ∷ us)

-- A unit follows commands as the manual says, completes each request, and is steady.
pub record IsSound (hw : ℕ → Answers) (n : ℕ) (u : DmarUnit) : Type 0 where
  pub obeys : Obeys (hw n)
  pub completes : Completes (hw n).queue
  pub steady : Steady (hw n) u.log

-- What Linux gets back of unit `n`.
pub record HasReturned (hw : ℕ → Answers) (d : Settings) (n : ℕ) (u : DmarUnit) : Type 0 where
  pub off : d.ir_emulation ≡ false → told u.log ≡ 0
  pub restored : d.ir_emulation ≡ true → Returned (hw n) (d.emulated n) u

-- The queue that Linux has of unit `n` is mapped, and its head is on a slot.
pub record HasQueue (d : Settings) (n : ℕ) : Type 0 where
  pub page : List Entry
  pub mapped : d.root_queue n ≡ some page
  pub in_page : (d.emulated n).iqh < 4096
  pub on_slot : (d.emulated n).iqh % 16 ≡ 0

module _ (hw : ℕ → Answers) (d : Settings) where
  abbrev pub StartedUnit : ℕ → DmarUnit → Type 0
  StartedUnit n u =
      Started d.using_x2apic d.root_phys d.table_phys d.table_size_log2 (d.queue_phys n) u.log
