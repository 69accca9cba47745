-- ===== src/Vtd/Commands/Tests.antt =====
-- A unit that confirms each command at once and drains its queue at once.
use spy.Base.{ℕ, ◌+◌, ◌*◌, ◌≡◌, refl, true, false, some, List, [], ◌∷◌, if◌then◌else◌, ◌==◌}
use spy.Vtd.{no_entry}
use spy.Vtd.Queue.{Hardware}
use spy.Vtd.Emulation.{EmulatedUnit}
use spy.Vtd.Registers.{gcmd_reg}
use spy.Vtd.Commands.{Event, did_read, wrote, wrote_field, requested, DmarUnit, Answers}
use spy.Vtd.Commands.Driver.{Settings, prepare_shutdown}

-- The last command, as the status register shows it.
abbrev shown : List Event → ℕ
shown [] = 0
shown (did_read r ∷ log) = shown log
shown (wrote r v ∷ log) = let rest = shown log in if r == gcmd_reg then v else rest
shown (wrote_field r m v ∷ log) = shown log
shown (requested e ∷ log) = shown log

abbrev instant : Hardware
instant = record { completed = λ unit n. true; completed_phys = 0x7000; polls = 1 }

abbrev device : ℕ → Answers
device n = record {
  status = shown;
  head = λ u. u.inv.tail * 16;
  cap = 0;
  polls = 1;
  queue = instant;
}

abbrev linux : EmulatedUnit
linux = record {
  irta = 0x6007;
  irt_entries = 256;
  irte_map = λ i. record { device_id = 0x20; vector = 1; used = false };
  iqa = 0x5000;
  iqh = 0x30;
  fault_event_regs = λ i. i;
}

abbrev settings : Settings
settings = record {
  using_x2apic = true;
  root_phys = 0x1000;
  table_phys = 0x2000;
  table_size_log2 = 10;
  queue_phys = λ n. 0x3000 + n * 0x1000;
  root_id = 0;
  message = record { data_value = 0x400; address = 0xfee00000 };
  ir_emulation = true;
  emulated = λ n. linux;
  root_queue = λ n. some (no_entry ∷ no_entry ∷ []);
  rounds = 256;
}

abbrev units : List DmarUnit
units = record { log = []; inv = record { queue = no_entry ∷ no_entry ∷ []; tail = 7 } } ∷ []

-- Before the units are set up the shutdown leaves them alone.
untouched : prepare_shutdown device settings false units ≡ some units
unfolding prepare_shutdown
untouched = refl
