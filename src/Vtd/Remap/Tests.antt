-- ===== src/Vtd/Remap/Tests.antt =====
-- The interrupt remapping table at work: two devices, a reservation, an interrupt, and the return.
use spy.Base.{
  ℕ, zero, suc, ◌==◌, ◌+◌, ◌<◌, ◌≤◌, ◌≡◌, ◌⊎◌, inl, refl, arith, true, false, Option, none, some,
  List, [], ◌∷◌, replicate,
}
use spy.Base.Result.{Result, ok, err, Errno, enoent, e2big, erange, eperm}
use spy.Vtd.{Entry, no_entry}
use spy.Vtd.Queue.{InvUnit, Hardware, submit_all}
use spy.Vtd.Remap.{
  Irte, zero_irte, Remap, IrqMessage, Apic, last_of, irte_writes, find_int_remap_region,
  reserve_int_remap_region, free_int_remap_region, map_interrupt, check_interrupt,
}
use spy.Vtd.Remap.Find.{owns}
use spy.Vtd.Remap.Reserve.{IsFree, Reserved, reserve-outcome}
use spy.Vtd.Remap.Update.{Seen, irte_writes-Seen, Region, Freed, free-Freed}
use spy.Vtd.Remap.Map.{Mapped, map_interrupt-Mapped}

abbrev held : ℕ → Irte
held device = record zero_irte { assigned = true; sid = device }

-- Entry 0 belongs to device 0x10, entries 1 to 3 are free.
abbrev before : List Irte
before = held 0x10 ∷ zero_irte ∷ zero_irte ∷ zero_irte ∷ []

abbrev after : List Irte
after = held 0x10 ∷ held 0x20 ∷ held 0x20 ∷ zero_irte ∷ []

abbrev instant : Hardware
instant = record { completed = λ _ _. true; completed_phys = 0; polls = 1 }

abbrev idle_unit : InvUnit
idle_unit = record { queue = replicate 8 no_entry; tail = 0 }

abbrev system : Remap
system = record { table = after; units = idle_unit ∷ [] }

reserves : reserve_int_remap_region 4 0x20 2 before ≡ (ok 1, after)
unfolding reserve_int_remap_region
reserves = refl

reserves_none : reserve_int_remap_region 4 0x20 4 before ≡ (err e2big, before)
unfolding reserve_int_remap_region
reserves_none = refl

reserve-outcome_example :
    ((start : ℕ) × (after' : List Irte) × (reserve_int_remap_region 4 0x20 2 before
        ≡ (ok start, after'))
      × Reserved 4 0x20 2 before start after')
    ⊎ ((reserve_int_remap_region 4 0x20 2 before ≡ (err e2big, before))
        × ((s : ℕ) → s + 2 ≤ 4 → ¬ IsFree before s 2))
unfolding find_int_remap_region
reserve-outcome_example =
    reserve-outcome 4 0x20 2 before (omega arith) (omega arith) (omega arith) (omega arith)
      {x = enoent} refl

-- An entry of device 0x20 that becomes present.
abbrev routed : Irte
routed = record (held 0x20) { p = true; vector = 0x31; svt = 1 }

irte_writes-Seen_example :
    Seen (held 0x20) routed (irte_writes (held 0x20) routed)
    × ((last_of (held 0x20) (irte_writes (held 0x20) routed)).p ≡ true)
    × ((routed.p ≡ false) ⊎ (last_of (held 0x20) (irte_writes (held 0x20) routed) ≡ routed))
irte_writes-Seen_example = irte_writes-Seen (held 0x20) routed (inl refl)

after-inside : (j : ℕ) → 1 ≤ j → j < 3 → owns 0x20 after j ≡ true
after-inside zero lo hi = absurd (omega arith)
after-inside (suc zero) lo hi = refl
after-inside (suc (suc zero)) lo hi = refl
after-inside (suc (suc (suc j))) lo hi = absurd (omega arith)

after-outside : (j : ℕ) → j < 4 → (j < 1) ⊎ (3 ≤ j) → owns 0x20 after j ≡ false
after-outside zero lt o = refl
after-outside (suc zero) lt o = absurd (omega arith)
after-outside (suc (suc zero)) lt o = absurd (omega arith)
after-outside (suc (suc (suc zero))) lt o = refl
after-outside (suc (suc (suc (suc j)))) lt o = absurd (omega arith)

after-Region : Region 4 0x20 1 2 after
after-Region = record {
  room = omega arith;
  some_count = omega arith;
  inside = after-inside;
  outside = after-outside;
}

abbrev freed_system : Option Remap
freed_system = free_int_remap_region 4 instant 0x20 2 system

table_of : Option Remap → List Irte
table_of none = []
table_of (some r) = r.table

-- The source id stays behind in a freed entry.
frees :
    table_of freed_system
    ≡ held 0x10 ∷ record zero_irte { sid = 0x20 } ∷ record zero_irte { sid = 0x20 } ∷ zero_irte ∷ []
unfolding table_of free_int_remap_region submit_all
frees = refl

abbrev written : Irte
written = record (held 0x20) { p = true; vector = 0x31; destination = 0x100; svt = 1 }

abbrev wait : Entry
wait = record { lo_word = 0x100000065; hi_word = 0 }

abbrev idle_unit_freed : InvUnit
idle_unit_freed = record {
  queue =
      record { lo_word = 0x100000014; hi_word = 0 }
      ∷ wait
      ∷ record { lo_word = 0x200000014; hi_word = 0 }
      ∷ wait
      ∷ replicate 4 no_entry;
  tail = 4;
}

abbrev mapped_system : Remap
mapped_system = record {
  table = held 0x10 ∷ held 0x20 ∷ written ∷ zero_irte ∷ [];
  units =
      record {
        queue = record { lo_word = 0x200000014; hi_word = 0 } ∷ wait ∷ replicate 6 no_entry;
        tail = 2;
      }
      ∷ [];
}

free-Freed_example :
    Freed 4 0x20 1 2 after (
      held 0x10
      ∷ record zero_irte { sid = 0x20 }
      ∷ record zero_irte { sid = 0x20 }
      ∷ zero_irte
      ∷ [])
unfolding free_int_remap_region submit_all
free-Freed_example =
    free-Freed 4 instant 0x20 2 1 system (omega arith) after-Region
      {r' = record {
        table =
            held 0x10
            ∷ record zero_irte { sid = 0x20 }
            ∷ record zero_irte { sid = 0x20 }
            ∷ zero_irte
            ∷ [];
        units = idle_unit_freed ∷ [];
      }}
      refl

abbrev apic : Apic
apic = record {
  dlvr_fixed = 0;
  dlvr_lowpri = 1;
  using_x2apic = false;
  filter_irq_dest = λ msg. (msg.destination == 1, msg);
}

abbrev message : IrqMessage
message = record {
  valid = true;
  vector = 0x31;
  delivery_mode = 0;
  dest_logical = 0;
  level_triggered = 0;
  redir_hint = 0;
  destination = 1;
}

abbrev accepted : Result ℕ
accepted = ok 2

map_interrupt-Mapped_example :
    ((e : Errno) × (accepted ≡ err e) × (mapped_system ≡ system))
    ⊎ ((index : ℕ) × (accepted ≡ ok index)
        × Mapped 4 apic 0x20 1 message after index mapped_system.table)
unfolding map_interrupt submit_all
map_interrupt-Mapped_example =
    map_interrupt-Mapped 4 instant apic 0x20 1 message system {res = accepted} {r' = mapped_system}
      (omega arith) refl

-- An index past the end of the region, and a destination that the target may not address.
refused :
    (check_interrupt 4 apic 0x20 2 message after ≡ err erange)
    × (check_interrupt 4 apic 0x20 4 message after ≡ err erange)
    × (check_interrupt 4 apic 0x20 0 (record message { destination = 2 }) after ≡ err eperm)
    × (check_interrupt 4 apic 0x30 0 message after ≡ err enoent)
unfolding check_interrupt
refused = (refl, refl, refl, refl)
