-- ===== src/Vtd/Emulation/Tests.antt =====
-- The emulation at work: a guest whose queue holds the invalidation of one interrupt and a wait.
use spy.Base.{
  ℕ, ◌*◌, ◌/◌, ◌%◌, ◌≡◌, refl, arith, true, false, Option, none, some, [], ◌∷◌, if◌then◌else◌, ◌==◌,
  u16, ◌^◌,
}
use spy.Base.Result.{ok}
use spy.Vcpu.Access.{MmioAccess, MmioResult, mmio_handled}
use spy.Vtd.{Entry, no_entry}
use spy.Vtd.Queue.{Hardware, InvUnit}
use spy.Vtd.Remap.{Irte, zero_irte, Apic}
use spy.Vtd.Emulation.{
  Emulation, EmulatedUnit, GuestMemory, RootDevices, unit_access_handler, get_remapped_root_int,
  iqt_reg,
}
use spy.Vtd.Emulation.Answers.{Completes, head}
use spy.Vtd.Emulation.Queue.{serve, pending}
use spy.Vtd.Emulation.Tail.{IsOnSlot, answer, tail_write-serve, unit_access_handler-Returns}
use spy.Vtd.Emulation.Owners.{Kept, unit_access_handler-Kept}
use spy.Vtd.Emulation.Message.{Routed, get_remapped_root_int-Routed}

-- Device 0x20 owns the two entries of the hypervisor's table.
abbrev owned : Irte
owned = record zero_irte { assigned = true; sid = 0x20 }

-- The guest's entry for that device.
abbrev guest_irte : Irte
guest_irte = record zero_irte { p = true; vector = 0x31; sid = 0x20 }

-- In slot 254 the invalidation of interrupt 1, in slot 255 a wait that stores 7.
abbrev queue : ℕ → Entry
queue address =
    if address == 0x5fe0
    then record { lo_word = 0x100000014; hi_word = 0 }
    else if address == 0x5ff0
    then record { lo_word = 0x700000025; hi_word = 0x8000 }
    else no_entry

-- The guest's memory is mapped one to one; a store is the address and the value stored last.
abbrev guest : GuestMemory (ℕ × ℕ)
guest = record {
  get_page = λ address writable memory. some (address / 4096 * 4096);
  entry_at = λ address memory. queue address;
  irte_at = λ address memory. guest_irte;
  store32 = λ address value memory. (address, value);
}

abbrev unit : EmulatedUnit
unit = record {
  irta = 0x6000;
  irt_entries = 256;
  irte_map = λ i. record { device_id = 0x20; vector = 1; used = i == 1 };
  iqa = 0x5000;
  iqh = 0xfe0;
  fault_event_regs = λ i. 0;
}

abbrev start : Emulation (ℕ × ℕ)
start = record {
  units = λ n. unit;
  remap = record { table = owned ∷ owned ∷ []; units = [] };
  memory = (0, 0);
}

abbrev no_devices : RootDevices (ℕ × ℕ)
no_devices = record {
  is_ivshmem = λ device. false;
  update_msix_vector = λ device vector memory. (ok 0, memory);
}

abbrev apic : Apic
apic = record {
  dlvr_fixed = 0;
  dlvr_lowpri = 1;
  using_x2apic = true;
  filter_irq_dest = λ msg. (true, msg);
}

abbrev instant : Hardware
instant = record { completed = λ _ _. true; completed_phys = 0; polls = 1 }

completes : Completes instant
completes u = (0, omega arith, refl)

-- The tail is written with slot 0, behind the end of the page.
abbrev write_tail : MmioAccess
write_tail = record { address = iqt_reg; size = 8; is_write = true; value = 0 }

abbrev after : Option (MmioResult × (MmioAccess × Emulation (ℕ × ℕ)))
after = unit_access_handler guest apic 2 instant no_devices 256 0 write_tail start

-- The state that the run leaves.
abbrev final : Emulation (ℕ × ℕ)
final = elim after [ none ↦ start | some (res, (mmio, s)) ↦ s ]

runs : after ≡ some (mmio_handled, (write_tail, final))
unfolding unit_access_handler spy.Vtd.Queue.submit_all
runs = refl

abbrev routed : Irte
routed = record owned { p = true; vector = 0x31; svt = 1 }

-- The run consumes both entries, routes interrupt 1 and stores the value of the wait.
routes :
    (final.remap.table ≡ owned ∷ routed ∷ [])
    × (head 0 final ≡ 0)
    × (final.memory.0 ≡ 0x8000)
    × (final.memory.1 ≡ 7)
unfolding unit_access_handler spy.Vtd.Queue.submit_all
routes = (refl, refl, refl, refl)

unit_access_handler-Kept_example : Kept (owned ∷ owned ∷ []) final.remap.table
unfolding unit_access_handler spy.Vtd.Queue.submit_all
unit_access_handler-Kept_example =
    unit_access_handler-Kept guest apic 2 instant no_devices 256 0 write_tail start (omega arith)
      runs

tail_write-serve_example :
    after ≡ answer write_tail (serve guest apic 2 instant no_devices 0 (pending 254 0) start)
tail_write-serve_example =
    tail_write-serve guest apic 2 instant completes no_devices 0 256 write_tail start (omega arith)
      (refl, omega arith) refl refl

unit_access_handler-Returns_example :
    (res : MmioResult) × (mmio' : MmioAccess) × (s' : Emulation (ℕ × ℕ)) × (after
      ≡ some (res, (mmio', s')))
    × IsOnSlot 0 s'
unit_access_handler-Returns_example =
    unit_access_handler-Returns guest apic 2 instant completes no_devices 0 256 write_tail start
      (omega arith) (refl, omega arith)

get_remapped_root_int-Routed_example :
    Routed guest unit 0x20 1 start.memory
    × (((get_remapped_root_int guest apic 0 0x20 1 1 start).1.units 0).irte_map 1
        ≡ record { device_id = u16 0x20; vector = 1 % 2 ^ 10; used = true })
unfolding get_remapped_root_int
get_remapped_root_int-Routed_example = get_remapped_root_int-Routed guest apic 0 0x20 1 1 start refl
