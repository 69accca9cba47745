-- ===== src/Vtd/Context/Tests.antt =====
-- A device that is added to a target and removed again.
use spy.Base.{
  ℕ, ◌+◌, ◌*◌, ◌/◌, ◌%◌, ◌≡◌, refl, ltb, true, false, false≢true, if◌then◌else◌, none, some, [],
  replicate,
}
use spy.Base.Result.{ok}
use spy.Vtd.{no_entry}
use spy.Vtd.Queue.{Hardware}
use spy.Vtd.Remap.{zero_irte}
use spy.Vtd.Context.{
  PciDevice, Domain, PagePool, PciAddress, Iommu, add_pci_device, remove_pci_device,
}
use spy.Vtd.Context.Devices.{IsDisjoint, IsFreshPool, present}
use spy.Vtd.Context.Add.{Added, add_pci_device-Added}
use spy.Vtd.Context.Remove.{Removed, remove_pci_device-Removed}

-- A pool that gives two pages.
abbrev two_pages : PagePool ℕ
two_pages = record {
  alloc = λ n. if ltb n 2 then some ((0x1000 * (n + 1), λ d. no_entry), n + 1) else none;
  free = λ phys n. n;
}

abbrev pci : PciAddress
pci = record { bus = λ bdf. bdf / 256; devfn = λ bdf. bdf % 256 }

abbrev instant : Hardware
instant = record { completed = λ _ _. true; completed_phys = 0; polls = 1 }

-- A device without interrupts at 01:02.0, and the tables of its target.
abbrev device : PciDevice
device = record { bdf = 0x110; num_msi_vectors = 0; num_msix_vectors = 0 }

abbrev domain : Domain
domain = record { root_table_phys = 0x5000; id = 3 }

abbrev empty : Iommu ℕ
empty = record {
  root_lo = λ bus. 0;
  tables = λ phys devfn. no_entry;
  remap = record { table = replicate 4 zero_irte; units = [] };
  pool = 0;
}

abbrev filled : Iommu ℕ
filled = elim (add_pci_device two_pages pci 4 4 instant domain device empty) [
  | none ↦ empty
  | some (r, s) ↦ s
]

empty-IsDisjoint : IsDisjoint empty
empty-IsDisjoint b b' here here' same = absurd (false≢true here)

two_pages-IsFreshPool : IsFreshPool two_pages pci 4 4 instant empty
two_pages-IsFreshPool phys content pool got =
    let p : 0x1000 ≡ phys = cc in
    let c : (λ (d : ℕ). no_entry) ≡ content = cc in
    rw (← p, ← c) (record { aligned = refl; unused = λ b. refl; empty = λ d. refl })

adds : add_pci_device two_pages pci 4 4 instant domain device empty ≡ some (ok 0, filled)
unfolding add_pci_device
adds = refl

add_pci_device-Added_example : Added two_pages pci 4 4 instant domain device empty (ok 0) filled
add_pci_device-Added_example =
    add_pci_device-Added two_pages pci 4 4 instant domain device empty empty-IsDisjoint
      two_pages-IsFreshPool adds

filled-IsDisjoint : IsDisjoint filled
filled-IsDisjoint =
    (add_pci_device-Added two_pages pci 4 4 instant domain device empty empty-IsDisjoint
      two_pages-IsFreshPool adds).disjoint

abbrev emptied : Iommu ℕ
emptied = elim (remove_pci_device two_pages pci 4 4 instant device filled) [
  | none ↦ filled
  | some s ↦ s
]

removes : remove_pci_device two_pages pci 4 4 instant device filled ≡ some emptied
unfolding remove_pci_device add_pci_device
removes = refl

-- The bus has a table.
filled-there : present filled 1 ≡ true
unfolding add_pci_device
filled-there = refl

remove_pci_device-Removed_example : Removed two_pages pci 4 4 instant device filled emptied
remove_pci_device-Removed_example =
    remove_pci_device-Removed two_pages pci 4 4 instant device filled filled-IsDisjoint filled-there
      removes

-- The table of the bus is given back with its last device.
emptied-gone : present emptied 1 ≡ false
unfolding remove_pci_device add_pci_device
emptied-gone = refl
