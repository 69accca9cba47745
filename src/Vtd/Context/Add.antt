-- ===== src/Vtd/Context/Add.antt =====
-- What adding a PCI device gives it, and what it leaves to the others.
use spy.Base.{
  ℕ, ◌≡◌, ◌⊎◌, ◌∙◌, ap, refl, arith, ◌==◌, Bool, true, false, Option-cases, ◌&&◌, if◌then◌else◌,
  has, Option, none, some, inl, inr, bit_and-bit_or_self, bit_or_comm,
}
use spy.Base.Result.{Result, ok, err, Errno, enomem}
use spy.Vtd.Queue.{Hardware}
use spy.Vtd.Remap.{reserve_int_remap_region, free_int_remap_region}
use spy.Vtd.Context.{
  ctx_present, PciDevice, Domain, PagePool, PciAddress, Iommu, max_vectors, context_entry,
  context_table, set_entry, add_entry, add_pci_device,
}
use spy.Vtd.Context.Devices.{
  lookup, IsDisjoint, Table, IsFreshPool, some_inj, set-lookup, set-IsDisjoint, context_table-Table,
}

module _ (dmar_pt_levels : ℕ) (target : Domain) where
  entry_present : has (context_entry dmar_pt_levels target).lo_word ctx_present ≡ true
  unfolding context_entry
  entry_present =
      rw (bit_or_comm 1 target.root_table_phys, bit_and-bit_or_self target.root_table_phys 1) refl

Result-cases : (r : Result ℕ) → ((n : ℕ) × (r ≡ ok n)) ⊎ ((e : Errno) × (r ≡ err e))
Result-cases (ok n) = inl (n, refl)
Result-cases (err e) = inr (e, refl)

-- Whether a result is one that the caller does not take for a failure.
abbrev pub is_ok : Result ℕ → Bool
is_ok (ok n) = true
is_ok (err e) = false

module _ {S : Type 0} (pages : PagePool S) (pci : PciAddress) (dmar_pt_levels limit : ℕ)
    (hw : Hardware) (target : Domain) (device : PciDevice) where
  -- What is there after the call that gave `r`: where it succeeded, the device has the tables of its
  -- target; everything else is as before.
  pub record Added (s : Iommu S) (r : Result ℕ) (s' : Iommu S) : Type 0 where
    pub contexts :
        (bus devfn : ℕ)
        → lookup s' bus devfn ≡ (
            if is_ok r && bus == pci.bus device.bdf && devfn == pci.devfn device.bdf
            then some (context_entry dmar_pt_levels target)
            else lookup s bus devfn)
    pub disjoint : IsDisjoint s'

  failed :
      (s s' : Iommu S) (e : Errno)
      → IsDisjoint s
      → s'.root_lo ≡ s.root_lo
      → s'.tables ≡ s.tables
      → Added s (err e) s'
  failed s s' e disjoint p q = record {
    contexts = λ b d. rw (p, q) refl;
    disjoint =
        λ b b' here here' same. disjoint b b' (rw (← p) here) (rw (← p) here') (rw (← p) same);
  }

  added :
      {phys : ℕ} (s s1 : Iommu S)
      → Table pages pci dmar_pt_levels limit hw s (pci.bus device.bdf) phys s1
      → Added s
          (ok 0)
          (set_entry phys (pci.devfn device.bdf) (context_entry dmar_pt_levels target) s1)
  added s s1 t =
      let entry = context_entry dmar_pt_levels target in
      let devfn = pci.devfn device.bdf in
      let bus = pci.bus device.bdf in
      rw (← t.phys_of) (record {
        contexts = λ b d.
            set-lookup s1 t.disjoint bus t.there devfn entry b d
            ∙ rw (entry_present dmar_pt_levels target, t.same b d) refl;
        disjoint = set-IsDisjoint s1 t.disjoint bus t.there devfn entry;
      })

  add_entry-Added :
      (s : Iommu S) (t : Option (ℕ × Iommu S)) {r : Result ℕ} {s' : Iommu S}
      → IsDisjoint s
      → IsFreshPool pages pci dmar_pt_levels limit hw s
      → context_table pages pci dmar_pt_levels limit hw (pci.bus device.bdf) s ≡ t
      → add_entry pages pci dmar_pt_levels limit hw target device t s ≡ some (r, s')
      → Added s r s'
  unfolding add_entry
  add_entry-Added s none {r} {s'} disjoint fresh made h =
      let freed = free_int_remap_region limit hw device.bdf (max_vectors device) s.remap in
      elim (Option-cases freed) [
        | inl stuck ↦ absurd (ground arith)
        | inr (remap, done) ↦
            let e : some (err enomem, record s { remap = remap }) ≡ some (r, s') =
              rw (add_entry, done) at h in
            let e' = some_inj e in
            rw (← ap (λ p. p.0) e', ← ap (λ p. p.1) e')
              (failed s (record s { remap = remap }) enomem disjoint refl refl)
      ]
  add_entry-Added s (some (phys, s1)) {r} {s'} disjoint fresh made h =
      let t =
        context_table-Table pages pci dmar_pt_levels limit hw s disjoint (pci.bus device.bdf) fresh
          made in
      let e = some_inj h in rw (← ap (λ p. p.0) e, ← ap (λ p. p.1) e) (added s s1 t)

  -- Where the buses share no tables and the pool gives fresh pages, an addition that has given a result
  -- gives the device, on success, the context of its target, and leaves all other contexts; after a
  -- failure every context is as before. The buses still share no tables.
  pub add_pci_device-Added :
      (s : Iommu S) {r : Result ℕ} {s' : Iommu S}
      → IsDisjoint s
      → IsFreshPool pages pci dmar_pt_levels limit hw s
      → add_pci_device pages pci dmar_pt_levels limit hw target device s ≡ some (r, s')
      → Added s r s'
  unfolding add_pci_device
  add_pci_device-Added s {r} {s'} disjoint fresh h =
      let reserved = reserve_int_remap_region limit device.bdf (max_vectors device) s.remap.table in
      let s1 : Iommu S = record s { remap = record s.remap { table = reserved.1 } } in
      let fresh1 : IsFreshPool pages pci dmar_pt_levels limit hw s1 = λ phys content pool got.
        let f = fresh phys content pool got in
        record { aligned = f.aligned; unused = f.unused; empty = f.empty } in
      elim (Result-cases reserved.0) [
        | inl (start, fine) ↦
            let e : add_entry pages pci dmar_pt_levels limit hw target device
                  (context_table pages pci dmar_pt_levels limit hw (pci.bus device.bdf) s1) s1
                ≡ some (r, s') =
              rw (add_pci_device, fine) at h in
            let a = add_entry-Added s1 _ disjoint fresh1 refl e in
            record { contexts = a.contexts; disjoint = a.disjoint }
        | inr (why, bad) ↦
            let e : some (err why, s1) ≡ some (r, s') = rw (add_pci_device, bad) at h in
            let e' = some_inj e in
            rw (← ap (λ p. p.0) e', ← ap (λ p. p.1) e') (failed s s1 why disjoint refl refl)
      ]
