-- ===== src/Vtd/Context/Remove.antt =====
-- What removing a PCI device takes from it, and what it leaves to the others.
use spy.Base.Store.{put, put_other, put_same}
use spy.Base.{
  ℕ, zero, suc, ◌<◌, ◌≡◌, ◌≢◌, ◌∙◌, sym, ap, refl, arith, bit_and, not64, ◌==◌, true, false,
  false≢true, Option-cases, ◌&&◌, if◌then◌else◌, has, none, some, Bool-cases, inl, inr, ℕ_discrete,
  bit_and_assoc, bit_and-zero,
}
use spy.Vtd.{Entry}
use spy.Vtd.Queue.{Hardware}
use spy.Vtd.Remap.{free_int_remap_region}
use spy.Vtd.Context.{
  root_present, ctx_present, PciDevice, PagePool, PciAddress, Iommu, max_vectors, any_present,
  set_entry, remove_entry, remove_pci_device,
}
use spy.Vtd.Context.Devices.{
  present, table_of, if_present, lookup, IsDisjoint, some_inj, set-lookup, set-IsDisjoint,
}

none_present :
    (table : ℕ → Entry) (n d : ℕ)
    → any_present table n ≡ false
    → d < n
    → has (table d).lo_word ctx_present ≡ false
unfolding any_present
none_present table zero d h lt = absurd (omega arith)
none_present table (suc n) d h lt =
    let ih = none_present table n d in
    elim (ℕ_discrete d n) [ yes e ↦ rw e (ground arith) | no ne ↦ ground arith ]

bit_cleared : (x : ℕ) → has (bit_and x (not64 1)) 1 ≡ false
bit_cleared x = rw (bit_and_assoc x (not64 1) 1, bit_and-zero x) refl

module _ {S : Type 0} (pages : PagePool S) (s : Iommu S) (disjoint : IsDisjoint s) (bus : ℕ)
    (there : present s bus ≡ true)
    (empty : any_present (s.tables (table_of s bus)) 256 ≡ false) where
  abbrev dropped : Iommu S
  dropped = record s {
    root_lo = put s.root_lo bus (bit_and (s.root_lo bus) (not64 root_present));
    pool = pages.free (table_of s bus) s.pool;
  }

  gone-root : dropped.root_lo bus ≡ bit_and (s.root_lo bus) (not64 root_present)
  gone-root = put_same s.root_lo bus (bit_and (s.root_lo bus) (not64 root_present))

  kept-root : (b : ℕ) → b ≢ bus → dropped.root_lo b ≡ s.root_lo b
  kept-root b ne = put_other s.root_lo bus b (bit_and (s.root_lo bus) (not64 root_present)) ne

  not_present : present dropped bus ≡ false
  not_present = rw gone-root (bit_cleared (s.root_lo bus))

  dropped-lookup : (b d : ℕ) → d < 256 → lookup dropped b d ≡ lookup s b d
  dropped-lookup b d lt = elim (ℕ_discrete b bus) [
    | no ne ↦ rw (kept-root b ne) refl
    | yes same ↦
        rw (same, not_present, there, none_present (s.tables (table_of s bus)) 256 d empty lt) refl
  ]

  dropped-IsDisjoint : IsDisjoint dropped
  dropped-IsDisjoint b b' here here' e = elim (ℕ_discrete b bus) [
    | yes same ↦
        absurd (false≢true (sym not_present ∙ sym (ap (λ x. present dropped x) same) ∙ here))
    | no ne ↦ elim (ℕ_discrete b' bus) [
      | yes same' ↦
          absurd (false≢true (sym not_present ∙ sym (ap (λ x. present dropped x) same') ∙ here'))
      | no ne' ↦
          disjoint b b' (rw (← kept-root b ne) here) (rw (← kept-root b' ne') here')
            (rw (← kept-root b ne, ← kept-root b' ne') e)
    ]
  ]

module _ {S : Type 0} (pages : PagePool S) (pci : PciAddress) (dmar_pt_levels limit : ℕ)
    (hw : Hardware) (device : PciDevice) where
  -- The state after a removal.
  pub record Removed (s s' : Iommu S) : Type 0 where
    pub contexts :
        (bus devfn : ℕ)
        → devfn < 256
        → lookup s' bus devfn ≡ (
            if bus == pci.bus device.bdf && devfn == pci.devfn device.bdf
            then none
            else lookup s bus devfn)
    pub disjoint : IsDisjoint s'

  remove_entry-Removed :
      (s : Iommu S)
      → IsDisjoint s
      → present s (pci.bus device.bdf) ≡ true
      → Removed s (remove_entry pages pci dmar_pt_levels limit hw device s)
  unfolding remove_entry
  remove_entry-Removed s disjoint there =
      let bus = pci.bus device.bdf in
      let devfn = pci.devfn device.bdf in
      let entry = s.tables (table_of s bus) devfn in
      let cleared : Entry = record entry { lo_word = bit_and entry.lo_word (not64 ctx_present) } in
      let s1 : Iommu S = set_entry (table_of s bus) devfn cleared s in
      let off : if_present cleared ≡ none = rw (bit_cleared entry.lo_word) refl in
      let found : (b d : ℕ)
          → lookup s1 b d ≡ (if b == bus && d == devfn then none else lookup s b d) =
        λ b d. set-lookup s disjoint bus there devfn cleared b d ∙ rw off refl in
      let apart = set-IsDisjoint s disjoint bus there devfn cleared in
      elim (Bool-cases (any_present (s1.tables (table_of s bus)) 256)) [
        | inl some_left ↦ rw some_left (record { contexts = λ b d lt. found b d; disjoint = apart })
        | inr none_left ↦ rw none_left (record {
          contexts = λ b d lt. dropped-lookup pages s1 apart bus there none_left b d lt ∙ found b d;
          disjoint = dropped-IsDisjoint pages s1 apart bus there none_left;
        })
      ]

  -- Where the buses share no tables and the bus of the device has one, a removal that has ended takes
  -- the context of the device away and leaves all others, also where it gives the table of the bus
  -- back. The buses still share no tables.
  pub remove_pci_device-Removed :
      (s : Iommu S) {s' : Iommu S}
      → IsDisjoint s
      → present s (pci.bus device.bdf) ≡ true
      → remove_pci_device pages pci dmar_pt_levels limit hw device s ≡ some s'
      → Removed s s'
  unfolding remove_pci_device
  remove_pci_device-Removed s {s'} disjoint there h =
      let freed = free_int_remap_region limit hw device.bdf (max_vectors device) s.remap in
      elim (Option-cases freed) [
        | inl stuck ↦ absurd (ground arith)
        | inr (remap, done) ↦
            let s1 : Iommu S = record s { remap = remap } in
            let e : some (remove_entry pages pci dmar_pt_levels limit hw device s1) ≡ some s' =
              rw (remove_pci_device, done) at h in
            let r = remove_entry-Removed s1 disjoint there in
            rw (← some_inj e) (record { contexts = r.contexts; disjoint = r.disjoint })
      ]
