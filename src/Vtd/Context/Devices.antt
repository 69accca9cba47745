-- ===== src/Vtd/Context/Devices.antt =====
-- Which devices may reach memory, and through whose tables.
use spy.Base.Store.{put, put_other, put_same}
use spy.Base.{
  ℕ, ◌≡◌, ◌≢◌, ◌∙◌, sym, ap, refl, arith, bit_and, bit_or, ◌==◌, ==_self, ==_ne, Bool, true, false,
  false≢true, Option-cases, ◌&&◌, if◌then◌else◌, has, Option, none, some, Bool-cases, inl, inr,
  ℕ_discrete, bit_and-bit_or, bit_and-bit_or_self, bit_or_comm, zero-bit_or,
}
use spy.Vtd.{Entry}
use spy.Vtd.Queue.{Hardware}
use spy.Vtd.Context.{
  root_present, ctx_present, PagePool, PciAddress, Iommu, page_mask, context_table, set_entry,
}

abbrev pub if_present : Entry → Option Entry
if_present e = if has e.lo_word ctx_present then some e else none

module _ {S : Type 0} where
  abbrev pub present : Iommu S → ℕ → Bool
  present s bus = has (s.root_lo bus) root_present

  abbrev pub table_of : Iommu S → ℕ → ℕ
  table_of s bus = bit_and (s.root_lo bus) page_mask

  -- The context that the unit finds for a bus and a device and function; a device without one is
  -- blocked.
  abbrev pub lookup : Iommu S → ℕ → ℕ → Option Entry
  lookup s bus devfn = if present s bus then if_present (s.tables (table_of s bus) devfn) else none

  -- No two buses share a table.
  abbrev pub IsDisjoint : Iommu S → Type 0
  IsDisjoint s =
      (b b' : ℕ) → present s b ≡ true → present s b' ≡ true → table_of s b ≡ table_of s b' → b ≡ b'

  -- A page that the pool may give: aligned, not a table in use and without a present entry.
  pub record Fresh (s : Iommu S) (phys : ℕ) (content : ℕ → Entry) : Type 0 where
    pub aligned : bit_and phys page_mask ≡ phys
    pub unused : (b : ℕ) → (present s b && table_of s b == phys) ≡ false
    pub empty : (d : ℕ) → has (content d).lo_word ctx_present ≡ false

pub some_inj {ℓ} : {A : Type ℓ} {a b : A} → some a ≡ some b → a ≡ b
some_inj h = cc

root_made :
    (phys : ℕ) → bit_and phys page_mask ≡ phys → bit_and (bit_or root_present phys) page_mask ≡ phys
root_made phys aligned = rw (bit_and-bit_or root_present phys page_mask, aligned, zero-bit_or) refl

root_made_present : (phys : ℕ) → has (bit_or root_present phys) root_present ≡ true
root_made_present phys =
    rw (bit_or_comm root_present phys, bit_and-bit_or_self phys root_present) refl

module _ {S : Type 0} (s : Iommu S) (disjoint : IsDisjoint s) (bus : ℕ)
    (there : present s bus ≡ true) where
  module _ (devfn : ℕ) (e : Entry) where
    abbrev pub set_s : Iommu S
    set_s = set_entry (table_of s bus) devfn e s

    pub set-lookup :
        (b d : ℕ)
        → lookup set_s b d ≡ (if b == bus && d == devfn then if_present e else lookup s b d)
    unfolding set_entry put
    set-lookup b d = elim (ℕ_discrete b bus) [
      | yes same ↦
          rw (same, there, ==_self bus, ==_self (table_of s bus))
            (elim (ℕ_discrete d devfn) [
              | yes same' ↦ rw (same', ==_self devfn) refl
              | no ne ↦ rw (==_ne d devfn ne) refl
            ])
      | no ne ↦ elim (Bool-cases (present s b)) [
        | inr gone ↦ rw (==_ne b bus ne, gone) refl
        | inl here ↦
            rw
              (
                ==_ne b bus ne,
                here,
                ==_ne (table_of s b) (table_of s bus)
                    (λ shared. ne (disjoint b bus here there shared)),
              )
              refl
      ]
    ]

    pub set-IsDisjoint : IsDisjoint set_s
    unfolding set_entry
    set-IsDisjoint = disjoint

-- The table of a bus: there before, or made on a fresh page.
module _ {S : Type 0} (pages : PagePool S) (pci : PciAddress) (dmar_pt_levels limit : ℕ)
    (hw : Hardware) where
  pub record Table (s : Iommu S) (bus phys : ℕ) (s' : Iommu S) : Type 0 where
    pub there : present s' bus ≡ true
    pub phys_of : table_of s' bus ≡ phys
    pub disjoint : IsDisjoint s'
    pub same : (b d : ℕ) → lookup s' b d ≡ lookup s b d

  -- What the pool gives is fresh.
  abbrev pub IsFreshPool : Iommu S → Type 0
  IsFreshPool s =
      (phys : ℕ) (content : ℕ → Entry) (pool : S)
      → pages.alloc s.pool ≡ some ((phys, content), pool)
      → Fresh s phys content

  module _ (s : Iommu S) (disjoint : IsDisjoint s) (bus : ℕ) where
    module _ (phys : ℕ) (content : ℕ → Entry) (pool : S) (gone : present s bus ≡ false)
        (fresh : Fresh s phys content) where
      abbrev made : Iommu S
      made = record s {
        root_lo = put s.root_lo bus (bit_or root_present phys);
        tables = put s.tables phys content;
        pool = pool;
      }

      apart : (b : ℕ) → present s b ≡ true → table_of s b ≢ phys
      apart b here e =
          let u = fresh.unused b in false≢true (sym u ∙ rw (here, e, ==_self phys) refl)

      old-root : (b : ℕ) → b ≢ bus → made.root_lo b ≡ s.root_lo b
      old-root b ne = put_other s.root_lo bus b (bit_or root_present phys) ne

      new-root : made.root_lo bus ≡ bit_or root_present phys
      new-root = put_same s.root_lo bus (bit_or root_present phys)

      new-present : present made bus ≡ true
      new-present = rw new-root (root_made_present phys)

      new-table_of : table_of made bus ≡ phys
      new-table_of = rw new-root (root_made phys fresh.aligned)

      made-IsDisjoint : IsDisjoint made
      made-IsDisjoint b b' here here' e = elim (ℕ_discrete b bus) [
        | yes same ↦ elim (ℕ_discrete b' bus) [
          | yes same' ↦ same ∙ sym same'
          | no ne' ↦ absurd (
              apart b' (rw (← old-root b' ne') here')
                (rw (← old-root b' ne') (sym e ∙ rw same new-table_of)))
        ]
        | no ne ↦ elim (ℕ_discrete b' bus) [
          | yes same' ↦ absurd (
              apart b (rw (← old-root b ne) here)
                (rw (← old-root b ne) (e ∙ rw same' new-table_of)))
          | no ne' ↦
              disjoint b b' (rw (← old-root b ne) here) (rw (← old-root b' ne') here')
                (rw (← old-root b ne, ← old-root b' ne') e)
        ]
      ]

      made-lookup : (b d : ℕ) → lookup made b d ≡ lookup s b d
      made-lookup b d = elim (ℕ_discrete b bus) [
        | yes same ↦
            rw
              (same, gone, new-present, new-table_of, put_same s.tables phys content, fresh.empty d)
              refl
        | no ne ↦ elim (Bool-cases (present s b)) [
          | inr none_ ↦ rw (old-root b ne, none_) refl
          | inl here ↦
              rw
                (old-root b ne, here, put_other s.tables phys (table_of s b) content (apart b here))
                refl
        ]
      ]

      made-Table : Table s bus phys made
      made-Table = record {
        there = new-present;
        phys_of = new-table_of;
        disjoint = made-IsDisjoint;
        same = made-lookup;
      }

    pub context_table-Table :
        {phys : ℕ} {s' : Iommu S}
        → IsFreshPool s
        → context_table pages pci dmar_pt_levels limit hw bus s ≡ some (phys, s')
        → Table s bus phys s'
    unfolding context_table
    context_table-Table {phys} {s'} fresh h = elim (Bool-cases (present s bus)) [
      | inl there ↦
          let e : some (table_of s bus, s) ≡ some (phys, s') = rw there at h in
          let e' = some_inj e in
          rw (← ap (λ p. p.0) e', ← ap (λ p. p.1) e')
            (record { there = there; phys_of = refl; disjoint = disjoint; same = λ b d. refl })
      | inr gone ↦ elim (Option-cases (pages.alloc s.pool)) [
        | inl none_ ↦ absurd (ground arith)
        | inr (((phys', content), pool), got) ↦
            let e : some (phys', made phys' content pool gone (fresh phys' content pool got))
                ≡ some (phys, s') =
              rw (gone, got) at h in
            let e' = some_inj e in
            rw (← ap (λ p. p.0) e', ← ap (λ p. p.1) e')
              (made-Table phys' content pool gone (fresh phys' content pool got))
      ]
    ]
