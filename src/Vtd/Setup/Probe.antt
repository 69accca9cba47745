-- ===== src/Vtd/Setup/Probe.antt =====
-- What holds of every unit once the loop of `vtd_init` over the units has passed.
use spy.Base.{
  ℕ, ◌+◌, ◌≤◌, ◌≡◌, ◌≢◌, ◌⊎◌, inl, inr, refl, sym, ap, ◌∙◌, arith, Bool, true, false, not, ◌&&◌,
  Option, none, some, List, [], ◌∷◌, bit_and, bit_or, bit_and_assoc, bit_and_comm, bit_and_self,
  has, ltb, ◌==◌, Bool-cases, ==_iff, false≢true, Option-cases,
}
use spy.Base.Result.{Errno}
use spy.Vtd.Setup.{
  UnitRegs, Dmar, ver_mask, ver_min, ecap_qi, ecap_ir, ecap_eim, gsts_ires, gsts_qies,
  gsts_used_ctrls, levels_of, num_did_of, init_ir_emulation, count_domains, probe_controls,
  probe_unit, probe_units,
}

-- A unit that the driver can use with what it found: `pt_levels`, `num_did` and `sllps_caps` are supported.
pub record Usable (using_x2apic : Bool) (d : Dmar) (regs : UnitRegs) : Type 0 where
  pub intel : regs.is_intel ≡ true
  pub mapped : regs.mapped ≡ none
  pub levels : (levels_of regs.cap ≡ d.pt_levels) × (d.pt_levels ≢ 0)
  pub domains : d.num_did ≤ num_did_of regs.cap
  pub page_sizes : bit_and d.sllps_caps regs.cap ≡ d.sllps_caps
  pub version : (ver_min ≤ bit_and regs.ver ver_mask) × (bit_and regs.ver ver_mask ≢ 0xff)
  pub extended : (using_x2apic ≡ false) ⊎ (has regs.ecap ecap_eim ≡ true)
  pub queued : has regs.ecap ecap_qi ≡ true
  pub remapping : has regs.ecap ecap_ir ≡ true
  pub controls :
      (bit_and regs.gsts gsts_used_ctrls ≡ 0)
      ⊎ ((bit_and regs.gsts gsts_used_ctrls ≡ bit_or gsts_ires gsts_qies) × (d.ir_emulation ≡ true))

-- What a later unit leaves of it.
pub record Narrows (before after : Dmar) : Type 0 where
  pub levels : (before.pt_levels ≡ 0) ⊎ (after.pt_levels ≡ before.pt_levels)
  pub domains : after.num_did ≤ before.num_did
  pub page_sizes : bit_and after.sllps_caps before.sllps_caps ≡ after.sllps_caps
  pub emulation : (before.ir_emulation ≡ false) ⊎ (after.ir_emulation ≡ true)

emulation-kept :
    (polls n : ℕ) (regs : UnitRegs) (d : Dmar) {e : Option Errno} {d' : Dmar}
    → init_ir_emulation polls n regs d ≡ some (e, d')
    → (d'.pt_levels ≡ d.pt_levels)
      × (d'.num_did ≡ d.num_did)
      × (d'.sllps_caps ≡ d.sllps_caps)
      × (d'.ir_emulation ≡ true)
unfolding init_ir_emulation
emulation-kept polls n regs d {e} {d'} h = ground arith

controls-step :
    (using_x2apic : Bool) (polls n : ℕ) (regs : UnitRegs) (d : Dmar) {d' : Dmar}
    → probe_controls using_x2apic polls n regs d ≡ some (none, d')
    → (d'.pt_levels ≡ d.pt_levels)
      × (d'.sllps_caps ≡ d.sllps_caps)
      × (d'.num_did ≤ num_did_of regs.cap)
      × (d'.num_did ≤ d.num_did)
      × ((d.ir_emulation ≡ false) ⊎ (d'.ir_emulation ≡ true))
      × ((bit_and regs.gsts gsts_used_ctrls ≡ 0)
          ⊎ ((bit_and regs.gsts gsts_used_ctrls ≡ bit_or gsts_ires gsts_qies)
              × (d'.ir_emulation ≡ true)))
unfolding probe_controls count_domains
controls-step using_x2apic polls n regs d {d'} h =
    let ctrls = bit_and regs.gsts gsts_used_ctrls in
    elim (Bool-cases (ctrls == 0)) [
      | inl off ↦
          let zero_ctrls = (==_iff ctrls 0).0 off in
          (ground arith, ground arith, ground arith, ground arith, ground arith, inl zero_ctrls)
      | inr on ↦ elim (Bool-cases (ctrls == bit_or gsts_ires gsts_qies)) [
        | inr other ↦ absurd (ground arith)
        | inl both ↦
            let both_ctrls = (==_iff ctrls (bit_or gsts_ires gsts_qies)).0 both in
            elim (Option-cases (init_ir_emulation polls n regs d)) [
              | inl waits ↦ absurd (ground arith)
              | inr ((some x, d1), e) ↦ absurd (ground arith)
              | inr ((none, d1), e) ↦
                  let (levels, domains, sizes, emulates) = emulation-kept polls n regs d e in
                  let same : count_domains regs d1 ≡ d' = ground arith in
                  rw (← same) (
                    levels,
                    sizes,
                    ground arith,
                    ground (arith, domains),
                    inr emulates,
                    inr (both_ctrls, emulates),
                  )
            ]
      ]
    ]

sub_right : (a b : ℕ) → bit_and (bit_and a b) b ≡ bit_and a b
sub_right a b = bit_and_assoc a b b ∙ ap (bit_and a) (bit_and_self b)

sub_left : (a b : ℕ) → bit_and (bit_and a b) a ≡ bit_and a b
sub_left a b =
    bit_and_comm (bit_and a b) a
    ∙ sym (bit_and_assoc a a b)
    ∙ ap (λ x. bit_and x b) (bit_and_self a)

sub_trans : (a b c : ℕ) → bit_and a b ≡ a → bit_and b c ≡ b → bit_and a c ≡ a
sub_trans a b c p q = ap (λ x. bit_and x c) (sym p) ∙ bit_and_assoc a b c ∙ ap (bit_and a) q ∙ p

unit-step :
    (using_x2apic : Bool) (polls n : ℕ) (regs : UnitRegs) (d : Dmar) {d' : Dmar}
    → probe_unit using_x2apic polls n regs d ≡ some (none, d')
    → Usable using_x2apic d' regs × Narrows d d'
unfolding probe_unit
unit-step using_x2apic polls n regs d {d'} h =
    let levels = levels_of regs.cap in
    let d2 = record d { sllps_caps = bit_and d.sllps_caps regs.cap; pt_levels = levels } in
    elim (Bool-cases regs.is_intel) [
      | inr other ↦ absurd (ground arith)
      | inl intel ↦ elim (Option-cases regs.mapped) [
        | inr (x, failed) ↦ absurd (ground arith)
        | inl mapped ↦ elim (Bool-cases (levels == 0)) [
          | inl neither ↦ absurd (ground arith)
          | inr known ↦ elim (Bool-cases (has regs.ecap ecap_qi)) [
            | inr no_qi ↦ absurd (ground arith)
            | inl qi ↦ elim (Bool-cases (has regs.ecap ecap_ir)) [
              | inr no_ir ↦ absurd (ground arith)
              | inl ir ↦ elim (Bool-cases (ltb 0 d.pt_levels && not (d.pt_levels == levels))) [
                | inl differs ↦ absurd (ground arith)
                | inr agrees ↦
                    let supported : (bit_and regs.ver ver_mask == 0xff) ≡ false = ground arith in
                    let run : probe_controls using_x2apic polls n regs d2 ≡ some (none, d') =
                      ground arith in
                    let (same, sizes, domains, fewer, emulation, controls) =
                      controls-step using_x2apic polls n regs d2 run in
                    (
                      record {
                        intel = intel;
                        mapped = mapped;
                        levels = (
                          sym same,
                          λ e. false≢true (sym known ∙ (==_iff levels 0).1 (sym same ∙ e)),
                        );
                        domains = domains;
                        page_sizes = rw sizes (sub_right d.sllps_caps regs.cap);
                        version =
                            (ground arith, λ e. false≢true (sym supported ∙ (==_iff _ 0xff).1 e));
                        extended = ground arith;
                        queued = qi;
                        remapping = ir;
                        controls = controls;
                      },
                      record {
                        levels = ground (arith, same);
                        domains = fewer;
                        page_sizes = rw sizes (sub_left d.sllps_caps regs.cap);
                        emulation = emulation;
                      },
                    )
              ]
            ]
          ]
        ]
      ]
    ]

Usable-later :
    (using_x2apic : Bool) (regs : UnitRegs) (d d' : Dmar)
    → Usable using_x2apic d regs
    → Narrows d d'
    → Usable using_x2apic d' regs
Usable-later using_x2apic regs d d' u n =
    let kept : d'.pt_levels ≡ d.pt_levels = elim n.levels [
      | inl none_yet ↦ absurd (u.levels.1 none_yet)
      | inr same ↦ same
    ] in
    record {
      intel = u.intel;
      mapped = u.mapped;
      levels = (u.levels.0 ∙ sym kept, λ e. u.levels.1 (sym kept ∙ e));
      domains = omega (arith, u.domains, n.domains);
      page_sizes = sub_trans d'.sllps_caps d.sllps_caps regs.cap n.page_sizes u.page_sizes;
      version = u.version;
      extended = u.extended;
      queued = u.queued;
      remapping = u.remapping;
      controls = elim u.controls [
        | inl off ↦ inl off
        | inr (on, emulates) ↦ elim n.emulation [
          | inl not_yet ↦ absurd (false≢true (sym not_yet ∙ emulates))
          | inr still ↦ inr (on, still)
        ]
      ];
    }

Narrows-then : (a b c : Dmar) → Narrows a b → Narrows b c → Narrows a c
Narrows-then a b c m n = record {
  levels = elim m.levels [
    | inl e ↦ inl e
    | inr e ↦ elim n.levels [ inl z ↦ inl (sym e ∙ z) | inr e' ↦ inr (e' ∙ e) ]
  ];
  domains = omega (arith, m.domains, n.domains);
  page_sizes = sub_trans c.sllps_caps b.sllps_caps a.sllps_caps n.page_sizes m.page_sizes;
  emulation = elim m.emulation [
    | inl off ↦ inl off
    | inr on ↦ elim n.emulation [
      | inl off ↦ absurd (false≢true (sym off ∙ on))
      | inr still ↦ inr still
    ]
  ];
}

either : (b : Bool) → (b ≡ false) ⊎ (b ≡ true)
either true = inr refl
either false = inl refl

-- Each unit of a list is usable.
pub data EachUsable (using_x2apic : Bool) (d : Dmar) : List UnitRegs → Type 0 where
  no_units : EachUsable using_x2apic d []
  one_more :
      {regs : UnitRegs} {units : List UnitRegs}
      → Usable using_x2apic d regs
      → EachUsable using_x2apic d units
      → EachUsable using_x2apic d (regs ∷ units)

module _ (using_x2apic : Bool) (polls : ℕ) where
  probe_units-Narrows :
      (units : List UnitRegs) (n : ℕ) (d : Dmar) {d' : Dmar}
      → probe_units using_x2apic polls n units d ≡ some (none, d')
      → EachUsable using_x2apic d' units × Narrows d d'
  unfolding probe_units
  probe_units-Narrows [] n d {d'} h =
      let same : d ≡ d' = ground arith in
      (
        no_units,
        rw (← same) (record {
          levels = inr refl;
          domains = omega arith;
          page_sizes = bit_and_self d.sllps_caps;
          emulation = either d.ir_emulation;
        }),
      )
  probe_units-Narrows (regs ∷ units) n d {d'} h =
      elim (Option-cases (probe_unit using_x2apic polls n regs d)) [
        | inl waits ↦ absurd (ground arith)
        | inr ((some x, d1), e) ↦ absurd (ground arith)
        | inr ((none, d1), e) ↦
            let (usable, narrows) = unit-step using_x2apic polls n regs d e in
            let (each, narrows') = probe_units-Narrows units (n + 1) d1 {d' = d'} (ground arith) in
            (
              one_more (Usable-later using_x2apic regs d1 d' usable narrows') each,
              Narrows-then d d1 d' narrows narrows',
            )
      ]

  -- A loop over the units that succeeds: each of them is an Intel unit that was mapped, has the number of levels,
  -- the domains and the page sizes that the driver goes on with, has a queue and remaps interrupts, and is off or
  -- has both in use, and then they are emulated.
  pub probe_units-EachUsable :
      (units : List UnitRegs) (n : ℕ) (d : Dmar) {d' : Dmar}
      → probe_units using_x2apic polls n units d ≡ some (none, d')
      → EachUsable using_x2apic d' units
  probe_units-EachUsable units n d h = (probe_units-Narrows units n d h).0
