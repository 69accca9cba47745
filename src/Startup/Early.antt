-- ===== src/Startup/Early.antt =====
-- `arch_init_early`: which handler each vector of the table has.
use spy.Base.{
  ℕ, zero, suc, ◌+◌, ◌-◌, ◌*◌, ◌^◌, ◌<◌, ◌≤◌, ◌≡◌, ◌≢◌, ◌⊎◌, inl, inr, refl, sym, ap, ◌∙◌, arith,
  Bool, true, false, none, if◌then◌else◌, leb, false≢true, ◌==◌, ◌||◌, ℕ_discrete, Bool-cases,
  ==_iff,
}
use spy.Startup.{Handlers, Statics, arch_init_early, set_idt_int_gate, set_exceptions, nmi_vector}
use spy.Startup.Gates.{
  IsGate, IsUntouched, Untouched-same, Untouched-then, set_idt_int_gate-IsGate,
  set_gate-IsUntouched, IsGate-stays, set_irqs-outside, set_irqs-IsGate,
}

-- A vector that the loop over the exceptions passes over.
abbrev pub is_skipped : ℕ → Bool
is_skipped v = v == nmi_vector || v == 15

-- How many vectors below `v` have an entry of their own among the exceptions.
abbrev pub slot : ℕ → ℕ
slot v = if leb v 2 then v else if leb v 15 then v - 1 else v - 2

slot-skipped : (v : ℕ) → is_skipped v ≡ true → slot (v + 1) ≡ slot v
slot-skipped v h = ground (arith, ==_iff v 2, ==_iff v 15)

slot-handled : (v : ℕ) → is_skipped v ≡ false → slot (v + 1) ≡ slot v + 1
slot-handled v h = ground (arith, ==_iff v 2, ==_iff v 15)

skipped_cases : (v : ℕ) → is_skipped v ≡ true → (v ≡ 2) ⊎ (v ≡ 15)
skipped_cases v h = ground (arith, ==_iff v 2, ==_iff v 15)

set_exceptions-outside :
    (left vector entry : ℕ) (idt : ℕ → ℕ) (v : ℕ)
    → (v < vector) ⊎ ((vector + left ≤ v) ⊎ (is_skipped v ≡ true))
    → IsUntouched idt (set_exceptions left vector entry idt) v
unfolding set_exceptions
set_exceptions-outside zero vector entry idt v h = Untouched-same idt v
set_exceptions-outside (suc left) vector entry idt v h =
    let h' : (v < vector + 1) ⊎ ((vector + 1 + left ≤ v) ⊎ (is_skipped v ≡ true)) = elim h [
      | inl lo ↦ inl (omega arith)
      | inr (inl hi) ↦ inr (inl (omega arith))
      | inr (inr skip) ↦ inr (inr skip)
    ] in
    elim (Bool-cases (is_skipped vector)) [
      | inl skip ↦
          rw (set_exceptions, skip) (set_exceptions-outside left (vector + 1) entry idt v h')
      | inr handled ↦
          let ne : v ≢ vector = λ e. elim h [
            | inl lo ↦ omega arith
            | inr (inl hi) ↦ omega arith
            | inr (inr skip) ↦ false≢true (sym handled ∙ ap is_skipped (sym e) ∙ skip)
          ] in
          rw (set_exceptions, handled)
            (Untouched-then (set_gate-IsUntouched vector entry idt v ne) (
              set_exceptions-outside left (vector + 1) (entry + 16)
                (set_idt_int_gate vector entry idt) v h'))
    ]

set_exceptions-IsGate :
    (left vector entry : ℕ) (idt : ℕ → ℕ) (v target : ℕ)
    → vector ≤ v
    → v < vector + left
    → is_skipped v ≡ false
    → target + 16 * slot vector ≡ entry + 16 * slot v
    → target < 2 ^ 64
    → IsGate (set_exceptions left vector entry idt) v target
unfolding set_exceptions
set_exceptions-IsGate zero vector entry idt v target lo hi own place lt = absurd (omega arith)
set_exceptions-IsGate (suc left) vector entry idt v target lo hi own place lt =
    elim (ℕ_discrete vector v) [
      | yes e ↦
          let handled : is_skipped vector ≡ false = ap is_skipped e ∙ own in
          let same : target ≡ entry = omega (arith, place, ap slot e) in
          rw (set_exceptions, handled, ← e, same)
            (IsGate-stays (set_idt_int_gate-IsGate vector entry idt (omega arith)) (
              set_exceptions-outside left (vector + 1) (entry + 16)
                (set_idt_int_gate vector entry idt) vector (inl (omega arith))))
      | no ne ↦ elim (Bool-cases (is_skipped vector)) [
        | inl skip ↦
            rw (set_exceptions, skip)
              (set_exceptions-IsGate left (vector + 1) entry idt v target (omega arith)
                (omega arith) own (omega (arith, place, slot-skipped vector skip)) lt)
        | inr handled ↦
            rw (set_exceptions, handled)
              (set_exceptions-IsGate left (vector + 1) (entry + 16)
                (set_idt_int_gate vector entry idt) v target (omega arith) (omega arith) own
                (omega (arith, place, slot-handled vector handled)) lt)
      ]
    ]

-- The table after an early start: each exception but 2 and 15 has its own entry, 16 bytes behind that of
-- the one before; 2 has the entry of NMIs; 32 and up have the one of interrupts; the rest is as it was.
pub record Gates (handlers : Handlers) (before after : ℕ → ℕ) : Type 0 where
  pub exceptions :
      (v : ℕ)
      → v < 20
      → is_skipped v ≡ false
      → IsGate after v (handlers.exception_entries + 16 * slot v)
  pub nmi : IsGate after 2 handlers.nmi_entry
  pub interrupts : (v : ℕ) → 32 ≤ v → v < 256 → IsGate after v handlers.irq_entry
  pub fifteen : IsUntouched before after 15
  pub others : (v : ℕ) → (20 ≤ v) × (v < 32) → IsUntouched before after v

-- Where the APIC is set up and the handlers lie below 2^64, the early start returns what the start of the
-- vCPUs returns and leaves a table of which `Gates` holds.
pub arch_init_early-Gates :
    (handlers : Handlers) (cpuid_ebx : ℕ) (s : Statics)
    → handlers.apic_init ≡ none
    → handlers.exception_entries + 16 * 18 ≤ 2 ^ 64
    → handlers.nmi_entry < 2 ^ 64
    → handlers.irq_entry < 2 ^ 64
    → ((arch_init_early handlers cpuid_ebx s).0 ≡ handlers.vcpu_early_init)
      × Gates handlers s.idt (arch_init_early handlers cpuid_ebx s).1.idt
unfolding arch_init_early
arch_init_early-Gates handlers cpuid_ebx s apic fits nmi_fits irq_fits =
    let excp = set_exceptions 20 0 handlers.exception_entries s.idt in
    let nmi_idt = set_idt_int_gate 2 handlers.nmi_entry excp in
    rw apic (
      refl,
      record {
        exceptions = λ v lt own.
            IsGate-stays
              (IsGate-stays
                (set_exceptions-IsGate 20 0 handlers.exception_entries s.idt v
                  (handlers.exception_entries + 16 * slot v) (omega arith) (omega arith) own
                  (omega arith) (ground (arith, fits)))
                (set_gate-IsUntouched 2 handlers.nmi_entry excp v
                  (λ e. false≢true (sym own ∙ ap is_skipped e))))
              (set_irqs-outside 224 32 handlers.irq_entry nmi_idt v (inl (omega arith)));
        nmi =
            IsGate-stays (set_idt_int_gate-IsGate 2 handlers.nmi_entry excp nmi_fits)
              (set_irqs-outside 224 32 handlers.irq_entry nmi_idt 2 (inl (omega arith)));
        interrupts = λ v lo hi.
            set_irqs-IsGate 224 32 handlers.irq_entry nmi_idt v irq_fits lo (omega arith);
        fifteen =
            Untouched-then
              (set_exceptions-outside 20 0 handlers.exception_entries s.idt 15 (inr (inr refl)))
              (Untouched-then (set_gate-IsUntouched 2 handlers.nmi_entry excp 15 (omega arith))
                (set_irqs-outside 224 32 handlers.irq_entry nmi_idt 15 (inl (omega arith))));
        others = λ v (lo, hi).
            Untouched-then
              (set_exceptions-outside 20 0 handlers.exception_entries s.idt v
                (inr (inl (omega arith))))
              (Untouched-then (set_gate-IsUntouched 2 handlers.nmi_entry excp v (omega arith))
                (set_irqs-outside 224 32 handlers.irq_entry nmi_idt v (inl (omega arith))));
      },
    )
