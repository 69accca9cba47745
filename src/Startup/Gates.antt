-- ===== src/Startup/Gates.antt =====
-- What the processor reads back from a gate of the table of interrupts.
use spy.Base.{
  ℕ, zero, suc, ◌+◌, ◌*◌, ◌/◌, ◌%◌, ◌^◌, ◌<◌, ◌≤◌, ◌≡◌, ◌≢◌, ◌⊎◌, inl, inr, refl, ◌∙◌, arith,
  bit_or, bit_and_mask, bit_and_field, bit_or_fields, bit_or_comm, ℕ_discrete,
}
use spy.Base.Store.{put, put_same, put_other}
use spy.Startup.{gate_low, gate_middle, gate_high, set_idt_int_gate, set_irqs}

-- An interrupt gate of 64-bit mode: the address is spread over the words, the selector is in the upper
-- half of the first, the type and the present bit in the lower half of the second.
pub record IsGate (idt : ℕ → ℕ) (vector entry : ℕ) : Type 0 where
  pub address :
      idt (vector * 4) % 2 ^ 16
        + idt (vector * 4 + 1) / 2 ^ 16 * 2 ^ 16
        + idt (vector * 4 + 2) * 2 ^ 32
      ≡ entry
  pub code_selector : idt (vector * 4) / 2 ^ 16 ≡ 8
  pub present_int : idt (vector * 4 + 1) % 2 ^ 16 ≡ 0x8e00

-- The gate of a vector has the words that it had.
pub record IsUntouched (before after : ℕ → ℕ) (vector : ℕ) : Type 0 where
  pub low : after (vector * 4) ≡ before (vector * 4)
  pub middle : after (vector * 4 + 1) ≡ before (vector * 4 + 1)
  pub high : after (vector * 4 + 2) ≡ before (vector * 4 + 2)

low-fields : (entry : ℕ) → gate_low entry ≡ 8 * 2 ^ 16 + entry % 2 ^ 16
low-fields entry =
    rw (bit_and_mask 16 entry) (
      bit_or_comm (entry % 2 ^ 16) (8 * 2 ^ 16) ∙ bit_or_fields 16 8 (entry % 2 ^ 16) (omega arith))

middle-fields : (entry : ℕ) → gate_middle entry ≡ entry / 2 ^ 16 % 2 ^ 16 * 2 ^ 16 + 0x8e00
middle-fields entry =
    let high = entry / 2 ^ 16 % 2 ^ 16 in
    rw (bit_and_field 16 16 entry) (
      let e : bit_or 0x8e00 (high * 2 ^ 16) ≡ high * 2 ^ 16 + 0x8e00 =
        bit_or_comm 0x8e00 (high * 2 ^ 16) ∙ bit_or_fields 16 high 0x8e00 (omega arith) in
      rw e (omega arith))

module _ (vector entry : ℕ) (idt : ℕ → ℕ) where
  pub set_idt_int_gate-IsGate :
      entry < 2 ^ 64 → IsGate (set_idt_int_gate vector entry idt) vector entry
  unfolding set_idt_int_gate
  set_idt_int_gate-IsGate lt =
      let b = vector * 4 in
      let one = put idt b (gate_low entry) in
      let two = put one (b + 1) (gate_middle entry) in
      let low : put two (b + 2) (gate_high entry) b ≡ gate_low entry =
        put_other two (b + 2) b (gate_high entry) (omega arith)
        ∙ put_other one (b + 1) b (gate_middle entry) (omega arith)
        ∙ put_same idt b (gate_low entry) in
      let middle : put two (b + 2) (gate_high entry) (b + 1) ≡ gate_middle entry =
        put_other two (b + 2) (b + 1) (gate_high entry) (omega arith)
        ∙ put_same one (b + 1) (gate_middle entry) in
      let high : put two (b + 2) (gate_high entry) (b + 2) ≡ gate_high entry =
        put_same two (b + 2) (gate_high entry) in
      let l = low-fields entry in
      let m = middle-fields entry in
      record {
        address = omega (arith, low, middle, high, l, m, lt);
        code_selector = omega (arith, low, l);
        present_int = omega (arith, middle, m);
      }

  pub set_gate-IsUntouched :
      (v : ℕ) → v ≢ vector → IsUntouched idt (set_idt_int_gate vector entry idt) v
  unfolding set_idt_int_gate
  set_gate-IsUntouched v ne =
      let b = vector * 4 in
      let one = put idt b (gate_low entry) in
      let two = put one (b + 1) (gate_middle entry) in
      let other : (k : ℕ)
          → k ≢ b
          → k ≢ b + 1
          → k ≢ b + 2
          → put two (b + 2) (gate_high entry) k ≡ idt k =
        λ k n0 n1 n2.
          put_other two (b + 2) k (gate_high entry) n2
          ∙ put_other one (b + 1) k (gate_middle entry) n1
          ∙ put_other idt b k (gate_low entry) n0 in
      record {
        low = other (v * 4) (omega (arith, ne)) (omega (arith, ne)) (omega (arith, ne));
        middle = other (v * 4 + 1) (omega (arith, ne)) (omega (arith, ne)) (omega (arith, ne));
        high = other (v * 4 + 2) (omega (arith, ne)) (omega (arith, ne)) (omega (arith, ne));
      }

pub Untouched-same : (idt : ℕ → ℕ) (v : ℕ) → IsUntouched idt idt v
Untouched-same idt v = record { low = refl; middle = refl; high = refl }

pub Untouched-then :
    {a b c : ℕ → ℕ} {v : ℕ} → IsUntouched a b v → IsUntouched b c v → IsUntouched a c v
Untouched-then f g = record {
  low = g.low ∙ f.low;
  middle = g.middle ∙ f.middle;
  high = g.high ∙ f.high;
}

-- A gate that is not touched again stays.
pub IsGate-stays :
    {a b : ℕ → ℕ} {v entry : ℕ} → IsGate a v entry → IsUntouched a b v → IsGate b v entry
IsGate-stays g u = record {
  address = rw (u.low, u.middle, u.high) g.address;
  code_selector = rw u.low g.code_selector;
  present_int = rw u.middle g.present_int;
}

pub set_irqs-outside :
    (left vector entry : ℕ) (idt : ℕ → ℕ) (v : ℕ)
    → (v < vector) ⊎ (vector + left ≤ v)
    → IsUntouched idt (set_irqs left vector entry idt) v
unfolding set_irqs
set_irqs-outside zero vector entry idt v h = Untouched-same idt v
set_irqs-outside (suc left) vector entry idt v h =
    Untouched-then (set_gate-IsUntouched vector entry idt v (omega (arith, h))) (
      set_irqs-outside left (vector + 1) entry (set_idt_int_gate vector entry idt) v
        (elim h [ inl lo ↦ inl (omega arith) | inr hi ↦ inr (omega arith) ]))

pub set_irqs-IsGate :
    (left vector entry : ℕ) (idt : ℕ → ℕ) (v : ℕ)
    → entry < 2 ^ 64
    → vector ≤ v
    → v < vector + left
    → IsGate (set_irqs left vector entry idt) v entry
unfolding set_irqs
set_irqs-IsGate zero vector entry idt v lt lo hi = absurd (omega arith)
set_irqs-IsGate (suc left) vector entry idt v lt lo hi =
    let idt' = set_idt_int_gate vector entry idt in
    elim (ℕ_discrete vector v) [
      | yes e ↦ rw (← e) (
          IsGate-stays (set_idt_int_gate-IsGate vector entry idt lt)
            (set_irqs-outside left (vector + 1) entry idt' vector (inl (omega arith))))
      | no ne ↦ set_irqs-IsGate left (vector + 1) entry idt' v lt (omega arith) (omega arith)
    ]
