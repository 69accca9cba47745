-- ===== src/Spinlock/Invariant.antt =====
-- Who has which ticket, counted from the owner modulo 2^16, and that every step keeps it.
use spy.Base.{
  ℕ, suc, ◌+◌, ◌-◌, ◌%◌, ◌^◌, ◌<◌, ◌≤◌, ◌≡◌, ◌≢◌, ◌⊎◌, inl, inr, sym, ap, ◌∙◌, arith, some, ◌==◌,
  ==_iff, Bool-cases, ℕ_discrete, dec_lt,
}
use spy.Base.Store.{put, put_same, put_other}
use spy.Spinlock.{
  Place, outside, spinning, inside, System, owner, next, xaddl, addw, arrive, take, look,
  spin_unlock, Step, takes, looks, unlocks, unlocked, Reachable, at_start, after_step,
}
use spy.Spinlock.Count.{ticket_of, weight, holders, holders-le, holders-outside, holders-put}

-- `next` is `holders` tickets ahead of `owner`; each of these tickets belongs to one CPU, and a CPU that is
-- inside has the ticket of the owner.
pub record IsFair (cpus : ℕ) (s : System) : Type 0 where
  pub word : s.lock < 2 ^ 32
  pub handed : next s.lock ≡ (owner s.lock + holders cpus s.place) % 2 ^ 16
  pub range :
      (i t : ℕ)
      → i < cpus
      → ticket_of (s.place i) ≡ some t
      → (t < 2 ^ 16) × ((t + 2 ^ 16 - owner s.lock) % 2 ^ 16 < holders cpus s.place)
  pub unique :
      (i j t : ℕ)
      → i < cpus
      → j < cpus
      → ticket_of (s.place i) ≡ some t
      → ticket_of (s.place j) ≡ some t
      → i ≡ j
  pub covered :
      (d : ℕ)
      → d < holders cpus s.place
      → (i : ℕ) × (i < cpus) × (ticket_of (s.place i) ≡ some ((owner s.lock + d) % 2 ^ 16))
  pub first : (i t : ℕ) → i < cpus → s.place i ≡ inside t → t ≡ owner s.lock

arrive-ticket : (word t : ℕ) → ticket_of (arrive word t) ≡ some t
unfolding arrive
arrive-ticket word t = ground arith

arrive-weight : (word t : ℕ) → weight (arrive word t) ≡ 1
unfolding arrive
arrive-weight word t = ground arith

arrive-inside : (word t u : ℕ) → arrive word t ≡ inside u → u ≡ owner word
unfolding arrive
arrive-inside word t u h = elim (Bool-cases (owner word == t)) [
  | inl here ↦
      let e : t ≡ u = ground arith in
      let e' = (==_iff (owner word) t).0 here in omega (arith, e, e')
  | inr away ↦ absurd (ground arith)
]

moved :
    (place : ℕ → Place) (cpu : ℕ) (p : Place) (i : ℕ)
    → ((cpu ≡ i) × (put place cpu p i ≡ p)) ⊎ ((i ≢ cpu) × (put place cpu p i ≡ place i))
moved place cpu p i = elim (ℕ_discrete cpu i) [
  | yes e ↦ inl (e, rw (← e) (put_same place cpu p))
  | no ne ↦ inr (λ e. ne (sym e), put_other place cpu i p (λ e. ne (sym e)))
]

ticket_put :
    (place : ℕ → Place) (cpu : ℕ) (p : Place) (i t : ℕ)
    → ticket_of (put place cpu p i) ≡ some t
    → ((cpu ≡ i) × (ticket_of p ≡ some t)) ⊎ ((i ≢ cpu) × (ticket_of (place i) ≡ some t))
ticket_put place cpu p i t h = elim (moved place cpu p i) [
  | inl (e, q) ↦ inl (e, sym (ap ticket_of q) ∙ h)
  | inr (ne, q) ↦ inr (ne, sym (ap ticket_of q) ∙ h)
]

some_injective : {a b : ℕ} → some a ≡ some b → a ≡ b
some_injective h = cc

module _ (cpus : ℕ) (few : cpus ≤ 2 ^ 16) (s : System) (inv : IsFair cpus s) where
  take-IsFair : (cpu : ℕ) → cpu < cpus → s.place cpu ≡ outside → IsFair cpus (take cpu s)
  unfolding take
  take-IsFair cpu lt out =
      let p = arrive s.lock (next s.lock) in
      let grown : holders cpus (put s.place cpu p) ≡ suc (holders cpus s.place) = omega (
        arith,
        holders-put cpus cpu s.place p lt,
        arrive-weight s.lock (next s.lock),
        ap weight out,
      ) in
      let bound = holders-le cpus (put s.place cpu p) in
      let own : owner (xaddl s.lock) ≡ owner s.lock = omega arith in
      let mine : (t : ℕ) → ticket_of p ≡ some t → t ≡ next s.lock =
        λ t q. some_injective (sym q ∙ arrive-ticket s.lock (next s.lock)) in
      let fresh : (j t : ℕ) → j < cpus → ticket_of (s.place j) ≡ some t → t ≢ next s.lock =
        λ j t jlt q e. omega (arith, inv.range j t jlt q, e, inv.handed, grown, bound) in
      record {
        word = omega arith;
        handed = omega (arith, grown, inv.handed, inv.word);
        range = λ i t ilt h. elim (ticket_put s.place cpu p i t h) [
          | inl (e, q) ↦
              let new = mine t q in
              (
                omega (arith, new, inv.word),
                omega (arith, new, inv.word, inv.handed, grown, own, bound),
              )
          | inr (ne, q) ↦
              let (small, near) = inv.range i t ilt q in (small, omega (arith, near, grown, own))
        ];
        unique = λ i j t ilt jlt h k. elim (ticket_put s.place cpu p i t h) [
          | inl (e, q) ↦ elim (ticket_put s.place cpu p j t k) [
            | inl (e', q') ↦ sym e ∙ e'
            | inr (ne, q') ↦ absurd (fresh j t jlt q' (mine t q))
          ]
          | inr (ne, q) ↦ elim (ticket_put s.place cpu p j t k) [
            | inl (e', q') ↦ absurd (fresh i t ilt q (mine t q'))
            | inr (ne', q') ↦ inv.unique i j t ilt jlt q q'
          ]
        ];
        covered = λ d dlt. elim (dec_lt d (holders cpus s.place)) [
          | yes old ↦
              let (i, ilt, e) = inv.covered d old in
              let ne : i ≢ cpu = λ h. cc (e, ap (λ c. ticket_of (s.place c)) h, ap ticket_of out) in
              (i, ilt, rw (own, put_other s.place cpu i p ne) e)
          | no new ↦ (
            cpu,
            lt,
            rw (put_same s.place cpu p) (
                arrive-ticket s.lock (next s.lock)
                ∙ ap some (omega (arith, new, dlt, grown, inv.handed, own))),
          )
        ];
        first = λ i t ilt h. elim (moved s.place cpu p i) [
          | inl (e, q) ↦ arrive-inside s.lock (next s.lock) t (sym q ∙ h) ∙ sym own
          | inr (ne, q) ↦ inv.first i t ilt (sym q ∙ h) ∙ sym own
        ];
      }

  look-IsFair :
      (cpu ticket : ℕ)
      → cpu < cpus
      → s.place cpu ≡ spinning ticket
      → IsFair cpus (look cpu ticket s)
  unfolding look
  look-IsFair cpu ticket lt at =
      let p = arrive s.lock ticket in
      let kept : holders cpus (put s.place cpu p) ≡ holders cpus s.place =
        omega
          (arith, holders-put cpus cpu s.place p lt, arrive-weight s.lock ticket, ap weight at) in
      let same : (i : ℕ) → ticket_of (put s.place cpu p i) ≡ ticket_of (s.place i) = λ i.
        elim (moved s.place cpu p i) [
          | inl (e, q) ↦
              ap ticket_of q
              ∙ arrive-ticket s.lock ticket
              ∙ sym (ap ticket_of at)
              ∙ ap (λ c. ticket_of (s.place c)) e
          | inr (ne, q) ↦ ap ticket_of q
        ] in
      record {
        word = inv.word;
        handed = omega (arith, kept, inv.handed);
        range = λ i t ilt h.
            let (small, near) = inv.range i t ilt (sym (same i) ∙ h) in
            (small, omega (arith, near, kept));
        unique =
            λ i j t ilt jlt h k. inv.unique i j t ilt jlt (sym (same i) ∙ h) (sym (same j) ∙ k);
        covered =
            λ d dlt. let (i, ilt, e) = inv.covered d (omega (arith, kept)) in (i, ilt, same i ∙ e);
        first = λ i t ilt h. elim (moved s.place cpu p i) [
          | inl (e, q) ↦ arrive-inside s.lock ticket t (sym q ∙ h)
          | inr (ne, q) ↦ inv.first i t ilt (sym q ∙ h)
        ];
      }

  unlock-IsFair :
      (cpu ticket : ℕ) → cpu < cpus → s.place cpu ≡ inside ticket → IsFair cpus (spin_unlock cpu s)
  unfolding spin_unlock
  unlock-IsFair cpu ticket lt at =
      let p = outside in
      let shrunk : suc (holders cpus (put s.place cpu p)) ≡ holders cpus s.place =
        omega (arith, holders-put cpus cpu s.place p lt, ap weight at) in
      let bound = holders-le cpus s.place in
      let own : owner (addw s.lock) ≡ (owner s.lock + 1) % 2 ^ 16 = omega (arith, inv.word) in
      let is_first = inv.first cpu ticket lt at in
      let left : (i t : ℕ)
          → i < cpus
          → ticket_of (put s.place cpu p i) ≡ some t
          → (ticket_of (s.place i) ≡ some t) × (t ≢ owner s.lock) =
        λ i t ilt h. elim (ticket_put s.place cpu p i t h) [
          | inl (e, q) ↦ absurd (cc q)
          | inr (ne, q) ↦ (
            q,
            λ e. ne (inv.unique i cpu t ilt lt q (ap ticket_of at ∙ ap some (is_first ∙ sym e))),
          )
        ] in
      record {
        word = omega (arith, inv.word);
        handed = omega (arith, inv.word, inv.handed, shrunk, own);
        range = λ i t ilt h.
            let (q, ne) = left i t ilt h in
            let (small, near) = inv.range i t ilt q in
            (small, omega (arith, near, small, shrunk, own, ne));
        unique =
            λ i j t ilt jlt h k. inv.unique i j t ilt jlt (left i t ilt h).0 (left j t jlt k).0;
        covered = λ d dlt.
            let (i, ilt, e) = inv.covered (suc d) (omega (arith, shrunk)) in
            let ne : i ≢ cpu = λ h.
              let here : (owner s.lock + suc d) % 2 ^ 16 ≡ ticket =
                some_injective (sym e ∙ ap (λ c. ticket_of (s.place c)) h ∙ ap ticket_of at) in
              omega (arith, here, is_first, bound, shrunk, dlt) in
            (i, ilt, rw (put_other s.place cpu i p ne) (e ∙ ap some (omega (arith, own))));
        first = λ i t ilt h. elim (moved s.place cpu p i) [
          | inl (e, q) ↦ absurd (cc (q, h))
          | inr (ne, q) ↦
              let h' = sym q ∙ h in
              absurd ((left i t ilt (ap ticket_of h)).1 (inv.first i t ilt h'))
        ];
      }

unlocked-IsFair : (cpus : ℕ) → IsFair cpus unlocked
unlocked-IsFair cpus = record {
  word = omega arith;
  handed = omega (arith, holders-outside cpus);
  range = λ i t ilt h. absurd (cc h);
  unique = λ i j t ilt jlt h k. absurd (cc h);
  covered = λ d dlt. absurd (omega (arith, holders-outside cpus));
  first = λ i t ilt h. absurd (cc h);
}

Step-IsFair :
    (cpus : ℕ) → cpus ≤ 2 ^ 16 → {s t : System} → Step cpus s t → IsFair cpus s → IsFair cpus t
Step-IsFair cpus few {s} (takes cpu lt out) inv = take-IsFair cpus few s inv cpu lt out
Step-IsFair cpus few {s} (looks cpu ticket lt at) inv = look-IsFair cpus few s inv cpu ticket lt at
Step-IsFair cpus few {s} (unlocks cpu ticket lt at) inv =
    unlock-IsFair cpus few s inv cpu ticket lt at

-- In each state that up to 2^16 CPUs reach, the next ticket is as far ahead of the owner as there are CPUs
-- with a ticket, each ticket in between belongs to exactly one CPU, and a CPU inside has the owner's.
pub Reachable-IsFair : (cpus : ℕ) → cpus ≤ 2 ^ 16 → {s : System} → Reachable cpus s → IsFair cpus s
Reachable-IsFair cpus few at_start = unlocked-IsFair cpus
Reachable-IsFair cpus few (after_step r step) =
    Step-IsFair cpus few step (Reachable-IsFair cpus few r)
