-- ===== src/Spinlock/Safety.antt =====
-- What the ticket lock promises: one CPU inside at a time, and that a CPU that waits gets its turn.
use spy.Base.{
  ℕ, ◌+◌, ◌-◌, ◌%◌, ◌^◌, ◌<◌, ◌≤◌, ◌≡◌, ◌≢◌, ◌⊎◌, inl, inr, refl, sym, ap, ◌∙◌, arith, some,
  ==_self,
}
use spy.Base.Store.{put_same}
use spy.Spinlock.{
  Place, outside, spinning, inside, System, owner, addw, arrive, look, spin_unlock, Reachable,
}
use spy.Spinlock.Count.{ticket_of, weight, holders, holders-le, holders-some}
use spy.Spinlock.Invariant.{Reachable-IsFair}

-- How many unlocks lie before the turn of a ticket.
abbrev pub ahead : System → ℕ → ℕ
ahead s ticket = (ticket + 2 ^ 16 - owner s.lock) % 2 ^ 16

with_ticket : (p : Place) (t : ℕ) → ticket_of p ≡ some t → (p ≡ inside t) ⊎ (p ≡ spinning t)
with_ticket outside t h = absurd (cc h)
with_ticket (spinning u) t h = inr (ap spinning (cc h))
with_ticket (inside u) t h = inl (ap inside (cc h))

enters : (word : ℕ) → arrive word (owner word) ≡ inside (owner word)
unfolding arrive
enters word = rw (==_self (owner word)) refl

module _ (cpus : ℕ) (few : cpus ≤ 2 ^ 16) {s : System} (reachable : Reachable cpus s) where
  -- Where up to 2^16 CPUs use the lock in any order, no CPU is inside while another one is.
  pub mutual_exclusion :
      (i j : ℕ) {t u : ℕ}
      → i < cpus
      → j < cpus
      → i ≢ j
      → s.place i ≡ inside t
      → s.place j ≢ inside u
  mutual_exclusion i j {t} {u} ilt jlt ne p q =
      let inv = Reachable-IsFair cpus few reachable in
      let same : u ≡ t = omega (arith, inv.first i t ilt p, inv.first j u jlt q) in
      ne (inv.unique i j t ilt jlt (ap ticket_of p) (ap ticket_of q ∙ ap some same))

  -- While a CPU waits, some CPU has the ticket of the owner: it is inside, or it waits too and the next
  -- time that it looks it is inside.
  pub next_in_line :
      (i : ℕ) {t : ℕ}
      → i < cpus
      → s.place i ≡ spinning t
      → (j : ℕ) × (j < cpus)
        × ((s.place j ≡ inside (owner s.lock))
            ⊎ ((s.place j ≡ spinning (owner s.lock))
                × ((look j (owner s.lock) s).place j ≡ inside (owner s.lock))))
  unfolding look
  next_in_line i {t} ilt p =
      let inv = Reachable-IsFair cpus few reachable in
      let some_wait : 0 < holders cpus s.place =
        omega (arith, holders-some cpus i s.place ilt, ap weight p) in
      let (j, jlt, e) = inv.covered 0 some_wait in
      let e' : ticket_of (s.place j) ≡ some (owner s.lock) = e ∙ ap some (omega arith) in
      (
        j,
        jlt,
        elim (with_ticket (s.place j) (owner s.lock) e') [
          | inl in_it ↦ inl in_it
          | inr waits ↦
              inr (waits, put_same s.place j (arrive s.lock (owner s.lock)) ∙ enters s.lock)
        ],
      )

  -- While a CPU waits and another is inside, the first waits for fewer unlocks than there are CPUs, and the
  -- unlock of the other makes them one less.
  pub waiting-bounded :
      (i j : ℕ) {t u : ℕ}
      → i < cpus
      → j < cpus
      → s.place i ≡ spinning t
      → s.place j ≡ inside u
      → (ahead s t < cpus) × (ahead (spin_unlock j s) t + 1 ≡ ahead s t)
  unfolding spin_unlock
  waiting-bounded i j {t} {u} ilt jlt p q =
      let inv = Reachable-IsFair cpus few reachable in
      let (small, near) = inv.range i t ilt (ap ticket_of p) in
      let bound = holders-le cpus s.place in
      let own : owner (addw s.lock) ≡ (owner s.lock + 1) % 2 ^ 16 = omega (arith, inv.word) in
      let others : t ≢ owner s.lock = λ e.
        let same : ticket_of (s.place j) ≡ some t =
          ap ticket_of q ∙ ap some (inv.first j u jlt q ∙ sym e) in
        let one : i ≡ j = inv.unique i j t ilt jlt (ap ticket_of p) same in
        cc (p, q, ap s.place one) in
      (omega (arith, near, bound), omega (arith, near, small, own, others))
