-- ===== src/Spinlock/Tests.antt =====
-- Two CPUs and one lock.
use spy.Base.{ℕ, ◌+◌, ◌<◌, ◌≡◌, ◌≢◌, ◌⊎◌, refl, arith}
use spy.Spinlock.{
  spinning, inside, System, owner, take, look, spin_unlock, takes, unlocked, Reachable, at_start,
  after_step,
}
use spy.Spinlock.Invariant.{IsFair, Reachable-IsFair}
use spy.Spinlock.Safety.{ahead, mutual_exclusion, next_in_line, waiting-bounded}

-- CPU 1 is inside and CPU 0 waits for it.
abbrev contended : System
contended = take 0 (take 1 unlocked)

one_inside : contended.place 1 ≡ inside 0
unfolding take
one_inside = refl

zero_waits : contended.place 0 ≡ spinning 1
unfolding take
zero_waits = refl

contended-Reachable : Reachable 2 contended
unfolding take
contended-Reachable =
    after_step (after_step at_start (takes 1 (omega arith) refl)) (takes 0 (omega arith) refl)

-- CPU 1 leaves and CPU 0 looks again.
handed_over : (look 0 1 (spin_unlock 1 contended)).place 0 ≡ inside 1
unfolding take look spin_unlock
handed_over = refl

Reachable-IsFair_example : IsFair 2 contended
Reachable-IsFair_example = Reachable-IsFair 2 (omega arith) contended-Reachable

mutual_exclusion_example : contended.place 0 ≢ inside 1
mutual_exclusion_example =
    mutual_exclusion 2 (omega arith) contended-Reachable 1 0 (omega arith) (omega arith)
      (omega arith) one_inside

next_in_line_example :
    (j : ℕ) × (j < 2)
    × ((contended.place j ≡ inside (owner contended.lock))
        ⊎ ((contended.place j ≡ spinning (owner contended.lock))
            × ((look j (owner contended.lock) contended).place j ≡ inside (owner contended.lock))))
next_in_line_example = next_in_line 2 (omega arith) contended-Reachable 0 (omega arith) zero_waits

waiting-bounded_example :
    (ahead contended 1 < 2) × (ahead (spin_unlock 1 contended) 1 + 1 ≡ ahead contended 1)
waiting-bounded_example =
    waiting-bounded 2 (omega arith) contended-Reachable 0 1 (omega arith) (omega arith) zero_waits
      one_inside
