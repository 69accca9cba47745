-- ===== src/Spinlock/Count.antt =====
-- How many CPUs have a ticket, and how that changes as one CPU moves.
use spy.Base.{ℕ, zero, suc, ◌+◌, ◌<◌, ◌≤◌, ◌≡◌, refl, arith, Option, none, some, ℕ_discrete}
use spy.Base.Store.{put, put_same, put_other}
use spy.Spinlock.{Place, outside, spinning, inside}

abbrev pub ticket_of : Place → Option ℕ
ticket_of outside = none
ticket_of (spinning t) = some t
ticket_of (inside t) = some t

abbrev pub weight : Place → ℕ
weight outside = 0
weight (spinning t) = 1
weight (inside t) = 1

unfoldable pub holders : ℕ → (ℕ → Place) → ℕ
holders zero place = 0
holders (suc n) place = holders n place + weight (place n)

weight-le_one : (p : Place) → weight p ≤ 1
weight-le_one outside = omega arith
weight-le_one (spinning t) = omega arith
weight-le_one (inside t) = omega arith

pub holders-le : (n : ℕ) (place : ℕ → Place) → holders n place ≤ n
unfolding holders
holders-le zero place = omega arith
holders-le (suc n) place = omega (arith, holders-le n place, weight-le_one (place n))

pub holders-outside : (n : ℕ) → holders n (λ cpu. outside) ≡ 0
unfolding holders
holders-outside zero = refl
holders-outside (suc n) = omega (arith, holders-outside n)

holders-beyond :
    (n cpu : ℕ) (place : ℕ → Place) (p : Place)
    → n ≤ cpu
    → holders n (put place cpu p) ≡ holders n place
unfolding holders
holders-beyond zero cpu place p le = refl
holders-beyond (suc n) cpu place p le =
    rw (put_other place cpu n p (λ e. omega (arith, e)))
      (omega (arith, holders-beyond n cpu place p (omega arith)))

-- The holders after a move differs by what the one CPU weighs before and after.
pub holders-put :
    (n cpu : ℕ) (place : ℕ → Place) (p : Place)
    → cpu < n
    → holders n (put place cpu p) + weight (place cpu) ≡ holders n place + weight p
unfolding holders
holders-put zero cpu place p lt = absurd (omega arith)
holders-put (suc n) cpu place p lt = elim (ℕ_discrete n cpu) [
  | yes e ↦ rw (← e, put_same place n p) (omega (arith, holders-beyond n n place p (omega arith)))
  | no ne ↦ rw (put_other place cpu n p ne) (omega (arith, holders-put n cpu place p (omega arith)))
]

-- A CPU with a ticket is counted.
pub holders-some : (n cpu : ℕ) (place : ℕ → Place) → cpu < n → weight (place cpu) ≤ holders n place
holders-some n cpu place lt = omega (arith, holders-put n cpu place outside lt)
