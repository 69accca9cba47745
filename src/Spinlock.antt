-- ===== src/Spinlock.antt =====
-- hypervisor/arch/x86/include/asm/spinlock.h, the ticket lock, taken and released by the CPUs of a
-- machine in any order.
pub mod Count
pub mod Invariant
pub mod Safety
mod Tests
use spy.Base.{ℕ, ◌+◌, ◌*◌, ◌/◌, ◌%◌, ◌^◌, ◌<◌, ◌≡◌, Bool, if◌then◌else◌, ◌==◌, u16, u32}
use spy.Base.Store.{put}

-- `spinlock_t` as the 32-bit word that `xaddl` adds to: `owner` is the lower half, `next` the upper.
abbrev pub owner : ℕ → ℕ
owner word = word % 2 ^ 16

abbrev pub next : ℕ → ℕ
next word = word / 2 ^ 16

-- `inc` as a word, and the lock after `xaddl` and after `addw`.
abbrev pub inc : ℕ
inc = 1 * 2 ^ 16

abbrev pub xaddl : ℕ → ℕ
xaddl word = u32 (word + inc)

abbrev pub addw : ℕ → ℕ
addw word = next word * 2 ^ 16 + u16 (owner word + 1)

-- Where a CPU stands: outside, in the loop of `spin_lock` with its ticket `inc.next`, or inside.
pub data Place : Type 0 where
  outside : Place
  spinning : ℕ → Place
  inside : ℕ → Place

pub record System : Type 0 where
  pub lock : ℕ
  pub place : ℕ → Place

-- Where a CPU with a ticket stands once it has compared it to the owner.
unfoldable pub arrive : ℕ → ℕ → Place
arrive word ticket = if owner word == ticket then inside ticket else spinning ticket

-- `spin_lock` up to its loop: the word before the addition is the new `inc`.
unfoldable pub take : ℕ → System → System
unfolding put arrive
take cpu s = record { lock = xaddl s.lock; place = put s.place cpu (arrive s.lock (next s.lock)) }

-- One round of the loop.
unfoldable pub look : ℕ → ℕ → System → System
unfolding put arrive
look cpu ticket s = record s { place = put s.place cpu (arrive s.lock ticket) }

unfoldable pub spin_unlock : ℕ → System → System
unfolding put
spin_unlock cpu s = record { lock = addw s.lock; place = put s.place cpu outside }

-- One of `cpus` CPUs moves.
pub data Step (cpus : ℕ) (s : System) : System → Type 0 where
  takes : (cpu : ℕ) → cpu < cpus → s.place cpu ≡ outside → Step cpus s (take cpu s)
  looks :
      (cpu ticket : ℕ)
      → cpu < cpus
      → s.place cpu ≡ spinning ticket
      → Step cpus s (look cpu ticket s)
  unlocks :
      (cpu ticket : ℕ) → cpu < cpus → s.place cpu ≡ inside ticket → Step cpus s (spin_unlock cpu s)

abbrev pub unlocked : System
unlocked = record { lock = 0; place = λ cpu. outside }

pub data Reachable (cpus : ℕ) : System → Type 0 where
  at_start : Reachable cpus unlocked
  after_step : {s t : System} → Reachable cpus s → Step cpus s t → Reachable cpus t
