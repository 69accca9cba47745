-- ===== src/Base/Word.antt =====
-- Machine words: casts to the fixed widths, shifts, the complement and the masks of bitops.h.
use Prim.Native.Nat.{ℕ, ◌+◌, ◌-◌, ◌*◌, ◌/◌, ◌%◌, ◌^◌, bit_and}
use mathlib.Core.Bool.{Bool, not}
use spy.Base.Tests.{◌==◌}

abbrev pub u8 : ℕ → ℕ
u8 n = n % 2 ^ 8

abbrev pub u16 : ℕ → ℕ
u16 n = n % 2 ^ 16

abbrev pub u32 : ℕ → ℕ
u32 n = n % 2 ^ 32

abbrev pub u64 : ℕ → ℕ
u64 n = n % 2 ^ 64

abbrev pub low_mask : ℕ → ℕ
low_mask k = 2 ^ k - 1

infixl 75 ◌<<<◌ ◌>>>◌
abbrev pub ◌<<<◌ : ℕ → ℕ → ℕ
x <<< k = x * 2 ^ k

abbrev pub ◌>>>◌ : ℕ → ℕ → ℕ
x >>> k = x / 2 ^ k

-- `~x` at 64 and at 32 bits, of a value that fits.
abbrev pub not64 : ℕ → ℕ
not64 x = 2 ^ 64 - 1 - x

abbrev pub not32 : ℕ → ℕ
not32 x = 2 ^ 32 - 1 - x

-- `BIT_MASK(last, first)`
abbrev pub bit_mask : ℕ → ℕ → ℕ
bit_mask last first = u64 ((0xffffffffffffffff / 2 ^ (64 - (last + 1 - first))) * 2 ^ first)

-- `x & m` as a condition of C
abbrev pub has : ℕ → ℕ → Bool
has x m = not (bit_and x m == 0)
