-- ===== src/Base/Digits.antt =====
-- `&` and `|` by binary digits: the equation for the lowest digit, every digit, extensionality.
use Prim.Native.Nat.{
  ℕ, zero, suc, ◌+◌, ◌-◌, ◌*◌, ◌/◌, ◌%◌, ◌^◌, ◌≤◌, ◌<◌, min, max, digits, bitwise, bit_and, bit_or,
  bit_and-bitwise, bit_or-bitwise,
}
use mathlib.Core.Path.{◌≡◌, refl}
use mathlib.Core.Logic.{◌≢◌}
use native.Mathlib.Nat.{pow-suc, one-le-pow}
use native.Mathlib.Omega.{arith}

-- The recursion behind the operations, `bitwise`, has a number as fuel; any that is large enough
-- gives the same value.
module _ (rest : ℕ → ℕ) (op : ℕ → ℕ → ℕ) where
  out_of_digits : (fuel y : ℕ) → digits rest op fuel 0 y ≡ rest y
  out_of_digits zero y = refl
  out_of_digits (suc fuel) y = refl

  enough : (x y k l : ℕ) → x ≤ k → x ≤ l → digits rest op k x y ≡ digits rest op l x y
  enough zero y k l p q = rw (out_of_digits k y, out_of_digits l y) refl
  enough (suc x) y zero l p q = absurd (omega arith)
  enough (suc x) y (suc k) zero p q = absurd (omega arith)
  enough (suc x) y (suc k) (suc l) p q =
      omega (arith, enough (suc x / 2) (y / 2) k l (omega arith) (omega arith))

  lowest_digit :
      (x y : ℕ)
      → bitwise rest op (suc x) y ≡ op (suc x % 2) (y % 2) + 2 * bitwise rest op (suc x / 2) (y / 2)
  lowest_digit x y =
      let half = suc x / 2 in omega (arith, enough half (y / 2) x half (omega arith) (omega arith))

pub bit_and_step : (a b : ℕ) → bit_and a b ≡ min (a % 2) (b % 2) + 2 * bit_and (a / 2) (b / 2)
bit_and_step zero y = omega (arith, bit_and-bitwise 0 y, bit_and-bitwise 0 (y / 2))
bit_and_step (suc x) y =
    rw (bit_and-bitwise (suc x) y, bit_and-bitwise (suc x / 2) (y / 2)) (lowest_digit _ min x y)

pub bit_or_step : (a b : ℕ) → bit_or a b ≡ max (a % 2) (b % 2) + 2 * bit_or (a / 2) (b / 2)
bit_or_step zero y = omega (arith, bit_or-bitwise 0 y, bit_or-bitwise 0 (y / 2))
bit_or_step (suc x) y =
    rw (bit_or-bitwise (suc x) y, bit_or-bitwise (suc x / 2) (y / 2)) (lowest_digit _ max x y)

-- Digit `n` of a number, 0 or 1.
pub digit : ℕ → ℕ → ℕ
digit zero x = x % 2
digit (suc n) x = digit n (x / 2)

pub digit-le_one : (n x : ℕ) → digit n x ≤ 1
unfolding digit
digit-le_one zero x = omega arith
digit-le_one (suc n) x = digit-le_one n (x / 2)

half-bit_and : (a b : ℕ) → bit_and a b / 2 ≡ bit_and (a / 2) (b / 2)
half-bit_and a b = omega (arith, bit_and_step a b)

half-bit_or : (a b : ℕ) → bit_or a b / 2 ≡ bit_or (a / 2) (b / 2)
half-bit_or a b = omega (arith, bit_or_step a b)

pub digit-bit_and : (n a b : ℕ) → digit n (bit_and a b) ≡ min (digit n a) (digit n b)
unfolding digit
digit-bit_and zero a b = omega (arith, bit_and_step a b)
digit-bit_and (suc n) a b = rw (half-bit_and a b) (digit-bit_and n (a / 2) (b / 2))

pub digit-bit_or : (n a b : ℕ) → digit n (bit_or a b) ≡ max (digit n a) (digit n b)
unfolding digit
digit-bit_or zero a b = omega (arith, bit_or_step a b)
digit-bit_or (suc n) a b = rw (half-bit_or a b) (digit-bit_or n (a / 2) (b / 2))

digit_ext_fuel : (k a b : ℕ) → a ≤ k → b ≤ k → ((n : ℕ) → digit n a ≡ digit n b) → a ≡ b
unfolding digit
digit_ext_fuel zero a b p q h = omega arith
digit_ext_fuel (suc k) a b p q h =
    omega
      (arith, h 0, digit_ext_fuel k (a / 2) (b / 2) (omega arith) (omega arith) (λ n. h (suc n)))

-- Numbers with the same digits are equal.
pub digit_ext : (a b : ℕ) → ((n : ℕ) → digit n a ≡ digit n b) → a ≡ b
digit_ext a b h = digit_ext_fuel (a + b) a b (omega arith) (omega arith) h

pub digit-zero : (n : ℕ) → digit n 0 ≡ 0
unfolding digit
digit-zero zero = refl
digit-zero (suc n) = digit-zero n

pub digit_of_lt : (k n x : ℕ) → x < 2 ^ k → k ≤ n → digit n x ≡ 0
unfolding digit
digit_of_lt zero n x h le = let e : x ≡ 0 = omega arith in rw e (digit-zero n)
digit_of_lt (suc k) zero x h le = absurd (omega arith)
digit_of_lt (suc k) (suc n) x h le =
    digit_of_lt k n (x / 2) (omega (arith, pow-suc 2 k)) (omega arith)

-- The digits of the complement at width `w`.
pub digit-complement : (w n x : ℕ) → x < 2 ^ w → n < w → digit n (2 ^ w - 1 - x) + digit n x ≡ 1
unfolding digit
digit-complement zero n x h lt = absurd (omega arith)
digit-complement (suc w) zero x h lt = omega (arith, pow-suc 2 w, one-le-pow w 2 (omega arith))
digit-complement (suc w) (suc n) x h lt =
    let e : (2 ^ suc w - 1 - x) / 2 ≡ 2 ^ w - 1 - x / 2 = omega (arith, pow-suc 2 w) in
    rw e (digit-complement w n (x / 2) (omega (arith, pow-suc 2 w)) (omega arith))

-- A power of two has one digit.
pub digit-pow_self : (k : ℕ) → digit k (2 ^ k) ≡ 1
unfolding digit
digit-pow_self zero = refl
digit-pow_self (suc k) =
    let e : 2 ^ suc k / 2 ≡ 2 ^ k = omega (arith, pow-suc 2 k) in rw e (digit-pow_self k)

pub digit-pow_ne : (n k : ℕ) → n ≢ k → digit n (2 ^ k) ≡ 0
unfolding digit
digit-pow_ne zero zero h = absurd (h refl)
digit-pow_ne zero (suc k) h = omega (arith, pow-suc 2 k)
digit-pow_ne (suc n) zero h = digit-zero n
digit-pow_ne (suc n) (suc k) h =
    let e : 2 ^ suc k / 2 ≡ 2 ^ k = omega (arith, pow-suc 2 k) in
    rw e (digit-pow_ne n k (omega arith))
