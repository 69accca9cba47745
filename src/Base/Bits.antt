-- ===== src/Base/Bits.antt =====
-- The laws of `&`, `|` and the complement on machine words, and `&` with a field mask as arithmetic.
use Prim.Native.Nat.{ℕ, zero, suc, ◌+◌, ◌*◌, ◌/◌, ◌%◌, ◌^◌, ◌≤◌, ◌<◌, bit_and, bit_or}
use mathlib.Core.Path.{◌≡◌, refl, ap, ◌∙◌}
use native.Mathlib.Nat.{
  pow-suc, one-le-pow, mod-lt, mod-eq_of_lt, div-add-mod, add-mul-mod_self_left, div-one,
  div-div-eq-div-mul, mul_comm, mul-div_left,
}
use native.Mathlib.Omega.{arith}
use spy.Base.Word.{low_mask}
use spy.Base.Digits.{bit_or_step, bit_and_step, digit-bit_and, digit-bit_or, digit_ext, digit-zero}

pub bit_and_comm : (a b : ℕ) → bit_and a b ≡ bit_and b a
bit_and_comm a b = digit_ext _ _ (λ n. omega (arith, digit-bit_and n a b, digit-bit_and n b a))

pub bit_or_comm : (a b : ℕ) → bit_or a b ≡ bit_or b a
bit_or_comm a b = digit_ext _ _ (λ n. omega (arith, digit-bit_or n a b, digit-bit_or n b a))

pub bit_and_assoc : (a b c : ℕ) → bit_and (bit_and a b) c ≡ bit_and a (bit_and b c)
bit_and_assoc a b c = digit_ext _ _ (λ n. omega (
  arith,
  digit-bit_and n a b,
  digit-bit_and n b c,
  digit-bit_and n (bit_and a b) c,
  digit-bit_and n a (bit_and b c),
))

pub bit_or_assoc : (a b c : ℕ) → bit_or (bit_or a b) c ≡ bit_or a (bit_or b c)
bit_or_assoc a b c = digit_ext _ _ (λ n. omega (
  arith,
  digit-bit_or n a b,
  digit-bit_or n b c,
  digit-bit_or n (bit_or a b) c,
  digit-bit_or n a (bit_or b c),
))

pub bit_and-bit_or : (a b c : ℕ) → bit_and (bit_or a b) c ≡ bit_or (bit_and a c) (bit_and b c)
bit_and-bit_or a b c = digit_ext _ _ (λ n. omega (
  arith,
  digit-bit_or n a b,
  digit-bit_and n a c,
  digit-bit_and n b c,
  digit-bit_and n (bit_or a b) c,
  digit-bit_or n (bit_and a c) (bit_and b c),
))

pub bit_and_self : (a : ℕ) → bit_and a a ≡ a
bit_and_self a = digit_ext _ _ (λ n. omega (arith, digit-bit_and n a a))

bit_or_self : (a : ℕ) → bit_or a a ≡ a
bit_or_self a = digit_ext _ _ (λ n. omega (arith, digit-bit_or n a a))

-- What was set by `|` is found by `&`.
pub bit_and-bit_or_self : (a b : ℕ) → bit_and (bit_or a b) b ≡ b
bit_and-bit_or_self a b =
    digit_ext _ _ (λ n. omega (arith, digit-bit_or n a b, digit-bit_and n (bit_or a b) b))

-- What `&` keeps of a number adds nothing to the mask.
pub bit_or-bit_and_self : (a f : ℕ) → bit_or a (bit_and f a) ≡ a
bit_or-bit_and_self a f =
    digit_ext _ _ (λ n. omega (arith, digit-bit_and n f a, digit-bit_or n a (bit_and f a)))

pub bit_and-zero : (a : ℕ) → bit_and a 0 ≡ 0
bit_and-zero a = digit_ext _ _ (λ n. omega (arith, digit-bit_and n a 0, digit-zero n))

pub bit_or-zero : (a : ℕ) → bit_or a 0 ≡ a
bit_or-zero a = digit_ext _ _ (λ n. omega (arith, digit-bit_or n a 0, digit-zero n))

pub zero-bit_or : (a : ℕ) → bit_or 0 a ≡ a
zero-bit_or a = digit_ext _ _ (λ n. omega (arith, digit-bit_or n 0 a, digit-zero n))

bit_and-le_right : (a b : ℕ) → bit_and a b ≤ b
bit_and-le_right a b = le_fuel (a + b) a b (omega arith)
  where
    le_fuel : (k a b : ℕ) → a + b ≤ k → bit_and a b ≤ b
    le_fuel zero a b h = let e : b ≡ 0 = omega arith in rw e (omega (arith, bit_and-zero a))
    le_fuel (suc k) zero b h = omega (arith, bit_and_comm 0 b, bit_and-zero b)
    le_fuel (suc k) (suc a) b h =
        omega (arith, bit_and_step (suc a) b, le_fuel k (suc a / 2) (b / 2) (omega arith))

pub bit_or_lt : (k a b : ℕ) → a < 2 ^ k → b < 2 ^ k → bit_or a b < 2 ^ k
bit_or_lt zero a b la lb =
    let e : a ≡ 0 = omega arith in let e' : b ≡ 0 = omega arith in rw (e, e') (omega arith)
bit_or_lt (suc k) a b la lb =
    let ih =
      bit_or_lt k (a / 2) (b / 2) (omega (arith, pow-suc 2 k)) (omega (arith, pow-suc 2 k)) in
    omega (arith, bit_or_step a b, ih, pow-suc 2 k)

double_shift : (x s : ℕ) → x * 2 ^ suc s ≡ 2 * (x * 2 ^ s)
double_shift x s = omega (arith, ap (λ (t : ℕ). x * t) (pow-suc 2 s))

-- A number joined by `|` to a lower field is their sum.
pub bit_or_fields : (s hi lo : ℕ) → lo < 2 ^ s → bit_or (hi * 2 ^ s) lo ≡ hi * 2 ^ s + lo
bit_or_fields zero hi lo below =
    let e : lo ≡ 0 = omega arith in rw e (omega (arith, bit_or-zero (hi * 2 ^ 0)))
bit_or_fields (suc s) hi lo below =
    let fits : lo / 2 < 2 ^ s = omega (arith, pow-suc 2 s) in
    let halves = bit_or_fields s hi (lo / 2) fits in
    let half : 2 * (hi * 2 ^ s) / 2 ≡ hi * 2 ^ s = omega arith in
    let step = bit_or_step (2 * (hi * 2 ^ s)) lo in
    rw (double_shift hi s) (omega (arith, rw (half, halves) at step))

mod_double : (x n : ℕ) → 1 ≤ n → x % (2 * n) ≡ x % 2 + 2 * (x / 2 % n)
mod_double x n some =
    let r = x / 2 % n in
    let q = x / 2 / n in
    let below : r < n = mod-lt (x / 2) some in
    let e : x ≡ (x % 2 + 2 * r) + (2 * n) * q = grind (arith, div-add-mod (x / 2) n) in
    ap (λ (y : ℕ). y % (2 * n)) e
    ∙ add-mul-mod_self_left (x % 2 + 2 * r) (2 * n) q
    ∙ mod-eq_of_lt (omega (arith, below))

-- A mask of `k` low bits is the remainder by `2 ^ k`.
pub bit_and_mask : (k x : ℕ) → bit_and x (low_mask k) ≡ x % 2 ^ k
bit_and_mask zero x = rw (bit_and-zero x) (omega arith)
bit_and_mask (suc k) x =
    let some : 1 ≤ 2 ^ k = one-le-pow k 2 (omega arith) in
    let half : low_mask (suc k) / 2 ≡ low_mask k = omega (arith, pow-suc 2 k) in
    let odd : low_mask (suc k) % 2 ≡ 1 = omega (arith, pow-suc 2 k) in
    rw
      (
        bit_and_step,
        half,
        odd,
        bit_and_mask k (x / 2),
        pow-suc 2 k,
        mul_comm (2 ^ k) 2,
        mod_double x (2 ^ k) some,
      )
      (omega arith)

-- A mask of `k` bits from bit `s` on.
pub bit_and_field : (s k a : ℕ) → bit_and a (low_mask k * 2 ^ s) ≡ a / 2 ^ s % 2 ^ k * 2 ^ s
bit_and_field zero k a =
    let e : low_mask k * 2 ^ 0 ≡ low_mask k = omega arith in
    rw e (omega (arith, bit_and_mask k a, ap (λ (t : ℕ). t % 2 ^ k) (div-one a)))
bit_and_field (suc s) k a =
    let m = low_mask k in
    let even : m * 2 ^ suc s / 2 ≡ m * 2 ^ s = omega (arith, double_shift m s) in
    let low : m * 2 ^ suc s % 2 ≡ 0 = omega (arith, double_shift m s) in
    let half : a / 2 ^ suc s ≡ a / 2 / 2 ^ s = rw (div-div-eq-div-mul, pow-suc, mul_comm) refl in
    let q = a / 2 / 2 ^ s % 2 ^ k in
    rw (bit_and_step, even, low, half, bit_and_field s k (a / 2)) (omega (arith, double_shift q s))

-- A field is below the end of its mask and a multiple of its start.
bit_and_field_div : (s k a : ℕ) → bit_and a (low_mask k * 2 ^ s) / 2 ^ s ≡ a / 2 ^ s % 2 ^ k
bit_and_field_div s k a = rw (bit_and_field s k a) (mul-div_left _ (one-le-pow s 2 (omega arith)))

-- Fields that do not meet.
pub mask_or_self : (x f m : ℕ) → bit_and f m ≡ 0 → bit_and (bit_or (bit_and x m) f) m ≡ bit_and x m
mask_or_self x f m h =
    rw (bit_and-bit_or (bit_and x m) f m, bit_and_assoc x m m, bit_and_self m, h, bit_or-zero) refl
