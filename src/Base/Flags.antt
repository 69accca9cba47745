-- ===== src/Base/Flags.antt =====
-- A test `x & mask` of C, in terms of the bits of `x`.
use Prim.Native.Nat.{ℕ, ◌*◌, ◌/◌, ◌%◌, ◌^◌, ◌≤◌, bit_and, bit_or, zero, suc}
use mathlib.Core.Path.{◌≡◌, refl, sym, ap, ◌∙◌}
use mathlib.Core.Logic.{◌≢◌, inl, inr}
use mathlib.Core.Bool.{Bool, true, false, not, ◌&&◌}
use native.Mathlib.Nat.{suc-mul, one-le-pow}
use native.Mathlib.Omega.{arith}
use spy.Base.Tests.{◌==◌, ==_iff, ==_ne, ==_self, Bool-cases}
use spy.Base.Word.{low_mask, has}
use spy.Base.Bits.{bit_and_field, bit_and_assoc, bit_and_comm, bit_and-bit_or}

product_zero : (f p : ℕ) → 1 ≤ p → f * p ≡ 0 → f ≡ 0
product_zero zero p one e = refl
product_zero (suc f) p one e = absurd (omega (arith, suc-mul f p))

-- A mask of `k` bits from bit `s` on.
pub has_none : (s k x : ℕ) → has x (low_mask k * 2 ^ s) ≡ false → x / 2 ^ s % 2 ^ k ≡ 0
has_none s k x h =
    let h' : not ((x / 2 ^ s % 2 ^ k * 2 ^ s) == 0) ≡ false = rw (bit_and_field s k x) at h in
    product_zero (x / 2 ^ s % 2 ^ k) (2 ^ s) (one-le-pow s 2 (omega arith)) (ground arith)

pub has_some : (s k x : ℕ) → has x (low_mask k * 2 ^ s) ≡ true → x / 2 ^ s % 2 ^ k ≢ 0
has_some s k x h z =
    let h' : not ((0 * 2 ^ s) == 0) ≡ true = rw (bit_and_field s k x, z) at h in
    absurd (ground arith)

-- Bit `k`.
pub has_bit : (k x : ℕ) → has x (2 ^ k) ≡ true → x / 2 ^ k % 2 ≡ 1
has_bit k x h =
    let m : low_mask 1 * 2 ^ k ≡ 2 ^ k = omega arith in
    let z = has_some k 1 x (rw m h) in omega arith

pub lacks_bit : (k x : ℕ) → has x (2 ^ k) ≡ false → x / 2 ^ k % 2 ≡ 0
lacks_bit k x h =
    let m : low_mask 1 * 2 ^ k ≡ 2 ^ k = omega arith in
    let z = has_none k 1 x (rw m h) in omega arith

pub none_has : (s k x : ℕ) → x / 2 ^ s % 2 ^ k ≡ 0 → has x (low_mask k * 2 ^ s) ≡ false
none_has s k x z = let e : 0 * 2 ^ s ≡ 0 = omega arith in rw (bit_and_field s k x, z, e) refl

pub some_has : (s k x : ℕ) → x / 2 ^ s % 2 ^ k ≢ 0 → has x (low_mask k * 2 ^ s) ≡ true
some_has s k x h = elim (Bool-cases (has x (low_mask k * 2 ^ s))) [
  | inl e ↦ e
  | inr e ↦ absurd (h (has_none s k x e))
]

pub bit_has : (k x : ℕ) → x / 2 ^ k % 2 ≡ 1 → has x (2 ^ k) ≡ true
bit_has k x one = elim (Bool-cases (has x (2 ^ k))) [
  | inl e ↦ e
  | inr e ↦ absurd (omega (arith, lacks_bit k x e))
]

bit_whole : (k x : ℕ) → x / 2 ^ k % 2 ≡ 1 → bit_and (2 ^ k) x ≡ 2 ^ k
bit_whole k x one =
    let m : low_mask 1 * 2 ^ k ≡ 2 ^ k = omega arith in
    bit_and_comm (2 ^ k) x ∙ ap (λ (t : ℕ). bit_and x t) (sym m) ∙ bit_and_field k 1 x ∙ rw one m

-- A mask of three bits.
pub all_has :
    (k l m x : ℕ)
    → x / 2 ^ k % 2 ≡ 1
    → x / 2 ^ l % 2 ≡ 1
    → x / 2 ^ m % 2 ≡ 1
    → (bit_and x (bit_or (bit_or (2 ^ k) (2 ^ l)) (2 ^ m))
        == bit_or (bit_or (2 ^ k) (2 ^ l)) (2 ^ m))
      ≡ true
all_has k l m x a b c =
    rw
      (
        bit_and_comm x (bit_or (bit_or (2 ^ k) (2 ^ l)) (2 ^ m)),
        bit_and-bit_or (bit_or (2 ^ k) (2 ^ l)) (2 ^ m) x,
        bit_and-bit_or (2 ^ k) (2 ^ l) x,
        bit_whole k x a,
        bit_whole l x b,
        bit_whole m x c,
      )
      (==_self (bit_or (bit_or (2 ^ k) (2 ^ l)) (2 ^ m)))

-- A bit of a mask that `x` has whole.
pub has_all :
    (k x m : ℕ) → bit_and m (2 ^ k) ≡ 2 ^ k → (bit_and x m == m) ≡ true → x / 2 ^ k % 2 ≡ 1
has_all k x m in_mask h =
    let e : bit_and x m ≡ m = (==_iff (bit_and x m) m).0 h in
    let one : bit_and x (2 ^ k) ≡ 2 ^ k =
      rw (← in_mask) (rw (← bit_and_assoc x m (2 ^ k), e) refl) in
    let some = one-le-pow k 2 (omega arith) in
    let flag : has x (2 ^ k) ≡ true = rw (one, ==_ne (2 ^ k) 0 (λ z. absurd (omega arith))) refl in
    has_bit k x flag

pub both : (a b : Bool) → a && b ≡ true → (a ≡ true) × (b ≡ true)
both a b h = ground arith
