-- ===== src/Bitops/Laws.antt =====
-- What the operations of bitops.h do to each bit.
use spy.Base.{
  ℕ, zero, suc, ◌+◌, ◌-◌, ◌*◌, ◌/◌, ◌%◌, ◌^◌, ◌<◌, ◌≤◌, ◌≡◌, ◌≢◌, refl, sym, arith, List, get_or,
  length, length-set, get_or-set_self, get_or-set_ne, bit_and, bit_or, ◌<<<◌, not64, digit,
  digit-bit_and, digit-bit_or, digit-complement, digit-pow_self, digit-pow_ne, digit-le_one,
  ℕ_discrete, min, max,
}
use native.Mathlib.Nat.{pow-le-pow_right, pow-suc}
use spy.Bitops.{set_bit, clear_bit, or_byte, clear_byte}

-- Bit `j` of the array, 0 or 1.
unfoldable pub bit : List ℕ → ℕ → ℕ
bit addr j = digit (j % 64) (get_or addr (j / 64) 0)

-- Two bits of one word differ in their place in it.
same_place : (i j : ℕ) → i / 64 ≡ j / 64 → i % 64 ≡ j % 64 → i ≡ j
same_place i j p q = omega arith

small_power : (k : ℕ) → k < 64 → 2 ^ k < 2 ^ 64
small_power k lt =
    let le : 2 ^ k ≤ 2 ^ 63 = pow-le-pow_right (omega arith) {i = k} {j = 63} (omega arith) in
    omega (arith, le)

-- The words of the mask: bit `k` of a word under `|` and under `& ~`.
or_digit : (w k n : ℕ) → digit n (bit_or w (1 <<< k)) ≡ max (digit n w) (digit n (2 ^ k))
or_digit w k n = let e : 1 <<< k ≡ 2 ^ k = omega arith in rw (digit-bit_or n w (1 <<< k), e) refl

clear_digit :
    (w k n : ℕ)
    → k < 64
    → n < 64
    → digit n (bit_and w (not64 (1 <<< k))) ≡ min (digit n w) (1 - digit n (2 ^ k))
clear_digit w k n lt lt' =
    let e : 1 <<< k ≡ 2 ^ k = omega arith in
    let c = digit-complement 64 n (2 ^ k) (small_power k lt) lt' in
    let flipped : digit n (not64 (2 ^ k)) ≡ 1 - digit n (2 ^ k) = omega (arith, c) in
    rw (digit-bit_and n w (not64 (1 <<< k)), e, flipped) refl

module _ (addr : List ℕ) (i : ℕ) (room : i / 64 < length addr) where
  pub bit-set_bit_self : bit (set_bit i addr) i ≡ 1
  unfolding bit set_bit
  bit-set_bit_self =
      let k = i % 64 in
      let w = get_or addr (i / 64) 0 in
      rw (get_or-set_self addr (i / 64) (bit_or w (1 <<< k)) 0 room, or_digit w k k)
        (omega (arith, digit-pow_self k, digit-le_one k w))

  pub bit-clear_bit_self : bit (clear_bit i addr) i ≡ 0
  unfolding bit clear_bit
  bit-clear_bit_self =
      let k = i % 64 in
      let w = get_or addr (i / 64) 0 in
      rw
        (
          get_or-set_self addr (i / 64) (bit_and w (not64 (1 <<< k))) 0 room,
          clear_digit w k k (omega arith) (omega arith),
        )
        (omega (arith, digit-pow_self k))

  pub bit-set_bit_ne : (j : ℕ) → i ≢ j → bit (set_bit i addr) j ≡ bit addr j
  unfolding bit set_bit
  bit-set_bit_ne j ne =
      let k = i % 64 in
      let w = get_or addr (i / 64) 0 in
      elim (ℕ_discrete (i / 64) (j / 64)) [
        | yes e ↦
            let apart : k ≢ j % 64 = λ p. ne (same_place i j e p) in
            rw
              (
                ← e,
                get_or-set_self addr (i / 64) (bit_or w (1 <<< k)) 0 room,
                or_digit w k (j % 64),
                digit-pow_ne (j % 64) k (λ p. apart (sym p)),
              )
              (omega arith)
        | no ne' ↦ rw (get_or-set_ne addr (i / 64) (j / 64) (bit_or w (1 <<< k)) 0 ne') refl
      ]

  pub bit-clear_bit_ne : (j : ℕ) → i ≢ j → bit (clear_bit i addr) j ≡ bit addr j
  unfolding bit clear_bit
  bit-clear_bit_ne j ne =
      let k = i % 64 in
      let w = get_or addr (i / 64) 0 in
      let w' = bit_and w (not64 (1 <<< k)) in
      elim (ℕ_discrete (i / 64) (j / 64)) [
        | yes e ↦
            let apart : k ≢ j % 64 = λ p. ne (same_place i j e p) in
            rw
              (
                ← e,
                get_or-set_self addr (i / 64) w' 0 room,
                clear_digit w k (j % 64) (omega arith) (omega arith),
                digit-pow_ne (j % 64) k (λ p. apart (sym p)),
              )
              (omega (arith, digit-le_one (j % 64) w))
        | no ne' ↦ rw (get_or-set_ne addr (i / 64) (j / 64) w' 0 ne') refl
      ]

-- The array keeps its length.
pub length-set_bit : (nr : ℕ) (addr : List ℕ) → length (set_bit nr addr) ≡ length addr
unfolding set_bit
length-set_bit nr addr = length-set addr _ _

pub length-clear_bit : (nr : ℕ) (addr : List ℕ) → length (clear_bit nr addr) ≡ length addr
unfolding clear_bit
length-clear_bit nr addr = length-set addr _ _

shift_twice : (k l : ℕ) → (1 <<< k) <<< l ≡ 1 <<< (k + l)
shift_twice k zero = let e : k + 0 ≡ k = omega arith in rw e (omega arith)
shift_twice k (suc l) =
    let e : k + suc l ≡ suc (k + l) = omega arith in
    rw (e, pow-suc 2 (k + l), pow-suc 2 l) (grind (arith, shift_twice k l))

-- A single bit set or cleared through the bytes is that bit of the words.
byte_place : (nr : ℕ) → (1 <<< (nr % 8)) <<< (nr / 8 % 8 * 8) ≡ 1 <<< (nr % 64)
byte_place nr =
    let e : nr % 8 + nr / 8 % 8 * 8 ≡ nr % 64 = omega arith in
    rw (← e) (shift_twice (nr % 8) (nr / 8 % 8 * 8))

pub or_byte-set_bit :
    (nr : ℕ) (addr : List ℕ) → or_byte (nr / 8) (1 <<< (nr % 8)) addr ≡ set_bit nr addr
unfolding or_byte set_bit
or_byte-set_bit nr addr = let e : nr / 8 / 8 ≡ nr / 64 = omega arith in rw (byte_place nr, e) refl

pub clear_byte-clear_bit :
    (nr : ℕ) (addr : List ℕ) → clear_byte (nr / 8) (1 <<< (nr % 8)) addr ≡ clear_bit nr addr
unfolding clear_byte clear_bit
clear_byte-clear_bit nr addr =
    let e : nr / 8 / 8 ≡ nr / 64 = omega arith in rw (byte_place nr, e) refl
