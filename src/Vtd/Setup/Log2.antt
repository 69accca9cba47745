-- ===== src/Vtd/Setup/Log2.antt =====
-- The size of the table of interrupts: the loop of `vtd_init` that takes a logarithm.
use spy.Base.{
  ℕ, zero, suc, ◌+◌, ◌-◌, ◌^◌, ◌<◌, ◌≤◌, ◌≡◌, ◌⊎◌, inl, inr, refl, ap, arith, some, ltb, ◌<<<◌,
  Bool-cases,
}
use spy.Vtd.Setup.{log2_from, roundup_log2}

-- The exponent `n` is the least of which the power reaches the limit.
pub record IsLog2 (limit n : ℕ) : Type 0 where
  pub enough : limit ≤ 2 ^ n
  pub least : (n ≡ 0) ⊎ (2 ^ (n - 1) < limit)

log2_from-IsLog2 :
    (left n limit : ℕ)
    → limit ≤ 2 ^ (n + left)
    → (n ≡ 0) ⊎ (2 ^ (n - 1) < limit)
    → (m : ℕ) × (log2_from (suc left) n limit ≡ some m) × (m ≤ n + left) × IsLog2 limit m
unfolding log2_from
log2_from-IsLog2 zero n limit top low = elim (Bool-cases (ltb (1 <<< n) limit)) [
  | inr reached ↦
      (n, rw (log2_from, reached) refl, omega arith, record { enough = ground arith; least = low })
  | inl more ↦
      let below : 2 ^ n < limit = ground arith in
      let same : n + 0 ≡ n = omega arith in
      let power : 2 ^ (n + 0) ≡ 2 ^ n = ap (λ (k : ℕ). 2 ^ k) same in
      absurd (omega (arith, below, power))
]
log2_from-IsLog2 (suc left) n limit top low = elim (Bool-cases (ltb (1 <<< n) limit)) [
  | inr reached ↦
      (n, rw (log2_from, reached) refl, omega arith, record { enough = ground arith; least = low })
  | inl more ↦
      let below : 2 ^ (n + 1 - 1) < limit = ground arith in
      let same : n + suc left ≡ n + 1 + left = omega arith in
      let power : 2 ^ (n + suc left) ≡ 2 ^ (n + 1 + left) = ap (λ (k : ℕ). 2 ^ k) same in
      let (m, e, bound, is_log2) =
        log2_from-IsLog2 left (n + 1) limit (omega (arith, power)) (inr below) in
      (m, rw (log2_from, more) e, omega (arith, bound), is_log2)
]

-- The loop ends within 64 rounds for each limit up to 2^63, with the least exponent of which the power
-- reaches it, at most 63, so that each shift is one that the type of the constant has room for.
pub roundup_log2-IsLog2 :
    (limit : ℕ)
    → limit ≤ 2 ^ 63
    → (n : ℕ) × (roundup_log2 limit ≡ some n) × (n ≤ 63) × IsLog2 limit n
unfolding roundup_log2
roundup_log2-IsLog2 limit top = log2_from-IsLog2 63 0 limit top (inl refl)
