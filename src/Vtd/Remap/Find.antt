-- ===== src/Vtd/Remap/Find.antt =====
-- `vtd_find_int_remap_region`: the first entry that is assigned to the device, if there is one.
use spy.Base.{
  ℕ, zero, suc, ◌+◌, ◌<◌, ◌≤◌, ◌≡◌, ◌↔◌, ◌⊎◌, inl, inr, refl, arith, Bool, true, false, ◌&&◌, List,
  get_or, ◌==◌, Bool-cases, ℕ_discrete, dec_lt, ◌∙◌,
}
use spy.Base.Result.{Result, ok, err, Errno, enoent}
use spy.Vtd.Remap.{Irte, zero_irte, find_from, find_int_remap_region}

-- Whether entry `i` is assigned to the device.
abbrev pub owns : ℕ → List Irte → ℕ → Bool
owns device_id table i =
    (get_or table i zero_irte).assigned && (get_or table i zero_irte).sid == device_id

-- Entry `i` is below the limit, assigned to the device, and the first such.
pub record Found (limit device_id : ℕ) (table : List Irte) (i : ℕ) : Type 0 where
  pub below : i < limit
  pub owned : owns device_id table i ≡ true
  pub first : (j : ℕ) → j < i → owns device_id table j ≡ false

pub Result-cases {ℓ} :
    {A : Type ℓ} (r : Result A) → ((a : A) × (r ≡ ok a)) ⊎ ((e : Errno) × (r ≡ err e))
Result-cases (ok a) = inl (a, refl)
Result-cases (err e) = inr (e, refl)

module _ (device_id : ℕ) (table : List Irte) where
  find_from-ok :
      (left n i : ℕ)
      → find_from device_id left n table ≡ ok i
      → (n ≤ i) × (i < n + left) × (owns device_id table i ≡ true)
  unfolding find_from
  find_from-ok zero n i h = cc
  find_from-ok (suc left) n i h = elim (Bool-cases (owns device_id table n)) [
    | inl here ↦ let e : n ≡ i = ground arith in rw (← e) (omega arith, omega arith, here)
    | inr later ↦ ground (arith, find_from-ok left (n + 1) i)
  ]

  find_from-first :
      (left n i j : ℕ)
      → find_from device_id left n table ≡ ok i
      → n ≤ j
      → j < i
      → owns device_id table j ≡ false
  unfolding find_from
  find_from-first zero n i j h lo hi = cc
  find_from-first (suc left) n i j h lo hi = elim (ℕ_discrete n j) [
    | yes e ↦ ground arith
    | no ne ↦ ground (arith, find_from-first left (n + 1) i j)
  ]

  find_from-err :
      (left n : ℕ) {e : Errno} (j : ℕ)
      → find_from device_id left n table ≡ err e
      → n ≤ j
      → j < n + left
      → owns device_id table j ≡ false
  unfolding find_from
  find_from-err zero n j h lo hi = absurd (omega arith)
  find_from-err (suc left) n {e} j h lo hi = elim (ℕ_discrete n j) [
    | yes e ↦ ground arith
    | no ne ↦ ground (arith, find_from-err left (n + 1) {e = e} j)
  ]

  find_from-enoent :
      (left n : ℕ) {e : Errno} → find_from device_id left n table ≡ err e → e ≡ enoent
  unfolding find_from
  find_from-enoent zero n h = cc
  find_from-enoent (suc left) n {e} h = ground (arith, find_from-enoent left (n + 1) {e = e})

module _ (limit device_id : ℕ) (table : List Irte) where
  find-Found :
      {i : ℕ} → find_int_remap_region limit device_id table ≡ ok i → Found limit device_id table i
  unfolding find_int_remap_region
  find-Found {i} h = record {
    below = omega (arith, find_from-ok device_id table limit 0 i h);
    owned = (find_from-ok device_id table limit 0 i h).2;
    first = λ j lt. find_from-first device_id table limit 0 i j h (omega arith) lt;
  }

  pub find-none :
      {e : Errno} (j : ℕ)
      → find_int_remap_region limit device_id table ≡ err e
      → j < limit
      → owns device_id table j ≡ false
  unfolding find_int_remap_region
  find-none j h lt = find_from-err device_id table limit 0 j h (omega arith) (omega arith)

  -- Two first entries are the same.
  Found-unique : {i k : ℕ} → Found limit device_id table i → Found limit device_id table k → i ≡ k
  Found-unique {i} {k} f g = elim (dec_lt i k) [
    | yes lt ↦ cc (g.first i lt, f.owned)
    | no ge ↦ elim (dec_lt k i) [ yes lt ↦ cc (f.first k lt, g.owned) | no ge' ↦ omega arith ]
  ]

  pub Found-find :
      {i : ℕ} → Found limit device_id table i → find_int_remap_region limit device_id table ≡ ok i
  Found-find {i} f = elim (Result-cases (find_int_remap_region limit device_id table)) [
    | inl (k, e) ↦ e ∙ (λ j. ok (Found-unique (find-Found e) f j))
    | inr (x, e) ↦ cc (find-none i e f.below, f.owned)
  ]

  -- The search answers entry `i` exactly when `i` is the first entry below the limit that is assigned
  -- to the device.
  find_iff :
      (i : ℕ) → (find_int_remap_region limit device_id table ≡ ok i) ↔ Found limit device_id table i
  find_iff i = (find-Found, Found-find)

  pub none-find :
      ((j : ℕ) → j < limit → owns device_id table j ≡ false)
      → find_int_remap_region limit device_id table ≡ err enoent
  unfolding find_int_remap_region
  none-find h = elim (Result-cases (find_int_remap_region limit device_id table)) [
    | inl (k, e) ↦ cc (h k (find-Found e).below, (find-Found e).owned)
    | inr (x, e) ↦ e ∙ (λ j. err (find_from-enoent device_id table limit 0 e j))
  ]
