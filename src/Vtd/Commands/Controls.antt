-- ===== src/Vtd/Commands/Controls.antt =====
-- The three controls of a unit as Booleans.
use spy.Base.{
  has, ℕ, ◌*◌, ◌/◌, ◌%◌, ◌^◌, ◌≡◌, inl, inr, refl, ap, ◌∙◌, arith, Bool, true, false, List, [], ◌∷◌,
  bit_and, bit_or, if◌then◌else◌, ◌==◌, bit_and_comm, bit_and-bit_or, bit_and_field, low_mask,
  Bool-cases,
}
use spy.Vtd.Setup.{gsts_ires, gsts_qies, gsts_tes, gsts_used_ctrls}
use spy.Vtd.Commands.{Event, did_read, wrote, wrote_field, requested}
use spy.Vtd.Registers.{gcmd_reg, gcmd_te, gcmd_ire, gcmd_qie, gcmd_srtp, gcmd_sirtp}
use spy.Vtd.Commands.Status.{told, next_controls}

abbrev pub controls : Bool → Bool → Bool → ℕ
controls ire qie te =
    bit_or (bit_or (if ire then gsts_ires else 0) (if qie then gsts_qies else 0))
      (if te then gsts_tes else 0)

pub record AreControls (c : ℕ) : Type 0 where
  pub ire : Bool
  pub qie : Bool
  pub te : Bool
  pub are : c ≡ controls ire qie te

bit_of : (s x : ℕ) → (on : Bool) × (bit_and x (low_mask 1 * 2 ^ s) ≡ (if on then 2 ^ s else 0))
bit_of s x = elim (Bool-cases (x / 2 ^ s % 2 == 0)) [
  | inl off ↦
      let e : x / 2 ^ s % 2 ≡ 0 = ground arith in
      (false, bit_and_field s 1 x ∙ ap (λ (b : ℕ). b * 2 ^ s) e ∙ omega arith)
  | inr on ↦
      let e : x / 2 ^ s % 2 ≡ 1 = ground arith in
      (true, bit_and_field s 1 x ∙ ap (λ (b : ℕ). b * 2 ^ s) e ∙ omega arith)
]

pub bit_and-AreControls : (x : ℕ) → AreControls (bit_and x gsts_used_ctrls)
bit_and-AreControls x =
    let (ire, i) = bit_of 25 x in
    let (qie, q) = bit_of 26 x in
    let (te, t) = bit_of 31 x in
    let split : bit_and x gsts_used_ctrls
        ≡ bit_or (bit_or (bit_and x gsts_ires) (bit_and x gsts_qies)) (bit_and x gsts_tes) =
      bit_and_comm x gsts_used_ctrls
      ∙ bit_and-bit_or (bit_or gsts_ires gsts_qies) gsts_tes x
      ∙ rw
          (
            bit_and-bit_or gsts_ires gsts_qies x,
            bit_and_comm gsts_ires x,
            bit_and_comm gsts_qies x,
            bit_and_comm gsts_tes x,
          )
          refl in
    record { ire = ire; qie = qie; te = te; are = split ∙ rw (i, q, t) refl }

pub told-AreControls : (log : List Event) → AreControls (told log)
unfolding told
told-AreControls [] = record { ire = false; qie = false; te = false; are = refl }
told-AreControls (did_read r ∷ log) = told-AreControls log
told-AreControls (wrote r v ∷ log) = elim (Bool-cases (r == gcmd_reg)) [
  | inl is ↦ rw (told, is) (bit_and-AreControls v)
  | inr other ↦ rw (told, other) (told-AreControls log)
]
told-AreControls (wrote_field r m v ∷ log) = told-AreControls log
told-AreControls (requested e ∷ log) = told-AreControls log

-- The controls in the course of `vtd_init_unit`: with the tables set, with the queue, and with translation.
abbrev pub with_tables : ℕ → ℕ
with_tables c =
    next_controls
      (next_controls (next_controls (next_controls c gcmd_qie false) gcmd_ire false) gcmd_srtp true)
      gcmd_sirtp true

abbrev pub with_queue : ℕ → ℕ
with_queue c = next_controls (with_tables c) gcmd_qie true

abbrev pub translating : ℕ → ℕ
translating c = next_controls (with_queue c) gcmd_te true

-- The queue is off while the tables are set and on from then on, and all is on at the end.
pub controls-started :
    (ire qie te : Bool)
    → let c = controls ire qie te in
      (has (with_tables c) gcmd_qie ≡ false)
      × (has (with_queue c) gcmd_qie ≡ true)
      × (has (translating c) gcmd_qie ≡ true)
      × (next_controls (translating c) gcmd_ire true ≡ gsts_used_ctrls)
controls-started true true true = (refl, refl, refl, refl)
controls-started true true false = (refl, refl, refl, refl)
controls-started true false true = (refl, refl, refl, refl)
controls-started true false false = (refl, refl, refl, refl)
controls-started false true true = (refl, refl, refl, refl)
controls-started false true false = (refl, refl, refl, refl)
controls-started false false true = (refl, refl, refl, refl)
controls-started false false false = (refl, refl, refl, refl)

-- The first two commands of `iommu_prepare_shutdown`.
abbrev pub stopped : ℕ → ℕ
stopped c = next_controls (next_controls c gcmd_te false) gcmd_ire false

pub controls-off :
    (ire qie te : Bool) → next_controls (stopped (controls ire qie te)) gcmd_qie false ≡ 0
controls-off true true true = refl
controls-off true true false = refl
controls-off true false true = refl
controls-off true false false = refl
controls-off false true true = refl
controls-off false true false = refl
controls-off false false true = refl
controls-off false false false = refl

-- The controls in the course of `vtd_restore_ir`: with its queue off, and with it on.
abbrev pub without_queue : ℕ → ℕ
without_queue c = next_controls (next_controls c gcmd_sirtp true) gcmd_qie false

abbrev pub queue_back : ℕ → ℕ
queue_back c = next_controls (without_queue c) gcmd_qie true

pub controls-queue :
    (ire qie te : Bool)
    → let c = controls ire qie te in
      (has (without_queue c) gcmd_qie ≡ false) × (has (queue_back c) gcmd_qie ≡ true)
controls-queue true true true = (refl, refl)
controls-queue true true false = (refl, refl)
controls-queue true false true = (refl, refl)
controls-queue true false false = (refl, refl)
controls-queue false true true = (refl, refl)
controls-queue false true false = (refl, refl)
controls-queue false false true = (refl, refl)
controls-queue false false false = (refl, refl)

pub controls-restored :
    (ire qie te : Bool)
    → next_controls (queue_back (stopped (controls ire qie te))) gcmd_ire true
      ≡ bit_or gsts_ires gsts_qies
controls-restored true true true = refl
controls-restored true true false = refl
controls-restored true false true = refl
controls-restored true false false = refl
controls-restored false true true = refl
controls-restored false true false = refl
controls-restored false false true = refl
controls-restored false false false = refl
