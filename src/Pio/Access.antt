-- ===== src/Pio/Access.antt =====
-- `pio_allow_access` and the loops over regions, port by port.
use spy.Base.{
  ℕ, zero, suc, ◌+◌, ◌^◌, ◌<◌, ◌≤◌, ◌≡◌, ◌≢◌, ◌∙◌, refl, arith, Bool, false, ◌&&◌, ◌||◌, List, [],
  ◌∷◌, length, ltb, leb, if◌then◌else◌, u32, ℕ_discrete, Bool-cases, inl, inr,
}
use spy.Bitops.{set_bit, clear_bit}
use spy.Bitops.Laws.{
  bit, bit-set_bit_self, bit-set_bit_ne, bit-clear_bit_self, bit-clear_bit_ne, length-set_bit,
  length-clear_bit,
}
use spy.Pio.{PioRegion, access_from, pio_allow_access, allow_regions}

-- Whether a region, or one of several, holds port `p`.
unfoldable pub holds : PioRegion → ℕ → Bool
holds pio p = leb pio.base p && ltb p (pio.base + pio.length)

unfoldable pub whitelisted : List PioRegion → ℕ → Bool
unfolding holds
whitelisted [] p = false
whitelisted (pio ∷ pios) p = holds pio p || whitelisted pios p

-- The 65,536 ports fit the bitmap, and the regions.
abbrev pub IsFull : List ℕ → Type 0
IsFull bm = 1024 ≤ length bm

abbrev pub ArePorts : List PioRegion → Type 0
ArePorts [] = Unit {0}
ArePorts (pio ∷ pios) = (pio.base + pio.length ≤ 2 ^ 16) × ArePorts pios

-- The bit that an access right stands for.
abbrev pub trap_bit : Bool → ℕ
trap_bit access = if access then 0 else 1

module _ (access : Bool) where
  abbrev one_port : ℕ → List ℕ → List ℕ
  one_port i bm = if access then clear_bit i bm else set_bit i bm

  one_port_self :
      (i : ℕ) (bm : List ℕ) → IsFull bm → i < 2 ^ 16 → bit (one_port i bm) i ≡ trap_bit access
  one_port_self i bm full lt = elim (Bool-cases access) [
    | inl e ↦ rw e (bit-clear_bit_self bm i (omega arith))
    | inr e ↦ rw e (bit-set_bit_self bm i (omega arith))
  ]

  one_port_ne :
      (i j : ℕ) (bm : List ℕ) → IsFull bm → i < 2 ^ 16 → i ≢ j → bit (one_port i bm) j ≡ bit bm j
  one_port_ne i j bm full lt ne = elim (Bool-cases access) [
    | inl e ↦ rw e (bit-clear_bit_ne bm i (omega arith) j ne)
    | inr e ↦ rw e (bit-set_bit_ne bm i (omega arith) j ne)
  ]

  length-one_port : (i : ℕ) (bm : List ℕ) → length (one_port i bm) ≡ length bm
  length-one_port i bm = elim (Bool-cases access) [
    | inl e ↦ rw e (length-clear_bit i bm)
    | inr e ↦ rw e (length-set_bit i bm)
  ]

  length-access_from :
      (left start : ℕ) (bm : List ℕ) → length (access_from access left start bm) ≡ length bm
  unfolding access_from
  length-access_from zero start bm = refl
  length-access_from (suc left) start bm =
      length-access_from left (u32 (start + 1)) (one_port start bm) ∙ length-one_port start bm

  access_from-bit :
      (left start : ℕ) (bm : List ℕ) (p : ℕ)
      → IsFull bm
      → start + left ≤ 2 ^ 16
      → bit (access_from access left start bm) p
        ≡ (if leb start p && ltb p (start + left) then trap_bit access else bit bm p)
  unfolding access_from
  access_from-bit zero start bm p full le = ground arith
  access_from-bit (suc left) start bm p full le =
      let next : u32 (start + 1) ≡ start + 1 = omega arith in
      let full' : IsFull (one_port start bm) = omega (arith, length-one_port start bm) in
      let ih = access_from-bit left (start + 1) (one_port start bm) p full' (omega arith) in
      elim (ℕ_discrete start p) [
        | yes e ↦
            let here = one_port_self start bm full (omega arith) in
            rw (next, ih, ← e, here) (ground arith)
        | no ne ↦ rw (next, ih, one_port_ne start p bm full (omega arith) ne) (ground arith)
      ]

pub pio_allow_access-bit :
    (bm : List ℕ) (pio : PioRegion) (access : Bool) (p : ℕ)
    → IsFull bm
    → pio.base + pio.length ≤ 2 ^ 16
    → bit (pio_allow_access bm pio access) p ≡ (if holds pio p then trap_bit access else bit bm p)
unfolding pio_allow_access holds
pio_allow_access-bit bm pio access p full le =
    access_from-bit access pio.length pio.base bm p full le

pub length-pio_allow_access :
    (bm : List ℕ) (pio : PioRegion) (access : Bool)
    → length (pio_allow_access bm pio access) ≡ length bm
unfolding pio_allow_access
length-pio_allow_access bm pio access = length-access_from access pio.length pio.base bm

-- The loop over the regions.
pub allow_regions-bit :
    (pios : List PioRegion) (access : Bool) (bm : List ℕ) (p : ℕ)
    → IsFull bm
    → ArePorts pios
    → bit (allow_regions pios access bm) p
      ≡ (if whitelisted pios p then trap_bit access else bit bm p)
unfolding allow_regions whitelisted
allow_regions-bit [] access bm p full h = refl
allow_regions-bit (pio ∷ pios) access bm p full h =
    let full' : IsFull (pio_allow_access bm pio access) =
      omega (arith, length-pio_allow_access bm pio access) in
    rw
      (
        allow_regions-bit pios access (pio_allow_access bm pio access) p full' h.1,
        pio_allow_access-bit bm pio access p full h.0,
      )
      (ground arith)
