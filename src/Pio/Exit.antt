-- ===== src/Pio/Exit.antt =====
-- `vcpu_target_exit`: which ports the root target gets back.
use spy.Base.{
  ℕ, ◌+◌, ◌-◌, ◌^◌, ◌≤◌, ◌≡◌, ◌∙◌, refl, arith, Bool, true, false, ◌&&◌, List, [], ◌∷◌, length, ltb,
  ltb→lt, ==_self, if◌then◌else◌, Bool-cases, inl, inr, min, max,
}
use spy.Bitops.Laws.{bit}
use spy.Base.Result.{ok}
use spy.Pio.Init.{IsPlatform, is_pm_timer, target_init-Initialized}
use spy.Pio.{
  PioRegion, PioState, Platform, vcpu_target_init, refund_pair, refund_region, vcpu_target_exit,
}
use spy.Pio.Access.{
  holds, whitelisted, IsFull, ArePorts, pio_allow_access-bit, length-pio_allow_access,
}

module _ (t w : PioRegion) (t_port : t.base + t.length ≤ 2 ^ 16) where
  -- The ports that two regions share.
  shared : PioRegion
  shared = record {
    base = max t.base w.base;
    length = min (t.base + t.length) (w.base + w.length) - max t.base w.base;
  }

  refund_pair-bit :
      (bm : List ℕ) (p : ℕ)
      → IsFull bm
      → bit (refund_pair t w bm) p ≡ (if holds t p && holds w p then 0 else bit bm p)
  unfolding refund_pair holds shared
  refund_pair-bit bm p full = elim (Bool-cases (ltb shared.base (shared.base + shared.length))) [
    | inl some ↦
        let lt = ltb→lt shared.base (shared.base + shared.length) some in
        ground (arith, pio_allow_access-bit bm shared true p full (omega arith))
    | inr none ↦ ground arith
  ]

  length-refund_pair : (bm : List ℕ) → length (refund_pair t w bm) ≡ length bm
  unfolding refund_pair shared
  length-refund_pair bm = ground (arith, length-pio_allow_access bm shared true)

refund_region-bit :
    (t : PioRegion) (root_wls : List PioRegion) (bm : List ℕ) (p : ℕ)
    → t.base + t.length ≤ 2 ^ 16
    → IsFull bm
    → bit (refund_region t root_wls bm) p
      ≡ (if holds t p && whitelisted root_wls p then 0 else bit bm p)
unfolding refund_region whitelisted
refund_region-bit t [] bm p port full = ground arith
refund_region-bit t (w ∷ ws) bm p port full =
    let full' : IsFull (refund_pair t w bm) = omega (arith, length-refund_pair t w port bm) in
    rw
      (refund_region-bit t ws (refund_pair t w bm) p port full', refund_pair-bit t w port bm p full)
      (ground arith)

length-refund_region :
    (t : PioRegion) (root_wls : List PioRegion) (bm : List ℕ)
    → t.base + t.length ≤ 2 ^ 16
    → length (refund_region t root_wls bm) ≡ length bm
unfolding refund_region
length-refund_region t [] bm port = refl
length-refund_region t (w ∷ ws) bm port =
    length-refund_region t ws (refund_pair t w bm) port ∙ length-refund_pair t w port bm

-- The exit of a target whose regions are ports gives the root target back exactly the ports that lie
-- in a region of the target and in one of the root target; all other ports stay as they were.
pub target_exit-bit :
    (pios root_wls : List PioRegion) (bm : List ℕ) (p : ℕ)
    → ArePorts pios
    → IsFull bm
    → bit (vcpu_target_exit pios root_wls bm) p
      ≡ (if whitelisted pios p && whitelisted root_wls p then 0 else bit bm p)
unfolding vcpu_target_exit whitelisted
target_exit-bit [] root_wls bm p ports full = refl
target_exit-bit (t ∷ ts) root_wls bm p ports full =
    let bm' = refund_region t root_wls bm in
    let full' : IsFull bm' = omega (arith, length-refund_region t root_wls bm ports.0) in
    rw
      (
        target_exit-bit ts root_wls bm' p ports.1 full',
        refund_region-bit t root_wls bm p ports.0 full,
      )
      (ground arith)

module _ (pf : Platform) (ok_platform : IsPlatform pf) (pios root_wls : List PioRegion)
    (ports : ArePorts pios) (root : PioState) (full : IsFull root.io_bitmap) (s' root' : PioState)
    (init : vcpu_target_init pf true false pios root ≡ ok (s', root')) where
  -- Once a target other than the root has come and gone, a port outside its regions is to the root
  -- target what it was before, and a port in its regions traps there just if it is in no region of the
  -- root target.
  pub target_exit-target_init :
      (p : ℕ)
      → bit (vcpu_target_exit pios root_wls root'.io_bitmap) p ≡ (
          if whitelisted pios p
          then (if whitelisted root_wls p then 0 else 1)
          else bit root.io_bitmap p)
  target_exit-target_init p =
      let done = target_init-Initialized pf ok_platform pios ports false root true full init in
      let full' : IsFull root'.io_bitmap = omega (arith, done.root_room refl) in
      rw (target_exit-bit pios root_wls root'.io_bitmap p ports full', done.root_ports refl p)
        (ground arith)

  -- The i8042 command port traps in the root target once that is initialized. But where the regions of
  -- the root and of another target both hold the port, and it is no PM timer port, then it traps no
  -- more after the other target has come and gone.
  i8042-target_exit :
      (allocated : Bool) (before : PioState)
      → ArePorts root_wls
      → IsFull before.io_bitmap
      → vcpu_target_init pf allocated true root_wls before ≡ ok (root, root)
      → is_pm_timer pf pf.i8042_cmd_reg ≡ false
      → whitelisted pios pf.i8042_cmd_reg ≡ true
      → whitelisted root_wls pf.i8042_cmd_reg ≡ true
      → (bit root.io_bitmap pf.i8042_cmd_reg ≡ 1)
        × (bit (vcpu_target_exit pios root_wls root'.io_bitmap) pf.i8042_cmd_reg ≡ 0)
  i8042-target_exit allocated before root_ports full' first timer held held' =
      let cmd = pf.i8042_cmd_reg in
      let done =
        target_init-Initialized pf ok_platform root_wls root_ports true before allocated full'
          first in
      (
        rw (done.ports cmd ok_platform.cmd_port, timer, ==_self cmd) refl,
        rw (target_exit-target_init cmd, held, held') refl,
      )
