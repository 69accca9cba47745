-- ===== src/Pio/Init.antt =====
-- `vcpu_target_init`: which ports a new target and the root target may use afterwards.
use spy.Base.{
  ℕ, zero, suc, ◌+◌, ◌*◌, ◌/◌, ◌%◌, ◌^◌, ◌<◌, ◌≤◌, ◌≡◌, ◌∙◌, ◌⊎◌, refl, sym, arith, Bool, true,
  false, ◌&&◌, ◌||◌, some, List, [], ◌∷◌, length, ltb, leb, ◌==◌, if◌then◌else◌, u32, ℕ_discrete,
  Bool-cases, inl, inr, Option-cases, digit-complement, digit_of_lt, get_or-replicate,
  length-replicate, ==_self, ==_ne, ◌<<<◌,
}
use spy.Base.Result.{ok, err, Errno, enomem}
use spy.Bitops.{clear_bit, or_byte}
use spy.Bitops.Laws.{
  bit, bit-set_bit_self, bit-set_bit_ne, bit-clear_bit_self, bit-clear_bit_ne, length-set_bit,
  length-clear_bit, or_byte-set_bit, clear_byte-clear_bit,
}
use spy.Pio.{
  PioRegion, PioState, Platform, pio_allow_access, allow_regions, permit_pm_timer, init_region,
  init_regions, trap_all, vcpu_target_init,
}
use spy.Pio.Access.{
  holds, whitelisted, IsFull, ArePorts, length-pio_allow_access, allow_regions-bit,
}

-- The four ports of the PM timer, where there is one.
abbrev pub is_pm_timer : Platform → ℕ → Bool
is_pm_timer pf p =
    if pf.pm_timer_address == 0
    then false
    else leb pf.pm_timer_address p && ltb p (pf.pm_timer_address + 4)

-- The ports and the bitmap are in range.
pub record IsPlatform (pf : Platform) : Type 0 where
  pub enough_pages : 2 ≤ pf.io_bitmap_pages
  pub cmd_port : pf.i8042_cmd_reg < 2 ^ 16
  pub pm_ports : pf.pm_timer_address + 4 ≤ 2 ^ 16

trap_all-bit : (pages p : ℕ) → p < pages * 2 ^ 15 → bit (trap_all pages) p ≡ 1
unfolding bit trap_all
trap_all-bit pages p lt =
    let ones = digit-complement 64 (p % 64) 0 (omega arith) (omega arith) in
    let zeros = digit_of_lt 0 (p % 64) 0 (omega arith) (omega arith) in
    rw (get_or-replicate {A = ℕ} (pages * 4096 / 8) (p / 64) 0xffffffffffffffff 0 (omega arith))
      (omega (arith, ones, zeros))

length-trap_all : (pages : ℕ) → 2 ≤ pages → IsFull (trap_all pages)
unfolding trap_all
length-trap_all pages le =
    omega (arith, length-replicate {A = ℕ} (pages * 4096 / 8) 0xffffffffffffffff)

init_regions-lem :
    (cmd : ℕ) (pios : List PioRegion) (s : PioState)
    → (init_regions cmd pios s).io_bitmap ≡ allow_regions pios true s.io_bitmap
unfolding init_regions init_region allow_regions
init_regions-lem cmd [] s = refl
init_regions-lem cmd (pio ∷ pios) s = init_regions-lem cmd pios (init_region cmd pio s)

init_regions-allowed :
    (cmd : ℕ) (pios : List PioRegion) (s : PioState)
    → (init_regions cmd pios s).pio_i8042_allowed ≡ (whitelisted pios cmd || s.pio_i8042_allowed)
unfolding init_regions init_region whitelisted holds
init_regions-allowed cmd [] s = refl
init_regions-allowed cmd (pio ∷ pios) s =
    ground (arith, init_regions-allowed cmd pios (init_region cmd pio s))

length-allow_regions :
    (pios : List PioRegion) (access : Bool) (bm : List ℕ)
    → length (allow_regions pios access bm) ≡ length bm
unfolding allow_regions
length-allow_regions [] access bm = refl
length-allow_regions (pio ∷ pios) access bm =
    length-allow_regions pios access (pio_allow_access bm pio access)
    ∙ length-pio_allow_access bm pio access

permit-bit :
    (left start : ℕ) (bm : List ℕ) (p : ℕ)
    → IsFull bm
    → start + left ≤ 2 ^ 16
    → bit (permit_pm_timer left start bm) p
      ≡ (if leb start p && ltb p (start + left) then 0 else bit bm p)
unfolding permit_pm_timer
permit-bit zero start bm p full le = ground arith
permit-bit (suc left) start bm p full le =
    let next : u32 (start + 1) ≡ start + 1 = omega arith in
    let full' : IsFull (clear_bit start bm) = omega (arith, length-clear_bit start bm) in
    let ih = permit-bit left (start + 1) (clear_bit start bm) p full' (omega arith) in
    elim (ℕ_discrete start p) [
      | yes e ↦
          let here = bit-clear_bit_self bm start (omega arith) in
          rw (clear_byte-clear_bit start bm, next, ih, ← e, here) (ground arith)
      | no ne ↦
          rw (clear_byte-clear_bit start bm, next, ih, bit-clear_bit_ne bm start (omega arith) p ne)
            (ground arith)
    ]

-- A port of the new target traps just if it is none of the PM timer's and either the i8042 command
-- port or outside the target's regions; the target may use the i8042 controller just if a region
-- holds its command port. Another target than the root takes its regions from the root's ports.
pub record Initialized (pf : Platform) (is_root : Bool) (pios : List PioRegion) (root : PioState)
    (s' root' : PioState) : Type 0 where
  pub ports :
      (p : ℕ)
      → p < 2 ^ 16
      → bit s'.io_bitmap p ≡ (
          if is_pm_timer pf p
          then 0
          else if p == pf.i8042_cmd_reg
          then 1
          else if whitelisted pios p
          then 0
          else 1)
  pub i8042 : s'.pio_i8042_allowed ≡ whitelisted pios pf.i8042_cmd_reg
  pub root_ports :
      is_root ≡ false
      → (p : ℕ) → bit root'.io_bitmap p ≡ (if whitelisted pios p then 1 else bit root.io_bitmap p)
  pub root_room : is_root ≡ false → length root'.io_bitmap ≡ length root.io_bitmap
  pub root_itself : is_root ≡ true → root' ≡ s'

module _ (pf : Platform) (ok_platform : IsPlatform pf) (pios : List PioRegion)
    (ports : ArePorts pios) where
  abbrev allowed_bm : List ℕ
  allowed_bm = allow_regions pios true (trap_all pf.io_bitmap_pages)

  abbrev trapped_bm : List ℕ
  trapped_bm = or_byte (pf.i8042_cmd_reg / 8) (1 <<< (pf.i8042_cmd_reg % 8)) allowed_bm

  allowed-IsFull : IsFull allowed_bm
  allowed-IsFull = omega (
    arith,
    length-allow_regions pios true (trap_all pf.io_bitmap_pages),
    length-trap_all pf.io_bitmap_pages ok_platform.enough_pages,
  )

  trapped-IsFull : IsFull trapped_bm
  trapped-IsFull =
      rw (or_byte-set_bit pf.i8042_cmd_reg allowed_bm)
        (omega (arith, allowed-IsFull, length-set_bit pf.i8042_cmd_reg allowed_bm))

  trapped-bit :
      (p : ℕ)
      → p < 2 ^ 16
      → bit trapped_bm p
        ≡ (if p == pf.i8042_cmd_reg then 1 else if whitelisted pios p then 0 else 1)
  trapped-bit p lt =
      let cmd = pf.i8042_cmd_reg in
      let room : cmd / 64 < length allowed_bm =
        omega (arith, allowed-IsFull, ok_platform.cmd_port) in
      let full = length-trap_all pf.io_bitmap_pages ok_platform.enough_pages in
      let start = trap_all-bit pf.io_bitmap_pages p (omega (arith, ok_platform.enough_pages)) in
      rw (or_byte-set_bit cmd allowed_bm) (elim (ℕ_discrete cmd p) [
        | yes e ↦ rw (← e, ==_self cmd) (bit-set_bit_self allowed_bm cmd room)
        | no ne ↦
            rw
              (
                ==_ne p cmd (λ e. ne (sym e)),
                bit-set_bit_ne allowed_bm cmd room p ne,
                allow_regions-bit pios true (trap_all pf.io_bitmap_pages) p full ports,
                start,
              )
              refl
      ])

  module _ (is_root : Bool) (root : PioState) where
    abbrev final_bm : List ℕ
    final_bm =
        if pf.pm_timer_address == 0
        then trapped_bm
        else permit_pm_timer 4 pf.pm_timer_address trapped_bm

    final-bit :
        (p : ℕ)
        → p < 2 ^ 16
        → bit final_bm p ≡ (
            if is_pm_timer pf p
            then 0
            else if p == pf.i8042_cmd_reg
            then 1
            else if whitelisted pios p
            then 0
            else 1)
    final-bit p lt = elim (ℕ_discrete pf.pm_timer_address 0) [
      | yes e ↦ rw (e) (trapped-bit p lt)
      | no ne ↦
          rw
            (
              ==_ne pf.pm_timer_address 0 ne,
              permit-bit 4 pf.pm_timer_address trapped_bm p trapped-IsFull ok_platform.pm_ports,
              trapped-bit p lt,
            )
            refl
    ]

    start : PioState
    start = record { io_bitmap = trap_all pf.io_bitmap_pages; pio_i8042_allowed = false }

    -- With an i8042 port, PM timer ports and regions inside the 65,536 ports and a bitmap for all of
    -- them, the initialization of a target either fails, with -ENOMEM where no pages are left or with
    -- the vendor's error, or succeeds with what `Initialized` says.
    pub target_init-outcome :
        (allocated : Bool)
        → IsFull root.io_bitmap
        → ((allocated ≡ false) × (vcpu_target_init pf allocated is_root pios root ≡ err enomem))
          ⊎ (((e : Errno) × (pf.vendor_target_init ≡ some e)
                × (vcpu_target_init pf allocated is_root pios root ≡ err e))
              ⊎ ((s' : PioState) × (root' : PioState) × (vcpu_target_init pf allocated is_root pios
                      root
                    ≡ ok (s', root'))
                  × Initialized pf is_root pios root s' root'))
    unfolding vcpu_target_init start
    target_init-outcome allocated root_full = elim (Bool-cases allocated) [
      | inr no_pages ↦ inl (no_pages, ground arith)
      | inl pages ↦ elim (Option-cases pf.vendor_target_init) [
        | inr (e, v) ↦ inr (inl (e, v, ground arith))
        | inl fine ↦
            let s = init_regions pf.i8042_cmd_reg pios start in
            let bm = init_regions-lem pf.i8042_cmd_reg pios start in
            let s' : PioState = record s { io_bitmap = final_bm } in
            let root' : PioState = record root {
              io_bitmap = allow_regions pios false root.io_bitmap;
            } in
            inr (
              inr (
                s',
                (if is_root then s' else root'),
                rw (pages, fine, bm) refl,
                record {
                  ports = final-bit;
                  i8042 = ground (arith, init_regions-allowed pf.i8042_cmd_reg pios start);
                  root_ports = λ other p.
                      rw other (allow_regions-bit pios false root.io_bitmap p root_full ports);
                  root_room = λ other. rw other (length-allow_regions pios false root.io_bitmap);
                  root_itself = λ itself. rw itself refl;
                },
              ))
      ]
    ]

    pub target_init-Initialized :
        (allocated : Bool)
        → IsFull root.io_bitmap
        → {s' root' : PioState} → vcpu_target_init pf allocated is_root pios root ≡ ok (s', root')
        → Initialized pf is_root pios root s' root'
    target_init-Initialized allocated root_full {s'} {root'} h =
        elim (target_init-outcome allocated root_full) [
          | inl (no_pages, e) ↦ cc
          | inr (inl (e, v, e')) ↦ cc
          | inr (inr (s, r, e, done)) ↦
              let same : s ≡ s' = ground arith in
              let same' : r ≡ root' = ground arith in rw (← same, ← same') done
        ]
