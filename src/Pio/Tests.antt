-- ===== src/Pio/Tests.antt =====
-- The I/O bitmaps at work: a root target with the ports 0x60 to 0x67, and a target with 0x64 to 0x6b.
use spy.Base.{◌≡◌, ◌⊎◌, refl, arith, true, false, ◌&&◌, none, some, List, [], ◌∷◌, if◌then◌else◌}
use spy.Base.Result.{Result, ok, err, Errno, enomem}
use spy.Bitops.{clear_byte, or_byte, clear_bit}
use spy.Bitops.Laws.{bit}
use spy.Pio.{PioRegion, PioState, Platform, vcpu_target_init, vcpu_target_exit, trap_all}
use spy.Pio.Access.{whitelisted, IsFull}
use spy.Pio.Init.{IsPlatform, Initialized, target_init-outcome}
use spy.Pio.Exit.{target_exit-bit, target_exit-target_init}

abbrev pf : Platform
pf = record {
  i8042_cmd_reg = 0x64;
  pm_timer_address = 0x608;
  io_bitmap_pages = 2;
  vendor_target_init = none;
}

abbrev root_wls : List PioRegion
root_wls = record { base = 0x60; length = 8 } ∷ []

abbrev pios : List PioRegion
pios = record { base = 0x64; length = 8 } ∷ []

abbrev blank : PioState
blank = record { io_bitmap = trap_all 2; pio_i8042_allowed = false }

abbrev state_of : Result (PioState × PioState) → PioState × PioState
state_of (ok s) = s
state_of (err e) = (blank, blank)

-- The root target once it is initialized, and both states once the other target is.
abbrev root : PioState
root = (state_of (vcpu_target_init pf true true root_wls blank)).0

abbrev both : PioState × PioState
both = state_of (vcpu_target_init pf true false pios root)

pf-IsPlatform : IsPlatform pf
pf-IsPlatform = record {
  enough_pages = omega arith;
  cmd_port = omega arith;
  pm_ports = omega arith;
}

blank-IsFull : IsFull blank.io_bitmap
unfolding trap_all
blank-IsFull = omega arith

root-IsFull : IsFull root.io_bitmap
unfolding vcpu_target_init clear_byte or_byte clear_bit
root-IsFull = omega arith

target_init-outcome_example :
    ((true ≡ false) × (vcpu_target_init pf true false pios blank ≡ err enomem))
    ⊎ (((e : Errno) × (pf.vendor_target_init ≡ some e)
          × (vcpu_target_init pf true false pios blank ≡ err e))
        ⊎ ((s' : PioState) × (root' : PioState) × (vcpu_target_init pf true false pios blank
              ≡ ok (s', root'))
            × Initialized pf false pios blank s' root'))
target_init-outcome_example =
    target_init-outcome pf pf-IsPlatform pios (omega arith, tt) false blank true blank-IsFull

target_exit-bit_example :
    bit (vcpu_target_exit pios root_wls blank.io_bitmap) 0x65
    ≡ (if whitelisted pios 0x65 && whitelisted root_wls 0x65 then 0 else bit blank.io_bitmap 0x65)
target_exit-bit_example =
    target_exit-bit pios root_wls blank.io_bitmap 0x65 (omega arith, tt) blank-IsFull

target_exit-target_init_example : bit (vcpu_target_exit pios root_wls both.1.io_bitmap) 0x65 ≡ (
    if whitelisted pios 0x65
    then if whitelisted root_wls 0x65 then 0 else 1
    else bit root.io_bitmap 0x65)
unfolding vcpu_target_init
target_exit-target_init_example =
    target_exit-target_init pf pf-IsPlatform pios root_wls (omega arith, tt) root root-IsFull both.0
      both.1 refl 0x65
