-- ===== src/Pio.antt =====
-- The I/O bitmaps of hypervisor/arch/x86/vcpu.c: `pio_allow_access`, `vcpu_target_init` and
-- `vcpu_target_exit`. A bitmap is the list of its 64-bit words; a set bit traps the port.
pub mod Access
pub mod Init
pub mod Exit
mod Tests
use spy.Base.{
  ℕ, zero, suc, ◌+◌, ◌-◌, ◌*◌, ◌/◌, ◌%◌, ◌^◌, Bool, true, false, not, ◌&&◌, ◌||◌, Option, none,
  some, List, [], ◌∷◌, u32, ltb, leb, ◌==◌, ◌<<<◌, if◌then◌else◌, replicate, min, max,
}
use spy.Base.Result.{Result, ok, err, Errno, enomem}
use spy.Bitops.{set_bit, clear_bit, or_byte, clear_byte}
use spy.Paging.{page_size}

-- `struct spy_pio`
pub record PioRegion : Type 0 where
  pub base : ℕ
  pub length : ℕ

-- What `struct target` keeps for port I/O.
pub record PioState : Type 0 where
  pub io_bitmap : List ℕ
  pub pio_i8042_allowed : Bool

-- The loop of `pio_allow_access` with `left` ports to go.
unfoldable pub access_from : Bool → ℕ → ℕ → List ℕ → List ℕ
access_from access zero start_bit bm = bm
access_from access (suc left) start_bit bm =
    access_from access left (u32 (start_bit + 1))
      (if access then clear_bit start_bit bm else set_bit start_bit bm)

unfoldable pub pio_allow_access : List ℕ → PioRegion → Bool → List ℕ
unfolding access_from
pio_allow_access bm pio access = access_from access pio.length pio.base bm

-- A loop over the regions of a configuration.
unfoldable pub allow_regions : List PioRegion → Bool → List ℕ → List ℕ
unfolding pio_allow_access
allow_regions [] access bm = bm
allow_regions (pio ∷ pios) access bm = allow_regions pios access (pio_allow_access bm pio access)

-- Four ports from `pm_timer_addr` on, cleared by bytes.
unfoldable pub permit_pm_timer : ℕ → ℕ → List ℕ → List ℕ
permit_pm_timer zero pm_timer_addr bm = bm
permit_pm_timer (suc left) pm_timer_addr bm =
    permit_pm_timer left (u32 (pm_timer_addr + 1))
      (clear_byte (pm_timer_addr / 8) (1 <<< (pm_timer_addr % 8)) bm)

-- What the other files supply: the i8042 command port, the ACPI PM timer of the configuration (0 for
-- none), the size of the bitmap, and the vendor's part of the initialization.
pub record Platform : Type 0 where
  pub i8042_cmd_reg : ℕ
  pub pm_timer_address : ℕ
  pub io_bitmap_pages : ℕ
  pub vendor_target_init : Option Errno

-- One region of the first loop, on the target's state.
unfoldable pub init_region : ℕ → PioRegion → PioState → PioState
unfolding pio_allow_access
init_region i8042_cmd_reg pio s = record {
  io_bitmap = pio_allow_access s.io_bitmap pio true;
  pio_i8042_allowed =
      if leb pio.base i8042_cmd_reg && ltb i8042_cmd_reg (pio.base + pio.length)
      then true
      else s.pio_i8042_allowed;
}

unfoldable pub init_regions : ℕ → List PioRegion → PioState → PioState
unfolding init_region
init_regions i8042_cmd_reg [] s = s
init_regions i8042_cmd_reg (pio ∷ pios) s =
    init_regions i8042_cmd_reg pios (init_region i8042_cmd_reg pio s)

-- `memset(target->arch.io_bitmap, -1, io_bitmap_pages * PAGE_SIZE)`
unfoldable pub trap_all : ℕ → List ℕ
trap_all io_bitmap_pages = replicate (io_bitmap_pages * page_size / 8) 0xffffffffffffffff

-- The states of the new target and of the root target, which is another one unless `is_root`.
-- `allocated` is whether `page_alloc` gives the pages.
unfoldable pub vcpu_target_init :
    Platform → Bool → Bool → List PioRegion → PioState → Result (PioState × PioState)
unfolding init_regions allow_regions permit_pm_timer trap_all
vcpu_target_init pf allocated is_root pios root =
    if not allocated then err enomem else elim pf.vendor_target_init [
      | some e ↦ err e
      | none ↦
          let start : PioState = record {
            io_bitmap = trap_all pf.io_bitmap_pages;
            pio_i8042_allowed = false;
          } in
          let s = init_regions pf.i8042_cmd_reg pios start in
          let trapped = or_byte (pf.i8042_cmd_reg / 8) (1 <<< (pf.i8042_cmd_reg % 8)) s.io_bitmap in
          let bm =
            if pf.pm_timer_address == 0
            then trapped
            else permit_pm_timer 4 pf.pm_timer_address trapped in
          let s' = record s { io_bitmap = bm } in
          let root' = record root { io_bitmap = allow_regions pios false root.io_bitmap } in
          ok (s', (if is_root then s' else root'))
    ]

-- The body of the two loops of `vcpu_target_exit`, on the root target's bitmap.
unfoldable pub refund_pair : PioRegion → PioRegion → List ℕ → List ℕ
unfolding pio_allow_access
refund_pair target_wl root_wl bm =
    let interval_start = max target_wl.base root_wl.base in
    let interval_end = min (target_wl.base + target_wl.length) (root_wl.base + root_wl.length) in
    if ltb interval_start interval_end
    then pio_allow_access bm
        (record { base = interval_start; length = interval_end - interval_start }) true
    else bm

unfoldable pub refund_region : PioRegion → List PioRegion → List ℕ → List ℕ
unfolding refund_pair
refund_region target_wl [] bm = bm
refund_region target_wl (root_wl ∷ root_wls) bm =
    refund_region target_wl root_wls (refund_pair target_wl root_wl bm)

-- What the exit of a target with the regions `pios` does to the root target's bitmap.
unfoldable pub vcpu_target_exit : List PioRegion → List PioRegion → List ℕ → List ℕ
unfolding refund_region
vcpu_target_exit [] root_wls bm = bm
vcpu_target_exit (target_wl ∷ pios) root_wls bm =
    vcpu_target_exit pios root_wls (refund_region target_wl root_wls bm)
