-- ===== src/Vmx/Features/Bits.antt =====
-- The tests of `vmx_check_features`, in terms of the bits of the capability MSRs.
use spy.Base.{
  ℕ, ◌*◌, ◌/◌, ◌%◌, ◌^◌, ◌≤◌, ◌≡◌, ◌≢◌, refl, arith, true, ◌&&◌, ◌==◌, leb, leb→le, ==_iff, bit_and,
  bit_and_mask, low_mask, has,
}
use spy.Base.Flags.{has_bit, has_none, has_some, has_all, both}
use spy.Cpu.Consts
use spy.Vmx.Features.{Processor, basic_ok, pin_ok, proc_ok, cr3_ok, ept_ok, entry_exit_ok, misc_ok}

-- Bit `k` of `x` is one.
abbrev pub Bit : ℕ → ℕ → Type 0
Bit x k = x / 2 ^ k % 2 ≡ 1

-- IA32_VMX_BASIC: the VMCS fits a page, is to be written back, and the true controls are there.
abbrev pub Basic : Processor → Type 0
Basic hw =
    (hw.read_msr 0x480 / 2 ^ 32 % 2 ^ 13 ≤ 4096)
    × (hw.read_msr 0x480 / 2 ^ 50 % 2 ^ 4 ≡ 6)
    × Bit (hw.read_msr 0x480) 55

pub basic_ok-Basic : (hw : Processor) → basic_ok hw ≡ true → Basic hw
unfolding basic_ok
basic_ok-Basic hw h =
    let x = hw.read_msr 0x480 in
    let (h1, controls) =
      both (leb (bit_and (x / 2 ^ 32) 0x1fff) 4096 && bit_and (x / 2 ^ 50) 0xf == 6)
        (has x (2 ^ 55)) h in
    let (size, kind) =
      both (leb (bit_and (x / 2 ^ 32) 0x1fff) 4096) (bit_and (x / 2 ^ 50) 0xf == 6) h1 in
    (
      rw (← bit_and_mask 13 (x / 2 ^ 32)) (leb→le _ _ size),
      rw (← bit_and_mask 4 (x / 2 ^ 50)) ((==_iff (bit_and (x / 2 ^ 50) 0xf) 6).0 kind),
      has_bit 55 x controls,
    )

-- The controls of the pins that may be one: NMI exiting and the preemption timer.
abbrev pub Pins : Processor → Type 0
Pins hw = Bit (hw.read_msr 0x481 / 2 ^ 32) 3 × Bit (hw.read_msr 0x481 / 2 ^ 32) 6

pub pin_ok-Pins : (hw : Processor) → pin_ok hw ≡ true → Pins hw
unfolding pin_ok
pin_ok-Pins hw h =
    let x = hw.read_msr 0x481 / 2 ^ 32 in
    let flags : (has x (2 ^ 3) ≡ true) × (has x (2 ^ 6) ≡ true) = ground arith in
    (has_bit 3 x flags.0, has_bit 6 x flags.1)

-- The primary controls: I/O bitmaps, MSR bitmaps and secondary controls may be one.
abbrev pub Primary : Processor → Type 0
Primary hw =
    Bit (hw.read_msr 0x482 / 2 ^ 32) 25
    × Bit (hw.read_msr 0x482 / 2 ^ 32) 28
    × Bit (hw.read_msr 0x482 / 2 ^ 32) 31

pub proc_ok-Primary : (hw : Processor) → proc_ok hw ≡ true → Primary hw
unfolding proc_ok
proc_ok-Primary hw h =
    let x = hw.read_msr 0x482 / 2 ^ 32 in
    let flags : (has x (2 ^ 25) ≡ true) × (has x (2 ^ 28) ≡ true) × (has x (2 ^ 31) ≡ true) =
      ground arith in
    (has_bit 25 x flags.0, has_bit 28 x flags.1, has_bit 31 x flags.2)

-- The true primary controls: neither loads nor stores of CR3 must exit.
pub cr3_ok-free : (hw : Processor) → cr3_ok hw ≡ true → hw.read_msr 0x48e / 2 ^ 15 % 2 ^ 2 ≡ 0
unfolding cr3_ok
cr3_ok-free hw h = has_none 15 2 (hw.read_msr 0x48e) (ground arith)

-- The secondary controls: virtual APIC accesses, EPT and the unrestricted guest may be one. EPT has walks of four
-- levels, write-back memory and INVEPT, of one context or of all.
abbrev pub Secondary : Processor → Type 0
Secondary hw =
    Bit (hw.read_msr 0x48b / 2 ^ 32) 0
    × Bit (hw.read_msr 0x48b / 2 ^ 32) 1
    × Bit (hw.read_msr 0x48b / 2 ^ 32) 7
    × Bit (hw.read_msr 0x48c) 6
    × Bit (hw.read_msr 0x48c) 14
    × Bit (hw.read_msr 0x48c) 20
    × (hw.read_msr 0x48c / 2 ^ 25 % 2 ^ 2 ≢ 0)

pub ept_ok-Secondary : (hw : Processor) → ept_ok hw ≡ true → Secondary hw
unfolding ept_ok
ept_ok-Secondary hw h =
    let x = hw.read_msr 0x48b / 2 ^ 32 in
    let cap = hw.read_msr 0x48c in
    let m = Consts.ept_mandatory_features in
    let flags : (has x (2 ^ 0) ≡ true)
        × (has x (2 ^ 1) ≡ true)
        × (has x (2 ^ 7) ≡ true)
        × ((bit_and cap m == m) ≡ true)
        × (has cap (low_mask 2 * 2 ^ 25) ≡ true) =
      ground arith in
    (
      has_bit 0 x flags.0,
      has_bit 1 x flags.1,
      has_bit 7 x flags.2,
      has_all 6 cap m refl flags.3,
      has_all 14 cap m refl flags.3,
      has_all 20 cap m refl flags.3,
      has_some 25 2 cap flags.4,
    )

-- The entry may load PAT and EFER, the exit may save and load both.
abbrev pub EntryExit : Processor → Type 0
EntryExit hw =
    Bit (hw.read_msr 0x484 / 2 ^ 32) 14
    × Bit (hw.read_msr 0x484 / 2 ^ 32) 15
    × Bit (hw.read_msr 0x483 / 2 ^ 32) 18
    × Bit (hw.read_msr 0x483 / 2 ^ 32) 19
    × Bit (hw.read_msr 0x483 / 2 ^ 32) 20
    × Bit (hw.read_msr 0x483 / 2 ^ 32) 21

pub entry_exit_ok-EntryExit : (hw : Processor) → entry_exit_ok hw ≡ true → EntryExit hw
unfolding entry_exit_ok
entry_exit_ok-EntryExit hw h =
    let entry = hw.read_msr 0x484 / 2 ^ 32 in
    let exit = hw.read_msr 0x483 / 2 ^ 32 in
    let flags : (has entry (2 ^ 14) ≡ true)
        × (has entry (2 ^ 15) ≡ true)
        × (has exit (2 ^ 18) ≡ true)
        × (has exit (2 ^ 19) ≡ true)
        × (has exit (2 ^ 20) ≡ true)
        × (has exit (2 ^ 21) ≡ true) =
      ground arith in
    (
      has_bit 14 entry flags.0,
      has_bit 15 entry flags.1,
      has_bit 18 exit flags.2,
      has_bit 19 exit flags.3,
      has_bit 20 exit flags.4,
      has_bit 21 exit flags.5,
    )

-- A halted CPU is an activity state.
pub misc_ok-hlt : (hw : Processor) → misc_ok hw ≡ true → Bit (hw.read_msr 0x485) 6
unfolding misc_ok
misc_ok-hlt hw h = has_bit 6 (hw.read_msr 0x485) (ground arith)
