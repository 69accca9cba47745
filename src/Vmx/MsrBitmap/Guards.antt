-- ===== src/Vmx/MsrBitmap/Guards.antt =====
-- Which accesses to MSRs reach the handlers.
use spy.Base.{
  ℕ, zero, suc, ◌/◌, ◌%◌, ◌<◌, ◌≡◌, refl, arith, Bool, true, false, not, ◌&&◌, ◌||◌, ◌==◌, leb,
  ◌>>>◌, if◌then◌else◌, ℕ_discrete,
}
use spy.Vmcs.{update}
use spy.Cpu.{PerCpu, rcx}
use spy.Cpu.Consts
use spy.Vmx.MsrBitmap.{initial, msr_bitmap, allow_x2apic, early_msr_bitmap}
use spy.Vcpu.Msr.{X2apic, is_x2apic, handle_msr_read}

-- How the processor reads a bitmap: an access exits where the bit of the MSR is set.
unfoldable pub traps : (ℕ → ℕ) → ℕ → Bool
traps f msr = not ((f (msr / 8) >>> (msr % 8)) % 2 == 0)

unfoldable all_below : ℕ → (ℕ → Bool) → Bool
all_below zero test = true
all_below (suc n) test = let rest = all_below n test in if test n then rest else false

all_below_lem : (n : ℕ) (test : ℕ → Bool) (i : ℕ) → all_below n test ≡ true → i < n → test i ≡ true
unfolding all_below
all_below_lem zero test i h lt = absurd (omega arith)
all_below_lem (suc n) test i h lt =
    let ih = all_below_lem n test i in
    elim (ℕ_discrete i n) [ yes e ↦ rw e (ground arith) | no ne ↦ ground arith ]

-- The MSRs whose reads `vcpu_handle_msr_read` knows.
abbrev readable : ℕ → Bool
readable msr = is_x2apic msr || msr == Consts.msr_ia32_pat || msr == Consts.msr_ia32_mtrr_def_type

abbrev reads_ok : Bool → ℕ → Bool
reads_ok using_x2apic msr =
    not (traps (early_msr_bitmap using_x2apic msr_bitmap).reads msr) || readable msr

reads_checked : (using_x2apic : Bool) → all_below 0x2000 (reads_ok using_x2apic) ≡ true
unfolding all_below traps msr_bitmap early_msr_bitmap initial allow_x2apic update
reads_checked true = refl
reads_checked false = refl

handled_if_readable :
    (x2apic : X2apic) (cpu : PerCpu)
    → readable (cpu.guest_regs rcx) ≡ true
    → (handle_msr_read x2apic cpu).0 ≡ true
unfolding handle_msr_read
handled_if_readable x2apic cpu h = ground arith

-- Whether or not the x2APIC is used, a read of an MSR below 0x2000 that exits is handled: no such read
-- parks the CPU.
pub trapped_read-handled :
    (using_x2apic : Bool) (x2apic : X2apic) (cpu : PerCpu)
    → cpu.guest_regs rcx < 0x2000
    → traps (early_msr_bitmap using_x2apic msr_bitmap).reads (cpu.guest_regs rcx) ≡ true
    → (handle_msr_read x2apic cpu).0 ≡ true
trapped_read-handled using_x2apic x2apic cpu lt trapped =
    let fine =
      all_below_lem 0x2000 (reads_ok using_x2apic) (cpu.guest_regs rcx) (reads_checked using_x2apic)
        lt in
    handled_if_readable x2apic cpu (rw trapped at fine)

-- The MSRs that a guest must not write by itself: the APIC base, the variable MTRRs up to the PAT, the
-- default memory type, the counters, the x2APIC's ICR and the MSRs from 0x840 to 0xd8f.
abbrev pub protected : ℕ → Bool
protected msr =
    msr == 0x1b
    || (leb 0x200 msr && leb msr Consts.msr_ia32_pat)
    || msr == Consts.msr_ia32_mtrr_def_type
    || msr == Consts.msr_ia32_perf_global_ctrl
    || msr == Consts.msr_x2apic_icr
    || (leb 0x840 msr && leb msr 0xd8f)

abbrev writes_ok : Bool → ℕ → Bool
writes_ok using_x2apic msr =
    not (protected msr) || traps (early_msr_bitmap using_x2apic msr_bitmap).writes msr

writes_checked : (using_x2apic : Bool) → all_below 0x2000 (writes_ok using_x2apic) ≡ true
unfolding all_below traps msr_bitmap early_msr_bitmap initial allow_x2apic update
writes_checked true = refl
writes_checked false = refl

protected_small : (msr : ℕ) → protected msr ≡ true → msr < 0x2000
protected_small msr h = ground arith

-- Whether or not the x2APIC is used, every write of a protected MSR exits.
pub protected_write-traps :
    (using_x2apic : Bool) (msr : ℕ)
    → protected msr ≡ true
    → traps (early_msr_bitmap using_x2apic msr_bitmap).writes msr ≡ true
protected_write-traps using_x2apic msr h =
    let fine =
      all_below_lem 0x2000 (writes_ok using_x2apic) msr (writes_checked using_x2apic)
        (protected_small msr h) in
    rw h at fine
