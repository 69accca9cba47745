-- ===== src/Vmx/MsrBitmap.antt =====
-- The MSR bitmap of vmx.c and what `vcpu_vendor_early_init` does to it.
pub mod Guards
use spy.Base.{
  ℕ, ◌+◌, ◌-◌, ◌*◌, ◌/◌, ◌%◌, ◌^◌, ◌>>>◌, ◌==◌, leb, ltb, Bool, true, false, not, ◌&&◌,
  if◌then◌else◌, List, [], ◌∷◌,
}
use spy.Vmcs.{update}
use spy.Cpu.Consts.{msr_x2apic_base, msr_x2apic_icr, msr_x2apic_end}

-- An element `[first/8 ... last/8] = value` of the initializer.
pub record Bytes : Type 0 where
  pub first : ℕ
  pub last : ℕ
  pub value : ℕ

abbrev pub bytes : ℕ → ℕ → ℕ → Bytes
bytes first last value = record { first = first / 8; last = last / 8; value = value }

-- The byte at `i`: no two elements overlap, and a byte in none is 0.
unfoldable pub initial : List Bytes → ℕ → ℕ
initial [] i = 0
initial (b ∷ bs) i =
    let rest = initial bs i in if leb b.first i && leb i b.last then b.value else rest

-- The parts of the bitmap for the MSRs below 0x2000. Those for 0xc0000000 and above are 0.
pub record MsrBitmap : Type 0 where
  pub reads : ℕ → ℕ
  pub writes : ℕ → ℕ

unfoldable pub msr_bitmap : MsrBitmap
unfolding initial
msr_bitmap = record {
  reads = initial (
      bytes 0 0x26f 0
      ∷ bytes 0x270 0x277 0x80
      ∷ bytes 0x278 0x2f7 0
      ∷ bytes 0x2f8 0x2ff 0x80
      ∷ bytes 0x300 0x7ff 0
      ∷ bytes 0x800 0x807 0x0c
      ∷ bytes 0x808 0x80f 0xa5
      ∷ bytes 0x810 0x817 0xff
      ∷ bytes 0x818 0x81f 0xff
      ∷ bytes 0x820 0x827 0xff
      ∷ bytes 0x828 0x82f 0x81
      ∷ bytes 0x830 0x837 0xfd
      ∷ bytes 0x838 0x83f 0x43
      ∷ bytes 0x840 0x1fff 0
      ∷ []);
  writes = initial (
      bytes 0 0x17 0
      ∷ bytes 0x18 0x1f 0x08
      ∷ bytes 0x20 0x1ff 0
      ∷ bytes 0x200 0x277 0xff
      ∷ bytes 0x278 0x2f7 0
      ∷ bytes 0x2f8 0x2ff 0x80
      ∷ bytes 0x300 0x387 0
      ∷ bytes 0x388 0x38f 0x80
      ∷ bytes 0x390 0x7ff 0
      ∷ bytes 0x808 0x80f 0x89
      ∷ bytes 0x810 0x827 0
      ∷ bytes 0x828 0x82f 0x81
      ∷ bytes 0x830 0x837 0xfd
      ∷ bytes 0x838 0x83f 0xc1
      ∷ bytes 0x840 0xd8f 0xff
      ∷ bytes 0xd90 0x1fff 0
      ∷ []);
}

-- `memset` of the bytes of the x2APIC's MSRs to 0
unfoldable pub allow_x2apic : (ℕ → ℕ) → ℕ → ℕ
allow_x2apic f i =
    let start = msr_x2apic_base / 8 in
    let len = (msr_x2apic_end - msr_x2apic_base + 1) / 8 in
    if leb start i && ltb i (start + len) then 0 else f i

unfoldable pub early_msr_bitmap : Bool → MsrBitmap → MsrBitmap
unfolding allow_x2apic update
early_msr_bitmap using_x2apic b =
    if using_x2apic
    then record {
      reads = allow_x2apic b.reads;
      writes = update (allow_x2apic b.writes) (msr_x2apic_icr / 8) 0x01;
    }
    else b
