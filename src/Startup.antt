-- ===== src/Startup.antt =====
-- hypervisor/arch/x86/setup.c: the table of interrupts, the descriptors of Linux, and the start and the
-- return of a CPU.
pub mod Gates
pub mod Early
pub mod Cpu
mod Tests
use spy.Base.{
  ℕ, zero, suc, ◌+◌, ◌-◌, ◌*◌, ◌/◌, ◌%◌, ◌^◌, ◌≡◌, Bool, ◌||◌, Option, none, some, bit_and, bit_or,
  ◌<<<◌, ◌>>>◌, u32, u64, has, ltb, if◌then◌else◌, ◌==◌,
}
use spy.Base.Result.{Errno}
use spy.Base.Store.{put}
use spy.Cpu.{Segment}
use spy.Cpu.Consts

abbrev pub idt_present_int : ℕ
idt_present_int = 0x00008e00

abbrev pub num_idt_desc : ℕ
num_idt_desc = 256

abbrev pub num_excp_desc : ℕ
num_excp_desc = 20

abbrev pub irq_desc_start : ℕ
irq_desc_start = 32

abbrev pub nmi_vector : ℕ
nmi_vector = 2

abbrev pub desc_tss_busy : ℕ
desc_tss_busy = 1 <<< (9 + 32)

abbrev pub desc_present : ℕ
desc_present = 1 <<< (15 + 32)

abbrev pub desc_code_data : ℕ
desc_code_data = 1 <<< (12 + 32)

abbrev pub desc_page_gran : ℕ
desc_page_gran = 1 <<< (23 + 32)

-- The words of a gate, in the order of the table.
abbrev pub gate_low : ℕ → ℕ
gate_low entry = bit_or (bit_and entry 0xffff) ((Consts.gdt_desc_code * 8) <<< 16)

abbrev pub gate_middle : ℕ → ℕ
gate_middle entry = u32 (bit_or idt_present_int (bit_and entry 0xffff0000))

abbrev pub gate_high : ℕ → ℕ
gate_high entry = u32 (entry >>> 32)

unfoldable pub set_idt_int_gate : ℕ → ℕ → (ℕ → ℕ) → ℕ → ℕ
unfolding put
set_idt_int_gate vector entry idt =
    put (put (put idt (vector * 4) (gate_low entry)) (vector * 4 + 1) (gate_middle entry))
      (vector * 4 + 2) (gate_high entry)

-- The loop over the exceptions from `vector` on, of which the handlers are 16 bytes apart.
unfoldable pub set_exceptions : ℕ → ℕ → ℕ → (ℕ → ℕ) → ℕ → ℕ
unfolding set_idt_int_gate
set_exceptions zero vector entry idt = idt
set_exceptions (suc left) vector entry idt =
    let skipped = vector == nmi_vector || vector == 15 in
    set_exceptions left (vector + 1) (if skipped then entry else entry + 16)
      (if skipped then idt else set_idt_int_gate vector entry idt)

unfoldable pub set_irqs : ℕ → ℕ → ℕ → (ℕ → ℕ) → ℕ → ℕ
unfolding set_idt_int_gate
set_irqs zero vector entry idt = idt
set_irqs (suc left) vector entry idt =
    set_irqs left (vector + 1) entry (set_idt_int_gate vector entry idt)

-- The addresses of the handlers, and what the calls of other files return.
pub record Handlers : Type 0 where
  pub exception_entries : ℕ
  pub nmi_entry : ℕ
  pub irq_entry : ℕ
  pub apic_init : Option Errno
  pub vcpu_early_init : Option Errno

-- The static variables of the file.
pub record Statics : Type 0 where
  pub cache_line_size : ℕ
  pub idt : ℕ → ℕ

-- `cpuid_ebx` is the value of `cpuid_ebx(1, 0)`.
unfoldable pub arch_init_early : Handlers → ℕ → Statics → Option Errno × Statics
unfolding set_exceptions set_irqs
arch_init_early handlers cpuid_ebx s =
    let s1 : Statics = record s { cache_line_size = bit_and cpuid_ebx 0xff00 >>> 5 } in
    let excp = set_exceptions num_excp_desc 0 handlers.exception_entries s.idt in
    let nmi = set_idt_int_gate nmi_vector handlers.nmi_entry excp in
    let irqs = set_irqs (num_idt_desc - irq_desc_start) irq_desc_start handlers.irq_entry nmi in
    elim handlers.apic_init [
      | some err ↦ (some err, s1)
      | none ↦ (handlers.vcpu_early_init, record s1 { idt = irqs })
    ]

-- `read_descriptor`, where `read` is the memory by the address of a 64-bit word. The base is 64 bits wide,
-- the limit 32.
unfoldable pub read_descriptor : (ℕ → ℕ) → ℕ → Segment → Segment
read_descriptor read gdtr_base seg =
    let desc = gdtr_base + bit_and seg.selector 0xfff8 in
    let desc0 = read desc in
    let desc1 = read (desc + 8) in
    let base = bit_or (bit_and (desc0 >>> 16) 0xffffff) (bit_and (desc0 >>> 32) 0xff000000) in
    let limit = bit_or (bit_and desc0 0xffff) (bit_and (desc0 >>> 32) 0xf0000) in
    if has desc0 desc_present
    then record seg {
      base = if has desc0 desc_code_data then base else bit_or base (u64 (desc1 <<< 32));
      limit = if has desc0 desc_page_gran then u32 (bit_or (limit <<< 12) 0xfff) else limit;
      access_rights = bit_and (desc0 >>> 40) 0xf0ff;
    }
    else record seg { base = 0; limit = 0; access_rights = 0x10000 }
