-- ===== src/Vcpu/Access/Outcome.antt =====
-- What an intercepted access to a port or to memory does.
use spy.Base.{
  ℕ, ◌+◌, ◌-◌, ◌*◌, ◌/◌, ◌^◌, ◌<◌, ◌≤◌, ◌≡◌, ◌≢◌, refl, arith, Bool, true, false, not, ◌&&◌, ◌||◌,
  ◌==◌, bit_and, bit_or, bit_and_mask, bit_and_field, u64, if◌then◌else◌, ==_self, ==_ne,
  ℕ_discrete,
}
use spy.Vmcs.{update}
use spy.Vmcs.Fields
use spy.Vmcs.Laws.{AllSupported, write-fields}
use spy.Cpu.{PerCpu, set_reg, skip_emulated_instruction, write_field}
use spy.Vcpu.Guest.{cache_pdptes}
use spy.Vcpu.Access.{
  IoHandler, or_else, is_handled, io_of_qualification, get_io_intercept, handle_io_access, Mmio,
  MmioAccess, MmioInstruction, mmio_handled, mmio_is_write, finish_mmio, handle_mmio_access,
}

-- The exit qualification of an I/O instruction, from its parts: the size less one, the direction, the
-- string and the REP flag and the port.
abbrev pub qualification : ℕ → ℕ → ℕ → ℕ → ℕ → ℕ
qualification size input string rep port =
    (size - 1) + input * 2 ^ 3 + string * 2 ^ 4 + rep * 2 ^ 5 + port * 2 ^ 16

-- The parse of a qualification gives back its parts.
io_of_qualification-qualification :
    (size input string rep port len : ℕ)
    → 1 ≤ size
    → size ≤ 4
    → input ≤ 1
    → string ≤ 1
    → rep ≤ 1
    → port < 2 ^ 16
    → let io = io_of_qualification (qualification size input string rep port) len in
      (io.port ≡ port)
      × (io.size ≡ size)
      × (io.input ≡ not (input == 0))
      × (io.rep_or_str ≡ not (string + rep == 0))
unfolding io_of_qualification
io_of_qualification-qualification size input string rep port len s1 s2 i1 t1 r1 p1 =
    let q = qualification size input string rep port in
    (
      rw (bit_and_mask 16 (q / 2 ^ 16)) (omega arith),
      rw (bit_and_mask 2 q) (omega arith),
      rw (bit_and_field 3 1 q) (ground arith),
      rw (bit_and_field 4 2 q) (ground arith),
    )

-- A port access is emulated just if it is no string or repeated instruction and the PCI configuration
-- ports take it, or know it not and the i8042 takes it, or it is a byte at port 0x80.
io_access-emulated :
    (pci_config i8042 : IoHandler) (cpu : PerCpu)
    → let io = get_io_intercept cpu in
      let first = pci_config io.port io.input io.size cpu in
      (handle_io_access pci_config i8042 cpu).0 ≡ (
        not io.rep_or_str
        && (is_handled (or_else i8042 io first).0 || (io.port == 0x80 && io.size == 1)))
unfolding handle_io_access
io_access-emulated pci_config i8042 cpu = ground arith

finished :
    (inst : MmioInstruction) (after : PerCpu) (value : ℕ)
    → AllSupported after.vmcs
    → (is_write : Bool)
    → ((finish_mmio inst is_write (mmio_handled, (value, after))).0 ≡ true)
      × ((finish_mmio inst is_write (mmio_handled, (value, after))).1.vmcs.fields Fields.guest_rip
          ≡ u64 (after.vmcs.fields Fields.guest_rip + inst.inst_len))
      × ((i : ℕ)
          → (finish_mmio inst is_write (mmio_handled, (value, after))).1.guest_regs i ≡ (
              if not is_write && i == inst.in_reg_num
              then bit_or (bit_and (after.guest_regs i) inst.reg_preserve_mask) value
              else after.guest_regs i))
unfolding finish_mmio skip_emulated_instruction write_field set_reg update
finished inst after value all true = (
  refl,
  write-fields Fields.guest_rip _ after.vmcs Fields.guest_rip (all Fields.guest_rip),
  λ i. refl,
)
finished inst after value all false = (
  refl,
  write-fields Fields.guest_rip _ after.vmcs Fields.guest_rip (all Fields.guest_rip),
  λ i. elim (ℕ_discrete i inst.in_reg_num) [
    | yes e ↦ rw (e, ==_self inst.in_reg_num) refl
    | no ne ↦ rw (==_ne i inst.in_reg_num ne) refl
  ],
)

module _ (mmio : Mmio) (cpu : PerCpu) where
  abbrev pub parsed : MmioInstruction
  parsed = mmio.parse (cache_pdptes cpu) (mmio_is_write cpu)

  -- The access that is handed to the dispatcher.
  abbrev pub access : MmioAccess
  access = record {
    address = cpu.vmcs.fields Fields.guest_physical_address;
    size = parsed.access_size;
    is_write = mmio_is_write cpu;
    value = if mmio_is_write cpu then parsed.out_val else 0;
  }

  -- An access whose instruction is parsed and which the dispatcher has handled, on a processor that has
  -- all fields of the VMCS, goes on behind the instruction. A read joins the value to the bits of the
  -- register that the instruction preserves; every other register, and all of them on a write, is as
  -- the dispatcher left it.
  mmio_access-handled :
      (after : PerCpu) (value : ℕ)
      → parsed.inst_len ≢ 0
      → AllSupported after.vmcs
      → mmio.handle_access access (cache_pdptes cpu) ≡ (mmio_handled, (value, after))
      → ((handle_mmio_access mmio cpu).0 ≡ true)
        × ((handle_mmio_access mmio cpu).1.vmcs.fields Fields.guest_rip
            ≡ u64 (after.vmcs.fields Fields.guest_rip + parsed.inst_len))
        × ((i : ℕ)
            → (handle_mmio_access mmio cpu).1.guest_regs i ≡ (
                if not (mmio_is_write cpu) && i == parsed.in_reg_num
                then bit_or (bit_and (after.guest_regs i) parsed.reg_preserve_mask) value
                else after.guest_regs i))
  unfolding handle_mmio_access
  mmio_access-handled after value some all h =
      rw (==_ne parsed.inst_len 0 some, h) (finished parsed after value all (mmio_is_write cpu))
