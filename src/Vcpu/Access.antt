-- ===== src/Vcpu/Access.antt =====
-- Intercepted accesses to ports and memory: `vcpu_handle_io_access` and `vcpu_handle_mmio_access` of
-- vcpu.c, `vcpu_vendor_get_io_intercept` and `vcpu_vendor_get_mmio_intercept` of vmx.c.
pub mod Outcome
use spy.Base.{
  ℕ, ◌+◌, ◌-◌, ◌*◌, ◌/◌, ◌%◌, ◌^◌, bit_and, bit_or, ◌>>>◌, u16, u32, ◌==◌, Bool, true, false, not,
  ◌&&◌, ◌||◌, if◌then◌else◌, has,
}
use spy.Vmcs.{vmcs_read64}
use spy.Vmcs.Fields
use spy.Vcpu.Guest.{cache_pdptes}
use spy.Cpu.{PerCpu, set_reg, skip_emulated_instruction}

-- `struct vcpu_io_intercept`
pub record IoIntercept : Type 0 where
  pub port : ℕ
  pub size : ℕ
  pub input : Bool
  pub inst_len : ℕ
  pub rep_or_str : Bool

unfoldable pub io_of_qualification : ℕ → ℕ → IoIntercept
io_of_qualification exitq inst_len = record {
  port = bit_and (exitq >>> 16) 0xffff;
  size = bit_and exitq 0x3 + 1;
  input = not (bit_and exitq 0x8 >>> 3 == 0);
  inst_len = u32 inst_len;
  rep_or_str = has exitq 0x30;
}

unfoldable pub get_io_intercept : PerCpu → IoIntercept
unfolding io_of_qualification vmcs_read64
get_io_intercept cpu =
    io_of_qualification (vmcs_read64 Fields.exit_qualification cpu.vmcs)
      (vmcs_read64 Fields.vm_exit_instruction_len cpu.vmcs)

-- The `int` of a handler of ports: 0, 1 or negative.
pub data IoResult : Type 0 where
  unhandled handled failed : IoResult

-- The PCI configuration ports and the i8042, of other files: port, direction and size.
abbrev pub IoHandler : Type 0
IoHandler = ℕ → Bool → ℕ → PerCpu → IoResult × PerCpu

-- The second handler, where the first did not know the port.
unfoldable pub or_else : IoHandler → IoIntercept → IoResult × PerCpu → IoResult × PerCpu
or_else handler io (unhandled, cpu) = handler io.port io.input io.size cpu
or_else handler io (handled, cpu) = (handled, cpu)
or_else handler io (failed, cpu) = (failed, cpu)

unfoldable pub is_handled : IoResult → Bool
is_handled unhandled = false
is_handled handled = true
is_handled failed = false

unfoldable pub handle_io_access : IoHandler → IoHandler → PerCpu → Bool × PerCpu
handle_io_access pci_config i8042 cpu =
    let io = get_io_intercept cpu in
    let (result, after) = or_else i8042 io (pci_config io.port io.input io.size cpu) in
    if io.rep_or_str
    then (false, cpu)
    else if is_handled result || (io.port == 0x80 && io.size == 1)
    then (true, skip_emulated_instruction io.inst_len after)
    else (false, after)

-- `struct mmio_instruction`, parsed from the guest's code by another file; no instruction where
-- `inst_len` is 0.
pub record MmioInstruction : Type 0 where
  pub inst_len : ℕ
  pub access_size : ℕ
  pub in_reg_num : ℕ
  pub reg_preserve_mask : ℕ
  pub out_val : ℕ

-- `struct mmio_access`
pub record MmioAccess : Type 0 where
  pub address : ℕ
  pub size : ℕ
  pub is_write : Bool
  pub value : ℕ

-- `enum mmio_result`
pub data MmioResult : Type 0 where
  mmio_error mmio_unhandled mmio_handled : MmioResult

-- The parser and the dispatcher of MMIO, of other files. The dispatcher gives the value that was read.
pub record Mmio : Type 0 where
  pub parse : PerCpu → Bool → MmioInstruction
  pub handle_access : MmioAccess → PerCpu → MmioResult × (ℕ × PerCpu)

unfoldable pub mmio_is_write : PerCpu → Bool
unfolding vmcs_read64
mmio_is_write cpu = has (vmcs_read64 Fields.exit_qualification cpu.vmcs) 0x2

-- What follows an access with its result, the value read and the state.
unfoldable pub finish_mmio : MmioInstruction → Bool → MmioResult × (ℕ × PerCpu) → Bool × PerCpu
finish_mmio inst is_write (mmio_error, (value, cpu)) = (false, cpu)
finish_mmio inst is_write (mmio_unhandled, (value, cpu)) = (false, cpu)
finish_mmio inst is_write (mmio_handled, (value, cpu)) =
    let merged = bit_or (bit_and (cpu.guest_regs inst.in_reg_num) inst.reg_preserve_mask) value in
    (
      true,
      skip_emulated_instruction inst.inst_len
          (if is_write then cpu else set_reg inst.in_reg_num merged cpu),
    )

unfoldable pub handle_mmio_access : Mmio → PerCpu → Bool × PerCpu
unfolding vmcs_read64 finish_mmio mmio_is_write cache_pdptes
handle_mmio_access mmio cpu =
    let is_write = mmio_is_write cpu in
    let cached = cache_pdptes cpu in
    let inst = mmio.parse cached is_write in
    let access : MmioAccess = record {
      address = vmcs_read64 Fields.guest_physical_address cpu.vmcs;
      size = inst.access_size;
      is_write = is_write;
      value = if is_write then inst.out_val else 0;
    } in
    if inst.inst_len == 0
    then (false, cached)
    else finish_mmio inst is_write (mmio.handle_access access cached)
