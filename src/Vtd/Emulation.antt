-- ===== src/Vtd/Emulation.antt =====
-- The interrupt remapping of Linux that vtd.c emulates: `vtd_emulate_inv_int`,
-- `vtd_emulate_qi_request`, `vtd_unit_access_handler` and `iommu_get_remapped_root_int`.
pub mod Owners
pub mod Answers
pub mod Queue
pub mod Tail
pub mod Message
mod Tests
use spy.Base.Store.{put}
use spy.Base.{
  ℕ, zero, suc, ◌+◌, ◌-◌, ◌*◌, ◌/◌, ◌%◌, ◌^◌, Bool, true, false, not, ◌&&◌, ◌||◌, Option, none,
  some, bit_and, bit_or, bit_mask, not32, not64, ◌>>>◌, ◌<<<◌, u16, u32, has, if◌then◌else◌, ltb,
  leb, ◌==◌,
}
use spy.Base.Result.{Result, ok, err, Errno, einval}
use spy.Paging.{page_size}
use spy.Vtd.{
  Entry, req_inv_int, inv_int_index, inv_int_iidx_shift, req_inv_wait, inv_wait_if, inv_wait_sw,
  inv_wait_sdata_shift,
}
use spy.Vcpu.Access.{MmioAccess, MmioResult, mmio_error, mmio_handled}
use spy.Vtd.Queue.{Hardware}
use spy.Vtd.Remap.{Irte, Remap, IrqMessage, Apic, map_interrupt}

abbrev pub fsts_reg : ℕ
fsts_reg = 0x34

abbrev pub fectl_reg : ℕ
fectl_reg = 0x38

abbrev pub feuaddr_reg : ℕ
feuaddr_reg = 0x44

abbrev pub iqt_reg : ℕ
iqt_reg = 0x88

abbrev pub iqh_qh_shift : ℕ
iqh_qh_shift = 4

abbrev pub iqt_qt_mask : ℕ
iqt_qt_mask = bit_mask 18 4

abbrev pub irta_addr_mask : ℕ
irta_addr_mask = bit_mask 63 12

abbrev pub req_inv_mask : ℕ
req_inv_mask = bit_mask 3 0

abbrev pub inv_int_im_mask : ℕ
inv_int_im_mask = bit_mask 31 27

abbrev pub inv_int_im_shift : ℕ
inv_int_im_shift = 27

abbrev pub inv_int_iidx_mask : ℕ
inv_int_iidx_mask = bit_mask 47 32

-- `PAGE_OFFS_MASK`
abbrev pub page_offs_mask : ℕ
page_offs_mask = page_size - 1

-- `struct vtd_irte_usage`
pub record IrteUsage : Type 0 where
  pub device_id : ℕ
  pub vector : ℕ
  pub used : Bool

-- `struct vtd_emulation`
pub record EmulatedUnit : Type 0 where
  pub irta : ℕ
  pub irt_entries : ℕ
  pub irte_map : ℕ → IrteUsage
  pub iqa : ℕ
  pub iqh : ℕ
  pub fault_event_regs : ℕ → ℕ

-- The memory of the guest, of another file: the address at which a page of the guest is mapped, for
-- writing or not, and what is read and written through it.
pub record GuestMemory (M : Type 0) : Type 0 where
  pub get_page : ℕ → Bool → M → Option ℕ
  pub entry_at : ℕ → M → Entry
  pub irte_at : ℕ → M → Irte
  pub store32 : ℕ → ℕ → M → M

-- `root_target_units`, the tables of interrupts and the memory.
pub record Emulation (M : Type 0) : Type 0 where
  pub units : ℕ → EmulatedUnit
  pub remap : Remap
  pub memory : M

-- The devices of the root target, of other files: whether a device is an ivshmem device, and the update
-- of a vector of such a device, which is taken to change the memory of guests alone.
pub record RootDevices (M : Type 0) : Type 0 where
  pub is_ivshmem : ℕ → Bool
  pub update_msix_vector : ℕ → ℕ → M → Result ℕ × M

abbrev pub no_message : IrqMessage
no_message = record {
  valid = false;
  vector = 0;
  delivery_mode = 0;
  dest_logical = 0;
  level_triggered = 0;
  redir_hint = 0;
  destination = 0;
}

module _ {M : Type 0} where
  unfoldable pub set_unit : ℕ → EmulatedUnit → Emulation M → Emulation M
  unfolding put
  set_unit n unit s = record s { units = put s.units n unit }

  unfoldable pub set_usage : ℕ → ℕ → IrteUsage → Emulation M → Emulation M
  unfolding put set_unit
  set_usage n index usage s =
      let unit = s.units n in
      set_unit n (record unit { irte_map = put unit.irte_map index usage }) s

-- The message in an entry of Linux's table.
unfoldable pub message_of : Bool → ℕ → Irte → IrqMessage
message_of using_x2apic device_id irte = record {
  valid = irte.p && irte.sid == device_id;
  vector = irte.vector;
  delivery_mode = irte.delivery_mode;
  dest_logical = irte.dest_logical;
  level_triggered = irte.level_triggered;
  redir_hint = irte.redir_hint;
  destination = if not using_x2apic then irte.destination >>> 8 else irte.destination;
}

module _ {M : Type 0} (mem : GuestMemory M) where
  unfoldable pub emulate_wait : Entry → Emulation M → Result ℕ × Emulation M
  emulate_wait inv_desc s =
      if has inv_desc.lo_word inv_wait_if || not (has inv_desc.lo_word inv_wait_sw)
      then (err einval, s)
      else elim (mem.get_page inv_desc.hi_word true s.memory) [
        | none ↦ (err einval, s)
        | some page ↦ (
          ok 0,
          record s {
            memory =
                mem.store32 (page + bit_and (bit_and inv_desc.hi_word page_offs_mask) (not32 3))
                  (u32 (inv_desc.lo_word >>> inv_wait_sdata_shift)) s.memory;
          },
        )
      ]

module _ {M : Type 0} (mem : GuestMemory M) (apic : Apic) where
  unfoldable pub get_remapped_root_int : ℕ → ℕ → ℕ → ℕ → Emulation M → IrqMessage × Emulation M
  unfolding set_usage message_of
  get_remapped_root_int iommu device_id vector remap_index s =
      let unit = s.units iommu in
      let usage = unit.irte_map remap_index in
      let unused = set_usage iommu remap_index (record usage { used = false }) s in
      let irte_addr = bit_and unit.irta irta_addr_mask + remap_index * 16 in
      if leb unit.irt_entries remap_index
      then (no_message, s)
      else elim (mem.get_page irte_addr false s.memory) [
        | none ↦ (no_message, unused)
        | some irte_page ↦ (
          message_of apic.using_x2apic device_id
              (mem.irte_at (irte_page + bit_and irte_addr page_offs_mask) s.memory),
          set_usage iommu remap_index
              (record { device_id = u16 device_id; vector = vector % 2 ^ 10; used = true }) s,
        )
      ]

  module _ (limit : ℕ) (hw : Hardware) (devices : RootDevices M) where
    -- `none` is a call that waits for the hardware.
    unfoldable pub emulate_inv_int : ℕ → ℕ → Emulation M → Option (Result ℕ × Emulation M)
    unfolding get_remapped_root_int map_interrupt
    emulate_inv_int unit_no index s =
        let unit = s.units unit_no in
        let usage = unit.irte_map index in
        let (result, memory) = devices.update_msix_vector usage.device_id usage.vector s.memory in
        let (irq_msg, s') = get_remapped_root_int unit_no usage.device_id usage.vector index s in
        if leb unit.irt_entries index
        then some (ok 0, s)
        else if not usage.used
        then some (ok 0, s)
        else if devices.is_ivshmem usage.device_id
        then some (result, record s { memory = memory })
        else elim (map_interrupt limit hw apic usage.device_id usage.vector irq_msg s'.remap) [
          | none ↦ none
          | some (mapped, remap) ↦ some (mapped, record s' { remap = remap })
        ]

    -- The loop over the interrupts of a request, with `left` to go from `n` on.
    unfoldable pub emulate_range : ℕ → ℕ → ℕ → Emulation M → Option (Result ℕ × Emulation M)
    unfolding emulate_inv_int
    emulate_range unit_no zero n s = some (ok 0, s)
    emulate_range unit_no (suc left) n s = elim (emulate_inv_int unit_no n s) [
      | none ↦ none
      | some (err e, s') ↦ some (err e, s')
      | some (ok index, s') ↦ emulate_range unit_no left (n + 1) s'
    ]

    unfoldable pub emulate_qi_request : ℕ → Entry → Emulation M → Option (Result ℕ × Emulation M)
    unfolding emulate_range emulate_wait
    emulate_qi_request unit_no inv_desc s =
        let kind = bit_and inv_desc.lo_word req_inv_mask in
        let start = bit_and inv_desc.lo_word inv_int_iidx_mask >>> inv_int_iidx_shift in
        let count = 1 <<< (bit_and inv_desc.lo_word inv_int_im_mask >>> inv_int_im_shift) in
        if kind == req_inv_int
        then if has inv_desc.lo_word inv_int_index
          then emulate_range unit_no count start s
          else emulate_range unit_no (s.units unit_no).irt_entries 0 s
        else if kind == req_inv_wait
        then some (emulate_wait mem inv_desc s)
        else some (err einval, s)

    -- The loop that a write of the tail register starts: whether it consumed all entries up to `tail` or met one
    -- that it does not support. `none` is a loop that waits for the hardware, or has more than `rounds`
    -- entries to consume.
    unfoldable pub consume : ℕ → ℕ → ℕ → Emulation M → Option (Bool × Emulation M)
    unfolding set_unit emulate_qi_request
    consume zero unit_no tail s = none
    consume (suc rounds) unit_no tail s =
        let unit = s.units unit_no in
        if unit.iqh == tail then some (true, s) else elim (mem.get_page unit.iqa false s.memory) [
          | none ↦ some (false, s)
          | some page ↦
              elim (emulate_qi_request unit_no (mem.entry_at (page + unit.iqh) s.memory) s) [
                | none ↦ none
                | some (err e, s') ↦ some (false, s')
                | some (ok (suc n), s') ↦ some (false, s')
                | some (ok zero, s') ↦
                    let unit' = s'.units unit_no in
                    consume rounds unit_no tail (
                      set_unit unit_no
                        (record unit' {
                          iqh = bit_and (u16 (unit'.iqh + (1 <<< iqh_qh_shift))) page_offs_mask;
                        })
                        s')
              ]
        ]

    -- The result, the access with the value that was read, and the state.
    unfoldable pub unit_access_handler :
        ℕ → ℕ → MmioAccess → Emulation M → Option (MmioResult × (MmioAccess × Emulation M))
    unfolding consume set_unit put
    unit_access_handler rounds unit_no mmio s =
        let unit = s.units unit_no in
        let reg = (mmio.address - fectl_reg) / 4 in
        let regs = put unit.fault_event_regs reg (u32 mmio.value) in
        let tail = bit_and (bit_and mmio.value iqt_qt_mask) page_offs_mask in
        if mmio.address == fsts_reg && not mmio.is_write
        then some (mmio_handled, (record mmio { value = 0 }, s))
        else if leb fectl_reg mmio.address && leb mmio.address feuaddr_reg
        then some (
          mmio_handled,
          if mmio.is_write
              then (mmio, set_unit unit_no (record unit { fault_event_regs = regs }) s)
              else (record mmio { value = unit.fault_event_regs reg }, s),
        )
        else if mmio.address == iqt_reg && mmio.is_write
        then elim (consume rounds unit_no tail s) [
          | none ↦ none
          | some (consumed, s') ↦ some (if consumed then mmio_handled else mmio_error, (mmio, s'))
        ]
        else some (mmio_error, (mmio, s))
