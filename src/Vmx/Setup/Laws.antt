-- ===== src/Vmx/Setup/Laws.antt =====
-- What `vmcs_setup` leaves: the state of Linux, and the means by which the hypervisor confines it.
use spy.Base.{
  ℕ, ◌+◌, ◌^◌, ◌<◌, ◌≡◌, ◌∙◌, refl, arith, true, bit_and, bit_or, not64, u32, u16, u64,
  bit_and_assoc, bit_and_comm, bit_and-bit_or, bit_or_comm, bit_or-bit_and_self, ap, bit_and_mask,
  bit_and-bit_or_self, bit_and-zero, low_mask,
}
use spy.Vmcs.{Vmcs}
use spy.Vmcs.Fields
use spy.Vmcs.Laws.{AllSupported, writes-fields, writes-ok}
use spy.Cpu.{Segment, PerCpu, Linux}
use spy.Cpu.Consts
use spy.Paging.{page_size}
use spy.Vmx.{Vmx, TargetAddrs, target_config_writes, guest_segment_writes}
use spy.Vmx.Cr.{guest_cr_writes, shown_cr}
use spy.Vmx.Setup.{
  Host, host_writes, guest_writes, control_writes, setup_writes, vmcs_setup, pin_based_control,
  cpu_based_control, secondary_control,
}

-- Flags of 32 bits that are set stay set when the value is cut to 32 bits.
flags_in_u32 : (x f : ℕ) → f < 2 ^ 32 → bit_and (u32 x) f ≡ bit_and x f
flags_in_u32 x f lt =
    let e : bit_and (low_mask 32) f ≡ f =
      bit_and_comm (low_mask 32) f ∙ bit_and_mask 32 f ∙ omega arith in
    rw (← bit_and_mask 32 x, bit_and_assoc x (low_mask 32) f, e) refl

pub flags_set : (x f : ℕ) → f < 2 ^ 32 → bit_and (u32 (bit_or x f)) f ≡ f
flags_set x f lt = flags_in_u32 (bit_or x f) f lt ∙ bit_and-bit_or_self x f

flags_set_but :
    (x f g : ℕ)
    → f < 2 ^ 32
    → bit_and (not64 g) f ≡ f
    → bit_and (u32 (bit_and (bit_or x f) (not64 g))) f ≡ f
flags_set_but x f g lt e =
    rw
      (
        flags_in_u32 (bit_and (bit_or x f) (not64 g)) f lt,
        bit_and_assoc (bit_or x f) (not64 g) f,
        e,
      )
      (bit_and-bit_or_self x f)

pub flags_cleared :
    (x g : ℕ) → g < 2 ^ 32 → bit_and (not64 g) g ≡ 0 → bit_and (u32 (bit_and x (not64 g))) g ≡ 0
flags_cleared x g lt e =
    rw (flags_in_u32 (bit_and x (not64 g)) g lt, bit_and_assoc x (not64 g) g, e) (bit_and-zero x)

-- A flag of one side of an `|` is one of the whole.
pub or_has : (x a f : ℕ) → bit_and a f ≡ f → bit_and (bit_or x a) f ≡ f
or_has x a f h = rw (bit_and-bit_or x a f, h, bit_or_comm (bit_and x f) f) (bit_or-bit_and_self f x)

-- The fields of a segment register hold the segment.
abbrev pub Loaded : Vmcs → Segment → ℕ → Type 0
Loaded vmcs seg selector_field =
    (vmcs.fields selector_field ≡ u16 seg.selector)
    × (vmcs.fields (selector_field + Fields.guest_seg_base) ≡ seg.base)
    × (vmcs.fields (selector_field + Fields.guest_seg_limit) ≡ u32 seg.limit)
    × (vmcs.fields (selector_field + Fields.guest_seg_ar_bytes) ≡ u32 seg.access_rights)

abbrev io_flags : ℕ
io_flags =
    bit_or (bit_or Consts.cpu_based_use_io_bitmaps Consts.cpu_based_use_msr_bitmaps)
      Consts.cpu_based_activate_secondary_controls

abbrev cr3_flags : ℕ
cr3_flags = bit_or Consts.cpu_based_cr3_load_exiting Consts.cpu_based_cr3_store_exiting

abbrev ept_flags : ℕ
ept_flags =
    bit_or (bit_or Consts.secondary_exec_virtualize_apic_accesses Consts.secondary_exec_enable_ept)
      Consts.secondary_exec_unrestricted_guest

-- What the setup leaves.
pub record Ready (vmx : Vmx) (host : Host) (target : TargetAddrs) (linux : Linux) (vmcs : Vmcs)
    : Type 0 where
  -- Linux goes on where it called, with its tables and segments.
  pub resumes :
      (vmcs.fields Fields.guest_rip ≡ linux.ip)
      × (vmcs.fields Fields.guest_rsp ≡ u64 (linux.sp + 56))
      × (vmcs.fields Fields.guest_cr3 ≡ linux.cr3)
      × (vmcs.fields Fields.guest_ia32_efer ≡ linux.efer)
      × (vmcs.fields Fields.cr0_read_shadow ≡ linux.cr0)
  pub segments :
      Loaded vmcs linux.cs Fields.guest_cs_selector
      × Loaded vmcs linux.ds Fields.guest_ds_selector
      × Loaded vmcs linux.es Fields.guest_es_selector
      × Loaded vmcs linux.fs Fields.guest_fs_selector
      × Loaded vmcs linux.gs Fields.guest_gs_selector
      × Loaded vmcs linux.tss Fields.guest_tr_selector
  -- An exit enters the hypervisor.
  pub exits :
      (vmcs.fields Fields.host_rip ≡ host.vmx_vmexit)
      × (vmcs.fields Fields.host_rsp ≡ host.stack_end)
      × (vmcs.fields Fields.host_cr3 ≡ host.cr3)
  -- The guest is confined to the memory, the ports and the MSRs of its target.
  pub confined :
      (vmcs.fields Fields.ept_pointer ≡ bit_or (bit_or target.ept_root_phys 6) 24)
      × (vmcs.fields Fields.io_bitmap_a ≡ target.io_bitmap_phys)
      × (vmcs.fields Fields.io_bitmap_b ≡ target.io_bitmap_phys + page_size)
      × (vmcs.fields Fields.msr_bitmap ≡ host.msr_bitmap_phys)
  -- The execution controls demand that.
  pub nmi_exits :
      bit_and (vmcs.fields Fields.pin_based_vm_exec_control) Consts.pin_based_nmi_exiting
      ≡ Consts.pin_based_nmi_exiting
  pub bitmaps_on : bit_and (vmcs.fields Fields.cpu_based_vm_exec_control) io_flags ≡ io_flags
  pub cr3_free : bit_and (vmcs.fields Fields.cpu_based_vm_exec_control) cr3_flags ≡ 0
  pub ept_on :
      bit_and (vmcs.fields Fields.secondary_vm_exec_control) Consts.secondary_exec_enable_ept
      ≡ Consts.secondary_exec_enable_ept
  -- CR4 has no bit of the hypervisor's any more, whatever `vmx_set_guest_cr` asked for.
  pub cr4_unmasked : vmcs.fields Fields.cr4_guest_host_mask ≡ 0

module _ (vmx : Vmx) (host : Host) (target : TargetAddrs) (cpu : PerCpu)
    (all : AllSupported cpu.vmcs) where
  abbrev after : Vmcs
  after = (vmcs_setup vmx host target cpu).1.vmcs

  -- On a processor that has all fields of the VMCS, the setup succeeds and leaves what `Ready` says.
  pub vmcs_setup-Ready :
      ((vmcs_setup vmx host target cpu).0 ≡ true) × Ready vmx host target cpu.linux after
  unfolding vmcs_setup setup_writes host_writes guest_writes guest_cr_writes guest_segment_writes
      target_config_writes control_writes shown_cr pin_based_control cpu_based_control
      secondary_control
  vmcs_setup-Ready =
      let ws = setup_writes vmx host target cpu in
      let at = λ (g : ℕ). writes-fields ws cpu.vmcs g all in
      (
        writes-ok ws cpu.vmcs all,
        record {
          resumes = (at _, at _, at _, at _, at _);
          segments = (
            (at _, at _, at _, at _),
            (at _, at _, at _, at _),
            (at _, at _, at _, at _),
            (at _, at _, at _, at _),
            (at _, at _, at _, at _),
            (at _, at _, at _, at _),
          );
          exits = (at _, at _, at _);
          confined = (at _, at _, at _, at _);
          nmi_exits =
              ap (λ c. bit_and c Consts.pin_based_nmi_exiting) (at _)
              ∙ flags_set _ Consts.pin_based_nmi_exiting (omega arith);
          bitmaps_on =
              ap (λ c. bit_and c io_flags) (at _)
              ∙ flags_set_but _ io_flags cr3_flags (omega arith) refl;
          cr3_free =
              ap (λ c. bit_and c cr3_flags) (at _) ∙ flags_cleared _ cr3_flags (omega arith) refl;
          ept_on =
              ap (λ c. bit_and c Consts.secondary_exec_enable_ept) (at _)
              ∙ flags_in_u32 _ Consts.secondary_exec_enable_ept (omega arith)
              ∙ or_has _ _ Consts.secondary_exec_enable_ept (
                  ap (λ x. bit_and x Consts.secondary_exec_enable_ept)
                    (bit_or_comm ept_flags vmx.secondary_exec_addon)
                  ∙ or_has vmx.secondary_exec_addon ept_flags Consts.secondary_exec_enable_ept
                      refl);
          cr4_unmasked = at _;
        },
      )
