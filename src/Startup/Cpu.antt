-- ===== src/Startup/Cpu.antt =====
-- `arch_cpu_init` and `arch_cpu_restore` of setup.c: the hypervisor takes a CPU over from Linux and gives
-- it back.
pub mod Switched
pub mod Kept
pub mod GivenBack
pub mod Restore
use spy.Base.{
  ℕ, zero, suc, ◌+◌, ◌-◌, ◌*◌, ◌/◌, ◌%◌, ◌^◌, Bool, true, false, not, Option, none, some, bit_and,
  bit_or, not64, has, leb, ltb, if◌then◌else◌, ◌==◌,
}
use spy.Base.Result.{Errno, einval}
use spy.Base.Store.{put}
use spy.Cpu.{PerCpu, Linux, Segment, DescTableReg}
use spy.Cpu.Consts
use spy.Vmx.{Vmx, TargetAddrs}
use spy.Vmx.Features.{Processor}
use spy.Vmx.Setup.{num_entry_regs, Host}
use spy.Vmx.Init.{Init, Machine, Instructions, vcpu_init, vcpu_exit}
use spy.Startup.{desc_tss_busy, num_idt_desc, read_descriptor}

abbrev pub num_gdt_desc : ℕ
num_gdt_desc = 16

abbrev pub pat_host_value : ℕ
pat_host_value = 0x070106

abbrev pub msr_efer : ℕ
msr_efer = 0xc0000080

abbrev pub msr_fs_base : ℕ
msr_fs_base = 0xc0000100

-- The registers of the real CPU that the file reads and writes.
pub record Registers : Type 0 where
  pub gdtr : DescTableReg
  pub idtr : DescTableReg
  pub tr : ℕ
  pub cs : ℕ
  pub ds : ℕ
  pub es : ℕ
  pub ss : ℕ
  pub fs : ℕ
  pub gs : ℕ
  pub cr0 : ℕ
  pub cr3 : ℕ
  pub cr4 : ℕ
  pub msr : ℕ → ℕ

-- The CPU, the table of descriptors that the file has for all CPUs, and what it keeps of this one.
pub record Start : Type 0 where
  pub regs : Registers
  pub gdt : ℕ → ℕ
  pub cpu : PerCpu
  pub vmx : Vmx
  pub linux_reg : ℕ → ℕ
  pub initialized : Bool

-- Where the tables of the hypervisor lie, and what `apic_cpu_init` returns.
pub record HvTables : Type 0 where
  pub gdt_base : ℕ
  pub idt_base : ℕ
  pub root_table_phys : ℕ
  pub apic_cpu_init : Option Errno

-- `ltr`: it marks the descriptor busy; `none` is the fault at one that is busy.
unfoldable pub ltr : ℕ → (ℕ → ℕ) → Option (ℕ → ℕ)
unfolding put
ltr selector gdt =
    let index = selector / 8 in
    if has (gdt index) desc_tss_busy
    then none
    else some (put gdt index (bit_or (gdt index) desc_tss_busy))

-- The registers that get back what was saved.
unfoldable pub give_back : Linux → ℕ → Registers → Registers
unfolding put
give_back l pat regs = record regs {
  cr0 = l.cr0;
  cr4 = l.cr4;
  cr3 = l.cr3;
  tr = l.tss.selector;
  gdtr = l.gdtr;
  idtr = l.idtr;
  cs = l.cs.selector;
  ds = l.ds.selector;
  es = l.es.selector;
  fs = l.fs.selector;
  gs = l.gs.selector;
  msr =
      put (put (put (put regs.msr Consts.msr_ia32_pat pat) msr_efer l.efer) msr_fs_base l.fs.base)
        Consts.msr_gs_base l.gs.base;
}

module _ (read : ℕ → ℕ) where
  unfoldable pub save_segment : DescTableReg → Segment → ℕ → Segment
  unfolding read_descriptor
  save_segment gdtr seg selector =
      read_descriptor read gdtr.base (record seg { selector = selector })

  -- The states of Linux once the descriptors are read and the control registers and MSRs are saved.
  unfoldable pub save_linux : Registers → Linux → Linux
  unfolding save_segment
  save_linux regs l = record l {
    gdtr = regs.gdtr;
    tss = save_segment regs.gdtr l.tss regs.tr;
    cs = save_segment regs.gdtr l.cs regs.cs;
    ds = save_segment regs.gdtr l.ds regs.ds;
    es = save_segment regs.gdtr l.es regs.es;
    fs = record (save_segment regs.gdtr l.fs regs.fs) { base = regs.msr msr_fs_base };
    gs = record (save_segment regs.gdtr l.gs regs.gs) { base = regs.msr Consts.msr_gs_base };
    ip = read (l.sp + num_entry_regs * 8);
    idtr = regs.idtr;
    cr0 = regs.cr0;
    cr4 = regs.cr4;
    cr3 = regs.cr3;
    efer = regs.msr msr_efer;
  }

  -- From the check of the selector on up to `initialized = true`, with the descriptor table that `ltr` left.
  unfoldable pub take_over : HvTables → (ℕ → ℕ) → Start → Start
  unfolding save_linux put
  take_over place gdt s =
      let regs = s.regs in
      record s {
        regs = record regs {
          gdtr = record { limit = num_gdt_desc * 8 - 1; base = place.gdt_base };
          cs = Consts.gdt_desc_code * 8;
          idtr = record { limit = num_idt_desc * 16 - 1; base = place.idt_base };
          es = 0;
          ds = 0;
          ss = 0;
          tr = Consts.gdt_desc_tss * 8;
          cr3 = place.root_table_phys;
          msr = put regs.msr Consts.msr_ia32_pat pat_host_value;
        };
        gdt = gdt;
        cpu = record s.cpu {
          linux = save_linux regs s.cpu.linux;
          pat = regs.msr Consts.msr_ia32_pat;
          mtrr_def_type = regs.msr Consts.msr_ia32_mtrr_def_type;
        };
        linux_reg =
            λ n. if ltb n num_entry_regs then read (s.cpu.linux.sp + n * 8) else s.linux_reg n;
        initialized = true;
      }

  module _ (hw : Processor) (ins : Instructions) (host : Host) (target : TargetAddrs) where
    -- `vcpu_init` on the registers of this CPU.
    unfoldable pub init_vcpu : Start → Option Errno × Start
    unfolding vcpu_init put
    init_vcpu s =
        let regs = s.regs in
        let (err, after) = vcpu_init hw ins host target (record {
          cpu = s.cpu;
          vmx = s.vmx;
          machine = record {
            cr0 = regs.cr0;
            cr4 = regs.cr4;
            feature_control = regs.msr Consts.msr_ia32_feature_control;
            perf_global_ctrl = regs.msr Consts.msr_ia32_perf_global_ctrl;
          };
        }) in
        (
          err,
          record s {
            cpu = after.cpu;
            vmx = after.vmx;
            regs = record regs {
              cr0 = after.machine.cr0;
              cr4 = after.machine.cr4;
              msr =
                  put (put regs.msr Consts.msr_ia32_feature_control after.machine.feature_control)
                    Consts.msr_ia32_perf_global_ctrl after.machine.perf_global_ctrl;
            };
          },
        )

    -- `none` is a fault of `ltr`.
    unfoldable pub arch_cpu_init : HvTables → Start → Option (Option Errno × Start)
    unfolding save_segment take_over init_vcpu ltr put
    arch_cpu_init place s =
        let l = s.cpu.linux in
        let tss = save_segment s.regs.gdtr l.tss s.regs.tr in
        let refused = record s {
          cpu = record s.cpu { linux = record l { gdtr = s.regs.gdtr; tss = tss } };
        } in
        let cleared =
          put s.gdt Consts.gdt_desc_tss
            (bit_and (s.gdt Consts.gdt_desc_tss) (not64 desc_tss_busy)) in
        if leb num_gdt_desc (s.regs.tr / 8)
        then some (some einval, refused)
        else elim (ltr (Consts.gdt_desc_tss * 8) cleared) [
          | none ↦ none
          | some gdt ↦ elim place.apic_cpu_init [
            | some err ↦ some (some err, take_over place gdt s)
            | none ↦ some (init_vcpu (take_over place gdt s))
          ]
        ]

  -- `none` is a write behind the end of the descriptor table, or a fault of `ltr`.
  unfoldable pub arch_cpu_restore : Start → Option Start
  unfolding give_back ltr vcpu_exit put
  arch_cpu_restore s =
      let cpu = vcpu_exit s.cpu in
      let l = cpu.linux in
      let tss_idx = l.tss.selector / 8 in
      let low = bit_and (read (l.gdtr.base + tss_idx * 8)) (not64 desc_tss_busy) in
      let gdt =
        put (put s.gdt tss_idx low) (tss_idx + 1) (read (l.gdtr.base + (tss_idx + 1) * 8)) in
      if not s.initialized
      then some s
      else if leb num_gdt_desc (tss_idx + 1)
      then none
      else elim (ltr l.tss.selector gdt) [
        | none ↦ none
        | some gdt' ↦ some (record s { cpu = cpu; gdt = gdt'; regs = give_back l cpu.pat s.regs })
      ]
