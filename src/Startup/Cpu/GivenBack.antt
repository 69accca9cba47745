-- ===== src/Startup/Cpu/GivenBack.antt =====
-- `arch_cpu_restore` on a CPU whose saved states are kept.
use spy.Base.{
  ◌≢◌, ==_ne, ℕ_discrete, ℕ, ◌+◌, ◌*◌, ◌/◌, ◌<◌, ◌≡◌, ◌⊎◌, inl, inr, refl, ap, ◌∙◌, arith, true,
  false, some, bit_and, bit_or, not64, has, leb, bit_and_assoc, bit_and-zero,
}
use spy.Base.Store.{put, put_same, put_other}
use spy.Cpu.{PerCpu, Linux, Segment, DescTableReg, VmxState, vmxoff, vmxon, vmcs_ready}
use spy.Cpu.Consts
use spy.Vmx.Init.{vcpu_exit}
use spy.Startup.{desc_tss_busy, read_descriptor}
use spy.Startup.Cpu.{
  Registers, Start, ltr, save_segment, save_linux, give_back, arch_cpu_restore, msr_efer,
  msr_fs_base,
}

-- The registers are as they were, but for SS, which is null, and for the two MSRs that the start of VMX changes:
-- the control of the performance counters is as it was or 0, and the feature control is as it was or has the two
-- bits that lock VMX on.
pub record Restored (before after : Registers) : Type 0 where
  pub gdtr : after.gdtr ≡ before.gdtr
  pub idtr : after.idtr ≡ before.idtr
  pub tr : after.tr ≡ before.tr
  pub cs : after.cs ≡ before.cs
  pub data_segments : (after.ds ≡ before.ds) × (after.es ≡ before.es)
  pub fs : (after.fs ≡ before.fs) × (after.msr msr_fs_base ≡ before.msr msr_fs_base)
  pub gs : (after.gs ≡ before.gs) × (after.msr Consts.msr_gs_base ≡ before.msr Consts.msr_gs_base)
  pub cr0 : after.cr0 ≡ before.cr0
  pub cr3 : after.cr3 ≡ before.cr3
  pub cr4 : after.cr4 ≡ before.cr4
  pub ss : after.ss ≡ 0
  pub msrs :
      (r : ℕ)
      → r ≢ Consts.msr_ia32_feature_control
      → r ≢ Consts.msr_ia32_perf_global_ctrl
      → after.msr r ≡ before.msr r
  pub perf_global_ctrl :
      (after.msr Consts.msr_ia32_perf_global_ctrl ≡ before.msr Consts.msr_ia32_perf_global_ctrl)
      ⊎ (after.msr Consts.msr_ia32_perf_global_ctrl ≡ 0)
  pub feature_control :
      (after.msr Consts.msr_ia32_feature_control ≡ before.msr Consts.msr_ia32_feature_control)
      ⊎ (after.msr Consts.msr_ia32_feature_control
          ≡ bit_or (before.msr Consts.msr_ia32_feature_control) 0x5)

-- What the CPU has on the way, of what is not saved: SS is null, and the MSRs are as before but for the PAT and
-- the two of VMX.
pub record OnTheWay (before now : Registers) : Type 0 where
  pub ss : now.ss ≡ 0
  pub msrs :
      (r : ℕ)
      → r ≢ Consts.msr_ia32_pat
      → r ≢ Consts.msr_ia32_feature_control
      → r ≢ Consts.msr_ia32_perf_global_ctrl
      → now.msr r ≡ before.msr r
  pub perf_global_ctrl :
      (now.msr Consts.msr_ia32_perf_global_ctrl ≡ before.msr Consts.msr_ia32_perf_global_ctrl)
      ⊎ (now.msr Consts.msr_ia32_perf_global_ctrl ≡ 0)
  pub feature_control :
      (now.msr Consts.msr_ia32_feature_control ≡ before.msr Consts.msr_ia32_feature_control)
      ⊎ (now.msr Consts.msr_ia32_feature_control
          ≡ bit_or (before.msr Consts.msr_ia32_feature_control) 0x5)

pub not_busy : (x : ℕ) → has (bit_and x (not64 desc_tss_busy)) desc_tss_busy ≡ false
not_busy x = rw (bit_and_assoc x (not64 desc_tss_busy) desc_tss_busy, bit_and-zero x) refl

VmxState-cases : (v : VmxState) → (v ≡ vmxoff) ⊎ ((v ≡ vmxon) ⊎ (v ≡ vmcs_ready))
VmxState-cases vmxoff = inl refl
VmxState-cases vmxon = inr (inl refl)
VmxState-cases vmcs_ready = inr (inr refl)

vcpu_exit-linux :
    (cpu : PerCpu) (saved : Linux)
    → cpu.linux ≡ saved
    → bit_and saved.cr4 (not64 Consts.x86_cr4_vmxe) ≡ saved.cr4
    → ((vcpu_exit cpu).linux ≡ saved) × ((vcpu_exit cpu).pat ≡ cpu.pat)
unfolding vcpu_exit
vcpu_exit-linux cpu saved kept no_vmx =
    let off : record cpu.linux { cr4 = bit_and cpu.linux.cr4 (not64 Consts.x86_cr4_vmxe) } ≡ saved =
      rw kept (ap (λ c. record saved { cr4 = c }) no_vmx) in
    elim (VmxState-cases cpu.vmx_state) [
      | inl e ↦ rw (vcpu_exit, e) (kept, refl)
      | inr (inl e) ↦ rw (vcpu_exit, e) (off, refl)
      | inr (inr e) ↦ rw (vcpu_exit, e) (off, refl)
    ]

pub ltr-free :
    (selector : ℕ) (gdt : ℕ → ℕ)
    → has (gdt (selector / 8)) desc_tss_busy ≡ false
    → ltr selector gdt ≡ some (put gdt (selector / 8) (bit_or (gdt (selector / 8)) desc_tss_busy))
unfolding ltr
ltr-free selector gdt free = rw (ltr, free) refl

module _ (read : ℕ → ℕ) where
  -- The table with the descriptor of Linux.
  abbrev linux_gdt : Start → ℕ → ℕ
  linux_gdt s =
      let l = (vcpu_exit s.cpu).linux in
      let idx = l.tss.selector / 8 in
      put (put s.gdt idx (bit_and (read (l.gdtr.base + idx * 8)) (not64 desc_tss_busy))) (idx + 1)
        (read (l.gdtr.base + (idx + 1) * 8))

  abbrev given_back : Start → Start
  given_back s =
      let cpu = vcpu_exit s.cpu in
      let idx = cpu.linux.tss.selector / 8 in
      record s {
        cpu = cpu;
        gdt = put (linux_gdt s) idx (bit_or (linux_gdt s idx) desc_tss_busy);
        regs = give_back cpu.linux cpu.pat s.regs;
      }

  restore_runs :
      (s : Start)
      → s.initialized ≡ true
      → leb 16 ((vcpu_exit s.cpu).linux.tss.selector / 8 + 1) ≡ false
      → has (linux_gdt s ((vcpu_exit s.cpu).linux.tss.selector / 8)) desc_tss_busy ≡ false
      → arch_cpu_restore read s ≡ some (given_back s)
  unfolding arch_cpu_restore
  restore_runs s init bound free =
      simp
        (
          arch_cpu_restore,
          init,
          bound,
          ltr-free (vcpu_exit s.cpu).linux.tss.selector (linux_gdt s) free,
        )
        refl

  segment-selector :
      (gdtr : DescTableReg) (seg : Segment) (selector : ℕ)
      → (save_segment read gdtr seg selector).selector ≡ selector
  unfolding save_segment read_descriptor
  segment-selector gdtr seg selector = ground arith

  given_back-msr :
      (before : Registers) (l : Linux) (now : Registers) (given : Linux) (pat : ℕ)
      → given ≡ save_linux read before l
      → pat ≡ before.msr Consts.msr_ia32_pat
      → OnTheWay before now
      → (r : ℕ) → r ≢ Consts.msr_ia32_feature_control
      → r ≢ Consts.msr_ia32_perf_global_ctrl
      → (give_back given pat now).msr r ≡ before.msr r
  unfolding give_back save_linux put
  given_back-msr before l now given pat saved same_pat way r ne_feature ne_perf =
      elim (ℕ_discrete r Consts.msr_gs_base) [
        | yes e ↦ rw (e, saved) refl
        | no ne_gs ↦ elim (ℕ_discrete r msr_fs_base) [
          | yes e ↦ rw (e, saved) refl
          | no ne_fs ↦ elim (ℕ_discrete r msr_efer) [
            | yes e ↦ rw (e, saved) refl
            | no ne_efer ↦ elim (ℕ_discrete r Consts.msr_ia32_pat) [
              | yes e ↦ rw e same_pat
              | no ne_pat ↦
                  rw (==_ne r _ ne_gs, ==_ne r _ ne_fs, ==_ne r _ ne_efer, ==_ne r _ ne_pat)
                    (way.msrs r ne_pat ne_feature ne_perf)
            ]
          ]
        ]
      ]

  -- A CPU whose kept states are those that were saved is given back with the registers that were saved.
  pub restore-Restored :
      (before : Registers) (l : Linux) (s : Start)
      → s.initialized ≡ true
      → s.cpu.linux ≡ save_linux read before l
      → s.cpu.pat ≡ before.msr Consts.msr_ia32_pat
      → bit_and before.cr4 (not64 Consts.x86_cr4_vmxe) ≡ before.cr4
      → before.tr / 8 + 1 < 16
      → OnTheWay before s.regs
      → (s' : Start) × (arch_cpu_restore read s ≡ some s') × Restored before s'.regs
  unfolding arch_cpu_restore give_back save_linux put
  restore-Restored before l s init kept pat no_vmx room way =
      let saved = save_linux read before l in
      let (linux, same_pat) = vcpu_exit-linux s.cpu saved kept no_vmx in
      let cpu = vcpu_exit s.cpu in
      let tr = segment-selector before.gdtr l.tss before.tr in
      let tr' : cpu.linux.tss.selector ≡ before.tr =
        ap (λ (x : Linux). x.tss.selector) linux ∙ tr in
      let idx = cpu.linux.tss.selector / 8 in
      let low = bit_and (read (cpu.linux.gdtr.base + idx * 8)) (not64 desc_tss_busy) in
      let gdt1 = put s.gdt idx low in
      let high = read (cpu.linux.gdtr.base + (idx + 1) * 8) in
      let gdt = linux_gdt s in
      let at : gdt idx ≡ low =
        put_other gdt1 (idx + 1) idx high (omega arith) ∙ put_same s.gdt idx low in
      let free : has (gdt idx) desc_tss_busy ≡ false =
        ap (λ x. has x desc_tss_busy) at ∙ not_busy _ in
      let bound : leb 16 (idx + 1) ≡ false = rw tr' (ground arith) in
      (
        given_back s,
        restore_runs s init bound free,
        record {
          gdtr = ap (λ (x : Linux). x.gdtr) linux;
          idtr = ap (λ (x : Linux). x.idtr) linux;
          tr = tr';
          cs =
              ap (λ (x : Linux). x.cs.selector) linux ∙ segment-selector before.gdtr l.cs before.cs;
          data_segments = (
            ap (λ (x : Linux). x.ds.selector) linux ∙ segment-selector before.gdtr l.ds before.ds,
            ap (λ (x : Linux). x.es.selector) linux ∙ segment-selector before.gdtr l.es before.es,
          );
          fs = (
            ap (λ (x : Linux). x.fs.selector) linux ∙ segment-selector before.gdtr l.fs before.fs,
            ap (λ (x : Linux). x.fs.base) linux,
          );
          gs = (
            ap (λ (x : Linux). x.gs.selector) linux ∙ segment-selector before.gdtr l.gs before.gs,
            ap (λ (x : Linux). x.gs.base) linux,
          );
          cr0 = ap (λ (x : Linux). x.cr0) linux;
          cr3 = ap (λ (x : Linux). x.cr3) linux;
          cr4 = ap (λ (x : Linux). x.cr4) linux;
          ss = way.ss;
          msrs = λ r ne_feature ne_perf.
              given_back-msr before l s.regs cpu.linux cpu.pat linux (same_pat ∙ pat) way r
                ne_feature ne_perf;
          perf_global_ctrl = way.perf_global_ctrl;
          feature_control = way.feature_control;
        },
      )
