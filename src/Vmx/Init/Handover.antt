-- ===== src/Vmx/Init/Handover.antt =====
-- Linux gets back what it handed over: `vcpu_deactivate_vmm` against `vmcs_setup`.
use spy.Base.{ℕ, ◌^◌, ◌<◌, ◌≡◌}
use spy.Vmcs.Fields
use spy.Vmcs.Laws.{AllSupported}
use spy.Cpu.{PerCpu, Linux}
use spy.Vmx.{Vmx, TargetAddrs}
use spy.Vmx.Setup.{Host, vmcs_setup}
use spy.Vmx.Init.{deactivate_vmm}

-- The sizes that the fields of the C structures have.
pub record IsLinux (l : Linux) : Type 0 where
  pub gdtr_limit : l.gdtr.limit < 2 ^ 16
  pub idtr_limit : l.idtr.limit < 2 ^ 16
  pub cs : l.cs.selector < 2 ^ 16
  pub ds : l.ds.selector < 2 ^ 16
  pub es : l.es.selector < 2 ^ 16
  pub fs : l.fs.selector < 2 ^ 16
  pub gs : l.gs.selector < 2 ^ 16
  pub tss : l.tss.selector < 2 ^ 16

-- What is the same before and after, all but CR0 and CR4, of which VMX dictates bits.
pub record Same (before after : Linux) : Type 0 where
  pub cr3 : after.cr3 ≡ before.cr3
  pub efer : after.efer ≡ before.efer
  pub gdtr : (after.gdtr.base ≡ before.gdtr.base) × (after.gdtr.limit ≡ before.gdtr.limit)
  pub idtr : (after.idtr.base ≡ before.idtr.base) × (after.idtr.limit ≡ before.idtr.limit)
  pub selectors :
      (after.cs.selector ≡ before.cs.selector)
      × (after.ds.selector ≡ before.ds.selector)
      × (after.es.selector ≡ before.es.selector)
      × (after.fs.selector ≡ before.fs.selector)
      × (after.gs.selector ≡ before.gs.selector)
      × (after.tss.selector ≡ before.tss.selector)
  pub bases : (after.fs.base ≡ before.fs.base) × (after.gs.base ≡ before.gs.base)

module _ (vmx : Vmx) (host : Host) (target : TargetAddrs) (cpu : PerCpu)
    (all : AllSupported cpu.vmcs) (sizes : IsLinux cpu.linux) where
  abbrev back : PerCpu × (ℕ × ℕ)
  back = deactivate_vmm (vmcs_setup vmx host target cpu).1
