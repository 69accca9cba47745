-- ===== src/Vcpu/Tests.antt =====
-- The theorems on vcpu.c at concrete states.
use spy.Base.{ℕ, ◌-◌, ◌^◌, ◌≡◌, ◌⊎◌, refl, true}
use spy.Cpu.{PerCpu, rax, set_reg}
use spy.Cpu.Consts
use spy.Vmx.Init.{deactivate_vmm}
use spy.Vcpu.{get_efer, get_rflags, get_cs_attr}
use spy.Vcpu.Msr.{pat_ok_from, handle_msr_write}
use spy.Vcpu.Msr.Cache.{IsCached, pat_ok_from-IsPat, handle_msr_write-IsCached}
use spy.Vcpu.Hypercall.{resumed, deactivated, unprivileged, long_mode, handle_hypercall}
use spy.Vcpu.Hypercall.Privilege.{
  IsRefused, IsAllowed, Arguments, Served, behind, handle_hypercall-Served,
}
use spy.Samples

pat_fine : pat_ok_from 8 0 0x0007040600070406 ≡ true
unfolding pat_ok_from
pat_fine = refl

-- A CPU whose guest writes the PAT.
abbrev writer : PerCpu
writer = Samples.cpu_with Consts.msr_ia32_pat 0x06060606 (Samples.vmcs_with 0 0)

writer-IsCached : IsCached writer
writer-IsCached = record {
  valid = (pat_ok_from-IsPat 0x0007040600070406).0 pat_fine;
  coherent = refl;
}

handle_msr_write-IsCached_example : IsCached (handle_msr_write Samples.x2apic writer).1
handle_msr_write-IsCached_example =
    handle_msr_write-IsCached Samples.x2apic writer (λ f. refl) (λ f. refl) (λ c. c) writer-IsCached

-- A CPU whose guest, in ring 0, asks for the hypervisor to leave.
abbrev asker : PerCpu
asker = Samples.cpu_with 0 Consts.spy_hc_disable (Samples.vmcs_with 0 0)

asker_leaves :
    handle_hypercall Samples.world.hypercall asker
    ≡ deactivated (deactivate_vmm (set_reg rax 0 (Samples.world.hypercall 0 0 0 (behind asker)).1))
unfolding handle_hypercall unprivileged long_mode get_efer get_rflags get_cs_attr
asker_leaves = refl

handle_hypercall-Served_example :
    (IsRefused asker
      × (handle_hypercall Samples.world.hypercall asker
          ≡ resumed (set_reg rax (2 ^ 64 - 1) (behind asker))))
    ⊎ (IsAllowed asker
        × (a : ℕ) × (b : ℕ) × Arguments asker a b
        × Served Samples.world.hypercall asker a b)
handle_hypercall-Served_example = handle_hypercall-Served Samples.world.hypercall asker
