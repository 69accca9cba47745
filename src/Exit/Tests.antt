-- ===== src/Exit/Tests.antt =====
-- The theorems on the exits at concrete states.
use spy.Base.{◌≡◌, refl, true, ◌==◌, if◌then◌else◌}
use spy.Vmcs.Fields
use spy.Cpu.{PerCpu, skip_emulated_instruction}
use spy.Cpu.Consts
use spy.Exit.{write_cr, update_efer, handle_cr}
use spy.Vmx.Cr.{set_guest_cr}
use spy.Exit.Mode.{IsModeConsistent, handle_cr-IsModeConsistent}
use spy.Samples

-- A guest that moves RAX to CR0, with paging on and EFER.LME set.
abbrev mover : PerCpu
mover = Samples.cpu_with 0 0x80000001 (record {
  fields = λ f. if f == Fields.guest_ia32_efer then 0x100 else 0;
  supported = λ f. true;
})

handle_cr-IsModeConsistent_example : IsModeConsistent (handle_cr Samples.vmx mover).1.vmcs
handle_cr-IsModeConsistent_example = handle_cr-IsModeConsistent Samples.vmx mover (λ f. refl) refl

-- The guest is in long mode afterwards.
mover_enters : (handle_cr Samples.vmx mover).1.vmcs.fields Fields.guest_ia32_efer ≡ 0x500
unfolding handle_cr write_cr update_efer set_guest_cr skip_emulated_instruction
mover_enters = refl

abbrev reader : PerCpu
reader =
    Samples.cpu_with Consts.msr_ia32_pat 0
      (Samples.vmcs_with Fields.vm_exit_reason Consts.exit_reason_msr_read)
