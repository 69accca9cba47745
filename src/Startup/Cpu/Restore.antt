-- ===== src/Startup/Cpu/Restore.antt =====
-- The hypervisor gives a CPU back as it took it over.
use spy.Base.{ℕ, bit_and, bit_or, not64}
use spy.Base.Store.{put}
use spy.Cpu.Consts
use spy.Vmx.{TargetAddrs}
use spy.Vmx.Features.{Processor}
use spy.Vmx.Setup.{Host}
use spy.Vmx.Init.{Instructions}
use spy.Startup.{desc_tss_busy}
use spy.Startup.Cpu.{Start, HvTables, take_over}

module _ (read : ℕ → ℕ) (hw : Processor) (ins : Instructions) (host : Host) (target : TargetAddrs)
    (tables : HvTables) (s : Start) where
  abbrev cleared : ℕ → ℕ
  cleared =
      put s.gdt Consts.gdt_desc_tss (bit_and (s.gdt Consts.gdt_desc_tss) (not64 desc_tss_busy))

  abbrev loaded : ℕ → ℕ
  loaded = put cleared Consts.gdt_desc_tss (bit_or (cleared Consts.gdt_desc_tss) desc_tss_busy)

  abbrev taken : Start
  taken = take_over read tables loaded s
