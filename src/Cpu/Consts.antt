-- ===== src/Cpu/Consts.antt =====
-- The constants of asm/processor.h, asm/vmx.h, asm/vcpu.h (below hypervisor/arch/x86/include) and of
-- include/spy/hypercall.h and include/arch/x86/asm/spy_hypercall.h that the CPU's code uses.
use spy.Base.{ℕ, ◌+◌, ◌-◌, bit_or, bit_mask, ◌<<<◌}

abbrev pub x86_feature_vmx : ℕ
x86_feature_vmx = 1 <<< 5

abbrev pub x86_feature_xsave : ℕ
x86_feature_xsave = 1 <<< 26

abbrev pub x86_feature_osxsave : ℕ
x86_feature_osxsave = 1 <<< 27

abbrev pub x86_feature_hypervisor : ℕ
x86_feature_hypervisor = 1 <<< 31

abbrev pub x86_feature_invpcid : ℕ
x86_feature_invpcid = 1 <<< 10

abbrev pub x86_feature_xsaves : ℕ
x86_feature_xsaves = 1 <<< 3

abbrev pub x86_feature_svm : ℕ
x86_feature_svm = 1 <<< 2

abbrev pub x86_feature_rdtscp : ℕ
x86_feature_rdtscp = 1 <<< 27

abbrev pub x86_rflags_vm : ℕ
x86_rflags_vm = 1 <<< 17

abbrev pub x86_cr0_pe : ℕ
x86_cr0_pe = 1 <<< 0

abbrev pub x86_cr0_mp : ℕ
x86_cr0_mp = 1 <<< 1

abbrev pub x86_cr0_ts : ℕ
x86_cr0_ts = 1 <<< 3

abbrev pub x86_cr0_et : ℕ
x86_cr0_et = 1 <<< 4

abbrev pub x86_cr0_ne : ℕ
x86_cr0_ne = 1 <<< 5

abbrev pub x86_cr0_wp : ℕ
x86_cr0_wp = 1 <<< 16

abbrev pub x86_cr0_nw : ℕ
x86_cr0_nw = 1 <<< 29

abbrev pub x86_cr0_cd : ℕ
x86_cr0_cd = 1 <<< 30

abbrev pub x86_cr0_pg : ℕ
x86_cr0_pg = 1 <<< 31

abbrev pub x86_cr0_reserved : ℕ
x86_cr0_reserved = bit_or (bit_or (bit_mask 28 19) (1 <<< 17)) (bit_mask 15 6)

abbrev pub x86_cr4_pae : ℕ
x86_cr4_pae = 1 <<< 5

abbrev pub x86_cr4_vmxe : ℕ
x86_cr4_vmxe = 1 <<< 13

abbrev pub x86_cr4_osxsave : ℕ
x86_cr4_osxsave = 1 <<< 18

abbrev pub x86_cr4_reserved : ℕ
x86_cr4_reserved = bit_or (bit_or (bit_or (bit_mask 31 23) (1 <<< 19)) (1 <<< 15)) (1 <<< 12)

abbrev pub x86_xcr0_fp : ℕ
x86_xcr0_fp = 0x00000001

abbrev pub msr_ia32_feature_control : ℕ
msr_ia32_feature_control = 0x0000003a

abbrev pub msr_ia32_pat : ℕ
msr_ia32_pat = 0x00000277

abbrev pub msr_ia32_mtrr_def_type : ℕ
msr_ia32_mtrr_def_type = 0x000002ff

abbrev pub msr_ia32_sysenter_cs : ℕ
msr_ia32_sysenter_cs = 0x00000174

abbrev pub msr_ia32_sysenter_esp : ℕ
msr_ia32_sysenter_esp = 0x00000175

abbrev pub msr_ia32_sysenter_eip : ℕ
msr_ia32_sysenter_eip = 0x00000176

abbrev pub msr_ia32_perf_global_ctrl : ℕ
msr_ia32_perf_global_ctrl = 0x0000038f

abbrev pub msr_ia32_vmx_basic : ℕ
msr_ia32_vmx_basic = 0x00000480

abbrev pub msr_ia32_vmx_pinbased_ctls : ℕ
msr_ia32_vmx_pinbased_ctls = 0x00000481

abbrev pub msr_ia32_vmx_procbased_ctls : ℕ
msr_ia32_vmx_procbased_ctls = 0x00000482

abbrev pub msr_ia32_vmx_exit_ctls : ℕ
msr_ia32_vmx_exit_ctls = 0x00000483

abbrev pub msr_ia32_vmx_entry_ctls : ℕ
msr_ia32_vmx_entry_ctls = 0x00000484

abbrev pub msr_ia32_vmx_misc : ℕ
msr_ia32_vmx_misc = 0x00000485

abbrev pub msr_ia32_vmx_cr0_fixed0 : ℕ
msr_ia32_vmx_cr0_fixed0 = 0x00000486

abbrev pub msr_ia32_vmx_cr0_fixed1 : ℕ
msr_ia32_vmx_cr0_fixed1 = 0x00000487

abbrev pub msr_ia32_vmx_cr4_fixed0 : ℕ
msr_ia32_vmx_cr4_fixed0 = 0x00000488

abbrev pub msr_ia32_vmx_cr4_fixed1 : ℕ
msr_ia32_vmx_cr4_fixed1 = 0x00000489

abbrev pub msr_ia32_vmx_procbased_ctls2 : ℕ
msr_ia32_vmx_procbased_ctls2 = 0x0000048b

abbrev pub msr_ia32_vmx_ept_vpid_cap : ℕ
msr_ia32_vmx_ept_vpid_cap = 0x0000048c

abbrev pub msr_ia32_vmx_true_procbased_ctls : ℕ
msr_ia32_vmx_true_procbased_ctls = 0x0000048e

abbrev pub msr_x2apic_base : ℕ
msr_x2apic_base = 0x00000800

abbrev pub msr_x2apic_icr : ℕ
msr_x2apic_icr = 0x00000830

abbrev pub msr_x2apic_end : ℕ
msr_x2apic_end = 0x0000083f

abbrev pub msr_gs_base : ℕ
msr_gs_base = 0xc0000101

abbrev pub feature_control_locked : ℕ
feature_control_locked = 1 <<< 0

abbrev pub feature_control_vmxon_enabled_outside_smx : ℕ
feature_control_vmxon_enabled_outside_smx = 1 <<< 2

abbrev pub pat_reset_value : ℕ
pat_reset_value = 0x0007040600070406

abbrev pub mtrr_enable : ℕ
mtrr_enable = 1 <<< 11

abbrev pub efer_lme : ℕ
efer_lme = 0x00000100

abbrev pub efer_lma : ℕ
efer_lma = 0x00000400

abbrev pub gdt_desc_code : ℕ
gdt_desc_code = 1

abbrev pub gdt_desc_tss : ℕ
gdt_desc_tss = 2

abbrev pub x86_inst_len_cpuid : ℕ
x86_inst_len_cpuid = 2

abbrev pub x86_inst_len_wrmsr : ℕ
x86_inst_len_wrmsr = 2

abbrev pub x86_inst_len_hypercall : ℕ
x86_inst_len_hypercall = 3

abbrev pub x86_inst_len_mov_to_cr : ℕ
x86_inst_len_mov_to_cr = 3

abbrev pub x86_inst_len_xsetbv : ℕ
x86_inst_len_xsetbv = 3

abbrev pub db_vector : ℕ
db_vector = 1

abbrev pub ac_vector : ℕ
ac_vector = 17

abbrev pub x86_cr0_host_state : ℕ
x86_cr0_host_state =
    bit_or
      (bit_or
        (bit_or (bit_or (bit_or (bit_or x86_cr0_pg x86_cr0_wp) x86_cr0_ne) x86_cr0_et) x86_cr0_ts)
        x86_cr0_mp)
      x86_cr0_pe

abbrev pub x86_cr4_host_state : ℕ
x86_cr4_host_state = x86_cr4_pae

abbrev pub vcpu_cs_dpl_mask : ℕ
vcpu_cs_dpl_mask = bit_mask 6 5

abbrev pub vcpu_cs_l : ℕ
vcpu_cs_l = 1 <<< 13

abbrev pub guest_activity_active : ℕ
guest_activity_active = 0

abbrev pub vmx_msr_bmp_0000_read : ℕ
vmx_msr_bmp_0000_read = 0

abbrev pub vmx_msr_bmp_c000_read : ℕ
vmx_msr_bmp_c000_read = 1

abbrev pub vmx_msr_bmp_0000_write : ℕ
vmx_msr_bmp_0000_write = 2

abbrev pub vmx_msr_bmp_c000_write : ℕ
vmx_msr_bmp_c000_write = 3

abbrev pub pin_based_nmi_exiting : ℕ
pin_based_nmi_exiting = 1 <<< 3

abbrev pub pin_based_vmx_preemption_timer : ℕ
pin_based_vmx_preemption_timer = 1 <<< 6

abbrev pub cpu_based_cr3_load_exiting : ℕ
cpu_based_cr3_load_exiting = 1 <<< 15

abbrev pub cpu_based_cr3_store_exiting : ℕ
cpu_based_cr3_store_exiting = 1 <<< 16

abbrev pub cpu_based_use_io_bitmaps : ℕ
cpu_based_use_io_bitmaps = 1 <<< 25

abbrev pub cpu_based_use_msr_bitmaps : ℕ
cpu_based_use_msr_bitmaps = 1 <<< 28

abbrev pub cpu_based_activate_secondary_controls : ℕ
cpu_based_activate_secondary_controls = 1 <<< 31

abbrev pub secondary_exec_virtualize_apic_accesses : ℕ
secondary_exec_virtualize_apic_accesses = 1 <<< 0

abbrev pub secondary_exec_enable_ept : ℕ
secondary_exec_enable_ept = 1 <<< 1

abbrev pub secondary_exec_rdtscp : ℕ
secondary_exec_rdtscp = 1 <<< 3

abbrev pub secondary_exec_unrestricted_guest : ℕ
secondary_exec_unrestricted_guest = 1 <<< 7

abbrev pub secondary_exec_invpcid : ℕ
secondary_exec_invpcid = 1 <<< 12

abbrev pub secondary_exec_xsaves : ℕ
secondary_exec_xsaves = 1 <<< 20

abbrev pub vm_exit_host_addr_space_size : ℕ
vm_exit_host_addr_space_size = 1 <<< 9

abbrev pub vm_exit_save_ia32_pat : ℕ
vm_exit_save_ia32_pat = 1 <<< 18

abbrev pub vm_exit_load_ia32_pat : ℕ
vm_exit_load_ia32_pat = 1 <<< 19

abbrev pub vm_exit_save_ia32_efer : ℕ
vm_exit_save_ia32_efer = 1 <<< 20

abbrev pub vm_exit_load_ia32_efer : ℕ
vm_exit_load_ia32_efer = 1 <<< 21

abbrev pub vm_entry_ia32e_mode : ℕ
vm_entry_ia32e_mode = 1 <<< 9

abbrev pub vm_entry_load_ia32_pat : ℕ
vm_entry_load_ia32_pat = 1 <<< 14

abbrev pub vm_entry_load_ia32_efer : ℕ
vm_entry_load_ia32_efer = 1 <<< 15

abbrev pub vmx_misc_activity_hlt : ℕ
vmx_misc_activity_hlt = 1 <<< 6

abbrev pub intr_info_intr_type_mask : ℕ
intr_info_intr_type_mask = bit_mask 10 8

abbrev pub intr_type_nmi_intr : ℕ
intr_type_nmi_intr = 2 <<< 8

abbrev pub intr_to_vectoring_info_mask : ℕ
intr_to_vectoring_info_mask = bit_or (1 <<< 31) (bit_mask 11 0)

abbrev pub exit_reason_exception_nmi : ℕ
exit_reason_exception_nmi = 0

abbrev pub exit_reason_cpuid : ℕ
exit_reason_cpuid = 10

abbrev pub exit_reason_vmcall : ℕ
exit_reason_vmcall = 18

abbrev pub exit_reason_cr_access : ℕ
exit_reason_cr_access = 28

abbrev pub exit_reason_io_instruction : ℕ
exit_reason_io_instruction = 30

abbrev pub exit_reason_msr_read : ℕ
exit_reason_msr_read = 31

abbrev pub exit_reason_msr_write : ℕ
exit_reason_msr_write = 32

abbrev pub exit_reason_apic_access : ℕ
exit_reason_apic_access = 44

abbrev pub exit_reason_ept_violation : ℕ
exit_reason_ept_violation = 48

abbrev pub exit_reason_preemption_timer : ℕ
exit_reason_preemption_timer = 52

abbrev pub exit_reason_xsetbv : ℕ
exit_reason_xsetbv = 55

abbrev pub ept_flag_read : ℕ
ept_flag_read = 0x001

abbrev pub ept_flag_write : ℕ
ept_flag_write = 0x002

abbrev pub ept_flag_execute : ℕ
ept_flag_execute = 0x004

abbrev pub ept_flag_wb_type : ℕ
ept_flag_wb_type = 0x030

abbrev pub ept_type_writeback : ℕ
ept_type_writeback = 6

abbrev pub ept_page_walk_len : ℕ
ept_page_walk_len = (4 - 1) <<< 3

abbrev pub ept_page_walk_4 : ℕ
ept_page_walk_4 = 1 <<< 6

abbrev pub eptp_wb : ℕ
eptp_wb = 1 <<< 14

abbrev pub ept_2m_pages : ℕ
ept_2m_pages = 1 <<< 16

abbrev pub ept_1g_pages : ℕ
ept_1g_pages = 1 <<< 17

abbrev pub ept_invept : ℕ
ept_invept = 1 <<< 20

abbrev pub ept_invept_single : ℕ
ept_invept_single = 1 <<< 25

abbrev pub ept_invept_global : ℕ
ept_invept_global = 1 <<< 26

abbrev pub ept_mandatory_features : ℕ
ept_mandatory_features = bit_or (bit_or ept_page_walk_4 eptp_wb) ept_invept

abbrev pub vmx_invept_single : ℕ
vmx_invept_single = 1

abbrev pub vmx_invept_global : ℕ
vmx_invept_global = 2

abbrev pub apic_access_offset_mask : ℕ
apic_access_offset_mask = 0x00000fff

abbrev pub apic_access_type_mask : ℕ
apic_access_type_mask = 0x0000f000

abbrev pub apic_access_type_linear_read : ℕ
apic_access_type_linear_read = 0x00000000

abbrev pub apic_access_type_linear_write : ℕ
apic_access_type_linear_write = 0x00001000

abbrev pub spy_hc_disable : ℕ
spy_hc_disable = 0

abbrev pub spy_cpu_stat_vmexits_total : ℕ
spy_cpu_stat_vmexits_total = 0

abbrev pub spy_cpu_stat_vmexits_mmio : ℕ
spy_cpu_stat_vmexits_mmio = 1

abbrev pub spy_cpu_stat_vmexits_management : ℕ
spy_cpu_stat_vmexits_management = 2

abbrev pub spy_generic_cpu_stats : ℕ
spy_generic_cpu_stats = 4

abbrev pub spy_cpu_stat_vmexits_pio : ℕ
spy_cpu_stat_vmexits_pio = spy_generic_cpu_stats

abbrev pub spy_cpu_stat_vmexits_xapic : ℕ
spy_cpu_stat_vmexits_xapic = spy_generic_cpu_stats + 1

abbrev pub spy_cpu_stat_vmexits_cr : ℕ
spy_cpu_stat_vmexits_cr = spy_generic_cpu_stats + 2

abbrev pub spy_cpu_stat_vmexits_cpuid : ℕ
spy_cpu_stat_vmexits_cpuid = spy_generic_cpu_stats + 3

abbrev pub spy_cpu_stat_vmexits_xsetbv : ℕ
spy_cpu_stat_vmexits_xsetbv = spy_generic_cpu_stats + 4

abbrev pub spy_cpu_stat_vmexits_exception : ℕ
spy_cpu_stat_vmexits_exception = spy_generic_cpu_stats + 5

abbrev pub spy_cpu_stat_vmexits_msr_other : ℕ
spy_cpu_stat_vmexits_msr_other = spy_generic_cpu_stats + 6

abbrev pub spy_cpuid_signature : ℕ
spy_cpuid_signature = 0x40000000

abbrev pub spy_cpuid_features : ℕ
spy_cpuid_features = 0x40000001
