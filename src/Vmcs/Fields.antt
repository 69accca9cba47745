-- ===== src/Vmcs/Fields.antt =====
-- The encodings of the VMCS fields that the code names: `enum vmcs_field` of
-- hypervisor/arch/x86/include/asm/vmx.h.
use spy.Base.{ℕ, ◌-◌}

abbrev pub guest_es_selector : ℕ
guest_es_selector = 0x00000800

abbrev pub guest_cs_selector : ℕ
guest_cs_selector = 0x00000802

abbrev pub guest_ss_selector : ℕ
guest_ss_selector = 0x00000804

abbrev pub guest_ds_selector : ℕ
guest_ds_selector = 0x00000806

abbrev pub guest_fs_selector : ℕ
guest_fs_selector = 0x00000808

abbrev pub guest_gs_selector : ℕ
guest_gs_selector = 0x0000080a

abbrev pub guest_ldtr_selector : ℕ
guest_ldtr_selector = 0x0000080c

abbrev pub guest_tr_selector : ℕ
guest_tr_selector = 0x0000080e

abbrev pub host_es_selector : ℕ
host_es_selector = 0x00000c00

abbrev pub host_cs_selector : ℕ
host_cs_selector = 0x00000c02

abbrev pub host_ss_selector : ℕ
host_ss_selector = 0x00000c04

abbrev pub host_ds_selector : ℕ
host_ds_selector = 0x00000c06

abbrev pub host_fs_selector : ℕ
host_fs_selector = 0x00000c08

abbrev pub host_gs_selector : ℕ
host_gs_selector = 0x00000c0a

abbrev pub host_tr_selector : ℕ
host_tr_selector = 0x00000c0c

abbrev pub io_bitmap_a : ℕ
io_bitmap_a = 0x00002000

abbrev pub io_bitmap_b : ℕ
io_bitmap_b = 0x00002002

abbrev pub msr_bitmap : ℕ
msr_bitmap = 0x00002004

abbrev pub apic_access_addr : ℕ
apic_access_addr = 0x00002014

abbrev pub ept_pointer : ℕ
ept_pointer = 0x0000201a

abbrev pub guest_physical_address : ℕ
guest_physical_address = 0x00002400

abbrev pub vmcs_link_pointer : ℕ
vmcs_link_pointer = 0x00002800

abbrev pub guest_ia32_debugctl : ℕ
guest_ia32_debugctl = 0x00002802

abbrev pub guest_ia32_pat : ℕ
guest_ia32_pat = 0x00002804

abbrev pub guest_ia32_efer : ℕ
guest_ia32_efer = 0x00002806

abbrev pub guest_pdptr0 : ℕ
guest_pdptr0 = 0x0000280a

abbrev pub host_ia32_pat : ℕ
host_ia32_pat = 0x00002c00

abbrev pub host_ia32_efer : ℕ
host_ia32_efer = 0x00002c02

abbrev pub pin_based_vm_exec_control : ℕ
pin_based_vm_exec_control = 0x00004000

abbrev pub cpu_based_vm_exec_control : ℕ
cpu_based_vm_exec_control = 0x00004002

abbrev pub exception_bitmap : ℕ
exception_bitmap = 0x00004004

abbrev pub cr3_target_count : ℕ
cr3_target_count = 0x0000400a

abbrev pub vm_exit_controls : ℕ
vm_exit_controls = 0x0000400c

abbrev pub vm_exit_msr_store_count : ℕ
vm_exit_msr_store_count = 0x0000400e

abbrev pub vm_exit_msr_load_count : ℕ
vm_exit_msr_load_count = 0x00004010

abbrev pub vm_entry_controls : ℕ
vm_entry_controls = 0x00004012

abbrev pub vm_entry_msr_load_count : ℕ
vm_entry_msr_load_count = 0x00004014

abbrev pub vm_entry_intr_info_field : ℕ
vm_entry_intr_info_field = 0x00004016

abbrev pub vm_entry_exception_error_code : ℕ
vm_entry_exception_error_code = 0x00004018

abbrev pub secondary_vm_exec_control : ℕ
secondary_vm_exec_control = 0x0000401e

abbrev pub vm_instruction_error : ℕ
vm_instruction_error = 0x00004400

abbrev pub vm_exit_reason : ℕ
vm_exit_reason = 0x00004402

abbrev pub vm_exit_intr_info : ℕ
vm_exit_intr_info = 0x00004404

abbrev pub vm_exit_intr_error_code : ℕ
vm_exit_intr_error_code = 0x00004406

abbrev pub idt_vectoring_info_field : ℕ
idt_vectoring_info_field = 0x00004408

abbrev pub vm_exit_instruction_len : ℕ
vm_exit_instruction_len = 0x0000440c

abbrev pub guest_es_limit : ℕ
guest_es_limit = 0x00004800

abbrev pub guest_cs_limit : ℕ
guest_cs_limit = 0x00004802

abbrev pub guest_ss_limit : ℕ
guest_ss_limit = 0x00004804

abbrev pub guest_ds_limit : ℕ
guest_ds_limit = 0x00004806

abbrev pub guest_fs_limit : ℕ
guest_fs_limit = 0x00004808

abbrev pub guest_gs_limit : ℕ
guest_gs_limit = 0x0000480a

abbrev pub guest_ldtr_limit : ℕ
guest_ldtr_limit = 0x0000480c

abbrev pub guest_tr_limit : ℕ
guest_tr_limit = 0x0000480e

abbrev pub guest_gdtr_limit : ℕ
guest_gdtr_limit = 0x00004810

abbrev pub guest_idtr_limit : ℕ
guest_idtr_limit = 0x00004812

abbrev pub guest_es_ar_bytes : ℕ
guest_es_ar_bytes = 0x00004814

abbrev pub guest_cs_ar_bytes : ℕ
guest_cs_ar_bytes = 0x00004816

abbrev pub guest_ss_ar_bytes : ℕ
guest_ss_ar_bytes = 0x00004818

abbrev pub guest_ds_ar_bytes : ℕ
guest_ds_ar_bytes = 0x0000481a

abbrev pub guest_fs_ar_bytes : ℕ
guest_fs_ar_bytes = 0x0000481c

abbrev pub guest_gs_ar_bytes : ℕ
guest_gs_ar_bytes = 0x0000481e

abbrev pub guest_ldtr_ar_bytes : ℕ
guest_ldtr_ar_bytes = 0x00004820

abbrev pub guest_tr_ar_bytes : ℕ
guest_tr_ar_bytes = 0x00004822

abbrev pub guest_interruptibility_info : ℕ
guest_interruptibility_info = 0x00004824

abbrev pub guest_activity_state : ℕ
guest_activity_state = 0x00004826

abbrev pub guest_sysenter_cs : ℕ
guest_sysenter_cs = 0x0000482A

abbrev pub vmx_preemption_timer_value : ℕ
vmx_preemption_timer_value = 0x0000482E

abbrev pub host_ia32_sysenter_cs : ℕ
host_ia32_sysenter_cs = 0x00004c00

abbrev pub cr0_guest_host_mask : ℕ
cr0_guest_host_mask = 0x00006000

abbrev pub cr4_guest_host_mask : ℕ
cr4_guest_host_mask = 0x00006002

abbrev pub cr0_read_shadow : ℕ
cr0_read_shadow = 0x00006004

abbrev pub cr4_read_shadow : ℕ
cr4_read_shadow = 0x00006006

abbrev pub exit_qualification : ℕ
exit_qualification = 0x00006400

abbrev pub guest_linear_address : ℕ
guest_linear_address = 0x0000640a

abbrev pub guest_cr0 : ℕ
guest_cr0 = 0x00006800

abbrev pub guest_cr3 : ℕ
guest_cr3 = 0x00006802

abbrev pub guest_cr4 : ℕ
guest_cr4 = 0x00006804

abbrev pub guest_es_base : ℕ
guest_es_base = 0x00006806

abbrev pub guest_cs_base : ℕ
guest_cs_base = 0x00006808

abbrev pub guest_ss_base : ℕ
guest_ss_base = 0x0000680a

abbrev pub guest_ds_base : ℕ
guest_ds_base = 0x0000680c

abbrev pub guest_fs_base : ℕ
guest_fs_base = 0x0000680e

abbrev pub guest_gs_base : ℕ
guest_gs_base = 0x00006810

abbrev pub guest_ldtr_base : ℕ
guest_ldtr_base = 0x00006812

abbrev pub guest_tr_base : ℕ
guest_tr_base = 0x00006814

abbrev pub guest_gdtr_base : ℕ
guest_gdtr_base = 0x00006816

abbrev pub guest_idtr_base : ℕ
guest_idtr_base = 0x00006818

abbrev pub guest_dr7 : ℕ
guest_dr7 = 0x0000681a

abbrev pub guest_rsp : ℕ
guest_rsp = 0x0000681c

abbrev pub guest_rip : ℕ
guest_rip = 0x0000681e

abbrev pub guest_rflags : ℕ
guest_rflags = 0x00006820

abbrev pub guest_pending_dbg_exceptions : ℕ
guest_pending_dbg_exceptions = 0x00006822

abbrev pub guest_sysenter_esp : ℕ
guest_sysenter_esp = 0x00006824

abbrev pub guest_sysenter_eip : ℕ
guest_sysenter_eip = 0x00006826

abbrev pub host_cr0 : ℕ
host_cr0 = 0x00006c00

abbrev pub host_cr3 : ℕ
host_cr3 = 0x00006c02

abbrev pub host_cr4 : ℕ
host_cr4 = 0x00006c04

abbrev pub host_fs_base : ℕ
host_fs_base = 0x00006c06

abbrev pub host_gs_base : ℕ
host_gs_base = 0x00006c08

abbrev pub host_tr_base : ℕ
host_tr_base = 0x00006c0a

abbrev pub host_gdtr_base : ℕ
host_gdtr_base = 0x00006c0c

abbrev pub host_idtr_base : ℕ
host_idtr_base = 0x00006c0e

abbrev pub host_ia32_sysenter_esp : ℕ
host_ia32_sysenter_esp = 0x00006c10

abbrev pub host_ia32_sysenter_eip : ℕ
host_ia32_sysenter_eip = 0x00006c12

abbrev pub host_rsp : ℕ
host_rsp = 0x00006c14

abbrev pub host_rip : ℕ
host_rip = 0x00006c16

abbrev pub guest_seg_limit : ℕ
guest_seg_limit = guest_es_limit - guest_es_selector

abbrev pub guest_seg_ar_bytes : ℕ
guest_seg_ar_bytes = guest_es_ar_bytes - guest_es_selector

abbrev pub guest_seg_base : ℕ
guest_seg_base = guest_es_base - guest_es_selector
