-- ===== src/Vmcs/Fields.antt =====
-- The VMCS field encodings and the constants of src/hv/vmcs.rs.
use mochivm.Prelude.{ℕ, ◌^◌}

abbrev pub pin_based_ctls : ℕ
pin_based_ctls = 0x4000

abbrev pub proc_based_ctls : ℕ
proc_based_ctls = 0x4002

abbrev pub exc_bitmap : ℕ
exc_bitmap = 0x4004

abbrev pub pf_error_mask : ℕ
pf_error_mask = 0x4006

abbrev pub pf_error_match : ℕ
pf_error_match = 0x4008

abbrev pub cr3_target_count : ℕ
cr3_target_count = 0x400A

abbrev pub vm_exit_ctls : ℕ
vm_exit_ctls = 0x400C

abbrev pub vm_exit_msr_store_count : ℕ
vm_exit_msr_store_count = 0x400E

abbrev pub vm_exit_msr_load_count : ℕ
vm_exit_msr_load_count = 0x4010

abbrev pub vm_entry_ctls : ℕ
vm_entry_ctls = 0x4012

abbrev pub vm_entry_msr_load_count : ℕ
vm_entry_msr_load_count = 0x4014

abbrev pub vm_entry_intr_info : ℕ
vm_entry_intr_info = 0x4016

abbrev pub vm_entry_exc_err : ℕ
vm_entry_exc_err = 0x4018

abbrev pub vm_entry_instr_len : ℕ
vm_entry_instr_len = 0x401A

abbrev pub secondary_proc_based_ctls : ℕ
secondary_proc_based_ctls = 0x401E

abbrev pub exit_reason : ℕ
exit_reason = 0x4402

abbrev pub exit_qualification : ℕ
exit_qualification = 0x6400

abbrev pub host_cr0 : ℕ
host_cr0 = 0x6C00

abbrev pub host_cr3 : ℕ
host_cr3 = 0x6C02

abbrev pub host_cr4 : ℕ
host_cr4 = 0x6C04

abbrev pub host_fs_base : ℕ
host_fs_base = 0x6C06

abbrev pub host_gs_base : ℕ
host_gs_base = 0x6C08

abbrev pub host_tr_base : ℕ
host_tr_base = 0x6C0A

abbrev pub host_gdtr_base : ℕ
host_gdtr_base = 0x6C0C

abbrev pub host_idtr_base : ℕ
host_idtr_base = 0x6C0E

abbrev pub host_sysenter_esp : ℕ
host_sysenter_esp = 0x6C10

abbrev pub host_sysenter_eip : ℕ
host_sysenter_eip = 0x6C12

abbrev pub host_rsp : ℕ
host_rsp = 0x6C14

abbrev pub host_rip : ℕ
host_rip = 0x6C16

abbrev pub host_tr_sel : ℕ
host_tr_sel = 0x0C00

abbrev pub host_fs_sel : ℕ
host_fs_sel = 0x0C02

abbrev pub host_gs_sel : ℕ
host_gs_sel = 0x0C04

abbrev pub host_ss_sel : ℕ
host_ss_sel = 0x0C06

abbrev pub host_ds_sel : ℕ
host_ds_sel = 0x0C08

abbrev pub host_es_sel : ℕ
host_es_sel = 0x0C0A

abbrev pub host_sysenter_cs : ℕ
host_sysenter_cs = 0x4C00

abbrev pub host_ia32_efer : ℕ
host_ia32_efer = 0x2C02

abbrev pub guest_cr0 : ℕ
guest_cr0 = 0x6800

abbrev pub guest_cr3 : ℕ
guest_cr3 = 0x6802

abbrev pub guest_cr4 : ℕ
guest_cr4 = 0x6804

abbrev pub guest_es_base : ℕ
guest_es_base = 0x6806

abbrev pub guest_cs_base : ℕ
guest_cs_base = 0x6808

abbrev pub guest_ss_base : ℕ
guest_ss_base = 0x680A

abbrev pub guest_ds_base : ℕ
guest_ds_base = 0x680C

abbrev pub guest_fs_base : ℕ
guest_fs_base = 0x680E

abbrev pub guest_gs_base : ℕ
guest_gs_base = 0x6810

abbrev pub guest_ldtr_base : ℕ
guest_ldtr_base = 0x6812

abbrev pub guest_tr_base : ℕ
guest_tr_base = 0x6814

abbrev pub guest_gdtr_base : ℕ
guest_gdtr_base = 0x6816

abbrev pub guest_idtr_base : ℕ
guest_idtr_base = 0x6818

abbrev pub guest_dr7 : ℕ
guest_dr7 = 0x681A

abbrev pub guest_rsp : ℕ
guest_rsp = 0x681C

abbrev pub guest_rip : ℕ
guest_rip = 0x681E

abbrev pub guest_rflags : ℕ
guest_rflags = 0x6820

abbrev pub guest_pending_dbg_exc : ℕ
guest_pending_dbg_exc = 0x6822

abbrev pub guest_sysenter_esp : ℕ
guest_sysenter_esp = 0x6824

abbrev pub guest_sysenter_eip : ℕ
guest_sysenter_eip = 0x6826

abbrev pub guest_es_sel : ℕ
guest_es_sel = 0x0800

abbrev pub guest_cs_sel : ℕ
guest_cs_sel = 0x0802

abbrev pub guest_ss_sel : ℕ
guest_ss_sel = 0x0804

abbrev pub guest_ds_sel : ℕ
guest_ds_sel = 0x0806

abbrev pub guest_fs_sel : ℕ
guest_fs_sel = 0x0808

abbrev pub guest_gs_sel : ℕ
guest_gs_sel = 0x080A

abbrev pub guest_ldtr_sel : ℕ
guest_ldtr_sel = 0x080C

abbrev pub guest_tr_sel : ℕ
guest_tr_sel = 0x080E

abbrev pub guest_sysenter_cs : ℕ
guest_sysenter_cs = 0x0820

abbrev pub guest_es_limit : ℕ
guest_es_limit = 0x4800

abbrev pub guest_cs_limit : ℕ
guest_cs_limit = 0x4802

abbrev pub guest_ss_limit : ℕ
guest_ss_limit = 0x4804

abbrev pub guest_ds_limit : ℕ
guest_ds_limit = 0x4806

abbrev pub guest_fs_limit : ℕ
guest_fs_limit = 0x4808

abbrev pub guest_gs_limit : ℕ
guest_gs_limit = 0x480A

abbrev pub guest_ldtr_limit : ℕ
guest_ldtr_limit = 0x480C

abbrev pub guest_tr_limit : ℕ
guest_tr_limit = 0x480E

abbrev pub guest_gdtr_limit : ℕ
guest_gdtr_limit = 0x4810

abbrev pub guest_idtr_limit : ℕ
guest_idtr_limit = 0x4812

abbrev pub guest_es_ar : ℕ
guest_es_ar = 0x4814

abbrev pub guest_cs_ar : ℕ
guest_cs_ar = 0x4816

abbrev pub guest_ss_ar : ℕ
guest_ss_ar = 0x4818

abbrev pub guest_ds_ar : ℕ
guest_ds_ar = 0x481A

abbrev pub guest_fs_ar : ℕ
guest_fs_ar = 0x481C

abbrev pub guest_gs_ar : ℕ
guest_gs_ar = 0x481E

abbrev pub guest_ldtr_ar : ℕ
guest_ldtr_ar = 0x4820

abbrev pub guest_tr_ar : ℕ
guest_tr_ar = 0x4822

abbrev pub guest_ia32_efer : ℕ
guest_ia32_efer = 0x2806

abbrev pub guest_vmcs_link_ptr : ℕ
guest_vmcs_link_ptr = 0x2800

abbrev pub hlt_exiting : ℕ
hlt_exiting = 2 ^ 7

abbrev pub host_long_mode : ℕ
host_long_mode = 2 ^ 9

abbrev pub guest_long_mode : ℕ
guest_long_mode = 2 ^ 9

abbrev pub load_ia32_efer_entry : ℕ
load_ia32_efer_entry = 2 ^ 2

abbrev pub load_ia32_efer_exit : ℕ
load_ia32_efer_exit = 2 ^ 3

abbrev pub exit_reason_hlt : ℕ
exit_reason_hlt = 12

abbrev pub max_hlt_exits : ℕ
max_hlt_exits = 5

abbrev pub ar_long_code : ℕ
ar_long_code = 0xA09B

abbrev pub ar_data : ℕ
ar_data = 0xC093

abbrev pub ar_unusable : ℕ
ar_unusable = 0x10000

abbrev pub ar_tss64_busy : ℕ
ar_tss64_busy = 0x8B
