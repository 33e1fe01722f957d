-- ===== src/Vmcs/Write.antt =====
-- `write_state` of src/hv/vmcs.rs: every field of the VMCS that the code writes, in its order.
use mochivm.Prelude.{ℕ, ◌+◌, bit_or, u32, u64, List, [], ◌∷◌}
use mochivm.Machine.{Segment, M, pure, ◌>>=◌, ◌>>◌, ask, expect, Result, ok}
use mochivm.X86
use mochivm.Vmx
use mochivm.Vmcs.Fields.{
  ar_data, ar_long_code, ar_tss64_busy, ar_unusable, cr3_target_count, exc_bitmap, guest_cr0,
  guest_cr3, guest_cr4, guest_cs_ar, guest_cs_base, guest_cs_limit, guest_cs_sel, guest_dr7,
  guest_ds_ar, guest_ds_base, guest_ds_limit, guest_ds_sel, guest_es_ar, guest_es_base,
  guest_es_limit, guest_es_sel, guest_fs_ar, guest_fs_base, guest_fs_limit, guest_fs_sel,
  guest_gdtr_base, guest_gdtr_limit, guest_gs_ar, guest_gs_base, guest_gs_limit, guest_gs_sel,
  guest_ia32_efer, guest_idtr_base, guest_idtr_limit, guest_ldtr_ar, guest_ldtr_base,
  guest_ldtr_limit, guest_ldtr_sel, guest_long_mode, guest_pending_dbg_exc, guest_rflags, guest_rip,
  guest_rsp, guest_ss_ar, guest_ss_base, guest_ss_limit, guest_ss_sel, guest_sysenter_cs,
  guest_sysenter_eip, guest_sysenter_esp, guest_tr_ar, guest_tr_base, guest_tr_limit, guest_tr_sel,
  guest_vmcs_link_ptr, hlt_exiting, host_cr0, host_cr3, host_cr4, host_ds_sel, host_es_sel,
  host_fs_base, host_fs_sel, host_gdtr_base, host_gs_base, host_gs_sel, host_ia32_efer,
  host_idtr_base, host_long_mode, host_rip, host_rsp, host_ss_sel, host_sysenter_cs,
  host_sysenter_eip, host_sysenter_esp, host_tr_base, host_tr_sel, load_ia32_efer_entry,
  load_ia32_efer_exit, pf_error_mask, pf_error_match, pin_based_ctls, proc_based_ctls,
  secondary_proc_based_ctls, vm_entry_ctls, vm_entry_exc_err, vm_entry_instr_len,
  vm_entry_intr_info, vm_entry_msr_load_count, vm_exit_ctls, vm_exit_msr_load_count,
  vm_exit_msr_store_count,
}

unfoldable pub write_ctrl : (field value : ℕ) → M (Unit {0})
write_ctrl field value = expect (Vmx.vmwrite field value) "vmwrite ctrl failed"

unfoldable pub write32 : (field value : ℕ) → M (Unit {0})
write32 field value = expect (Vmx.vmwrite field value) "vmwrite32 failed"

unfoldable pub write64 : (field value : ℕ) → M (Unit {0})
write64 field value = expect (Vmx.vmwrite field value) "vmwrite64 failed"

-- A statement `write_ctrl(field, value);`, `write32(...);` or `write64(...);`.
pub data Write : Type 0 where
  ctrl : (field value : ℕ) → Write
  w32 : (field value : ℕ) → Write
  w64 : (field value : ℕ) → Write

unfoldable pub put : Write → M (Unit {0})
put (ctrl field value) = write_ctrl field value
put (w32 field value) = write32 field value
put (w64 field value) = write64 field value

-- A row of such statements.
unfoldable pub put_all : List Write → M (Unit {0})
put_all [] = pure tt
put_all (w ∷ ws) = put w >> put_all ws

-- The locals that `write_state` reads from the processor first.
pub record Captured : Type 0 where
  pub cr0 : ℕ
  pub cr3 : ℕ
  pub cr4 : ℕ
  pub efer : ℕ
  pub gdt_limit : ℕ
  pub gdt_base : ℕ
  pub idt_limit : ℕ
  pub idt_base : ℕ
  pub tr_sel : ℕ
  pub tr_base : ℕ

unfoldable pub capture : M Captured
capture = do
  cr0 ← X86.read_cr0
  cr3 ← X86.read_cr3
  cr4 ← X86.read_cr4
  efer ← X86.rdmsr 0xC000_0080
  (gdt_limit, gdt_base) ← X86.sgdt
  (idt_limit, idt_base) ← X86.sidt
  tr_sel ← X86.read_tr
  tr_base ← X86.read_gdt_entry_base gdt_base tr_sel
  pure (record {
    cr0 = cr0;
    cr3 = cr3;
    cr4 = cr4;
    efer = efer;
    gdt_limit = gdt_limit;
    gdt_base = gdt_base;
    idt_limit = idt_limit;
    idt_base = idt_base;
    tr_sel = tr_sel;
    tr_base = tr_base;
  })

unfoldable pub write_controls : M (Unit {0})
write_controls = do
  pin ← Vmx.calc_ctrl Vmx.ia32_vmx_pinbased_ctls 0
  write_ctrl pin_based_ctls pin
  proc ← Vmx.calc_ctrl Vmx.ia32_vmx_procbased_ctls hlt_exiting
  write_ctrl proc_based_ctls proc
  secondary ← Vmx.calc_secondary 0
  write_ctrl secondary_proc_based_ctls secondary
  put_all (
      ctrl exc_bitmap 0
      ∷ ctrl pf_error_mask 0
      ∷ ctrl pf_error_match 0
      ∷ ctrl cr3_target_count 0
      ∷ [])
  exit ← Vmx.calc_ctrl Vmx.ia32_vmx_exit_ctls (bit_or host_long_mode load_ia32_efer_exit)
  write_ctrl vm_exit_ctls exit
  entry ← Vmx.calc_ctrl Vmx.ia32_vmx_entry_ctls (bit_or guest_long_mode load_ia32_efer_entry)
  write_ctrl vm_entry_ctls entry
  put_all (
      ctrl vm_exit_msr_store_count 0
      ∷ ctrl vm_exit_msr_load_count 0
      ∷ ctrl vm_entry_msr_load_count 0
      ∷ ctrl vm_entry_intr_info 0
      ∷ ctrl vm_entry_exc_err 0
      ∷ ctrl vm_entry_instr_len 0
      ∷ [])

unfoldable pub guest_general : Captured → (guest_code guest_stack : ℕ) → List Write
guest_general c guest_code guest_stack =
    w64 guest_vmcs_link_ptr 0xFFFF_FFFF_FFFF_FFFF
    ∷ w64 guest_cr0 c.cr0
    ∷ w64 guest_cr3 c.cr3
    ∷ w64 guest_cr4 c.cr4
    ∷ w64 guest_ia32_efer c.efer
    ∷ w64 guest_rsp (u64 (guest_stack + 0x1000))
    ∷ w64 guest_rip guest_code
    ∷ w64 guest_rflags 0x2
    ∷ w64 guest_dr7 0x400
    ∷ w64 guest_pending_dbg_exc 0
    ∷ w64 guest_sysenter_esp 0
    ∷ w64 guest_sysenter_eip 0
    ∷ w32 guest_sysenter_cs 0
    ∷ []

unfoldable pub guest_selectors : Captured → List Write
guest_selectors c =
    w32 guest_cs_sel 0x08
    ∷ w32 guest_ss_sel 0x10
    ∷ w32 guest_ds_sel 0x10
    ∷ w32 guest_es_sel 0x10
    ∷ w32 guest_fs_sel 0x10
    ∷ w32 guest_gs_sel 0x10
    ∷ w32 guest_ldtr_sel 0
    ∷ w32 guest_tr_sel (u32 c.tr_sel)
    ∷ []

unfoldable pub guest_bases : Captured → List Write
guest_bases c =
    w64 guest_cs_base 0
    ∷ w64 guest_ss_base 0
    ∷ w64 guest_ds_base 0
    ∷ w64 guest_es_base 0
    ∷ w64 guest_fs_base 0
    ∷ w64 guest_gs_base 0
    ∷ w64 guest_ldtr_base 0
    ∷ w64 guest_tr_base c.tr_base
    ∷ w64 guest_gdtr_base c.gdt_base
    ∷ w64 guest_idtr_base c.idt_base
    ∷ w32 guest_gdtr_limit (u32 c.gdt_limit)
    ∷ w32 guest_idtr_limit (u32 c.idt_limit)
    ∷ []

unfoldable pub guest_limits : List Write
guest_limits =
    w32 guest_cs_limit 0xFFFF_FFFF
    ∷ w32 guest_ss_limit 0xFFFF_FFFF
    ∷ w32 guest_ds_limit 0xFFFF_FFFF
    ∷ w32 guest_es_limit 0xFFFF_FFFF
    ∷ w32 guest_fs_limit 0xFFFF_FFFF
    ∷ w32 guest_gs_limit 0xFFFF_FFFF
    ∷ w32 guest_ldtr_limit 0
    ∷ w32 guest_tr_limit 0x67
    ∷ []

unfoldable pub guest_rights : List Write
guest_rights =
    w32 guest_cs_ar ar_long_code
    ∷ w32 guest_ss_ar ar_data
    ∷ w32 guest_ds_ar ar_data
    ∷ w32 guest_es_ar ar_data
    ∷ w32 guest_fs_ar ar_data
    ∷ w32 guest_gs_ar ar_data
    ∷ w32 guest_ldtr_ar ar_unusable
    ∷ w32 guest_tr_ar ar_tss64_busy
    ∷ []

unfoldable pub host_general : Captured → (host_stack entry : ℕ) → List Write
host_general c host_stack entry =
    w64 host_cr0 c.cr0
    ∷ w64 host_cr3 c.cr3
    ∷ w64 host_cr4 c.cr4
    ∷ w64 host_rsp (u64 (host_stack + 0x4000))
    ∷ w64 host_rip entry
    ∷ w64 host_fs_base 0
    ∷ w64 host_gs_base 0
    ∷ w64 host_tr_base c.tr_base
    ∷ w64 host_gdtr_base c.gdt_base
    ∷ w64 host_idtr_base c.idt_base
    ∷ w64 host_sysenter_esp 0
    ∷ w64 host_sysenter_eip 0
    ∷ w64 host_ia32_efer c.efer
    ∷ []

unfoldable pub write_host_selectors : Captured → M (Unit {0})
write_host_selectors c = do
  write32 host_tr_sel (u32 c.tr_sel)
  ss ← X86.read_seg Segment.ss
  write32 host_ss_sel ss
  ds ← X86.read_seg Segment.ds
  write32 host_ds_sel ds
  es ← X86.read_seg Segment.es
  write32 host_es_sel es
  fs ← X86.read_seg Segment.fs
  write32 host_fs_sel fs
  gs ← X86.read_seg Segment.gs
  write32 host_gs_sel gs
  write32 host_sysenter_cs 0

-- `write_state` but for its `Ok(())`.
unfoldable pub write_fields : (host_stack guest_code guest_stack : ℕ) → M (Unit {0})
write_fields host_stack guest_code guest_stack = do
  c ← capture
  write_controls
  put_all (guest_general c guest_code guest_stack)
  put_all (guest_selectors c)
  put_all (guest_bases c)
  put_all guest_limits
  put_all guest_rights
  entry ← ask (λ hw _. hw.host_entry)
  put_all (host_general c host_stack entry)
  write_host_selectors c

unfoldable pub write_state : (host_stack guest_code guest_stack : ℕ) → M (Result (Unit {0}))
write_state host_stack guest_code guest_stack =
    write_fields host_stack guest_code guest_stack >> pure (ok tt)
