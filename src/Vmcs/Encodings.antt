-- ===== src/Vmcs/Encodings.antt =====
-- The fields that `write_state` of src/hv/vmcs.rs writes, against the table of its encodings.
use mochivm.Prelude.{
  ℕ, ◌+◌, ◌≡◌, refl, ◌∙◌, ap, List, [], ◌∷◌, count, holds, count-distinct, if◌then◌else◌,
  count-pushed, count-reordered,
}
use mochivm.Machine.{Segment, Machine, Step, done, panicked, Result, ok}
use mochivm.Vmcs.Write.{
  Captured, guest_general, guest_selectors, guest_bases, guest_limits, guest_rights, host_general,
  write_controls, write_host_selectors, write_fields, write_state,
}
use mochivm.Vmcs.Fields.{
  pin_based_ctls, proc_based_ctls, exc_bitmap, pf_error_mask, pf_error_match, cr3_target_count,
  vm_exit_ctls, vm_exit_msr_store_count, vm_exit_msr_load_count, vm_entry_ctls,
  vm_entry_msr_load_count, vm_entry_intr_info, vm_entry_exc_err, vm_entry_instr_len,
  secondary_proc_based_ctls, host_cr0, host_cr3, host_cr4, host_fs_base, host_gs_base, host_tr_base,
  host_gdtr_base, host_idtr_base, host_sysenter_esp, host_sysenter_eip, host_rsp, host_rip,
  host_tr_sel, host_fs_sel, host_gs_sel, host_ss_sel, host_ds_sel, host_es_sel, host_sysenter_cs,
  host_ia32_efer, guest_cr0, guest_cr3, guest_cr4, guest_es_base, guest_cs_base, guest_ss_base,
  guest_ds_base, guest_fs_base, guest_gs_base, guest_ldtr_base, guest_tr_base, guest_gdtr_base,
  guest_idtr_base, guest_dr7, guest_rsp, guest_rip, guest_rflags, guest_pending_dbg_exc,
  guest_sysenter_esp, guest_sysenter_eip, guest_es_sel, guest_cs_sel, guest_ss_sel, guest_ds_sel,
  guest_fs_sel, guest_gs_sel, guest_ldtr_sel, guest_tr_sel, guest_sysenter_cs, guest_es_limit,
  guest_cs_limit, guest_ss_limit, guest_ds_limit, guest_fs_limit, guest_gs_limit, guest_ldtr_limit,
  guest_tr_limit, guest_gdtr_limit, guest_idtr_limit, guest_es_ar, guest_cs_ar, guest_ss_ar,
  guest_ds_ar, guest_fs_ar, guest_gs_ar, guest_ldtr_ar, guest_tr_ar, guest_ia32_efer,
  guest_vmcs_link_ptr,
}
use mochivm.Vmcs.Written.{
  fields, Accepts, Wrote, wrote, Writes, >>=-Writes, >>-Writes, ask-Writes, calc_ctrl-Writes,
  calc_secondary-Writes, write_ctrl-Writes, write32-Writes, put_all-Writes, read_seg-Writes,
  capture-Writes,
}

-- The encodings that src/hv/vmcs.rs declares, in its order, but for those that it only reads.
abbrev pub encodings : List ℕ
encodings =
    pin_based_ctls ∷ proc_based_ctls ∷ exc_bitmap ∷ pf_error_mask ∷ pf_error_match
    ∷ cr3_target_count ∷ vm_exit_ctls ∷ vm_exit_msr_store_count ∷ vm_exit_msr_load_count
    ∷ vm_entry_ctls ∷ vm_entry_msr_load_count ∷ vm_entry_intr_info ∷ vm_entry_exc_err
    ∷ vm_entry_instr_len ∷ secondary_proc_based_ctls ∷ host_cr0 ∷ host_cr3 ∷ host_cr4 ∷ host_fs_base
    ∷ host_gs_base ∷ host_tr_base ∷ host_gdtr_base ∷ host_idtr_base ∷ host_sysenter_esp
    ∷ host_sysenter_eip ∷ host_rsp ∷ host_rip ∷ host_tr_sel ∷ host_fs_sel ∷ host_gs_sel
    ∷ host_ss_sel ∷ host_ds_sel ∷ host_es_sel ∷ host_sysenter_cs ∷ host_ia32_efer ∷ guest_cr0
    ∷ guest_cr3 ∷ guest_cr4 ∷ guest_es_base ∷ guest_cs_base ∷ guest_ss_base ∷ guest_ds_base
    ∷ guest_fs_base ∷ guest_gs_base ∷ guest_ldtr_base ∷ guest_tr_base ∷ guest_gdtr_base
    ∷ guest_idtr_base ∷ guest_dr7 ∷ guest_rsp ∷ guest_rip ∷ guest_rflags ∷ guest_pending_dbg_exc
    ∷ guest_sysenter_esp ∷ guest_sysenter_eip ∷ guest_es_sel ∷ guest_cs_sel ∷ guest_ss_sel
    ∷ guest_ds_sel ∷ guest_fs_sel ∷ guest_gs_sel ∷ guest_ldtr_sel ∷ guest_tr_sel ∷ guest_sysenter_cs
    ∷ guest_es_limit ∷ guest_cs_limit ∷ guest_ss_limit ∷ guest_ds_limit ∷ guest_fs_limit
    ∷ guest_gs_limit ∷ guest_ldtr_limit ∷ guest_tr_limit ∷ guest_gdtr_limit ∷ guest_idtr_limit
    ∷ guest_es_ar ∷ guest_cs_ar ∷ guest_ss_ar ∷ guest_ds_ar ∷ guest_fs_ar ∷ guest_gs_ar
    ∷ guest_ldtr_ar ∷ guest_tr_ar ∷ guest_ia32_efer ∷ guest_vmcs_link_ptr ∷ []

write_controls-Writes :
    Writes
      (pin_based_ctls ∷ proc_based_ctls ∷ secondary_proc_based_ctls ∷ exc_bitmap ∷ pf_error_mask
        ∷ pf_error_match ∷ cr3_target_count ∷ vm_exit_ctls ∷ vm_entry_ctls ∷ vm_exit_msr_store_count
        ∷ vm_exit_msr_load_count ∷ vm_entry_msr_load_count ∷ vm_entry_intr_info ∷ vm_entry_exc_err
        ∷ vm_entry_instr_len ∷ [])
      write_controls
unfolding write_controls
write_controls-Writes = >>=-Writes _ _ (calc_ctrl-Writes _ _) (λ a.
    >>-Writes _ _ (write_ctrl-Writes _ a) (
      >>=-Writes _ _ (calc_ctrl-Writes _ _) (λ b. >>-Writes _ _ (write_ctrl-Writes _ b) (
        >>=-Writes _ _ (calc_secondary-Writes 0) (λ c. >>-Writes _ _ (write_ctrl-Writes _ c) (
          >>-Writes _ _ (put_all-Writes _) (
            >>=-Writes _ _ (calc_ctrl-Writes _ _) (λ d. >>-Writes _ _ (write_ctrl-Writes _ d) (
              >>=-Writes _ _ (calc_ctrl-Writes _ _)
                (λ e. >>-Writes _ _ (write_ctrl-Writes _ e) (put_all-Writes _)))))))))))

write_host_selectors-Writes :
    (c : Captured)
    → Writes
        (host_tr_sel ∷ host_ss_sel ∷ host_ds_sel ∷ host_es_sel ∷ host_fs_sel ∷ host_gs_sel
          ∷ host_sysenter_cs ∷ [])
        (write_host_selectors c)
unfolding write_host_selectors
write_host_selectors-Writes c = >>-Writes _ _ (write32-Writes _ _) (
    >>=-Writes _ _ (read_seg-Writes Segment.ss) (λ ss. >>-Writes _ _ (write32-Writes _ ss) (
      >>=-Writes _ _ (read_seg-Writes Segment.ds) (λ ds. >>-Writes _ _ (write32-Writes _ ds) (
        >>=-Writes _ _ (read_seg-Writes Segment.es) (λ es. >>-Writes _ _ (write32-Writes _ es) (
          >>=-Writes _ _ (read_seg-Writes Segment.fs) (λ fs. >>-Writes _ _ (write32-Writes _ fs) (
            >>=-Writes _ _ (read_seg-Writes Segment.gs)
              (λ gs. >>-Writes _ _ (write32-Writes _ gs) (write32-Writes _ 0)))))))))))

-- The fields in the order of `write_state`.
abbrev in_order : List ℕ
in_order =
    pin_based_ctls ∷ proc_based_ctls ∷ secondary_proc_based_ctls ∷ exc_bitmap ∷ pf_error_mask
    ∷ pf_error_match ∷ cr3_target_count ∷ vm_exit_ctls ∷ vm_entry_ctls ∷ vm_exit_msr_store_count
    ∷ vm_exit_msr_load_count ∷ vm_entry_msr_load_count ∷ vm_entry_intr_info ∷ vm_entry_exc_err
    ∷ vm_entry_instr_len ∷ guest_vmcs_link_ptr ∷ guest_cr0 ∷ guest_cr3 ∷ guest_cr4 ∷ guest_ia32_efer
    ∷ guest_rsp ∷ guest_rip ∷ guest_rflags ∷ guest_dr7 ∷ guest_pending_dbg_exc ∷ guest_sysenter_esp
    ∷ guest_sysenter_eip ∷ guest_sysenter_cs ∷ guest_cs_sel ∷ guest_ss_sel ∷ guest_ds_sel
    ∷ guest_es_sel ∷ guest_fs_sel ∷ guest_gs_sel ∷ guest_ldtr_sel ∷ guest_tr_sel ∷ guest_cs_base
    ∷ guest_ss_base ∷ guest_ds_base ∷ guest_es_base ∷ guest_fs_base ∷ guest_gs_base
    ∷ guest_ldtr_base ∷ guest_tr_base ∷ guest_gdtr_base ∷ guest_idtr_base ∷ guest_gdtr_limit
    ∷ guest_idtr_limit ∷ guest_cs_limit ∷ guest_ss_limit ∷ guest_ds_limit ∷ guest_es_limit
    ∷ guest_fs_limit ∷ guest_gs_limit ∷ guest_ldtr_limit ∷ guest_tr_limit ∷ guest_cs_ar
    ∷ guest_ss_ar ∷ guest_ds_ar ∷ guest_es_ar ∷ guest_fs_ar ∷ guest_gs_ar ∷ guest_ldtr_ar
    ∷ guest_tr_ar ∷ host_cr0 ∷ host_cr3 ∷ host_cr4 ∷ host_rsp ∷ host_rip ∷ host_fs_base
    ∷ host_gs_base ∷ host_tr_base ∷ host_gdtr_base ∷ host_idtr_base ∷ host_sysenter_esp
    ∷ host_sysenter_eip ∷ host_ia32_efer ∷ host_tr_sel ∷ host_ss_sel ∷ host_ds_sel ∷ host_es_sel
    ∷ host_fs_sel ∷ host_gs_sel ∷ host_sysenter_cs ∷ []

pub write_fields-Writes :
    (host_stack guest_code guest_stack : ℕ)
    → Writes in_order (write_fields host_stack guest_code guest_stack)
unfolding write_fields guest_general guest_selectors guest_bases guest_limits guest_rights
    host_general
write_fields-Writes host_stack guest_code guest_stack = >>=-Writes _ _ capture-Writes (λ c.
    >>-Writes _ _ write_controls-Writes (
      >>-Writes _ _ (put_all-Writes (guest_general c guest_code guest_stack)) (
        >>-Writes _ _ (put_all-Writes (guest_selectors c)) (
          >>-Writes _ _ (put_all-Writes (guest_bases c)) (
            >>-Writes _ _ (put_all-Writes guest_limits) (
              >>-Writes _ _ (put_all-Writes guest_rights) (
                >>=-Writes _ _ (ask-Writes (λ hw h. hw.host_entry)) (λ entry.
                  >>-Writes _ _ (put_all-Writes (host_general c host_stack entry))
                    (write_host_selectors-Writes c)))))))))

count-in_order : (z : ℕ) → count z in_order ≡ (if holds z encodings then 1 else 0)
count-in_order z = count-reordered z in_order encodings refl ∙ count-distinct z encodings refl

-- What `write_state` makes of the run of `write_fields`.
abbrev after_fields : Step (Unit {0}) → Step (Result (Unit {0}))
after_fields s = elim s [ done _ m ↦ done (ok tt) m | panicked e m ↦ panicked e m ]

finished :
    (z : ℕ) (m : Machine) (s : Step (Unit {0}))
    → Wrote in_order m s
    → (m' : Machine) × (after_fields s ≡ done (ok tt) m')
      × (count z (fields m'.history)
          ≡ (if holds z encodings then 1 else 0) + count z (fields m.history))
finished z m _ (wrote a m' _ p) = (
  m',
  refl,
  ap (count z) p
      ∙ count-pushed z in_order (fields m.history)
      ∙ ap (λ n. n + count z (fields m.history)) (count-in_order z),
)

-- On a processor that accepts every `vmwrite`, `write_state` returns `Ok`, and it has then written
-- each field whose encoding src/hv/vmcs.rs declares, but for the two that it only reads, exactly
-- once, and no other field.
pub write_state-encodings :
    (host_stack guest_code guest_stack z : ℕ) (m : Machine)
    → Accepts m.hardware
    → (m' : Machine) × (write_state host_stack guest_code guest_stack m ≡ done (ok tt) m')
      × (count z (fields m'.history)
          ≡ (if holds z encodings then 1 else 0) + count z (fields m.history))
unfolding write_state
write_state-encodings a b c z m acc =
    finished z m (write_fields a b c m) (write_fields-Writes a b c m acc)
