-- ===== src/Vmcs/Quiet.antt =====
-- The runs of src/x86.rs, src/hv/efi.rs, src/hv/vmx.rs and of `write_fields` that hold no `vmxon`
-- and no `vmxoff`.
use mochivm.Prelude.{
  ℕ, zero, suc, ◌+◌, u64, refl, List, [], ◌∷◌, ◌==◌, Bool-cases, inl, inr, String,
}
use mochivm.Machine.{
  Action, History, Hardware, Segment, M, pure, ask, emit, println, expect, expected, Result, ok,
  err,
}
use mochivm.X86
use mochivm.Efi
use mochivm.Vmx
use mochivm.Vmcs.Write.{
  Captured, Write, ctrl, w32, w64, write_ctrl, write32, write64, put, put_all, capture,
  write_controls, write_host_selectors, write_fields,
}
use mochivm.Vmcs.Mode.{
  Same-by, Same-refl, calm, returns, panics, Quiet-Calm, Quietly, Calmly, >>=-Quietly, >>-Quietly,
  >>=-Calmly,
}

pub pure-Calmly : {A : Type 0} (a : A) → Calmly (pure a)
pure-Calmly a m = calm a m (Same-refl m)

pub rdmsr-Calmly : (msr : ℕ) → Calmly (X86.rdmsr msr)
unfolding X86.rdmsr
rdmsr-Calmly msr m = calm _ _ (Same-by refl)

pub cpuid-Calmly : (leaf subleaf : ℕ) → Calmly (X86.cpuid leaf subleaf)
unfolding X86.cpuid
cpuid-Calmly leaf subleaf m = calm _ _ (Same-by refl)

pub wrmsr-Calmly : (msr value : ℕ) → Calmly (X86.wrmsr msr value)
unfolding X86.wrmsr
wrmsr-Calmly msr value m = calm _ _ (Same-by refl)

pub read_cr0-Calmly : Calmly X86.read_cr0
unfolding X86.read_cr0
read_cr0-Calmly m = calm _ _ (Same-by refl)

pub read_cr3-Calmly : Calmly X86.read_cr3
unfolding X86.read_cr3
read_cr3-Calmly m = calm _ _ (Same-by refl)

pub read_cr4-Calmly : Calmly X86.read_cr4
unfolding X86.read_cr4
read_cr4-Calmly m = calm _ _ (Same-by refl)

pub write_cr0-Calmly : (v : ℕ) → Calmly (X86.write_cr0 v)
unfolding X86.write_cr0
write_cr0-Calmly v m = calm _ _ (Same-by refl)

pub write_cr4-Calmly : (v : ℕ) → Calmly (X86.write_cr4 v)
unfolding X86.write_cr4
write_cr4-Calmly v m = calm _ _ (Same-by refl)

pub read_seg-Calmly : (s : Segment) → Calmly (X86.read_seg s)
unfolding X86.read_seg
read_seg-Calmly s m = calm _ _ (Same-by refl)

pub read_tr-Calmly : Calmly X86.read_tr
unfolding X86.read_tr
read_tr-Calmly m = calm _ _ (Same-by refl)

pub sgdt-Calmly : Calmly X86.sgdt
unfolding X86.sgdt
sgdt-Calmly m = calm _ _ (Same-by refl)

pub sidt-Calmly : Calmly X86.sidt
unfolding X86.sidt
sidt-Calmly m = calm _ _ (Same-by refl)

pub load-Calmly : (a : ℕ) → Calmly (X86.load a)
unfolding X86.load
load-Calmly a m = calm _ _ (Same-by refl)

pub vmclear-Calmly : (r : ℕ) → Calmly (Vmx.vmclear r)
unfolding Vmx.vmclear
vmclear-Calmly r m = calm _ _ (Same-by refl)

pub vmptrld-Calmly : (r : ℕ) → Calmly (Vmx.vmptrld r)
unfolding Vmx.vmptrld
vmptrld-Calmly r m = calm _ _ (Same-by refl)

pub vmwrite-Calmly : (field value : ℕ) → Calmly (Vmx.vmwrite field value)
unfolding Vmx.vmwrite
vmwrite-Calmly field value m = calm _ _ (Same-by refl)

pub println-Calmly : (text : String) (args : List ℕ) → Calmly (println text args)
println-Calmly text args m = calm _ _ (Same-by refl)

pub store32-Calmly : (a v : ℕ) → Calmly (emit (Action.store32 a v))
store32-Calmly a v m = calm _ _ (Same-by refl)

pub copy-Calmly : (a n : ℕ) → Calmly (emit (Action.copy a n))
copy-Calmly a n m = calm _ _ (Same-by refl)

pub ask-Calmly : {A : Type 0} (f : Hardware → History → A) → Calmly (ask f)
ask-Calmly f m = calm _ _ (Same-by refl)

pub allocate_pages-Calmly : (pages : ℕ) → Calmly (Efi.allocate_pages pages)
unfolding Efi.allocate_pages
allocate_pages-Calmly pages m = elim (Bool-cases (m.system_table == 0)) [
  | inl null ↦ rw null (calm _ _ (Same-refl m))
  | inr given ↦ rw given (calm _ _ (Same-by refl))
]

pub read_descriptor-Calmly : (address left i : ℕ) → Calmly (X86.read_descriptor address left i)
unfolding X86.read_descriptor
read_descriptor-Calmly address zero i = pure-Calmly []
read_descriptor-Calmly address (suc left) i =
    let load_it = load-Calmly (u64 (address + i)) in
    >>=-Calmly _ _ load_it (λ _. >>=-Calmly _ _ load_it (λ b.
      >>=-Calmly _ _ (read_descriptor-Calmly address left (i + 1))
        (λ rest. pure-Calmly (b ∷ rest))))

pub read_gdt_entry_base-Calmly : (base offset : ℕ) → Calmly (X86.read_gdt_entry_base base offset)
unfolding X86.read_gdt_entry_base
read_gdt_entry_base-Calmly base offset =
    >>=-Calmly _ _ (read_descriptor-Calmly (u64 (base + offset)) 16 0)
      (λ desc. pure-Calmly (X86.descriptor_base desc))

pub calc_ctrl-Calmly : (msr desired : ℕ) → Calmly (Vmx.calc_ctrl msr desired)
unfolding Vmx.calc_ctrl
calc_ctrl-Calmly msr desired = >>=-Calmly _ _ (rdmsr-Calmly msr) (λ caps. pure-Calmly _)

pub calc_secondary-Calmly : (desired : ℕ) → Calmly (Vmx.calc_secondary desired)
unfolding Vmx.calc_secondary
calc_secondary-Calmly desired = >>=-Calmly _ _ (rdmsr-Calmly _) (λ caps. pure-Calmly _)

pub expect-Quietly : (r : M (Result (Unit {0}))) (e : String) → Calmly r → Quietly (expect r e)
expect-Quietly r e c = >>=-Quietly r _ (λ m. Quiet-Calm (c m)) branch
  where
    branch : (x : Result (Unit {0})) → Quietly (expected e x)
    branch (ok _) m = returns tt m (Same-refl m)
    branch (err _) m = panics e m (Same-refl m)

put-Quietly : (w : Write) → Quietly (put w)
unfolding put write_ctrl write32 write64
put-Quietly (ctrl f v) = expect-Quietly _ _ (vmwrite-Calmly f v)
put-Quietly (w32 f v) = expect-Quietly _ _ (vmwrite-Calmly f v)
put-Quietly (w64 f v) = expect-Quietly _ _ (vmwrite-Calmly f v)

put_all-Quietly : (ws : List Write) → Quietly (put_all ws)
unfolding put_all
put_all-Quietly [] = λ m. returns tt m (Same-refl m)
put_all-Quietly (w ∷ ws) = >>-Quietly (put w) (put_all ws) (put-Quietly w) (put_all-Quietly ws)

write_ctrl-Quietly : (f v : ℕ) → Quietly (write_ctrl f v)
unfolding write_ctrl
write_ctrl-Quietly f v = expect-Quietly _ _ (vmwrite-Calmly f v)

write32-Quietly : (f v : ℕ) → Quietly (write32 f v)
unfolding write32
write32-Quietly f v = expect-Quietly _ _ (vmwrite-Calmly f v)

capture-Calmly : Calmly capture
unfolding capture
capture-Calmly = >>=-Calmly _ _ (read_cr0-Calmly) (λ a. >>=-Calmly _ _ (read_cr3-Calmly) (λ b.
    >>=-Calmly _ _ (read_cr4-Calmly) (λ c. >>=-Calmly _ _ (rdmsr-Calmly _) (λ d.
      >>=-Calmly _ _ (sgdt-Calmly) (λ (e, f). >>=-Calmly _ _ (sidt-Calmly) (λ (g, h).
        >>=-Calmly _ _ (read_tr-Calmly)
          (λ k. >>=-Calmly _ _ (read_gdt_entry_base-Calmly f k) (λ l. pure-Calmly _))))))))

write_controls-Quietly : Quietly write_controls
unfolding write_controls
write_controls-Quietly = >>=-Quietly _ _ ((λ m. Quiet-Calm (calc_ctrl-Calmly _ _ m))) (λ a.
    >>-Quietly _ _ (write_ctrl-Quietly _ a) (
      >>=-Quietly _ _ ((λ m. Quiet-Calm (calc_ctrl-Calmly _ _ m))) (λ b.
        >>-Quietly _ _ (write_ctrl-Quietly _ b) (
          >>=-Quietly _ _ ((λ m. Quiet-Calm (calc_secondary-Calmly 0 m))) (λ c.
            >>-Quietly _ _ (write_ctrl-Quietly _ c) (
              >>-Quietly _ _ (put_all-Quietly _) (
                >>=-Quietly _ _ ((λ m. Quiet-Calm (calc_ctrl-Calmly _ _ m))) (λ d.
                  >>-Quietly _ _ (write_ctrl-Quietly _ d) (
                    >>=-Quietly _ _ ((λ m. Quiet-Calm (calc_ctrl-Calmly _ _ m)))
                      (λ e. >>-Quietly _ _ (write_ctrl-Quietly _ e) (put_all-Quietly _)))))))))))

write_host_selectors-Quietly : (c : Captured) → Quietly (write_host_selectors c)
unfolding write_host_selectors
write_host_selectors-Quietly c = >>-Quietly _ _ (write32-Quietly _ _) (
    >>=-Quietly _ _ ((λ m. Quiet-Calm (read_seg-Calmly Segment.ss m))) (λ ss.
      >>-Quietly _ _ (write32-Quietly _ ss) (
        >>=-Quietly _ _ ((λ m. Quiet-Calm (read_seg-Calmly Segment.ds m))) (λ ds.
          >>-Quietly _ _ (write32-Quietly _ ds) (
            >>=-Quietly _ _ ((λ m. Quiet-Calm (read_seg-Calmly Segment.es m))) (λ es.
              >>-Quietly _ _ (write32-Quietly _ es) (
                >>=-Quietly _ _ ((λ m. Quiet-Calm (read_seg-Calmly Segment.fs m))) (λ fs.
                  >>-Quietly _ _ (write32-Quietly _ fs) (
                    >>=-Quietly _ _ ((λ m. Quiet-Calm (read_seg-Calmly Segment.gs m)))
                      (λ gs. >>-Quietly _ _ (write32-Quietly _ gs) (write32-Quietly _ 0)))))))))))

pub write_fields-Quietly :
    (host_stack guest_code guest_stack : ℕ)
    → Quietly (write_fields host_stack guest_code guest_stack)
unfolding write_fields
write_fields-Quietly host_stack guest_code guest_stack =
    >>=-Quietly _ _ (λ m. Quiet-Calm (capture-Calmly m))
      (λ c. >>-Quietly _ _ (write_controls-Quietly) (
        >>-Quietly _ _ (put_all-Quietly _) (
          >>-Quietly _ _ (put_all-Quietly _) (
            >>-Quietly _ _ (put_all-Quietly _) (
              >>-Quietly _ _ (put_all-Quietly _) (
                >>-Quietly _ _ (put_all-Quietly _) (
                  >>=-Quietly _ _ ((λ m. Quiet-Calm (ask-Calmly (λ hw h. hw.host_entry) m)))
                    (λ entry.
                      >>-Quietly _ _ (put_all-Quietly _) (write_host_selectors-Quietly c)))))))))
