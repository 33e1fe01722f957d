-- ===== src/Vmcs/Written.antt =====
-- The fields of the VMCS that a run writes, on a processor that accepts every `vmwrite`.
use mochivm.Prelude.{
  ℕ, zero, suc, ◌+◌, ◌≡◌, refl, sym, ◌∙◌, ap, false, List, [], ◌∷◌, ◌++◌, map, pushed,
  pushed-append, u64,
}
use mochivm.Machine.{
  Action, History, Hardware, Segment, Machine, Step, done, panicked, M, pure, ask, ◌>>=◌, ◌>>◌,
}
use mochivm.X86
use mochivm.Vmx
use mochivm.Vmcs.Write.{Write, ctrl, w32, w64, write_ctrl, write32, write64, put, put_all, capture}
use mochivm.Vmcs.Mode.{carry}

-- The fields written, the latest first.
abbrev pub fields : History → List ℕ
fields [] = []
fields (Action.vmwrite f v ∷ h) = f ∷ fields h
fields (_ ∷ h) = fields h

-- No `vmwrite` sets CF.
pub record Accepts (hw : Hardware) : Type 0 where
  pub accepts : (h : History) (f v : ℕ) → carry hw (Action.vmwrite f v ∷ h) ≡ false

-- The run from `m` returns and has written the fields `ws`, in their order.
pub data Wrote {A : Type 0} (ws : List ℕ) (m : Machine) : Step A → Type 0 where
  wrote :
      (a : A) (m' : Machine)
      → m'.hardware ≡ m.hardware
      → fields m'.history ≡ pushed ws (fields m.history)
      → Wrote ws m (done a m')

abbrev pub Writes : {A : Type 0} → List ℕ → M A → Type 0
Writes ws r = (m : Machine) → Accepts m.hardware → Wrote ws m (r m)

Wrote-from :
    {B : Type 0} (us : List ℕ) {bs : List ℕ} {m m' : Machine} {s : Step B}
    → m'.hardware ≡ m.hardware
    → fields m'.history ≡ pushed us (fields m.history)
    → Wrote bs m' s
    → Wrote (us ++ bs) m s
Wrote-from us {bs} {m} e p (wrote b m'' e' q) =
    wrote b m'' (e' ∙ e) (q ∙ ap (pushed bs) p ∙ sym (pushed-append us bs (fields m.history)))

module _ {A B : Type 0} where
  Wrote-bind :
      {us bs : List ℕ} {m : Machine} (f : A → M B) (s : Step A)
      → Accepts m.hardware
      → Wrote us m s
      → ((a : A) → Writes bs (f a))
      → Wrote (us ++ bs) m (elim s [ done a m' ↦ f a m' | panicked e m' ↦ panicked e m' ])
  Wrote-bind {us} f _ acc (wrote a m' e p) next = Wrote-from us e p (next a m' (rw e acc))

  pub >>=-Writes :
      {us bs : List ℕ} (r : M A) (f : A → M B)
      → Writes us r
      → ((a : A) → Writes bs (f a))
      → Writes (us ++ bs) (r >>= f)
  >>=-Writes r f p q m acc = Wrote-bind f (r m) acc (p m acc) q

  pub >>-Writes :
      {us bs : List ℕ} (r : M A) (s : M B) → Writes us r → Writes bs s → Writes (us ++ bs) (r >> s)
  >>-Writes r s p q m acc = Wrote-bind (λ _. s) (r m) acc (p m acc) (λ _. q)

pure-Writes : {A : Type 0} (a : A) → Writes [] (pure a)
pure-Writes a m acc = wrote a m refl refl

pub ask-Writes : {A : Type 0} (f : Hardware → History → A) → Writes [] (ask f)
ask-Writes f m acc = wrote _ _ refl refl

rdmsr-Writes : (msr : ℕ) → Writes [] (X86.rdmsr msr)
unfolding X86.rdmsr
rdmsr-Writes msr m acc = wrote _ _ refl refl

read_cr0-Writes : Writes [] X86.read_cr0
unfolding X86.read_cr0
read_cr0-Writes m acc = wrote _ _ refl refl

read_cr3-Writes : Writes [] X86.read_cr3
unfolding X86.read_cr3
read_cr3-Writes m acc = wrote _ _ refl refl

read_cr4-Writes : Writes [] X86.read_cr4
unfolding X86.read_cr4
read_cr4-Writes m acc = wrote _ _ refl refl

sgdt-Writes : Writes [] X86.sgdt
unfolding X86.sgdt
sgdt-Writes m acc = wrote _ _ refl refl

sidt-Writes : Writes [] X86.sidt
unfolding X86.sidt
sidt-Writes m acc = wrote _ _ refl refl

read_tr-Writes : Writes [] X86.read_tr
unfolding X86.read_tr
read_tr-Writes m acc = wrote _ _ refl refl

pub read_seg-Writes : (s : Segment) → Writes [] (X86.read_seg s)
unfolding X86.read_seg
read_seg-Writes s m acc = wrote _ _ refl refl

load-Writes : (a : ℕ) → Writes [] (X86.load a)
unfolding X86.load
load-Writes a m acc = wrote _ _ refl refl

read_descriptor-Writes : (address left i : ℕ) → Writes [] (X86.read_descriptor address left i)
unfolding X86.read_descriptor
read_descriptor-Writes address zero i = pure-Writes []
read_descriptor-Writes address (suc left) i =
    let load_it = load-Writes (u64 (address + i)) in
    >>=-Writes _ _ load_it (λ _. >>=-Writes _ _ load_it (λ b.
      >>=-Writes _ _ (read_descriptor-Writes address left (i + 1))
        (λ rest. pure-Writes (b ∷ rest))))

read_gdt_entry_base-Writes : (base offset : ℕ) → Writes [] (X86.read_gdt_entry_base base offset)
unfolding X86.read_gdt_entry_base
read_gdt_entry_base-Writes base offset =
    >>=-Writes _ _ (read_descriptor-Writes (u64 (base + offset)) 16 0)
      (λ desc. pure-Writes (X86.descriptor_base desc))

pub calc_ctrl-Writes : (msr desired : ℕ) → Writes [] (Vmx.calc_ctrl msr desired)
unfolding Vmx.calc_ctrl
calc_ctrl-Writes msr desired = >>=-Writes _ _ (rdmsr-Writes msr) (λ caps. pure-Writes _)

pub calc_secondary-Writes : (desired : ℕ) → Writes [] (Vmx.calc_secondary desired)
unfolding Vmx.calc_secondary
calc_secondary-Writes desired = >>=-Writes _ _ (rdmsr-Writes _) (λ caps. pure-Writes _)

pub write_ctrl-Writes : (f v : ℕ) → Writes (f ∷ []) (write_ctrl f v)
unfolding write_ctrl Vmx.vmwrite
write_ctrl-Writes f v m acc = rw (acc.accepts m.history f v) (wrote _ _ refl refl)

pub write32-Writes : (f v : ℕ) → Writes (f ∷ []) (write32 f v)
unfolding write32 Vmx.vmwrite
write32-Writes f v m acc = rw (acc.accepts m.history f v) (wrote _ _ refl refl)

write64-Writes : (f v : ℕ) → Writes (f ∷ []) (write64 f v)
unfolding write64 Vmx.vmwrite
write64-Writes f v m acc = rw (acc.accepts m.history f v) (wrote _ _ refl refl)

abbrev pub field_of : Write → ℕ
field_of (ctrl f v) = f
field_of (w32 f v) = f
field_of (w64 f v) = f

put-Writes : (w : Write) → Writes (field_of w ∷ []) (put w)
unfolding put
put-Writes (ctrl f v) = write_ctrl-Writes f v
put-Writes (w32 f v) = write32-Writes f v
put-Writes (w64 f v) = write64-Writes f v

pub put_all-Writes : (ws : List Write) → Writes (map field_of ws) (put_all ws)
unfolding put_all
put_all-Writes [] = pure-Writes tt
put_all-Writes (w ∷ ws) = >>-Writes (put w) (put_all ws) (put-Writes w) (put_all-Writes ws)

pub capture-Writes : Writes [] capture
unfolding capture
capture-Writes = >>=-Writes _ _ read_cr0-Writes (λ a. >>=-Writes _ _ read_cr3-Writes (λ b.
    >>=-Writes _ _ read_cr4-Writes (λ c. >>=-Writes _ _ (rdmsr-Writes _) (λ d.
      >>=-Writes _ _ sgdt-Writes (λ (e, f). >>=-Writes _ _ sidt-Writes (λ (g, h).
        >>=-Writes _ _ read_tr-Writes
          (λ k. >>=-Writes _ _ (read_gdt_entry_base-Writes f k) (λ l. pure-Writes _))))))))
