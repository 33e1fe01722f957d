-- ===== src/Vmcs/Setup.antt =====
-- The ends of `setup` of src/hv/vmcs.rs.
use mochivm.Prelude.{
  ℕ, ◌≡◌, ◌≢◌, refl, ◌∙◌, sym, arith, true, false, ◌∷◌, ◌==◌, ==-eq, Bool-cases, inl, inr, String,
  u32, length, bit_or, ◌*◌, ◌^◌,
}
use mochivm.Guest.{guest_bin}
use mochivm.Machine.{
  Action, Machine, Step, done, panicked, M, pure, ◌>>=◌, ◌>>◌, attempt, on_result, emit, Result, ok,
  err,
}
use mochivm.X86
use mochivm.Efi
use mochivm.Efi.Layout.{allocate_pointer}
use mochivm.Vmx
use mochivm.Vmcs.{
  clear_vmxe, leave_vmx, vmxoff_and_clear, give_up, finish_setup, mark_ready, set_vmxon_region,
  set_vmcs_region, load_vmcs, setup_guest, setup_vmcs, setup,
}
use mochivm.Vmcs.Write.{write_fields, write_state}
use mochivm.Vmcs.Mode.{
  Same-by, WellBehaved, WellBehaved-Same, carry, root_mode, Same, Same-refl, Calm, Calm-then,
  Quiet-then, attempt-Calm,
}
use mochivm.Vmcs.Quiet.{
  rdmsr-Calmly, copy-Calmly, vmclear-Calmly, vmptrld-Calmly, allocate_pages-Calmly,
  write_fields-Quietly,
}

-- How `setup` may end.
pub data SetUp : Step (Result (Unit {0})) → Type 0 where
  ready :
      (m : Machine)
      → m.vmx_active ≡ true
      → root_mode m ≡ true
      → WellBehaved m.hardware
      → m.exit_count ≡ 0
      → SetUp (done (ok tt) m)
  refused :
      (e : String) (m : Machine)
      → m.vmx_active ≡ false
      → root_mode m ≡ false
      → m.vmxon_region ≡ 0
      → SetUp (done (err e) m)
  broken :
      (e : String) (m : Machine) → m.vmx_active ≡ false → root_mode m ≡ true → SetUp (panicked e m)

-- Between `vmxon` and the end of `setup`.
record Inside (m : Machine) : Type 0 where
  hardware : WellBehaved m.hardware
  idle : m.vmx_active ≡ false
  region : m.vmxon_region ≢ 0
  mode : root_mode m ≡ true
  exits : m.exit_count ≡ 0

Inside-Same : {m m' : Machine} → Same m m' → Inside m → Inside m'
Inside-Same s i = record {
  hardware = WellBehaved-Same s i.hardware;
  idle = s.active ∙ i.idle;
  region = λ e. i.region (sym s.region ∙ e);
  mode = s.mode ∙ i.mode;
  exits = s.exits ∙ i.exits;
}

give_up-SetUp : (e : String) (m : Machine) → Inside m → SetUp (give_up e m)
unfolding give_up vmxoff_and_clear leave_vmx clear_vmxe Vmx.vmxoff X86.read_cr4 X86.write_cr4
give_up-SetUp e m i =
    let set : (m.vmxon_region == 0) ≡ false = ground (arith, i.region) in
    rw (set, ◌>>◌) (refused e _ i.idle (rw (i.hardware.vmxoff_succeeds m.history i.mode)) refl)

-- An allocation: a page that is not null, or a text.
data Allocated (m : Machine) : Step (Result ℕ) → Type 0 where
  page : (a : ℕ) (m' : Machine) → Same m m' → a ≢ 0 → Allocated m (done (ok a) m')
  out_of_pages : (e : String) (m' : Machine) → Same m m' → Allocated m (done (err e) m')

allocate_page-Allocated : (m : Machine) → WellBehaved m.hardware → Allocated m (Efi.allocate_page m)
unfolding Efi.allocate_page
allocate_page-Allocated m w = elim (Bool-cases (m.system_table == 0)) [
  | inl null ↦ rw null (out_of_pages _ m (Same-refl m))
  | inr given ↦
      let function = allocate_pointer (m.hardware.memory m.history) m.system_table in
      let h = Action.call_allocate function 0 7 1 ∷ m.history in
      let same : Same m (record m { history = h }) = Same-by refl in
      rw given (elim (Bool-cases ((m.hardware.pages h).0 == 0)) [
        | inl fine ↦ rw fine (page _ _ same (w.page_not_null h (==-eq _ _ fine)))
        | inr bad ↦ rw bad (out_of_pages _ _ same)
      ])
]

-- `vmxon` that succeeds enters root operation, and one that fails leaves the mode alone.
data SwitchedOn (m : Machine) : Step (Result (Unit {0})) → Type 0 where
  entered_root :
      (m' : Machine)
      → m'.vmx_active ≡ m.vmx_active
      → m'.hardware ≡ m.hardware
      → m'.exit_count ≡ m.exit_count
      → root_mode m' ≡ true
      → SwitchedOn m (done (ok tt) m')
  failed : (e : String) (m' : Machine) → Same m m' → SwitchedOn m (done (err e) m')

vmxon-SwitchedOn : (region : ℕ) (m : Machine) → SwitchedOn m (Vmx.vmxon region m)
unfolding Vmx.vmxon X86.rdmsr
vmxon-SwitchedOn region m =
    let basic = Action.rdmsr Vmx.ia32_vmx_basic ∷ m.history in
    let revision = u32 (bit_or ((m.hardware.msr basic).1 * 2 ^ 32) (m.hardware.msr basic).0) in
    let h = Action.vmxon region ∷ Action.store32 region revision ∷ basic in
    elim (Bool-cases (carry m.hardware h)) [
      | inl set ↦ rw set (failed _ _ (Same-by (rw set)))
      | inr clear ↦ rw clear (entered_root _ refl refl refl (rw clear))
    ]

-- What `attempt` makes of a finished run.
abbrev after_write : Step (Result (Unit {0})) → Step (Result (Unit {0}))
after_write s = elim s [
  | done a m' ↦ on_result (λ e. pure (err e)) (λ _. mark_ready) a m'
  | panicked e m' ↦ panicked e m'
]

finish_setup-SetUp :
    (host_stack guest_code guest_stack : ℕ) (m : Machine)
    → Inside m
    → SetUp (finish_setup host_stack guest_code guest_stack m)
unfolding finish_setup write_state mark_ready
finish_setup-SetUp a b c m i =
    Quiet-then (λ s. SetUp (after_write s)) (write_fields a b c) (λ _. pure (ok tt)) m
      (write_fields-Quietly a b c m)
      (λ _ m' s. let i' = Inside-Same s i in ready _ refl i'.mode i'.hardware i'.exits)
      (λ e m' s. broken e m' (Inside-Same s i).idle (Inside-Same s i).mode)

-- A calm run inside keeps `Inside` for what follows.
module _ {A : Type 0} (m : Machine) (i : Inside m) where
  then-SetUp :
      (r : M A) (f : A → M (Result (Unit {0})))
      → Calm m (r m)
      → ((a : A) (m' : Machine) → Inside m' → SetUp (f a m'))
      → SetUp ((r >>= f) m)
  then-SetUp r f c next = Calm-then SetUp r f m c (λ a m' s. next a m' (Inside-Same s i))

  attempt-SetUp :
      (r : M (Result A)) (fail : String → M (Result (Unit {0}))) (next : A → M (Result (Unit {0})))
      → Calm m (r m)
      → ((e : String) (m' : Machine) → Inside m' → SetUp (fail e m'))
      → ((a : A) (m' : Machine) → Inside m' → SetUp (next a m'))
      → SetUp (attempt r fail next m)
  attempt-SetUp r fail next c stop go =
      attempt-Calm SetUp r fail next m c (λ e m' s. stop e m' (Inside-Same s i))
        (λ a m' s. go a m' (Inside-Same s i))

setup_guest-SetUp : (m : Machine) → Inside m → SetUp (setup_guest m)
unfolding setup_guest Efi.allocate_page
setup_guest-SetUp m i =
    attempt-SetUp m i (Efi.allocate_pages 4) give_up _ (allocate_pages-Calmly 4 m) give_up-SetUp
      λ host_stack a i.
        attempt-SetUp a i Efi.allocate_page give_up _ (allocate_pages-Calmly 1 a) give_up-SetUp
          λ guest_code b i.
            attempt-SetUp b i Efi.allocate_page give_up _ (allocate_pages-Calmly 1 b) give_up-SetUp
              λ guest_stack c i.
                then-SetUp c i (emit (Action.copy guest_code (length guest_bin))) _
                  (copy-Calmly guest_code (length guest_bin) c)
                  λ _ d i. finish_setup-SetUp host_stack guest_code guest_stack d i

Inside-region : (r : ℕ) (m : Machine) → Inside m → Inside (record m { vmcs_region = r })
Inside-region r m i = record {
  hardware = i.hardware;
  idle = i.idle;
  region = i.region;
  mode = i.mode;
  exits = i.exits;
}

load_vmcs-SetUp : (region : ℕ) (m : Machine) → Inside m → SetUp (load_vmcs region m)
unfolding load_vmcs
load_vmcs-SetUp region m i =
    attempt-SetUp m i (Vmx.vmclear region) (λ _. give_up "vmclear failed") _
      (vmclear-Calmly region m) (λ _. give_up-SetUp "vmclear failed")
      λ _ a i.
        attempt-SetUp a i (Vmx.vmptrld region) (λ _. give_up "vmptrld failed")
          (λ _. set_vmcs_region region >> setup_guest) (vmptrld-Calmly region a)
          (λ _. give_up-SetUp "vmptrld failed")
          λ _ b i. setup_guest-SetUp _ (Inside-region region b i)

setup_vmcs-SetUp : (m : Machine) → Inside m → SetUp (setup_vmcs m)
unfolding setup_vmcs Efi.allocate_page
setup_vmcs-SetUp m i =
    attempt-SetUp m i Efi.allocate_page give_up _ (allocate_pages-Calmly 1 m) give_up-SetUp
      λ region a i.
        then-SetUp a i (X86.rdmsr 0x480) _ (rdmsr-Calmly 0x480 a)
          λ revision b i. load_vmcs-SetUp region _ (Inside-Same (Same-by refl) i)

-- The run of `setup` from its `vmxon` on.
module _ (m : Machine) (w : WellBehaved m.hardware) (idle : m.vmx_active ≡ false)
    (none_yet : m.exit_count ≡ 0) where
  after_vmxon :
      (region : ℕ) (s : Step (Result (Unit {0})))
      → region ≢ 0
      → m.vmxon_region ≡ 0
      → root_mode m ≡ false
      → SwitchedOn m s
      → SetUp (elim s [
        | done a m' ↦
            on_result (λ e. pure (err e)) (λ _. set_vmxon_region region >> setup_vmcs) a m'
        | panicked e m' ↦ panicked e m'
      ])
  after_vmxon region _ ne zero off (entered_root m' active hardware exits on) =
      setup_vmcs-SetUp _ (record {
        hardware = rw hardware w;
        idle = active ∙ idle;
        region = ne;
        mode = on;
        exits = exits ∙ none_yet;
      })
  after_vmxon region _ ne zero off (failed e m' s) =
      refused e m' (s.active ∙ idle) (s.mode ∙ off) (s.region ∙ zero)

after_page :
    (m : Machine) (s : Step (Result ℕ))
    → WellBehaved m.hardware
    → m.vmx_active ≡ false
    → m.exit_count ≡ 0
    → m.vmxon_region ≡ 0
    → root_mode m ≡ false
    → Allocated m s
    → SetUp (elim s [
      | done a m' ↦
          on_result
            (λ e. pure (err e))
            (λ region.
              attempt
                (Vmx.vmxon region)
                (λ e. pure (err e))
                (λ _. set_vmxon_region region >> setup_vmcs))
            a
            m'
      | panicked e m' ↦ panicked e m'
    ])
after_page m _ w idle none_yet zero off (page a m' s ne) =
    after_vmxon m' (WellBehaved-Same s w) (s.active ∙ idle) (s.exits ∙ none_yet) a _ ne
      (s.region ∙ zero) (s.mode ∙ off) (vmxon-SwitchedOn a m')
after_page m _ w idle none_yet zero off (out_of_pages e m' s) =
    refused e m' (s.active ∙ idle) (s.mode ∙ off) (s.region ∙ zero)

-- Started outside VMX with the statics at their first values, on a machine that behaves as
-- `WellBehaved` says, `setup` ends in one of three ways: it returns `Ok` in VMX root operation with
-- VMX_ACTIVE set and still no exit counted; it returns `Err` outside VMX root operation, with
-- VMX_ACTIVE not set and VMXON_REGION zero; or it panics in VMX root operation with VMX_ACTIVE not
-- set.
pub setup-SetUp :
    (m : Machine)
    → WellBehaved m.hardware
    → m.vmx_active ≡ false
    → m.exit_count ≡ 0
    → m.vmxon_region ≡ 0
    → root_mode m ≡ false
    → SetUp (setup m)
unfolding setup
setup-SetUp m w idle none_yet zero off =
    after_page m (Efi.allocate_page m) w idle none_yet zero off (allocate_page-Allocated m w)
