-- ===== src/Hv/Boot.antt =====
-- The application from its entry point to its end, on every path: src/main.rs and src/hv.rs.
use mochivm.Prelude.{
  ℕ, ◌≤◌, ◌≡◌, refl, ◌∙◌, arith, Bool, true, false, not, [], ◌∷◌, if◌then◌else◌, ◌==◌, Bool-cases,
  inl, inr, String, bit_and, bit_or,
}
use Prim.Native.String.{◌++◌}
use mochivm.Machine.{Action, Machine, Step, done, panicked, M, pure, ◌>>=◌, ◌>>◌, Result, ok, err}
use mochivm.X86
use mochivm.Vmx
use mochivm.Vmcs.{Status, stopped, stuck, entered, enter_guest, exits, setup}
use mochivm.Vmcs.Fields.{max_hlt_exits}
use mochivm.Vmcs.Mode.{
  Same-by, WellBehaved, WellBehaved-Same, root_mode, Same, Same-refl, calm, Calmly, Calm-then,
  >>=-Calmly,
}
use mochivm.Vmcs.Quiet.{
  pure-Calmly, rdmsr-Calmly, cpuid-Calmly, wrmsr-Calmly, read_cr0-Calmly, read_cr4-Calmly,
  write_cr0-Calmly, write_cr4-Calmly,
}
use mochivm.Vmcs.Setup.{SetUp, ready, refused, broken, setup-SetUp}
use mochivm.Vmcs.Exits.{Live, Ended, went_off, not_entered, exits-Ended}
use mochivm.Vmcs.Teardown.{teardown_lem, torn_idle}
use mochivm.Hv.{
  Fate, returned, guest, halted, launch, after_launch, start_guest, after_feature_control,
  unsupported, bring_up, init, shutdown, panic_handler, efi_main, boot,
}

-- How the application may end.
pub data Booted : Step Fate → Type 0 where
  back_in_firmware :
      (m : Machine) → m.vmx_active ≡ false → root_mode m ≡ false → Booted (done returned m)
  guest_stopped :
      (m : Machine) → m.vmx_active ≡ false → root_mode m ≡ false → Booted (done (guest stopped) m)
  guest_stuck : (m : Machine) → Booted (done (guest stuck) m)
  halted_in_root : (m : Machine) → root_mode m ≡ true → Booted (done halted m)

-- Before `setup`.
record Clean (m : Machine) : Type 0 where
  hardware : WellBehaved m.hardware
  idle : m.vmx_active ≡ false
  region : m.vmxon_region ≡ 0
  outside : root_mode m ≡ false
  exits : m.exit_count ≡ 0

Clean-Same : {m m' : Machine} → Same m m' → Clean m → Clean m'
Clean-Same s c = record {
  hardware = WellBehaved-Same s c.hardware;
  idle = s.active ∙ c.idle;
  region = s.region ∙ c.region;
  outside = s.mode ∙ c.outside;
  exits = s.exits ∙ c.exits;
}

-- What follows a panic.
abbrev pub caught : Step Fate → Step Fate
caught s = elim s [ done f m ↦ done f m | panicked e m ↦ panic_handler e m ]

panic_handler-Booted :
    (e : String) (m : Machine)
    → m.vmx_active ≡ false
    → root_mode m ≡ true
    → Booted (panic_handler e m)
unfolding panic_handler shutdown
panic_handler-Booted e m idle on =
    let said = record m { history = Action.print ("[mochivm] PANIC: " ++ e) [] ∷ m.history } in
    rw (teardown_lem said, torn_idle said idle, ◌>>◌) (halted_in_root said on)

exits-Booted :
    (s : Step Status)
    → Ended s
    → Booted (caught (elim s [ done t m ↦ done (guest t) m | panicked e m ↦ panicked e m ]))
exits-Booted _ (went_off m _ idle off) = guest_stopped m idle off
exits-Booted _ (not_entered m _) = guest_stuck m

-- A guest that is launched comes to its end.
launch-Booted :
    (fuel : ℕ) (m : Machine)
    → Live m
    → m.exit_count ≡ 0
    → max_hlt_exits ≤ fuel
    → Booted (caught (launch fuel m))
unfolding launch enter_guest entered after_launch
launch-Booted fuel m l z f =
    let next = record m { history = Action.vmlaunch ∷ m.history } in
    let live : Live next = record { hardware = l.hardware; active = l.active; mode = l.mode } in
    let x = exits-Ended fuel next live (omega arith) (omega arith) in
    elim (Bool-cases (next.hardware.enters next.history)) [
      | inl inside ↦ rw inside (exits-Booted (exits fuel next) x)
      | inr outside ↦ rw outside (guest_stuck next)
    ]

start_guest-Booted :
    (fuel : ℕ) (s : Step (Result (Unit {0})))
    → SetUp s
    → max_hlt_exits ≤ fuel
    → Booted (caught (elim s [ done r m ↦ start_guest fuel r m | panicked e m ↦ panicked e m ]))
unfolding start_guest
start_guest-Booted fuel _ (ready m active on w z) f =
    launch-Booted fuel _ (record { hardware = w; active = active; mode = on }) z f
start_guest-Booted fuel _ (refused e m idle off zero) f = back_in_firmware _ idle off
start_guest-Booted fuel _ (broken e m idle on) f = panic_handler-Booted e m idle on

setup-Booted :
    (fuel : ℕ) (m : Machine)
    → Clean m
    → max_hlt_exits ≤ fuel
    → Booted (caught ((setup >>= start_guest fuel) m))
setup-Booted fuel m c f =
    start_guest-Booted fuel (setup m) (setup-SetUp m c.hardware c.idle c.exits c.region c.outside) f

-- A calm run on a clean machine keeps `Clean` for what follows.
then-Booted :
    {A : Type 0} (r : M A) (f : A → M Fate) (m : Machine)
    → Clean m
    → Calmly r
    → ((a : A) (m' : Machine) → Clean m' → Booted (caught (f a m')))
    → Booted (caught ((r >>= f) m))
then-Booted r f m c quiet next =
    Calm-then (λ s. Booted (caught s)) r f m (quiet m) (λ a m' s. next a m' (Clean-Same s c))

vmx_supported-Calmly : Calmly Vmx.vmx_supported
unfolding Vmx.vmx_supported
vmx_supported-Calmly = >>=-Calmly (X86.cpuid 1 0) _ (cpuid-Calmly 1 0) (λ r. pure-Calmly _)

unlock-Calmly : (msr : ℕ) → Calmly (Vmx.unlock msr)
unfolding Vmx.unlock
unlock-Calmly msr m = elim (Bool-cases (bit_and msr 1 == 0)) [
  | inl open_msr ↦ rw open_msr (wrmsr_done m)
  | inr locked ↦ rw locked (elim (Bool-cases (bit_and msr 2 == 0)) [
    | inl disabled ↦ rw disabled (calm _ m (Same-refl m))
    | inr enabled ↦ rw enabled (calm _ m (Same-refl m))
  ])
]
  where
    wrmsr_done : Calmly (X86.wrmsr Vmx.ia32_feature_control (bit_or msr 3) >> pure (ok tt))
    wrmsr_done = >>=-Calmly _ _ (wrmsr-Calmly _ _) (λ _. pure-Calmly _)

feature_control-Calmly : Calmly Vmx.feature_control
unfolding Vmx.feature_control
feature_control-Calmly = >>=-Calmly _ _ (rdmsr-Calmly _) unlock-Calmly

pub apply_fixed_bits-Calmly : Calmly Vmx.apply_fixed_bits
unfolding Vmx.apply_fixed_bits
apply_fixed_bits-Calmly = >>=-Calmly _ _ (rdmsr-Calmly _) λ a. >>=-Calmly _ _ (rdmsr-Calmly _) λ b.
    >>=-Calmly _ _ read_cr0-Calmly λ c. >>=-Calmly _ _ (write_cr0-Calmly _) λ _.
      >>=-Calmly _ _ (rdmsr-Calmly _) λ d.
        >>=-Calmly _ _ (rdmsr-Calmly _) λ e. >>=-Calmly _ _ read_cr4-Calmly λ g. write_cr4-Calmly _

after_feature_control-Booted :
    (fuel : ℕ) (r : Result (Unit {0})) (m : Machine)
    → Clean m
    → max_hlt_exits ≤ fuel
    → Booted (caught (after_feature_control fuel r m))
unfolding after_feature_control
after_feature_control-Booted fuel (err e) m c f = back_in_firmware _ c.idle c.outside
after_feature_control-Booted fuel (ok _) m c f =
    then-Booted Vmx.apply_fixed_bits _ m c apply_fixed_bits-Calmly
      (λ _ m' c'. setup-Booted fuel m' c' f)

bring_up-Booted :
    (fuel : ℕ) (m : Machine) → Clean m → max_hlt_exits ≤ fuel → Booted (caught (bring_up fuel m))
unfolding bring_up
bring_up-Booted fuel m c f =
    then-Booted Vmx.feature_control _ m c feature_control-Calmly
      (λ r m' c'. after_feature_control-Booted fuel r m' c' f)

init-Booted :
    (fuel : ℕ) (m : Machine) → Clean m → max_hlt_exits ≤ fuel → Booted (caught (init fuel m))
unfolding init unsupported
init-Booted fuel m c f =
    then-Booted Vmx.vmx_supported (λ b. if not b then unsupported else bring_up fuel) _
      (Clean-Same (Same-by refl) c) vmx_supported-Calmly branch
  where
    branch :
        (b : Bool) (m' : Machine)
        → Clean m'
        → Booted (caught ((if not b then unsupported else bring_up fuel) m'))
    branch true m' c' = bring_up-Booted fuel m' c' f
    branch false m' c' = back_in_firmware _ c'.idle c'.outside

-- Started outside VMX with the statics at their first values, on a machine that behaves as
-- `WellBehaved` says, the application comes to one of four ends, within five exits: it returns to
-- the firmware outside VMX root operation and with VMX_ACTIVE not set; it launches the guest and,
-- at the last exit, loops outside VMX root operation with VMX_ACTIVE not set; it loops behind a
-- `vmlaunch` or `vmresume` that did not enter the guest; or it panics, and the panic handler halts
-- the processor in VMX root operation.
pub boot-Booted :
    (fuel system_table : ℕ) (m : Machine)
    → WellBehaved m.hardware
    → m.vmx_active ≡ false
    → m.vmxon_region ≡ 0
    → m.exit_count ≡ 0
    → root_mode m ≡ false
    → max_hlt_exits ≤ fuel
    → Booted (boot fuel system_table m)
unfolding boot efi_main
boot-Booted fuel st m w idle zero none_yet off f =
    init-Booted fuel _
      (record { hardware = w; idle = idle; region = zero; outside = off; exits = none_yet }) f
