-- ===== src/Hv.antt =====
-- src/hv.rs and src/main.rs: bring-up from the entry point on, and the panic handler.
pub mod Boot
mod Examples
use mochivm.Prelude.{ℕ, Bool, not, [], if◌then◌else◌}
use Prim.Native.String.{◌++◌, String}
use mochivm.Machine.{Machine, Step, done, panicked, M, pure, ◌>>=◌, ◌>>◌, println, Result, ok, err}
use mochivm.Vmx
use mochivm.Vmcs
use mochivm.Vmcs.{Status, running, stopped, stuck}

-- How a run ends: the entry point returned, the processor is where `Status` says,
-- or the panic handler halted it.
pub data Fate : Type 0 where
  returned : Fate
  guest : Status → Fate
  halted : Fate

-- The exits that follow, at most `fuel` of them.
unfoldable pub after_launch : ℕ → Status → M Fate
after_launch fuel running = do s ← Vmcs.exits fuel; pure (guest s)
after_launch fuel stopped = pure (guest stopped)
after_launch fuel stuck = pure (guest stuck)

unfoldable pub launch : ℕ → M Fate
launch fuel = do s ← Vmcs.enter_guest; after_launch fuel s

unfoldable pub start_guest : ℕ → Result (Unit {0}) → M Fate
start_guest fuel (ok _) = do println "[mochivm] launching guest..." []; launch fuel
start_guest fuel (err e) = do println ("[mochivm] error: vmcs setup: " ++ e) []; pure returned

unfoldable pub after_feature_control : ℕ → Result (Unit {0}) → M Fate
after_feature_control fuel (err e) = do
  println ("[mochivm] error: feature control: " ++ e) []
  pure returned
after_feature_control fuel (ok _) = do Vmx.apply_fixed_bits; r ← Vmcs.setup; start_guest fuel r

unfoldable pub unsupported : M Fate
unsupported = do println "[mochivm] error: vmx not supported by this cpu" []; pure returned

unfoldable pub bring_up : ℕ → M Fate
bring_up fuel = do r ← Vmx.feature_control; after_feature_control fuel r

unfoldable pub init : ℕ → M Fate
init fuel = do
  println "[mochivm] probing for vmx..." []
  supported ← Vmx.vmx_supported
  if not supported then unsupported else bring_up fuel

unfoldable pub shutdown : M (Unit {0})
shutdown = Vmcs.teardown

-- The panic handler, up to its endless loop.
unfoldable pub panic_handler : String → M Fate
panic_handler e = do println ("[mochivm] PANIC: " ++ e) []; shutdown; pure halted

-- `efi_main` behind the set-up of the serial port.
unfoldable pub efi_main : (fuel system_table : ℕ) → M Fate
efi_main fuel system_table m =
    (do
      println "[mochivm] mochivm booted" []
      println "[mochivm] from-scratch type-2 hypervisor skeleton (vmx/vmcs + hello-world guest)" []
      init fuel)
      (record m { system_table = system_table })

-- The application, with what a panic leads to.
unfoldable pub boot : (fuel system_table : ℕ) → M Fate
boot fuel system_table m = elim (efi_main fuel system_table m) [
  | done f m' ↦ done f m'
  | panicked e m' ↦ panic_handler e m'
]
