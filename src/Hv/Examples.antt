-- ===== src/Hv/Examples.antt =====
-- The theorems on src/hv/vmcs.rs, src/hv.rs and src/main.rs on a processor on which every VMX
-- instruction succeeds and the guest halts at each exit.
use mochivm.Prelude.{
  ℕ, bit, ◌<◌, refl, arith, some, true, false, [], ◌∷◌, ◌+◌, count, holds, if◌then◌else◌, ◌≡◌,
}
use mochivm.Machine.{Action, Hardware, Machine, done, ok, ◌>>◌}
use mochivm.Vmcs.{setup, exits, teardown, stopped}
use mochivm.Vmcs.Mode.{WellBehaved, root_mode}
use mochivm.Vmcs.Setup.{SetUp, setup-SetUp}
use mochivm.Vmcs.Exits.{Live, Ended, exits-Ended}
use mochivm.Vmcs.Fields.{guest_rip}
use mochivm.Vmcs.Write.{write_state}
use mochivm.Vmcs.Written.{fields, Accepts}
use mochivm.Vmcs.Encodings.{encodings, write_state-encodings}
use mochivm.Vmx
use mochivm.Vmx.{calc_ctrl, calc_secondary}
use mochivm.Vmx.Controls.{setting, asked, calc_ctrl-setting, calc_secondary-setting}
use mochivm.Vmx.FixedBits.{apply_fixed_bits-stale}
use mochivm.Vmcs.Halts.{OnlyHalts, exits-stopped}
use mochivm.Vmcs.Teardown.{teardown-teardown}
use mochivm.Hv.{boot}
use mochivm.Hv.Boot.{Booted, boot-Booted}

abbrev willing : Hardware
willing = record {
  cpuid = λ h. (0, 32, 0);
  msr = λ h. (0, 0);
  stale = λ h. 0x2000;
  segment = λ h. 0x10;
  task = λ h. 0x40;
  table = λ h i. 0;
  byte = λ h. 0;
  memory = λ h a. a;
  pages = λ h. (0, some 0x1000);
  rflags = λ h. 2;
  field = λ h. 12;
  enters = λ h. true;
  host_entry = 0x5000;
}

willing-WellBehaved : WellBehaved willing
willing-WellBehaved = record { page_not_null = λ h e. omega arith; vmxoff_succeeds = λ h e. refl }

abbrev fresh : Machine
fresh = record {
  hardware = willing;
  history = [];
  cr = λ k. 0;
  system_table = 0x7000;
  vmxon_region = 0;
  vmcs_region = 0;
  vmx_active = false;
  exit_count = 0;
}

-- In VMX root operation, the guest about to run.
abbrev live : Machine
live = record fresh {
  history = Action.vmxon 0x1000 ∷ [];
  vmxon_region = 0x1000;
  vmcs_region = 0x1000;
  vmx_active = true;
}

live-Live : Live live
live-Live = record { hardware = willing-WellBehaved; active = refl; mode = refl }

setup-SetUp_example : SetUp (setup fresh)
setup-SetUp_example = setup-SetUp fresh willing-WellBehaved refl refl refl refl

exits-Ended_example : Ended (exits 5 live)
exits-Ended_example = exits-Ended 5 live live-Live (omega arith) (omega arith)

willing-OnlyHalts : OnlyHalts willing
willing-OnlyHalts = record { reason = λ h. refl; enters = λ h. refl }

exits-stopped_example :
    (m' : Machine) × (exits 5 live ≡ done stopped m')
    × (m'.exit_count ≡ 5)
    × (m'.vmx_active ≡ false)
    × (root_mode m' ≡ false)
exits-stopped_example = exits-stopped 5 live live-Live willing-OnlyHalts (omega arith) (omega arith)

willing-Accepts : Accepts willing
willing-Accepts = record { accepts = λ h f v. refl }

write_state-encodings_example :
    (m' : Machine) × (write_state 0x1000 0x2000 0x3000 live ≡ done (ok tt) m')
    × (count guest_rip (fields m'.history)
        ≡ (if holds guest_rip encodings then 1 else 0) + count guest_rip (fields live.history))
write_state-encodings_example =
    write_state-encodings 0x1000 0x2000 0x3000 guest_rip live willing-Accepts

boot-Booted_example : Booted (boot 5 0x7000 fresh)
boot-Booted_example =
    boot-Booted 5 0x7000 fresh willing-WellBehaved refl refl refl refl (omega arith)

teardown-teardown_example : (teardown >> teardown) live ≡ teardown live
teardown-teardown_example = teardown-teardown live

apply_fixed_bits-stale_example :
    (m' : Machine) × (Vmx.apply_fixed_bits fresh ≡ done tt m')
    × (m'.cr 0 ≡ 0x2000)
    × (m'.cr 4 ≡ 0x2000)
apply_fixed_bits-stale_example = apply_fixed_bits-stale 0x2000 fresh (λ h. refl)

-- Bits 1, 2 and 4 must be 1, and bits 0 to 6 may.
abbrev capable : Machine
capable = record fresh { hardware = record willing { msr = λ h. (0x16, 0x7F) } }

calc_ctrl-setting_example :
    (v : ℕ) × (calc_ctrl 0x482 0x80 capable ≡ done v (asked 0x482 capable))
    × ((i : ℕ) → i < 32 → bit i v ≡ setting (bit i 0x7F) (bit i 0x16) (bit i 0x80))
calc_ctrl-setting_example = calc_ctrl-setting 0x482 0x80 capable (omega arith)

calc_secondary-setting_example :
    (v : ℕ) × (calc_secondary 0x82 capable ≡ done v (asked 0x48B capable))
    × ((i : ℕ) → i < 32 → bit i v ≡ setting (bit i 0x7F) 0 (bit i 0x82))
calc_secondary-setting_example = calc_secondary-setting 0x82 capable (omega arith)
