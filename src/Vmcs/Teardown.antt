-- ===== src/Vmcs/Teardown.antt =====
-- `teardown` of src/hv/vmcs.rs.
use mochivm.Prelude.{◌≡◌, true, false, Bool-cases, inl, inr, ◌∷◌, if◌then◌else◌, ◌==◌}
use mochivm.Machine.{Action, History, Machine, done, ◌>>◌}
use mochivm.X86
use mochivm.Vmx
use mochivm.Vmcs.{teardown, stop_vmx, clear_vmxe}

-- The instructions of `teardown` on an active machine, newest first.
abbrev pub stop_history : Machine → History
stop_history m =
    let off = Action.vmxoff ∷ Action.vmclear m.vmcs_region ∷ m.history in
    Action.mov_from_cr 4 ∷ Action.mov_to_cr 4 (m.hardware.stale off) ∷ off

-- The machine after `teardown`.
unfoldable pub torn : Machine → Machine
torn m =
    if m.vmx_active
    then record m {
      history = stop_history m;
      cr = λ k.
          if k == 4
          then m.hardware.stale (Action.vmxoff ∷ Action.vmclear m.vmcs_region ∷ m.history)
          else m.cr k;
      vmx_active = false;
    }
    else m

pub teardown_lem : (m : Machine) → teardown m ≡ done tt (torn m)
unfolding teardown torn stop_vmx Vmx.vmclear Vmx.vmxoff clear_vmxe X86.read_cr4 X86.write_cr4
teardown_lem m = elim (Bool-cases m.vmx_active) [ inl e ↦ rw e | inr e ↦ rw e ]

pub torn-inactive : (m : Machine) → (torn m).vmx_active ≡ false
unfolding torn
torn-inactive m = elim (Bool-cases m.vmx_active) [ inl e ↦ rw e | inr e ↦ rw e ]

pub torn-exit_count : (m : Machine) → (torn m).exit_count ≡ m.exit_count
unfolding torn
torn-exit_count m = elim (Bool-cases m.vmx_active) [ inl e ↦ rw e | inr e ↦ rw e ]

pub torn-active : (m : Machine) → m.vmx_active ≡ true → (torn m).history ≡ stop_history m
unfolding torn
torn-active m e = rw e

pub torn_idle : (m : Machine) → m.vmx_active ≡ false → torn m ≡ m
unfolding torn
torn_idle m e = rw e

-- A second `teardown` behind the first does nothing: no further instruction is executed and the
-- machine is the same.
pub teardown-teardown : (m : Machine) → (teardown >> teardown) m ≡ teardown m
teardown-teardown m =
    rw (teardown_lem m, ◌>>◌, teardown_lem (torn m), torn_idle (torn m) (torn-inactive m))
