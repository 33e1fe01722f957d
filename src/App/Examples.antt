-- ===== src/App/Examples.antt =====
-- The window of manager/src/main.rs on a system on which all goes well.
use mochivm.Prelude.{
  ℕ, zero, suc, ◌≡◌, refl, arith, true, false, none, some, List, [], ◌∷◌, ◌++◌, ltb, ok, panic,
  length, length-append, get_elem?,
}
use mochivm.Backend.{VmConfig, default_config, kvm, start_readers, spawned}
use mochivm.Backend.OneChild.{alive}
use mochivm.Backend.Examples.{works, works-Piped, works-Fits}
use mochivm.Ovmf.Examples.{linux}
use mochivm.App.{App, Frame, receive, remove_vm, panels, run_frames, new_app}
use mochivm.App.Log.{Received, receive-Received, receive-panic}
use mochivm.App.Valid.{IsValid, default-InRange, Clamps}
use mochivm.App.Panels.{Valid, panels-Valid}
use mochivm.App.Frames.{Ran, run_frames-Ran, remove_vm-selected}

abbrev second : VmConfig
second = record { name = "second"; ram_mb = 1024; vcpus = 2; accel = kvm }

abbrev third : VmConfig
third = record { name = "third"; ram_mb = 64; vcpus = 1; accel = kvm }

-- Three machines, of which the second is selected and runs, and the given log.
abbrev window : List ℕ → App
window log = record {
  vms = default_config ∷ second ∷ third ∷ [];
  selected = 1;
  backend = record {
    system = works;
    trace = start_readers ∷ spawned 3 ∷ [];
    child = some 3;
    rx = some ((0x42 ∷ []) ∷ (0x41 ∷ []) ∷ []);
    run_dir = "runtime";
  };
  log = log;
  auto_scroll = true;
  efi_path = "mochivm.efi";
  ovmf_code = "code.fd";
  ovmf_vars = "vars.fd";
  status = "running";
  firmware = linux;
  fetches = [];
}

window-IsValid : (log : List ℕ) → IsValid (window log)
unfolding alive
window-IsValid log = record {
  selected = omega arith;
  ranges = (
    default-InRange,
    (
      record { memory = omega arith; cpus = omega arith },
      (record { memory = omega arith; cpus = omega arith }, tt),
    ),
  );
  owns = record { alive = refl; rx = refl };
}

-- The user resets the machine, picks the second row, downloads the firmware and gives the machine
-- another name, less memory and more processors.
abbrev busy_frame : Frame
busy_frame = record {
  label = λ i. ltb 1 i;
  delete = λ i. false;
  new_vm = true;
  start = false;
  stop = true;
  reset = true;
  settings_open = true;
  text = λ t. "renamed";
  drag_memory = λ low high v. low;
  drag_cpus = λ low high v. high;
  accel = some kvm;
  efi = none;
  code = none;
  vars = some "other.fd";
  detect = false;
  download = true;
  auto_scroll = true;
  clear = false;
}

busy_frame-Clamps : Clamps busy_frame
busy_frame-Clamps = record {
  memory = λ low high v h. (omega arith, h);
  cpus = λ low high v h. (h, omega arith);
}

receive-Received_example : Received (window (0x43 ∷ [])) (receive (window (0x43 ∷ [])))
receive-Received_example = receive-Received (window (0x43 ∷ []))

-- A log of letters behind a character of two bytes.
letters : ℕ → List ℕ
letters zero = []
letters (suc n) = 0x61 ∷ letters n

length-letters : (n : ℕ) → length (letters n) ≡ n
unfolding letters
length-letters zero = refl
length-letters (suc n) = let e = length-letters n in omega (arith, e)

receive-panic_example : receive (window (0xC3 ∷ 0xA9 ∷ letters 249997)) ≡ panic
receive-panic_example =
    receive-panic (window (0xC3 ∷ 0xA9 ∷ letters 249997)) (0xC3 ∷ [])
      (letters 249997 ++ 0x41 ∷ 0x42 ∷ []) 0xA9 (λ e. cc) refl (omega arith)
      (omega (arith, length-append {0} (letters 249997) (0x41 ∷ 0x42 ∷ []), length-letters 249997))
      refl

panels-Valid_example : Valid (panels busy_frame (window []))
panels-Valid_example =
    panels-Valid busy_frame (window []) busy_frame-Clamps works-Piped works-Fits (window-IsValid [])

-- A text arrives, and the user does the same in two frames.
abbrev two_frames : List (List (List ℕ) × Frame)
two_frames = ((0x41 ∷ []) ∷ [], busy_frame) ∷ ([], busy_frame) ∷ []

run_frames-Ran_example :
    Ran two_frames (new_app works linux) (run_frames two_frames (new_app works linux))
run_frames-Ran_example =
    run_frames-Ran works linux two_frames works-Piped works-Fits
      (busy_frame-Clamps, (busy_frame-Clamps, tt))

-- The deletion of the third machine moves the selection off the second.
remove_vm-selected_example :
    (a : App) × (remove_vm 2 (window []) ≡ ok a)
    × (a.backend ≡ (window []).backend)
    × (get_elem? a.vms a.selected ≡ some default_config)
remove_vm-selected_example = remove_vm-selected 2 (window []) (omega arith) (omega arith)
