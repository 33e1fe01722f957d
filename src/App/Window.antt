-- ===== src/App/Window.antt =====
-- What the panels of `update` in manager/src/main.rs do with what the user does in a frame.
use mochivm.Prelude.{
  ℕ, zero, suc, ◌+◌, ◌-◌, Bool, true, false, Option, none, some, [], ◌∷◌, ◌++◌, String, ltb, ◌==◌,
  if◌then◌else◌, Outcome, ok, panic, ◌>>=◌, length, set, remove_at,
}
use Prim.Native.String.{◌++◌ as ◌<>◌}
use mochivm.Backend.{Accel, VmConfig, default_config, Result, fine, error, stop}
use mochivm.Ovmf.{Pair, detect, download}
use mochivm.App.State.{App, run_vm, index, poll}

-- What the user did in a frame. A choice in a dialog may be cancelled.
pub record Frame : Type 0 where
  pub label : ℕ → Bool
  pub delete : ℕ → Bool
  pub new_vm : Bool
  pub start : Bool
  pub stop : Bool
  pub reset : Bool
  pub settings_open : Bool
  -- What each widget makes of the value that it shows; a `DragValue` is given its range.
  pub text : String → String
  pub drag_memory : (low high value : ℕ) → ℕ
  pub drag_cpus : (low high value : ℕ) → ℕ
  pub accel : Option Accel
  pub efi : Option String
  pub code : Option String
  pub vars : Option String
  pub detect : Bool
  pub download : Bool
  pub auto_scroll : Bool
  pub clear : Bool

-- The rows of the side panel from row `i` on, `left` of them.
unfoldable pub rows : Frame → (left i : ℕ) → Option ℕ → App → Outcome (App × Option ℕ)
rows f zero i to_delete a = ok (a, to_delete)
rows f (suc left) i to_delete a = do
  let polled = if i == a.selected then poll a else a
  name ← index polled.vms i
  let chosen = if f.label i then record polled { selected = i } else polled
  rows f left (i + 1) (if f.delete i then some i else to_delete) chosen

unfoldable pub add_vm : Bool → App → App
add_vm false a = a
add_vm true a =
    let vms = a.vms ++ default_config ∷ [] in record a { vms = vms; selected = length vms - 1 }

-- `Vec::remove` panics out of range.
unfoldable pub remove_vm : ℕ → App → Outcome App
remove_vm i a =
    if ltb 1 (length a.vms)
    then if ltb i (length a.vms)
      then ok (record a { vms = remove_at a.vms i; selected = a.selected - 1 })
      else panic
    else ok a

unfoldable pub delete_vm : Option ℕ → App → Outcome App
unfolding remove_vm
delete_vm none a = ok a
delete_vm (some i) a = remove_vm i a

unfoldable pub side_panel : Frame → App → Outcome App
side_panel f a = do
  (a, to_delete) ← rows f (length a.vms) 0 none a
  delete_vm to_delete (add_vm f.new_vm a)

unfoldable pub press : Bool → (App → Outcome App) → App → Outcome App
press true act a = act a
press false act a = ok a

unfoldable pub stop_vm : App → Outcome App
stop_vm a = ok (record a { backend = stop a.backend; status = "stopped" })

unfoldable pub buttons : Frame → VmConfig → App → Outcome App
unfolding press stop_vm
buttons f cfg a = do
  a ← press f.start (run_vm cfg) a
  a ← press f.stop stop_vm a
  press f.reset (run_vm cfg) a

abbrev pub picked : Option String → String → String
picked none old = old
picked (some p) old = p

unfoldable pub pick_files : Frame → App → App
pick_files f a = record a {
  efi_path = picked f.efi a.efi_path;
  ovmf_code = picked f.code a.ovmf_code;
  ovmf_vars = picked f.vars a.ovmf_vars;
}

unfoldable pub use_detected : Option Pair → App → App
use_detected (some (c, v)) a = record a { ovmf_code = c; ovmf_vars = v; status = "ovmf found" }
use_detected none a = record a { status = "ovmf not found - try download" }

unfoldable pub detect_firmware : Bool → App → App
detect_firmware false a = a
detect_firmware true a = use_detected (detect a.firmware) a

unfoldable pub use_downloaded : Result Pair → App → App
use_downloaded (fine (c, v)) a = record a {
  ovmf_code = c;
  ovmf_vars = v;
  status = "ovmf downloaded";
}
use_downloaded (error e) a = record a { status = "ovmf download failed: " <> e }

unfoldable pub download_firmware : Bool → App → App
download_firmware false a = a
download_firmware true a =
    let (r, h) = download a.firmware a.fetches in use_downloaded r (record a { fetches = h })

abbrev pub selected_value : Option Accel → Accel → Accel
selected_value none old = old
selected_value (some a) old = a

-- The grid's widgets on the copy of the configuration.
unfoldable pub edit : Frame → VmConfig → VmConfig
edit f cfg = record {
  name = f.text cfg.name;
  ram_mb = f.drag_memory 64 8192 cfg.ram_mb;
  vcpus = f.drag_cpus 1 16 cfg.vcpus;
  accel = selected_value f.accel cfg.accel;
}

-- The header of the settings, open or closed.
unfoldable pub settings : Frame → Bool → App → Outcome App
settings f false a = ok a
settings f true a = do
  cfg ← index a.vms a.selected
  let a = download_firmware f.download (detect_firmware f.detect (pick_files f a))
  old ← index a.vms a.selected
  ok (record a { vms = set a.vms a.selected (edit f cfg) })

unfoldable pub console : Frame → App → App
console f a = record a { auto_scroll = f.auto_scroll; log = if f.clear then [] else a.log }

unfoldable pub central_panel : Frame → App → Outcome App
central_panel f a = do
  cfg ← index a.vms a.selected
  a ← buttons f cfg a
  a ← settings f f.settings_open a
  ok (console f a)

-- `update` from the side panel on.
unfoldable pub panels : Frame → App → Outcome App
panels f a = do a ← side_panel f a; central_panel f (poll a)
