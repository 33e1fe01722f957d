-- ===== src/App/Panels.antt =====
-- The panels of a frame of manager/src/main.rs.
use mochivm.Prelude.{
  ◌≡◌, refl, ◌∙◌, ap, arith, Bool, true, false, Option, none, some, Outcome, ok, ◌>>=◌, length-set,
}
use mochivm.Backend.{VmConfig, fine, error, System, Started}
use mochivm.Backend.OneChild.{Piped, Fits, Ended, running, failed, start-Ended, stop-Owns}
use mochivm.Ovmf
use mochivm.App.{
  App, Frame, poll, press, run_vm, started, stop_vm, buttons, edit, settings, pick_files,
  use_detected, detect_firmware, use_downloaded, download_firmware, console, central_panel, panels,
}
use mochivm.App.Valid.{
  InRange, IsValid, IsServed-IsValid, IsValid-IsServed, IsServed, IsServed-backend, IsServed-vms,
  Clamps, Served, served, Served-then, All-set, index-some, poll-IsServed,
}
use mochivm.App.SidePanel.{side_panel-Served}

started-Served :
    (a : App) (s : System) (r : Outcome Started)
    → IsServed a
    → s ≡ a.backend.system
    → Ended s r
    → Served (r >>= (λ r. ok (started a r)))
unfolding started
started-Served a s _ v e (running pid b c x o k) = served _ (IsServed-backend v refl refl o (k ∙ e))
started-Served a s _ v e (failed t b c o k) = served _ (IsServed-backend v refl refl o (k ∙ e))

run_vm-Served : (cfg : VmConfig) (a : App) → IsServed a → Served (run_vm cfg a)
unfolding run_vm
run_vm-Served cfg a v =
    started-Served a a.backend.system _ v refl (start-Ended cfg _ a.backend v.piped v.fits v.owns)

stop_vm-Served : (a : App) → IsServed a → Served (stop_vm a)
unfolding stop_vm
stop_vm-Served a v =
    let o = stop-Owns a.backend v.piped v.owns in served _ (IsServed-backend v refl refl o.0 o.1)

press-Served :
    (b : Bool) (act : App → Outcome App) (a : App)
    → ((a : App) → IsServed a → Served (act a))
    → IsServed a
    → Served (press b act a)
unfolding press
press-Served true act a k v = k a v
press-Served false act a k v = served a v

buttons-Served : (f : Frame) (cfg : VmConfig) (a : App) → IsServed a → Served (buttons f cfg a)
unfolding buttons
buttons-Served f cfg a v =
    Served-then _ _ (press-Served f.start (run_vm cfg) a (run_vm-Served cfg) v) λ b w.
      Served-then _ _ (press-Served f.stop stop_vm b stop_vm-Served w)
        λ c x. press-Served f.reset (run_vm cfg) c (run_vm-Served cfg) x

-- The fields that the choice of files and the firmware leave alone.
record Kept (a b : App) : Type 0 where
  vms : b.vms ≡ a.vms
  selected : b.selected ≡ a.selected
  backend : b.backend ≡ a.backend

detect_firmware-Kept : (b : Bool) (a : App) → Kept a (detect_firmware b a)
unfolding detect_firmware use_detected
detect_firmware-Kept false a = record { vms = refl; selected = refl; backend = refl }
detect_firmware-Kept true a = by (Ovmf.detect a.firmware)
  where
    by : (p : Option Ovmf.Pair) → Kept a (use_detected p a)
    by none = record { vms = refl; selected = refl; backend = refl }
    by (some (c, v)) = record { vms = refl; selected = refl; backend = refl }

download_firmware-Kept : (b : Bool) (a : App) → Kept a (download_firmware b a)
unfolding download_firmware use_downloaded
download_firmware-Kept false a = record { vms = refl; selected = refl; backend = refl }
download_firmware-Kept true a = by (Ovmf.download a.firmware a.fetches)
  where
    by : (d : Ovmf.Downloaded) → Kept a (use_downloaded d.0 (record a { fetches = d.1 }))
    by (fine (c, v), h) = record { vms = refl; selected = refl; backend = refl }
    by (error e, h) = record { vms = refl; selected = refl; backend = refl }

Kept-IsServed : {a b : App} → Kept a b → IsServed a → IsServed b
Kept-IsServed k v =
    IsServed-backend v k.vms k.selected (rw k.backend v.owns) (ap (λ b. b.system) k.backend)

pick_files-Kept : (f : Frame) (a : App) → Kept a (pick_files f a)
unfolding pick_files
pick_files-Kept f a = record { vms = refl; selected = refl; backend = refl }

firmware-Kept :
    (f : Frame) (a : App)
    → Kept a (download_firmware f.download (detect_firmware f.detect (pick_files f a)))
firmware-Kept f a =
    let p = pick_files-Kept f a in
    let q = detect_firmware-Kept f.detect (pick_files f a) in
    let r = download_firmware-Kept f.download (detect_firmware f.detect (pick_files f a)) in
    record {
      vms = r.vms ∙ q.vms ∙ p.vms;
      selected = r.selected ∙ q.selected ∙ p.selected;
      backend = r.backend ∙ q.backend ∙ p.backend;
    }

edit-InRange : (f : Frame) (c : VmConfig) → Clamps f → InRange (edit f c)
unfolding edit
edit-InRange f c k = record {
  memory = k.memory 64 8192 c.ram_mb (omega arith);
  cpus = k.cpus 1 16 c.vcpus (omega arith);
}

settings-Served : (f : Frame) (b : Bool) (a : App) → Clamps f → IsServed a → Served (settings f b a)
unfolding settings
settings-Served f false a k v = served a v
settings-Served f true a k v =
    let shown = index-some a.vms a.selected v.selected in
    let a' = download_firmware f.download (detect_firmware f.detect (pick_files f a)) in
    let w = Kept-IsServed (firmware-Kept f a) v in
    rw (shown.2, ◌>>=◌, (index-some a'.vms a'.selected w.selected).2)
      (served _ (
        IsServed-vms w refl
          (omega (arith, w.selected, length-set a'.vms a'.selected (edit f shown.0)))
          (All-set InRange a'.vms a'.selected (edit f shown.0) w.ranges
            (edit-InRange f shown.0 k))))

console-IsServed : (f : Frame) (a : App) → IsServed a → IsServed (console f a)
unfolding console
console-IsServed f a v = IsServed-backend v refl refl v.owns refl

central_panel-Served : (f : Frame) (a : App) → Clamps f → IsServed a → Served (central_panel f a)
unfolding central_panel
central_panel-Served f a k v =
    rw ((index-some a.vms a.selected v.selected).2, ◌>>=◌)
      (Served-then _ _ (buttons-Served f _ a v) λ b w.
        Served-then _ _ (settings-Served f f.settings_open b k w)
          λ c x. served _ (console-IsServed f c x))

pub panels-Served : (f : Frame) (a : App) → Clamps f → IsServed a → Served (panels f a)
unfolding panels
panels-Served f a k v =
    Served-then _ _ (side_panel-Served f a v)
      λ b w. central_panel-Served f (poll b) k (poll-IsServed b w)

-- The run returns, and the window is valid.
pub data Valid : Outcome App → Type 0 where
  valid : (a : App) → IsValid a → Valid (ok a)

Served-Valid : (r : Outcome App) → Served r → Valid r
Served-Valid _ (served a v) = valid a (IsServed-IsValid v)

-- On a system that gives piped processes their pipes and whose loaders fit the disk image, and where
-- a `DragValue` keeps its value in the range that it is given: from a window in which a virtual
-- machine is selected, every configuration is in its ranges and the only process alive is the
-- backend's child, the panels of a frame return without a panic, whatever the user does, and the
-- window is so again.
pub panels-Valid :
    (f : Frame) (a : App)
    → Clamps f
    → Piped a.backend.system
    → Fits a.backend.system
    → IsValid a
    → Valid (panels f a)
panels-Valid f a k p q v = Served-Valid (panels f a) (panels-Served f a k (IsValid-IsServed p q v))
