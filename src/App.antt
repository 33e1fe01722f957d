-- ===== src/App.antt =====
-- The manager's window, manager/src/main.rs: its state, and a frame of `update` on what the user did
-- in it. The log is the bytes of its text. Drawing is left out.
mod State
mod Window
unfoldable pub use State.*
unfoldable pub use Window.*
pub mod Log
pub mod Valid
pub mod SidePanel
pub mod Panels
pub mod Frames
mod Examples
use mochivm.Prelude.{
  ℕ, zero, suc, ◌+◌, ◌-◌, Bool, true, false, not, ◌&&◌, Option, none, some, List, [], ◌∷◌, ◌++◌,
  String, leb, ltb, ◌==◌, if◌then◌else◌, Outcome, ok, panic, ◌>>=◌, length, get_elem?, set,
  remove_at, drop, bytes,
}
use Prim.Native.String.{◌++◌ as ◌<>◌}
use mochivm.Backend.{
  Accel, VmConfig, default_config, Result, fine, error, System, Backend, Paths, Started, join, new,
  start, stop, is_running, drain_log,
}
use mochivm.Ovmf
use mochivm.Ovmf.{Pair, detect, download}

unfoldable pub update : Frame → App → Outcome App
update f a = do a ← receive a; panels f a

-- The texts that the reader threads have sent since the last frame, the newest first.
unfoldable pub arrived : List (List ℕ) → Option (List (List ℕ)) → Option (List (List ℕ))
arrived texts none = none
arrived texts (some waiting) = some (texts ++ waiting)

unfoldable pub deliver : List (List ℕ) → App → App
deliver texts a = record a { backend = record a.backend { rx = arrived texts a.backend.rx } }

-- A row of frames, each with what arrives before it.
unfoldable pub run_frames : List (List (List ℕ) × Frame) → App → Outcome App
run_frames [] a = ok a
run_frames ((texts, f) ∷ rest) a = do a ← update f (deliver texts a); run_frames rest a
