-- ===== src/App/Frames.antt =====
-- Any row of frames of the window of manager/src/main.rs, from its start on, and which virtual
-- machine a deletion leaves selected.
use mochivm.Prelude.{
  ℕ, zero, suc, ◌-◌, ◌<◌, ◌≡◌, ◌≢◌, ◌++◌, refl, ◌∙◌, arith, true, false, Bool-cases, inl, inr,
  Option, none, some, List, [], ◌∷◌, ltb, if◌then◌else◌, Outcome, ok, panic, ◌>>=◌, length,
  get_elem?, remove_at, get_elem?-remove_at_below, get_elem?-remove_at_above,
}
use mochivm.Backend.{VmConfig, System, new}
use mochivm.Backend.OneChild.{alive, receiver, Piped, Fits}
use mochivm.Ovmf
use mochivm.App.{
  App, Frame, log_cap, boundary, new_app, receive, remove_vm, panels, update, arrived, deliver,
  run_frames,
}
use mochivm.App.Log.{Received, unchanged, fitting, cut, inside, empty_rx, emptied, receive-Received}
use mochivm.App.Valid.{
  IsValid, IsServed, IsServed-IsValid, IsServed-backend, default-InRange, Clamps, Served, served,
}
use mochivm.App.Panels.{panels-Served}
use mochivm.Backend.Readers.{waiting}

-- How a row of frames ends from a window on: each frame returns, and the window behind the last is
-- valid; or one of them panics, at a cut of its log inside a character.
pub data Ran : List (List (List ℕ) × Frame) → App → Outcome App → Type 0 where
  ended : (a : App) → IsValid a → Ran [] a (ok a)
  went_on :
      (texts : List (List ℕ)) (f : Frame) (rest : List (List (List ℕ) × Frame)) (a a' : App)
      (r : Outcome App)
      → update f (deliver texts a) ≡ ok a'
      → Ran rest a' r
      → Ran ((texts, f) ∷ rest) a r
  cut_inside :
      (texts : List (List ℕ)) (f : Frame) (rest : List (List (List ℕ) × Frame)) (a : App)
      (dropped kept : List ℕ)
      → waiting (deliver texts a).backend.rx ≢ []
      → a.log ++ waiting (deliver texts a).backend.rx ≡ dropped ++ kept
      → 0 < length dropped
      → length kept ≡ log_cap
      → boundary kept ≡ false
      → Ran ((texts, f) ∷ rest) a panic

receiver-empty_rx : (rx : Option (List (List ℕ))) → receiver (empty_rx rx) ≡ receiver rx
receiver-empty_rx none = refl
receiver-empty_rx (some texts) = refl

-- The window behind `receive`, whatever is left of the log.
emptied-IsServed : (a : App) (l : List ℕ) → IsServed a → IsServed (record (emptied a) { log = l })
emptied-IsServed a l v =
    IsServed-backend v refl refl
      (record { alive = v.owns.alive; rx = receiver-empty_rx a.backend.rx ∙ v.owns.rx }) refl

-- The frames behind the first one, for a first one that starts from a window that is served.
module _ (texts : List (List ℕ)) (f : Frame) (rest : List (List (List ℕ) × Frame)) (a : App)
    (c : Clamps f) (v : IsServed (deliver texts a))
    (go_on : (a' : App) → IsServed a' → Ran rest a' (run_frames rest a')) where
  after_panels-Ran :
      (b : App) (r : Outcome App)
      → receive (deliver texts a) ≡ ok b
      → panels f b ≡ r
      → Served r
      → Ran ((texts, f) ∷ rest) a (r >>= run_frames rest)
  unfolding update
  after_panels-Ran b _ e p (served a' v') =
      went_on texts f rest a a' _ (rw (e, ◌>>=◌, p) refl) (go_on a' v')

  after_receive-Ran :
      (r : Outcome App)
      → receive (deliver texts a) ≡ r
      → Received (deliver texts a) r
      → Ran ((texts, f) ∷ rest) a ((r >>= panels f) >>= run_frames rest)
  unfolding deliver
  after_receive-Ran _ e (unchanged quiet) =
      let b = emptied (deliver texts a) in
      after_panels-Ran b _ e refl (panels-Served f b c (emptied-IsServed (deliver texts a) a.log v))
  after_receive-Ran _ e (fitting whole ne w l) =
      let b = record (emptied (deliver texts a)) { log = whole } in
      after_panels-Ran b _ e refl (panels-Served f b c (emptied-IsServed (deliver texts a) whole v))
  after_receive-Ran _ e (cut d kept ne w h l good) =
      let b = record (emptied (deliver texts a)) { log = kept } in
      after_panels-Ran b _ e refl (panels-Served f b c (emptied-IsServed (deliver texts a) kept v))
  after_receive-Ran _ e (inside d kept ne w h l bad) = cut_inside texts f rest a d kept ne w h l bad

deliver-IsServed : (texts : List (List ℕ)) (a : App) → IsServed a → IsServed (deliver texts a)
unfolding deliver arrived
deliver-IsServed texts a v =
    IsServed-backend v refl refl (record { alive = v.owns.alive; rx = by a.backend.rx ∙ v.owns.rx })
      refl
  where
    by : (rx : Option (List (List ℕ))) → receiver (arrived texts rx) ≡ receiver rx
    by none = refl
    by (some w) = refl

abbrev pub AllClamp : List (List (List ℕ) × Frame) → Type 0
AllClamp [] = Unit
AllClamp ((texts, f) ∷ rest) = Clamps f × AllClamp rest

frames-Ran :
    (fs : List (List (List ℕ) × Frame)) (a : App)
    → AllClamp fs
    → IsServed a
    → Ran fs a (run_frames fs a)
unfolding run_frames update
frames-Ran [] a c v = ended a (IsServed-IsValid v)
frames-Ran ((texts, f) ∷ rest) a c v =
    after_receive-Ran texts f rest a c.0 (deliver-IsServed texts a v)
      (λ a' v'. frames-Ran rest a' c.1 v') (receive (deliver texts a)) refl
      (receive-Received (deliver texts a))

new_app-IsServed : (s : System) (f : Ovmf.System) → Piped s → Fits s → IsServed (new_app s f)
unfolding new_app new alive
new_app-IsServed s f p q = record {
  selected = omega arith;
  ranges = (default-InRange, tt);
  owns = record { alive = refl; rx = refl };
  piped = p;
  fits = q;
}

-- On a system that gives piped processes their pipes, for a loader that fits the disk image, and
-- where a `DragValue` keeps its value in the range that it is given: from the start of the window on,
-- in any row of frames, whatever the user does in each and whatever texts arrive before it, either
-- every frame returns, and behind the last a virtual machine is selected, every configuration is in
-- its ranges and the backend's child is the only process alive; or a frame panics, and then because
-- the log with the text received, longer than 250000 bytes, is to be cut inside a character.
pub run_frames-Ran :
    (s : System) (f : Ovmf.System) (fs : List (List (List ℕ) × Frame))
    → Piped s
    → Fits s
    → AllClamp fs
    → Ran fs (new_app s f) (run_frames fs (new_app s f))
run_frames-Ran s f fs p q c = frames-Ran fs (new_app s f) c (new_app-IsServed s f p q)

-- Where the virtual machine that is selected behind the deletion of `i` stood before.
abbrev pub followed : (selected i : ℕ) → ℕ
followed zero zero = 1
followed zero (suc i) = 0
followed (suc s) i = if ltb i (suc s) then suc s else s

followed_lem :
    (vms : List VmConfig) (s i : ℕ)
    → get_elem? (remove_at vms i) (s - 1) ≡ get_elem? vms (followed s i)
followed_lem vms zero zero = get_elem?-remove_at_above vms 0 0 (omega arith)
followed_lem vms zero (suc i) = get_elem?-remove_at_below vms (suc i) 0 (omega arith)
followed_lem vms (suc s) i =
    let e : suc s - 1 ≡ s = omega arith in
    elim (Bool-cases (ltb i (suc s))) [
      | inl low ↦ rw (e, low) (get_elem?-remove_at_above vms i s (ground arith))
      | inr high ↦ rw (e, high) (get_elem?-remove_at_below vms i s (ground arith))
    ]

-- The deletion of one of several virtual machines leaves the processes alone, and selects: the
-- machine that was selected before, if the deleted one stood in front of it or the first was
-- selected and another deleted; the second one, if the first was selected and deleted; and in all
-- other cases the one in front of the selected one, though that may still be there.
pub remove_vm-selected :
    (i : ℕ) (a : App)
    → 1 < length a.vms
    → i < length a.vms
    → (a' : App) × (remove_vm i a ≡ ok a')
      × (a'.backend ≡ a.backend)
      × (get_elem? a'.vms a'.selected ≡ get_elem? a.vms (followed a.selected i))
unfolding remove_vm
remove_vm-selected i a h k =
    let several : ltb 1 (length a.vms) ≡ true = ground arith in
    let inside : ltb i (length a.vms) ≡ true = ground arith in
    (
      record a { vms = remove_at a.vms i; selected = a.selected - 1 },
      rw (several, inside) refl,
      refl,
      followed_lem a.vms a.selected i,
    )
