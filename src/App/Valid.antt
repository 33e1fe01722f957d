-- ===== src/App/Valid.antt =====
-- What holds of the window of manager/src/main.rs between two frames.
use mochivm.Prelude.{
  ℕ, zero, suc, ◌≤◌, ◌<◌, ◌≡◌, refl, arith, Option, none, some, List, [], ◌∷◌, ◌++◌, Outcome, ok,
  ◌>>=◌, length, get_elem?, get_elem?-lt, set, remove_at,
}
use mochivm.Backend.{VmConfig, default_config, Backend, poll_child, is_running}
use mochivm.Backend.OneChild.{alive, Piped, Owns, Fits}
use mochivm.App.{App, Frame, poll, index}

-- The ranges that the settings give memory and processors.
pub record InRange (c : VmConfig) : Type 0 where
  pub memory : (64 ≤ c.ram_mb) × (c.ram_mb ≤ 8192)
  pub cpus : (1 ≤ c.vcpus) × (c.vcpus ≤ 16)

abbrev pub All : (VmConfig → Type 0) → List VmConfig → Type 0
All P [] = Unit
All P (x ∷ xs) = P x × All P xs

-- A virtual machine is selected, every configuration is in its ranges, and the processes alive are
-- the backend's child.
pub record IsValid (a : App) : Type 0 where
  pub selected : a.selected < length a.vms
  pub ranges : All InRange a.vms
  pub owns : Owns a.backend

-- The window is valid, on a system that gives processes their pipes and loaders that fit.
pub record IsServed (a : App) : Type 0 where
  pub selected : a.selected < length a.vms
  pub ranges : All InRange a.vms
  pub owns : Owns a.backend
  pub piped : Piped a.backend.system
  pub fits : Fits a.backend.system

-- A `DragValue` keeps its value in the range that it is given.
pub record Clamps (f : Frame) : Type 0 where
  pub memory :
      (low high v : ℕ)
      → low ≤ high
      → (low ≤ f.drag_memory low high v) × (f.drag_memory low high v ≤ high)
  pub cpus :
      (low high v : ℕ)
      → low ≤ high
      → (low ≤ f.drag_cpus low high v) × (f.drag_cpus low high v ≤ high)

-- The list of machines and the selection stay, and the backend changes or stays.
pub IsServed-backend :
    {a a' : App}
    → IsServed a
    → a'.vms ≡ a.vms
    → a'.selected ≡ a.selected
    → Owns a'.backend
    → a'.backend.system ≡ a.backend.system
    → IsServed a'
IsServed-backend v ev es o e = record {
  selected = rw (es, ev) v.selected;
  ranges = rw ev v.ranges;
  owns = o;
  piped = rw e v.piped;
  fits = rw e v.fits;
}

-- The backend stays, and the list of machines or the selection changes.
pub IsServed-vms :
    {a a' : App}
    → IsServed a
    → a'.backend ≡ a.backend
    → a'.selected < length a'.vms
    → All InRange a'.vms
    → IsServed a'
IsServed-vms v e h r = record {
  selected = h;
  ranges = r;
  owns = rw e v.owns;
  piped = rw e v.piped;
  fits = rw e v.fits;
}

-- The run returns, and the window is so.
pub data Served : Outcome App → Type 0 where
  served : (a : App) → IsServed a → Served (ok a)

pub Served-then :
    (r : Outcome App) (f : App → Outcome App)
    → Served r
    → ((a : App) → IsServed a → Served (f a))
    → Served (r >>= f)
Served-then _ f (served a v) k = k a v

pub default-InRange : InRange default_config
default-InRange = record { memory = omega arith; cpus = omega arith }

module _ (P : VmConfig → Type 0) where
  pub All-snoc : (xs : List VmConfig) (x : VmConfig) → All P xs → P x → All P (xs ++ x ∷ [])
  All-snoc [] x h p = (p, tt)
  All-snoc (y ∷ ys) x h p = (h.0, All-snoc ys x h.1 p)

  pub All-remove_at : (xs : List VmConfig) (i : ℕ) → All P xs → All P (remove_at xs i)
  All-remove_at [] i h = h
  All-remove_at (x ∷ xs) zero h = h.1
  All-remove_at (x ∷ xs) (suc i) h = (h.0, All-remove_at xs i h.1)

  pub All-set : (xs : List VmConfig) (i : ℕ) (v : VmConfig) → All P xs → P v → All P (set xs i v)
  All-set [] i v h p = h
  All-set (x ∷ xs) zero v h p = (p, h.1)
  All-set (x ∷ xs) (suc i) v h p = (h.0, All-set xs i v h.1 p)

-- What an index that is in range gives.
pub index-some :
    (xs : List VmConfig) (i : ℕ)
    → i < length xs
    → (x : VmConfig) × (get_elem? xs i ≡ some x) × (index xs i ≡ ok x)
unfolding index
index-some xs i h = let (x, e) = get_elem?-lt xs i h in (x, e, rw (e, index) refl)

poll_child-Owns :
    (c : Option ℕ) (b : Backend)
    → Owns b
    → Owns (poll_child c b).1 × ((poll_child c b).1.system ≡ b.system)
unfolding poll_child alive
poll_child-Owns none b o = (o, refl)
poll_child-Owns (some c) b o = (record { alive = o.alive; rx = o.rx }, refl)

pub poll-IsServed : (a : App) → IsServed a → IsServed (poll a)
unfolding poll is_running
poll-IsServed a v =
    let p = poll_child-Owns a.backend.child a.backend v.owns in IsServed-backend v refl refl p.0 p.1

pub IsServed-IsValid : {a : App} → IsServed a → IsValid a
IsServed-IsValid v = record { selected = v.selected; ranges = v.ranges; owns = v.owns }

pub IsValid-IsServed :
    {a : App} → Piped a.backend.system → Fits a.backend.system → IsValid a → IsServed a
IsValid-IsServed p q v = record {
  selected = v.selected;
  ranges = v.ranges;
  owns = v.owns;
  piped = p;
  fits = q;
}
