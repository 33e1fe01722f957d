-- ===== src/Backend/OneChild.antt =====
-- The processes of the backend of manager/src/vm.rs that are alive.
use mochivm.Prelude.{
  ℕ, ◌≤◌, ◌≡◌, refl, ◌∙◌, sym, ap, arith, Bool, true, false, Option, none, some, List, [], ◌∷◌,
  String, without, Outcome, ok,
}
use mochivm.Buffer.{Buffer}
use mochivm.Fat.Content.{file_capacity}
use mochivm.Fat.Image.{write_fat32_disk}
use mochivm.Fat.Built.{build_image-BuiltImage}
use mochivm.Backend.{
  VmConfig, Paths, Event, create_dir, read_efi, write_disk, copy_vars, spawn, spawned, wait, Result,
  fine, error, System, Backend, log, end_child, stop, Started, after_spawn, after_copy, after_disk,
  after_read, after_create_dir, start,
}

-- The processes started and not waited for, the newest first.
unfoldable pub alive : List Event → List ℕ
alive [] = []
alive (spawned p ∷ h) = p ∷ alive h
alive (wait p ∷ h) = without p (alive h)
alive (_ ∷ h) = alive h

abbrev pub owned : Option ℕ → List ℕ
owned none = []
owned (some c) = c ∷ []

abbrev pub has_child : Option ℕ → Bool
has_child none = false
has_child (some c) = true

abbrev pub receiver : Option (List (List ℕ)) → Bool
receiver none = false
receiver (some texts) = true

-- A process that is started with piped output has both pipes.
pub record Piped (s : System) : Type 0 where
  pub stdout : (h : List Event) → s.stdout h ≡ true
  pub stderr : (h : List Event) → s.stderr h ≡ true

-- The processes that are alive are the child, and it comes with a receiver.
pub record Owns (b : Backend) : Type 0 where
  pub alive : alive b.trace ≡ owned b.child
  pub rx : receiver b.rx ≡ has_child b.child

-- How `start` may end, on the system `s`.
pub data Ended (s : System) : Outcome Started → Type 0 where
  running :
      (pid : ℕ) (b : Backend)
      → b.child ≡ some pid
      → b.rx ≡ some []
      → Owns b
      → b.system ≡ s
      → Ended s (ok (fine tt, b))
  failed :
      (e : String) (b : Backend)
      → b.child ≡ none
      → Owns b
      → b.system ≡ s
      → Ended s (ok (error e, b))

-- No process is alive, and none is owned.
record Idle (s : System) (b : Backend) : Type 0 where
  child : b.child ≡ none
  nothing : alive b.trace ≡ []
  rx : b.rx ≡ none
  piped : Piped b.system
  system : b.system ≡ s

Idle-failed : {s : System} (e : String) (b : Backend) → Idle s b → Ended s (ok (error e, b))
Idle-failed e b i =
    failed e b i.child (record { alive = rw i.child i.nothing; rx = rw (i.child, i.rx) refl })
      i.system

after_spawn-Ended :
    {s : System} (r : Result ℕ) (b : Backend) → Idle s b → Ended s (ok (after_spawn r b))
unfolding after_spawn alive
after_spawn-Ended (error e) b i = Idle-failed _ b i
after_spawn-Ended (fine pid) b i =
    let h = spawned pid ∷ b.trace in
    rw (i.piped.stdout h, i.piped.stderr h)
      (running pid _ refl refl (record { alive = ap (λ l. pid ∷ l) i.nothing; rx = refl }) i.system)

-- An event that neither starts nor ends a process.
Idle-log :
    {s : System} (e : Event) (b : Backend)
    → alive (e ∷ b.trace) ≡ alive b.trace
    → Idle s b
    → Idle s (log e b)
Idle-log e b same i = record {
  child = i.child;
  nothing = same ∙ i.nothing;
  rx = i.rx;
  piped = i.piped;
  system = i.system;
}

after_copy-Ended :
    {s : System} (cfg : VmConfig) (p : Paths) (r : Option String) (b : Backend)
    → Idle s b
    → Ended s (ok (after_copy cfg p r b))
unfolding after_copy alive
after_copy-Ended cfg p (some e) b i = Idle-failed _ b i
after_copy-Ended cfg p none b i = after_spawn-Ended _ _ (Idle-log (spawn _ _) b refl i)

after_disk-Ended :
    {s : System} (cfg : VmConfig) (p : Paths) (r : Option String) (b : Backend)
    → Idle s b
    → Ended s (ok (after_disk cfg p r b))
unfolding after_disk alive
after_disk-Ended cfg p (some e) b i = Idle-failed _ b i
after_disk-Ended cfg p none b i = after_copy-Ended cfg p _ _ (Idle-log (copy_vars _ _) b refl i)

abbrev pub size_of : Result Buffer → ℕ
size_of (fine efi) = efi.size
size_of (error e) = 0

-- The loader that is read fits the disk image.
pub record Fits (s : System) : Type 0 where
  pub fits : (h : List Event) → size_of (s.read_efi h) ≤ file_capacity

after_read-Ended :
    {s : System} (cfg : VmConfig) (p : Paths) (r : Result Buffer) (b : Backend)
    → Idle s b
    → size_of r ≤ file_capacity
    → Ended s (after_read cfg p r b)
unfolding after_read write_fat32_disk alive
after_read-Ended cfg p (error e) b i fits = Idle-failed _ b i
after_read-Ended cfg p (fine efi) b i fits =
    rw ((build_image-BuiltImage efi fits).returns)
      (after_disk-Ended cfg p _ _ (Idle-log (write_disk _) b refl i))

after_create_dir-Ended :
    {s : System} (cfg : VmConfig) (p : Paths) (r : Option String) (b : Backend)
    → Idle s b
    → Fits b.system
    → Ended s (after_create_dir cfg p r b)
unfolding after_create_dir alive
after_create_dir-Ended cfg p (some e) b i f = Idle-failed _ b i
after_create_dir-Ended cfg p none b i f =
    after_read-Ended cfg p _ (log (read_efi p.efi) b) (Idle-log (read_efi p.efi) b refl i)
      (f.fits _)

pub end_child-system : (c : Option ℕ) (b : Backend) → (end_child c b).system ≡ b.system
unfolding end_child
end_child-system none b = refl
end_child-system (some c) b = refl

without-only : (c : ℕ) → without c (c ∷ []) ≡ []
without-only c = ground arith

no_receiver : (rx : Option (List (List ℕ))) → receiver rx ≡ false → rx ≡ none
no_receiver none e = refl
no_receiver (some texts) e = cc

end_child-Idle :
    (c : Option ℕ) (b : Backend)
    → b.child ≡ c
    → Piped b.system
    → Owns b
    → Idle b.system (end_child c b)
unfolding end_child alive
end_child-Idle none b e p o = record {
  child = e;
  nothing = o.alive ∙ ap owned e;
  rx = no_receiver b.rx (o.rx ∙ ap has_child e);
  piped = p;
  system = refl;
}
end_child-Idle (some c) b e p o = record {
  child = refl;
  nothing = ap (without c) (o.alive ∙ ap owned e) ∙ without-only c;
  rx = refl;
  piped = p;
  system = refl;
}

pub start-Ended :
    (cfg : VmConfig) (p : Paths) (b : Backend)
    → Piped b.system
    → Fits b.system
    → Owns b
    → Ended b.system (start cfg p b)
unfolding start stop alive
start-Ended cfg p b q f o =
    after_create_dir-Ended cfg p _ _
      (Idle-log (create_dir _) (stop b) refl (end_child-Idle b.child b refl q o))
      (rw (end_child-system b.child b) f)

pub stop-Owns :
    (b : Backend) → Piped b.system → Owns b → Owns (stop b) × ((stop b).system ≡ b.system)
unfolding stop
stop-Owns b p o =
    let i = end_child-Idle b.child b refl p o in
    (record { alive = i.nothing ∙ ap owned (sym i.child); rx = rw (i.child, i.rx) refl }, i.system)

-- On a system that gives piped processes their pipes, a backend whose only process alive is its
-- child has, behind `stop`, no child and no receiver, no process is alive, and a second `stop` does
-- nothing.
pub stop-stop :
    (b : Backend)
    → Piped b.system
    → Owns b
    → ((stop b).child ≡ none)
      × ((stop b).rx ≡ none)
      × (alive (stop b).trace ≡ [])
      × (stop (stop b) ≡ stop b)
unfolding stop end_child
stop-stop b p o =
    let i = end_child-Idle b.child b refl p o in
    (i.child, i.rx, i.nothing, ap (λ c. end_child c (stop b)) i.child)
