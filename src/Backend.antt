-- ===== src/Backend.antt =====
-- The QEMU backend of the manager, manager/src/vm.rs: the process that it owns. What the operating
-- system is asked for is a trace of events, and its answers are functions of the trace. A path is
-- its text, with `/` between the components.
mod Requests
mod Command
unfoldable pub use Requests.*
unfoldable pub use Command.*
pub mod OneChild
pub mod Readers
pub mod Examples
use mochivm.Prelude.{
  ℕ, Bool, true, false, Option, none, some, List, [], ◌∷◌, String, if◌then◌else◌, Outcome, ok,
  ◌>>=◌, concat, decimal, find?,
}
use mochivm.Buffer.{Buffer}
use mochivm.Fat.Image.{write_fat32_disk}
use mathlib.Core.List.{reverse, ◌++◌ as ◌+++◌}
use Prim.Native.String.{◌++◌}
use text.Mathlib.Text.{◌==◌}

pub record Backend : Type 0 where
  pub system : System
  pub trace : List Event
  pub child : Option ℕ
  -- The texts that wait in the channel, the newest first.
  pub rx : Option (List (List ℕ))
  pub run_dir : String

abbrev pub log : Event → Backend → Backend
log e b = record b { trace = e ∷ b.trace }

unfoldable pub new : System → String → Backend
new s run_dir = record { system = s; trace = []; child = none; rx = none; run_dir = run_dir }

-- `if let Some(c) = self.child.take()`.
unfoldable pub end_child : Option ℕ → Backend → Backend
end_child none b = b
end_child (some c) b = record b { trace = wait c ∷ kill c ∷ b.trace; child = none; rx = none }

unfoldable pub stop : Backend → Backend
stop b = end_child b.child b

-- The paths that `start` is given, and those that it makes.
pub record Paths : Type 0 where
  pub efi : String
  pub code : String
  pub vars : String

abbrev pub disk_of : Backend → String
disk_of b = join b.run_dir "disk.img"

abbrev pub vars_copy_of : Backend → String
vars_copy_of b = join b.run_dir "vars.fd"

-- `Result<(), String>`, and the backend behind the call.
abbrev pub Started : Type 0
Started = Result (Unit {0}) × Backend

-- `start` behind `spawn`.
unfoldable pub after_spawn : Result ℕ → Backend → Started
after_spawn (error e) b = (
  error (
      "failed to start the vm engine ("
      ++ (e ++ ") - put the engine in the engine/ folder or set MOCHIVM_QEMU")),
  b,
)
after_spawn (fine pid) b =
    let b = log (spawned pid) b in
    if b.system.stdout b.trace
    then if b.system.stderr b.trace
      then (fine tt, record (log start_readers b) { child = some pid; rx = some [] })
      else (error "no stderr", b)
    else (error "no stdout", b)

-- `start` behind the copy of the variables.
unfoldable pub after_copy : VmConfig → Paths → Option String → Backend → Started
after_copy cfg p (some e) b = (error ("copy ovmf vars: " ++ e), b)
after_copy cfg p none b =
    let program = qemu_bin b.system b.trace in
    let b = log (spawn program (qemu_arguments cfg p.code (vars_copy_of b) (disk_of b))) b in
    after_spawn (b.system.spawn b.trace) b

unfoldable pub after_disk : VmConfig → Paths → Option String → Backend → Started
after_disk cfg p (some e) b = (error e, b)
after_disk cfg p none b =
    let b = log (copy_vars p.vars (vars_copy_of b)) b in
    after_copy cfg p (b.system.copy_vars b.trace) b

-- The path in the message is printed by `{efi:?}`; the model has it between quotes as it is.
unfoldable pub after_read : VmConfig → Paths → Result Buffer → Backend → Outcome Started
after_read cfg p (error e) b = ok (error ("read efi \"" ++ (p.efi ++ ("\": " ++ e))), b)
after_read cfg p (fine efi) b =
    let b = log (write_disk (disk_of b)) b in
    do r ← write_fat32_disk (λ img. b.system.save b.trace) efi; ok (after_disk cfg p r b)

unfoldable pub after_create_dir : VmConfig → Paths → Option String → Backend → Outcome Started
after_create_dir cfg p (some e) b = ok (error ("mkdir: " ++ e), b)
after_create_dir cfg p none b =
    let b = log (read_efi p.efi) b in after_read cfg p (b.system.read_efi b.trace) b

unfoldable pub start : VmConfig → Paths → Backend → Outcome Started
start cfg p b =
    let b = log (create_dir b.run_dir) (stop b) in
    after_create_dir cfg p (b.system.create_dir b.trace) b

-- `match &mut self.child`.
unfoldable pub poll_child : Option ℕ → Backend → Bool × Backend
poll_child none b = (false, b)
poll_child (some c) b = let b = log (try_wait c) b in (b.system.try_wait b.trace, b)

unfoldable pub is_running : Backend → Bool × Backend
is_running b = poll_child b.child b

-- `if let Some(rx) = &self.rx`: what waits in the channel, the oldest first, and the channel behind.
unfoldable pub receive_all : Option (List (List ℕ)) → List ℕ × Option (List (List ℕ))
receive_all none = ([], none)
receive_all (some texts) = (concat (reverse texts), some [])

unfoldable pub drain_log : Backend → List ℕ × Backend
drain_log b = let (out, rx) = receive_all b.rx in (out, record b { rx = rx })

-- `read` of a pipe: an error, or the bytes read, none at its end.
pub data Read : Type 0 where
  failed : Read
  got : List ℕ → Read

-- A reader thread's turn: whether the thread goes on, and the channel. `lossy` is
-- `String::from_utf8_lossy`; without a receiver, `send` fails.
unfoldable pub send :
    (lossy : List ℕ → List ℕ) → List ℕ → Option (List (List ℕ)) → Bool × Option (List (List ℕ))
send lossy bs none = (false, none)
send lossy bs (some texts) = (true, some (lossy bs ∷ texts))

unfoldable pub read_turn :
    (lossy : List ℕ → List ℕ) → Read → Option (List (List ℕ)) → Bool × Option (List (List ℕ))
unfolding send
read_turn lossy failed rx = (false, rx)
read_turn lossy (got []) rx = (false, rx)
read_turn lossy (got (b ∷ bs)) rx = send lossy (b ∷ bs) rx
