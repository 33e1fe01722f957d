-- ===== src/Backend/Examples.antt =====
-- A start and a stop of the backend of manager/src/vm.rs.
use mochivm.Prelude.{
  ◌≡◌, refl, arith, ℕ, List, ◌++◌, decimal, map, concat, true, false, none, some, [], ◌∷◌,
}
use mochivm.Buffer.{buffer}
use mathlib.Core.List.{reverse}
use mochivm.Backend.{
  got, read_turn, send, Paths, spawned, start_readers, fine, System, Backend, stop,
}
use mochivm.Backend.Readers.{
  World, Turns, here, next, read_out, Interleaved, waiting, Turns-Interleaved,
}
use mochivm.Backend.OneChild.{alive, Piped, Fits, Owns, stop-stop}

abbrev pub works : System
works = record {
  create_dir = λ h. none;
  read_efi = λ h. fine (buffer 1300 (λ i. 0));
  save = λ h. none;
  copy_vars = λ h. none;
  spawn = λ h. fine 7;
  stdout = λ h. true;
  stderr = λ h. true;
  try_wait = λ h. true;
  exists = λ h p. true;
  windows = false;
  qemu_variable = none;
  exe_dir = some "/opt/mochivm";
}

pub works-Piped : Piped works
works-Piped = record { stdout = λ h. refl; stderr = λ h. refl }

pub works-Fits : Fits works
works-Fits = record { fits = λ h. omega arith }

abbrev paths : Paths
paths = record { efi = "mochivm.efi"; code = "code.fd"; vars = "vars.fd" }

-- A process runs already.
abbrev busy : Backend
busy = record {
  system = works;
  trace = start_readers ∷ spawned 3 ∷ [];
  child = some 3;
  rx = some [];
  run_dir = "runtime";
}

busy-Owns : Owns busy
unfolding alive
busy-Owns = record { alive = refl; rx = refl }

stop-stop_example :
    ((stop busy).child ≡ none)
    × ((stop busy).rx ≡ none)
    × (alive (stop busy).trace ≡ [])
    × (stop (stop busy) ≡ stop busy)
stop-stop_example = stop-stop busy works-Piped busy-Owns

memory_text : decimal 5 8192 ≡ "8192"
unfolding decimal
memory_text = refl

abbrev at_start : World
at_start = record {
  backend = busy;
  out = [];
  err = [];
  out_open = true;
  err_open = true;
  drained = [];
}

-- The first thread has read one chunk.
abbrev first_turn : World
first_turn = record at_start {
  backend = record busy { rx = some ((65 ∷ []) ∷ []) };
  out = (65 ∷ []) ∷ [];
}

turns : Turns (λ bs. bs) at_start first_turn
unfolding read_turn send
turns = next here (read_out at_start (got (65 ∷ [])) refl)

Turns-Interleaved_example :
    (order : List (List ℕ)) × (Interleaved
      (map (λ bs. bs) first_turn.out)
      (map (λ bs. bs) first_turn.err)
      order)
    × (first_turn.drained ++ waiting first_turn.backend.rx ≡ concat (reverse order))
Turns-Interleaved_example = Turns-Interleaved (λ bs. bs) busy refl turns
