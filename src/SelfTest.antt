-- ===== src/SelfTest.antt =====
-- The headless self-test of manager/src/main.rs, `run_self_test`, and `main`. The report and the log
-- are the bytes of their texts.
pub mod Listen
pub mod Verdict
pub mod ExitCode
mod Examples
use mochivm.Prelude.{
  ℕ, zero, suc, ◌+◌, ◌-◌, Bool, true, false, ◌&&◌, ◌||◌, Option, none, some, List, [], ◌∷◌, ◌++◌,
  String, ltb, ◌==◌, if◌then◌else◌, Outcome, ok, ◌>>=◌, length, drop, concat, bytes, contains,
}
use mochivm.Backend.{
  VmConfig, default_config, tcg, Result, fine, error, System, Backend, Paths, Started, join, new,
  start, stop, drain_log,
}
use mochivm.App.{App, beside, arrived, new_app}
use mochivm.Ovmf
use mathlib.Core.Option as Option
use Prim.Native.String.{◌++◌ as ◌<>◌}
use text.Mathlib.Text.{◌==◌ as ◌=t=◌}

-- The times of `Instant::now()` in milliseconds, when the deadline is made and at each test of the
-- loop, and the texts that the reader threads send before each `drain_log`, the newest first.
pub record World : Type 0 where
  pub system : System
  pub began : ℕ
  pub clock : ℕ → ℕ
  pub arrivals : ℕ → List (List ℕ)
  -- Whether the file of the report can be created.
  pub creates : Bool

-- What is done about the report: its file is created, and written to.
pub data Request : Type 0 where
  create : (path : String) → Request
  write_all : (path : String) (text : List ℕ) → Request

-- What a run returns and leaves: its backend, dropped, and what it did about reports, the newest
-- first.
pub record Tested : Type 0 where
  pub result : Result (Unit {0})
  pub backend : Option Backend
  pub reports : List Request

abbrev pub say : List ℕ → List ℕ → List ℕ
say report s = report ++ (s ++ 10 ∷ [])

-- The path of the empty directory prints as nothing.
abbrev pub display : Option String → String
display none = ""
display (some dir) = dir

-- `Drop for Backend`.
unfoldable pub drop_backend : Backend → Backend
drop_backend b = stop b

-- `File::create(path).map(...)`, where what `write_all` returns is dropped.
abbrev pub requests : Bool → String → List ℕ → List Request
requests false path text = create path ∷ []
requests true path text = write_all path text ∷ create path ∷ []

-- `write_report` and a return.
unfoldable pub write_report : World → List ℕ → Result (Unit {0}) → Option Backend → Tested
write_report w report r b = record {
  result = r;
  backend = b;
  reports = requests w.creates (beside w.system.exe_dir "selftest.log") report;
}

abbrev pub needed : Option String → List (String × String)
needed dir =
    ("mochivm.efi", beside dir "mochivm.efi")
    ∷ ("ovmf code.fd", beside dir "ovmf/x64/code.fd")
    ∷ ("ovmf vars.fd", beside dir "ovmf/x64/vars.fd")
    ∷ []

-- What the loop over the needed files has left: the report, or the file that is missing.
pub data Checked : Type 0 where
  all_there : List ℕ → Checked
  lacking : (what : String) → List ℕ → Checked

unfoldable pub check_files : (String → Bool) → List (String × String) → List ℕ → Checked
check_files exists [] report = all_there report
check_files exists ((what, p) ∷ rest) report =
    let checked = check_files exists rest (say report (bytes ("  " <> (what <> ": ok")))) in
    if exists p then checked else lacking what (say report (bytes ("  " <> (what <> ": MISSING"))))

-- A line feed, or a carriage return and a line feed, ends a line, as in `str::lines`.
abbrev pub begins_line_feed : List ℕ → Bool
begins_line_feed [] = false
begins_line_feed (b ∷ bs) = b == 10

unfoldable pub line_feeds : List ℕ → List ℕ
line_feeds [] = []
line_feeds (b ∷ bs) =
    let rest = line_feeds bs in if b == 13 && begins_line_feed bs then rest else b ∷ rest

abbrev pub to_first : ℕ → List (List ℕ) → List (List ℕ)
to_first b [] = (b ∷ []) ∷ []
to_first b (l ∷ ls) = (b ∷ l) ∷ ls

unfoldable pub split_lines : List ℕ → List (List ℕ)
split_lines [] = []
split_lines (b ∷ bs) = let rest = split_lines bs in if b == 10 then [] ∷ rest else to_first b rest

unfoldable pub lines : List ℕ → List (List ℕ)
unfolding line_feeds split_lines
lines text = split_lines (line_feeds text)

unfoldable pub say_marked : List (List ℕ) → List ℕ → List ℕ
say_marked [] report = report
say_marked (line ∷ rest) report =
    say_marked rest
      (if contains line (bytes "[mochivm]") then say report (bytes "  " ++ line) else report)

unfoldable pub say_tail : List (List ℕ) → List ℕ → List ℕ
say_tail [] report = report
say_tail (line ∷ rest) report = say_tail rest (say report (bytes "    " ++ line))

-- The last twenty lines, or that there are none.
unfoldable pub say_output : List ℕ → List ℕ → List ℕ
say_output [] report = say report (bytes "    (no output captured from engine)")
say_output (b ∷ log) report =
    let ls = lines (b ∷ log) in
    say_tail (drop (length ls - 20) ls) (say report (bytes "-- raw engine output (tail) --"))

-- The end of `run_self_test`, behind the loop.
unfoldable pub conclude : World → List ℕ → Bool → List ℕ → Backend → Tested
conclude w report true log b =
    write_report w (say (say_marked (lines log) report) (bytes "== SELF-TEST PASSED ==")) (fine tt)
      (some (drop_backend b))
conclude w report false log b =
    write_report w
      (say_output log (
        say (say_marked (lines log) report)
          (bytes "== SELF-TEST FAILED: 'mochivm booted' never appeared on serial ==")))
      (error "selftest failed") (some (drop_backend b))

abbrev pub banner : List ℕ
banner = bytes "mochivm booted"

-- What the loop ends with: whether the banner was seen, the log and the backend.
abbrev pub Heard : Type 0
Heard = Bool × (List ℕ × Backend)

-- The loop from its test `i` on.
unfoldable pub listen : World → (fuel i deadline : ℕ) → List ℕ → Backend → Option Heard
listen w zero i deadline log b = none
listen w (suc fuel) i deadline log b =
    let (chunk, drained) = drain_log (record b { rx = arrived (w.arrivals i) b.rx }) in
    let longer = log ++ chunk in
    let rest = listen w fuel (suc i) deadline longer drained in
    if ltb (w.clock i) deadline
    then if contains longer banner then some (true, (longer, drained)) else rest
    else some (false, (log, b))

unfoldable pub after_listen : World → List ℕ → Option Heard → Option Tested
after_listen w report none = none
after_listen w report (some (passed, (log, b))) = some (conclude w report passed log (stop b))

-- `run_self_test` behind `start`.
unfoldable pub after_start : World → (fuel : ℕ) → List ℕ → Started → Option Tested
after_start w fuel report (error e, b) = some (
    write_report w (say report (bytes ("  engine spawn failed: " <> e))) (error "selftest failed")
      (some (drop_backend b)))
after_start w fuel report (fine _, b) =
    after_listen w (say report (bytes "  engine spawned (software emulation)"))
      (listen w fuel 0 (w.began + 25000) [] b)

abbrev pub engine_line : System → String
engine_line s =
    let engine = beside s.exe_dir "engine" in
    if s.exists [] (join engine "mochivm-vm.exe")
      || s.exists [] (join engine "qemu-system-x86_64.exe")
    then "  engine: ok"
    else "  engine: MISSING"

abbrev pub test_config : VmConfig
test_config = record default_config { name = "selftest"; accel = tcg }

abbrev pub paths : Option String → Paths
paths dir = record {
  efi = beside dir "mochivm.efi";
  code = beside dir "ovmf/x64/code.fd";
  vars = beside dir "ovmf/x64/vars.fd";
}

unfoldable pub after_check : World → (fuel : ℕ) → Checked → Outcome (Option Tested)
after_check w fuel (lacking what report) =
    ok (some (write_report w report (error ("missing " <> what)) none))
after_check w fuel (all_there report) = do
  let dir = w.system.exe_dir
  r ← start test_config (paths dir) (new w.system (beside dir "runtime"))
  ok (after_start w fuel (say report (bytes (engine_line w.system))) r)

-- `fuel` bounds the rounds of the loop.
unfoldable pub run_self_test : World → (fuel : ℕ) → Outcome (Option Tested)
run_self_test w fuel =
    let dir = w.system.exe_dir in
    let report =
      say (say [] (bytes "== mochivm self-test ==")) (bytes ("exe dir: " <> display dir)) in
    after_check w fuel (check_files (w.system.exists []) (needed dir) report)

-- `main`: the arguments with `--self-test` among them make it the self-test, whose exit code it is;
-- else it opens the window.
unfoldable pub asks_for_test : List String → Bool
asks_for_test [] = false
asks_for_test (a ∷ rest) =
    let others = asks_for_test rest in if a =t= "--self-test" then true else others

unfoldable pub exit_code : Result (Unit {0}) → ℕ
exit_code (fine _) = 0
exit_code (error e) = 1

pub data Main : Type 0 where
  exits : ℕ → Tested → Main
  opens : App → Main

abbrev pub exit_with : Tested → Main
exit_with t = exits (exit_code t.result) t

abbrev pub tested_main : Outcome (Option Tested) → Outcome (Option Main)
tested_main r = r >>= λ t. ok (Option.map exit_with t)

unfoldable pub main : World → Ovmf.System → (fuel : ℕ) → List String → Outcome (Option Main)
main w f fuel arguments =
    if asks_for_test arguments
    then tested_main (run_self_test w fuel)
    else ok (some (opens (new_app w.system f)))
