-- ===== src/SelfTest/Verdict.antt =====
-- How a run of the self-test of manager/src/main.rs ends.
use mochivm.Prelude.{
  ℕ, ◌≡◌, refl, arith, Bool, true, false, Bool-cases, inl, inr, Option, none, some, List, [], ◌∷◌,
  String, Outcome, ok, ◌>>=◌, not, find?,
}
use Prim.Native.String.{◌++◌ as ◌<>◌}
use mochivm.Backend.{Result, fine, error, Backend, Started, new, start, stop}
use mochivm.Backend.OneChild.{alive, Piped, Fits, Ended, running, failed, start-Ended, stop-stop}
use mochivm.App.{beside}
use mochivm.SelfTest.{
  create, write_all, World, Tested, Checked, all_there, lacking, needed, check_files, Heard,
  conclude, after_listen, after_start, after_check, drop_backend, write_report, run_self_test,
  test_config, paths,
}
use mochivm.SelfTest.Listen.{Sleeps, Seen, Listened, heard_it, too_late, listen-Listened}

-- The run has tried once to write a report, beside the executable.
pub data Reported (w : World) (t : Tested) : Type 0 where
  saved :
      (text : List ℕ)
      → w.creates ≡ true
      → t.reports
        ≡ write_all (beside w.system.exe_dir "selftest.log") text
          ∷ create (beside w.system.exe_dir "selftest.log")
          ∷ []
      → Reported w t
  not_created :
      w.creates ≡ false
      → t.reports ≡ create (beside w.system.exe_dir "selftest.log") ∷ []
      → Reported w t

write_report-Reported :
    (w : World) (report : List ℕ) (r : Result (Unit {0})) (b : Option Backend)
    → Reported w (write_report w report r b)
unfolding write_report
write_report-Reported w report r b = elim (Bool-cases w.creates) [
  | inl e ↦ saved report e (rw e refl)
  | inr e ↦ not_created e (rw e refl)
]

-- The run has made a backend, and no process is alive.
abbrev pub Stopped : Tested → Type 0
Stopped t = (b : Backend) × (t.backend ≡ some b) × (alive b.trace ≡ [])

abbrev pub absent : World → String × String → Bool
absent w (what, p) = not (w.system.exists [] p)

-- The first of the needed files that do not exist, and the start of the backend.
abbrev pub first_missing : World → Option (String × String)
first_missing w = find? (absent w) (needed w.system.exe_dir)

abbrev pub started : World → Outcome Started
started w =
    start test_config (paths w.system.exe_dir) (new w.system (beside w.system.exe_dir "runtime"))

-- The ends of a run.
pub data Verdict (w : World) : Outcome (Option Tested) → Type 0 where
  missing :
      (what p : String) (t : Tested)
      → first_missing w ≡ some (what, p)
      → t.result ≡ error ("missing " <> what)
      → t.backend ≡ none
      → Reported w t
      → Verdict w (ok (some t))
  not_started :
      (e : String) (b : Backend) (t : Tested)
      → first_missing w ≡ none
      → started w ≡ ok (error e, b)
      → t.result ≡ error "selftest failed"
      → Stopped t
      → Reported w t
      → Verdict w (ok (some t))
  passed :
      (b : Backend) (i : ℕ) (t : Tested)
      → first_missing w ≡ none
      → started w ≡ ok (fine tt, b)
      → Seen w i
      → t.result ≡ fine tt
      → Stopped t
      → Reported w t
      → Verdict w (ok (some t))
  not_seen :
      (b : Backend) (t : Tested)
      → first_missing w ≡ none
      → started w ≡ ok (fine tt, b)
      → ((i : ℕ) → ¬ Seen w i)
      → t.result ≡ error "selftest failed"
      → Stopped t
      → Reported w t
      → Verdict w (ok (some t))

data CheckedFiles (w : World) (fs : List (String × String)) : Checked → Type 0 where
  complete : (report : List ℕ) → find? (absent w) fs ≡ none → CheckedFiles w fs (all_there report)
  incomplete :
      (what p : String) (report : List ℕ)
      → find? (absent w) fs ≡ some (what, p)
      → CheckedFiles w fs (lacking what report)

present_then :
    (w : World) (what p : String) (rest : List (String × String)) (c : Checked)
    → w.system.exists [] p ≡ true
    → CheckedFiles w rest c
    → CheckedFiles w ((what, p) ∷ rest) c
present_then w what p rest _ e (complete report f) = complete report (rw (find?, e) f)
present_then w what p rest _ e (incomplete what' p' report f) =
    incomplete what' p' report (rw (find?, e) f)

check_files-CheckedFiles :
    (w : World) (fs : List (String × String)) (report : List ℕ)
    → CheckedFiles w fs (check_files (w.system.exists []) fs report)
unfolding check_files
check_files-CheckedFiles w [] report = complete report refl
check_files-CheckedFiles w ((what, p) ∷ rest) report = elim (Bool-cases (w.system.exists [] p)) [
  | inl there ↦ rw there (present_then w what p rest _ there (check_files-CheckedFiles w rest _))
  | inr gone ↦ rw gone (incomplete what p _ (rw (find?, gone) refl))
]

after_listen-Verdict :
    (w : World) (report : List ℕ) (b : Backend) (r : Option Heard)
    → first_missing w ≡ none
    → started w ≡ ok (fine tt, b)
    → Listened w r
    → Verdict w (ok (after_listen w report r))
unfolding after_listen conclude drop_backend write_report
after_listen-Verdict w report b _ there ran (heard_it i log c seen o p) =
    let (gone, nothing, still, twice) = stop-stop c p o in
    passed b i _ there ran seen refl (stop (stop c), refl, rw twice still)
      (write_report-Reported w _ _ _)
after_listen-Verdict w report b _ there ran (too_late log c never o p) =
    let (gone, nothing, still, twice) = stop-stop c p o in
    not_seen b _ there ran never refl (stop (stop c), refl, rw twice still)
      (write_report-Reported w _ _ _)

after_start-Verdict :
    (w : World) (report : List ℕ) (r : Outcome Started)
    → Sleeps w
    → Piped w.system
    → first_missing w ≡ none
    → started w ≡ r
    → Ended w.system r
    → Verdict w (r >>= λ r. ok (after_start w 251 report r))
unfolding after_start drop_backend write_report
after_start-Verdict w report _ s p there ran (running pid b c x o k) =
    after_listen-Verdict w _ b _ there ran (
      listen-Listened w 251 0 [] b s refl (omega arith) refl x o (rw k p) (λ j h seen. omega arith))
after_start-Verdict w report _ s p there ran (failed e b c o k) =
    let (gone, nothing, still, twice) = stop-stop b (rw k p) o in
    not_started e b _ there ran refl (stop b, refl, still) (write_report-Reported w _ _ _)

after_check-Verdict :
    (w : World) (c : Checked)
    → Sleeps w
    → Piped w.system
    → Fits w.system
    → CheckedFiles w (needed w.system.exe_dir) c
    → Verdict w (after_check w 251 c)
unfolding after_check new alive write_report
after_check-Verdict w _ s p q (complete report there) = after_start-Verdict w _ _ s p there refl (
    start-Ended test_config (paths w.system.exe_dir)
      (new w.system (beside w.system.exe_dir "runtime")) p q (record { alive = refl; rx = refl }))
after_check-Verdict w _ s p q (incomplete what path report f) =
    missing what path _ f refl refl (write_report-Reported w _ _ _)

-- Where `sleep` takes as long as it is asked to, on a system that gives piped processes their pipes,
-- and for a loader that fits the disk image, the self-test ends within 251 tests of its loop, having
-- tried once to write a report beside the executable. If a needed file does not exist, the first of
-- these is named in the error and nothing was started. Else, if the backend did not start, the result
-- is an error. Else the result is `Ok` if the banner was in the output by the end of a round that
-- began less than 25 seconds after the start, and an error if it was so in no round. Wherever a
-- backend was made, no process is alive in the end.
pub run_self_test-Verdict :
    (w : World) → Sleeps w → Piped w.system → Fits w.system → Verdict w (run_self_test w 251)
unfolding run_self_test
run_self_test-Verdict w s p q =
    after_check-Verdict w _ s p q (check_files-CheckedFiles w (needed w.system.exe_dir) _)
