-- ===== src/SelfTest/Examples.antt =====
-- A self-test of manager/src/main.rs in which the banner comes in two texts.
use mochivm.Prelude.{true, ℕ, ◌+◌, ◌*◌, ◌≡◌, refl, arith, List, [], ◌∷◌, ltb, if◌then◌else◌, bytes}
use mochivm.Backend.Examples.{works, works-Piped, works-Fits}
use mochivm.Ovmf.Examples.{linux}
use mochivm.SelfTest.ExitCode.{Exits, main-Exits}
use mochivm.SelfTest.{World, asks_for_test, main, lines, line_feeds, split_lines, run_self_test}
use mochivm.SelfTest.Listen.{Sleeps}
use mochivm.SelfTest.Verdict.{Verdict, run_self_test-Verdict}

abbrev arrivals : ℕ → List (List ℕ)
arrivals i =
    if ltb i 1
    then bytes "booted" ∷ bytes "[mochivm] moch" ∷ []
    else if ltb i 2
    then bytes "ivm booted\n" ∷ []
    else []

abbrev slow : World
slow = record {
  system = works;
  began = 5;
  clock = λ i. 6 + 101 * i;
  arrivals = arrivals;
  creates = true;
}

slow-Sleeps : Sleeps slow
slow-Sleeps = record { first = omega arith; later = λ i. omega arith }

run_self_test-Verdict_example : Verdict slow (run_self_test slow 251)
run_self_test-Verdict_example = run_self_test-Verdict slow slow-Sleeps works-Piped works-Fits

main-Exits_example : Exits slow (main slow linux 251 ("--self-test" ∷ []))
unfolding asks_for_test
main-Exits_example =
    main-Exits slow linux ("--self-test" ∷ []) slow-Sleeps works-Piped works-Fits refl

lines_of_both_ends : lines (bytes "a\r\nb\r\n\nc") ≡ bytes "a" ∷ bytes "b" ∷ [] ∷ bytes "c" ∷ []
unfolding lines line_feeds split_lines
lines_of_both_ends = refl
