-- ===== src/SelfTest/ExitCode.antt =====
-- The exit code of the manager in manager/src/main.rs when it is asked for the self-test.
use mochivm.Prelude.{
  ℕ, ◌≡◌, subst, ap, sym, ◌∙◌, true, Option, none, some, List, String, Outcome, ok,
}
use mochivm.Ovmf
use mochivm.Backend.{fine, error, Backend}
use mochivm.Backend.OneChild.{Piped, Fits}
use mochivm.SelfTest.{
  World, Tested, Main, exits, exit_code, asks_for_test, tested_main, run_self_test, main,
}
use mochivm.SelfTest.Listen.{Sleeps, Seen}
use mochivm.SelfTest.Verdict.{
  Reported, first_missing, started, Verdict, missing, not_started, passed, not_seen,
  run_self_test-Verdict,
}

-- The needed files exist, the backend starts, and the banner is in the output in time.
pub record Passes (w : World) : Type 0 where
  pub complete : first_missing w ≡ none
  pub backend : Backend
  pub starts : started w ≡ ok (fine tt, backend)
  pub round : ℕ
  pub seen : Seen w round

-- The manager exits, with a code that says whether the test passes.
pub data Exits (w : World) : Outcome (Option Main) → Type 0 where
  success : (t : Tested) → Passes w → Reported w t → Exits w (ok (some (exits 0 t)))
  failure : (t : Tested) → ¬ Passes w → Reported w t → Exits w (ok (some (exits 1 t)))

failed-Exits :
    (w : World) (t : Tested) (e : String)
    → t.result ≡ error e
    → ¬ Passes w
    → Reported w t
    → Exits w (tested_main (ok (some t)))
unfolding exit_code
failed-Exits w t e r n o =
    subst (λ c. Exits w (ok (some (exits c t)))) (sym (ap exit_code r)) (failure t n o)

tested_main-Exits :
    (w : World) (r : Outcome (Option Tested)) → Verdict w r → Exits w (tested_main r)
unfolding exit_code
tested_main-Exits w _ (missing what p t f r b o) =
    failed-Exits w t _ r (λ x. let e = sym f ∙ x.complete in cc) o
tested_main-Exits w _ (not_started e b t there ran r s o) =
    failed-Exits w t _ r (λ x. let e = sym ran ∙ x.starts in cc) o
tested_main-Exits w _ (passed b i t there ran seen r s o) =
    subst (λ c. Exits w (ok (some (exits c t)))) (sym (ap exit_code r))
      (success t (record { complete = there; backend = b; starts = ran; round = i; seen = seen }) o)
tested_main-Exits w _ (not_seen b t there ran never r s o) =
    failed-Exits w t _ r (λ x. never x.round x.seen) o

-- With `--self-test` among its arguments, under the conditions on sleep, pipes and loader, the
-- manager exits, having tried once to write a report: with code 0 if the needed files exist, the
-- backend starts, and the banner is in the output by the end of a round that began less than 25
-- seconds after the start; and with code 1 if this is not so.
pub main-Exits :
    (w : World) (f : Ovmf.System) (arguments : List String)
    → Sleeps w
    → Piped w.system
    → Fits w.system
    → asks_for_test arguments ≡ true
    → Exits w (main w f 251 arguments)
unfolding main
main-Exits w f arguments s p q a =
    rw a (tested_main-Exits w (run_self_test w 251) (run_self_test-Verdict w s p q))
