-- ===== src/SelfTest/Listen.antt =====
-- The loop of the self-test of manager/src/main.rs that waits for the banner.
use mochivm.Prelude.{
  ℕ, zero, suc, ◌+◌, ◌*◌, ◌≤◌, ◌<◌, ◌≡◌, refl, ◌∙◌, sym, ap, arith, true, false, Bool-cases, inl,
  inr, Option, some, List, [], ◌++◌, ltb, concat, contains, ◌==◌, subst,
}
use mathlib.Core.List.{reverse, append-nil}
use mochivm.Backend.{Backend, drain_log, receive_all}
use mochivm.Backend.OneChild.{receiver, Piped, Owns}
use mochivm.App.{arrived}
use mochivm.SelfTest.{World, banner, Heard, listen}

-- `sleep` takes at least as long as it is asked to.
pub record Sleeps (w : World) : Type 0 where
  pub first : w.began ≤ w.clock 0
  pub later : (i : ℕ) → w.clock i + 100 ≤ w.clock (suc i)

-- The output of the process before the round `i`.
abbrev pub heard : World → ℕ → List ℕ
heard w zero = []
heard w (suc i) = heard w i ++ concat (reverse (w.arrivals i))

-- The banner is in the output by the end of the round `i`, which begins before the deadline.
pub record Seen (w : World) (i : ℕ) : Type 0 where
  pub in_time : w.clock i < w.began + 25000
  pub banner : contains (heard w (suc i)) banner ≡ true

-- What the loop ends with.
pub data Listened (w : World) : Option Heard → Type 0 where
  heard_it :
      (i : ℕ) (log : List ℕ) (b : Backend)
      → Seen w i
      → Owns b
      → Piped b.system
      → Listened w (some (true, (log, b)))
  too_late :
      (log : List ℕ) (b : Backend)
      → ((i : ℕ) → ¬ Seen w i)
      → Owns b
      → Piped b.system
      → Listened w (some (false, (log, b)))

clock-after : {w : World} → Sleeps w → (i : ℕ) → w.began + 100 * i ≤ w.clock i
clock-after s zero = omega (arith, s.first)
clock-after s (suc i) = omega (arith, clock-after s i, s.later i)

clock-later : {w : World} → Sleeps w → (i j : ℕ) → i ≤ j → w.clock i ≤ w.clock j
clock-later {w} s i zero h = let e : i ≡ 0 = omega arith in rw e (omega arith)
clock-later {w} s i (suc j) h = elim (Bool-cases (i == suc j)) [
  | inl same ↦ let e : i ≡ suc j = ground arith in rw e (omega arith)
  | inr other ↦ let m = clock-later s i j (ground arith) in let l = s.later j in omega (arith, l, m)
]

-- Behind a test that finds the deadline past, no banner is in time.
too_late-unseen :
    (w : World) (i : ℕ)
    → Sleeps w
    → w.began + 25000 ≤ w.clock i
    → ((j : ℕ) → j < i → ¬ Seen w j)
    → (j : ℕ) → ¬ Seen w j
too_late-unseen w i s late before j seen = elim (Bool-cases (ltb j i)) [
  | inl earlier ↦ before j (ground arith) seen
  | inr behind ↦
      let l = clock-later s i j (ground arith) in let t = seen.in_time in omega (arith, l, t)
]

unseen-next :
    (w : World) (i : ℕ)
    → contains (heard w (suc i)) banner ≡ false
    → ((j : ℕ) → j < i → ¬ Seen w j)
    → (j : ℕ) → j < suc i
    → ¬ Seen w j
unseen-next w i e before j h seen = elim (Bool-cases (j == i)) [
  | inl same ↦
      let k : j ≡ i = ground arith in
      let found : contains (heard w (suc i)) banner ≡ true =
        subst (λ k. contains (heard w (suc k)) banner ≡ true) k seen.banner in
      cc
  | inr other ↦ before j (ground arith) seen
]

received :
    (texts : List (List ℕ)) (rx : Option (List (List ℕ)))
    → rx ≡ some []
    → receive_all (arrived texts rx) ≡ (concat (reverse texts), some [])
unfolding receive_all arrived
received texts rx e = rw (e, append-nil texts) refl

pub listen-Listened :
    (w : World) (fuel i : ℕ) (log : List ℕ) (b : Backend)
    → Sleeps w
    → fuel + i ≡ 251
    → i ≤ 250
    → log ≡ heard w i
    → b.rx ≡ some []
    → Owns b
    → Piped b.system
    → ((j : ℕ) → j < i → ¬ Seen w j)
    → Listened w (listen w fuel i (w.began + 25000) log b)
unfolding listen drain_log
listen-Listened w zero i log b s e h l r o p before = absurd (omega arith)
listen-Listened w (suc fuel) i log b s e h l r o p before =
    let got = received (w.arrivals i) b.rx r in
    let drained = record b { rx = (receive_all (arrived (w.arrivals i) b.rx)).1 } in
    let owns : Owns drained = record {
      alive = o.alive;
      rx = rw got (ap receiver (sym r) ∙ o.rx);
    } in
    let whole : log ++ (receive_all (arrived (w.arrivals i) b.rx)).0 ≡ heard w (suc i) =
      rw (got, l) refl in
    elim (Bool-cases (ltb (w.clock i) (w.began + 25000))) [
      | inl early ↦
          let l : i ≤ 249 = ground (arith, clock-after s i) in
          elim (Bool-cases (contains (heard w (suc i)) banner)) [
            | inl found ↦
                rw (early, ap (λ t. contains t banner) whole ∙ found)
                  (heard_it i _ drained (record { in_time = ground arith; banner = found }) owns p)
            | inr none_yet ↦
                rw (early, ap (λ t. contains t banner) whole ∙ none_yet)
                  (listen-Listened w fuel (suc i) _ drained s (omega arith) (omega arith) whole
                    (ap (λ x. x.1) got) owns p (unseen-next w i none_yet before))
          ]
      | inr late ↦ rw late (too_late log b (too_late-unseen w i s (ground arith) before) o p)
    ]
