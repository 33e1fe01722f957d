-- ===== src/Vmcs/Exits.antt =====
-- The exits of src/hv/vmcs.rs: `exit_handler` and `host_entry`.
use mochivm.Prelude.{
  ℕ, zero, suc, ◌+◌, ◌≤◌, ◌<◌, ◌≡◌, refl, ◌∙◌, arith, true, false, Bool-cases, inl, inr, ◌≢◌, List,
  [], ◌∷◌, if◌then◌else◌, ◌==◌, leb, u64, ==-eq, ==-ne, String,
}
use mochivm.Machine.{Action, Machine, Step, done, ◌>>=◌, ◌>>◌}
use mochivm.Vmx
use mochivm.Vmcs.{
  count_exit, last_hlt, on_hlt, on_unexpected, exit_handler, entered, host_entry, exits, Status,
  stopped, stuck,
}
use mochivm.Vmcs.Fields.{exit_reason, exit_reason_hlt, exit_qualification, guest_rip, max_hlt_exits}
use mochivm.Vmcs.Mode.{Same-by, WellBehaved, WellBehaved-Same, Same, root_mode}
use mochivm.Vmcs.Teardown.{torn, teardown_lem, torn-inactive, torn-exit_count}

-- The machine at the test of the count: the exit is counted and printed, and RIP is moved behind
-- the one-byte `hlt`.
unfoldable pub after_hlt : Machine → Machine
after_hlt m =
    let n = u64 (m.exit_count + 1) in
    let read =
      Action.vmread guest_rip ∷ Action.print "[mochivm] guest hlt #{}" (n ∷ []) ∷ m.history in
    record m {
      history = Action.vmwrite guest_rip (u64 (m.hardware.field read + 1)) ∷ read;
      exit_count = n;
    }

-- The machine with EXIT_REASON read, and the reason.
abbrev pub at_exit : Machine → Machine
at_exit m = record m { history = Action.vmread exit_reason ∷ m.history }

abbrev pub reason_of : Machine → ℕ
reason_of m = m.hardware.field (Action.vmread exit_reason ∷ m.history)

abbrev pub printed : String → List ℕ → Machine → Machine
printed text args m = record m { history = Action.print text args ∷ m.history }

pub on_hlt_lem :
    (m : Machine)
    → on_hlt m
      ≡ (if leb max_hlt_exits (u64 (m.exit_count + 1))
            then last_hlt (u64 (m.exit_count + 1))
            else done 0)
          (after_hlt m)
unfolding on_hlt count_exit Vmx.vmread Vmx.vmwrite after_hlt
on_hlt_lem m = refl

pub last_hlt_lem :
    (n : ℕ) (m : Machine)
    → last_hlt n m ≡ done 1 (torn (printed "[mochivm] guest halted {} times, vmxoff" (n ∷ []) m))
unfolding last_hlt
last_hlt_lem n m = rw (teardown_lem, last_hlt, ◌>>◌)

-- The machine that `on_unexpected` tears down.
abbrev at_unexpected : ℕ → Machine → Machine
at_unexpected reason m =
    let read = record m { history = Action.vmread exit_qualification ∷ m.history } in
    printed "[mochivm] unexpected exit reason {} qual 0x{:x}, stopping"
      (reason ∷ m.hardware.field read.history ∷ []) read

on_unexpected_lem :
    (reason : ℕ) (m : Machine) → on_unexpected reason m ≡ done 1 (torn (at_unexpected reason m))
unfolding on_unexpected Vmx.vmread
on_unexpected_lem reason m = rw (teardown_lem, on_unexpected, ◌>>◌)

-- A machine that may run a guest: in VMX root operation, with VMX_ACTIVE set.
pub record Live (m : Machine) : Type 0 where
  pub hardware : WellBehaved m.hardware
  pub active : m.vmx_active ≡ true
  pub mode : root_mode m ≡ true

pub Live-Same : {m m' : Machine} → Same m m' → Live m → Live m'
Live-Same s l = record {
  hardware = WellBehaved-Same s l.hardware;
  active = s.active ∙ l.active;
  mode = s.mode ∙ l.mode;
}

pub torn-mode : (m : Machine) → Live m → root_mode (torn m) ≡ false
unfolding torn
torn-mode m l =
    let off = l.hardware.vmxoff_succeeds (Action.vmclear m.vmcs_region ∷ m.history) l.mode in
    rw (l.active, off)

-- What one exit comes to: the guest is to be resumed on a live machine with fewer than five exits
-- counted, or VMX is off.
pub record Exited (m : Machine) (result : Step ℕ) : Type 0 where
  pub code : ℕ
  pub after : Machine
  pub returns : result ≡ done code after
  pub counted : after.exit_count ≤ m.exit_count + 1
  pub resumes :
      code ≡ 0
      → (after.exit_count ≡ m.exit_count + 1) × (m.exit_count + 1 < max_hlt_exits) × Live after
  pub stops : code ≢ 0 → (after.vmx_active ≡ false) × (root_mode after ≡ false)

Exited-torn :
    (m m' : Machine) (result : Step ℕ)
    → result ≡ done 1 (torn m')
    → m'.exit_count ≤ m.exit_count + 1
    → Live m'
    → Exited m result
Exited-torn m m' result e h l = record {
  code = 1;
  after = torn m';
  returns = e;
  counted = omega (arith, torn-exit_count m');
  resumes = λ z. absurd (omega arith);
  stops = λ _. (torn-inactive m', torn-mode m' l);
}

pub Live-after_hlt : (m : Machine) → Live m → Live (after_hlt m)
unfolding after_hlt
Live-after_hlt m l = record { hardware = l.hardware; active = l.active; mode = l.mode }

pub after_hlt-exit_count :
    (m : Machine) → m.exit_count < max_hlt_exits → (after_hlt m).exit_count ≡ m.exit_count + 1
unfolding after_hlt
after_hlt-exit_count m h = omega arith

pub Live-printed :
    (text : String) (args : List ℕ) (m : Machine) → Live m → Live (printed text args m)
Live-printed text args m l = Live-Same (Same-by refl) l

on_hlt-Exited : (m : Machine) → Live m → m.exit_count < max_hlt_exits → Exited m (on_hlt m)
on_hlt-Exited m l h =
    let n = u64 (m.exit_count + 1) in
    let counted = after_hlt-exit_count m h in
    let live = Live-after_hlt m l in
    rw (on_hlt_lem m) (elim (Bool-cases (leb max_hlt_exits n)) [
      | inl last ↦ rw last (
          Exited-torn m _ _ (last_hlt_lem n (after_hlt m)) (omega arith)
            (Live-printed _ _ (after_hlt m) live))
      | inr more ↦ rw more (record {
        code = 0;
        after = after_hlt m;
        returns = refl;
        counted = omega arith;
        resumes = λ _. (counted, ground arith, live);
        stops = λ ne. absurd (ne refl);
      })
    ])

pub exit_handler-Exited :
    (m : Machine) → Live m → m.exit_count < max_hlt_exits → Exited m (exit_handler m)
unfolding exit_handler Vmx.vmread
exit_handler-Exited m l h =
    let live : Live (at_exit m) = Live-Same (Same-by refl) l in
    elim (Bool-cases (reason_of m == exit_reason_hlt)) [
      | inl hlt ↦ rw hlt (from_hlt (on_hlt-Exited (at_exit m) live h))
      | inr other ↦ rw other (
          Exited-torn m _ _ (on_unexpected_lem (reason_of m) (at_exit m)) (omega arith)
            (Live-Same (Same-by refl) live))
    ]
  where
    from_hlt : {r : Step ℕ} → Exited (at_exit m) r → Exited m r
    from_hlt x = record {
      code = x.code;
      after = x.after;
      returns = x.returns;
      counted = x.counted;
      resumes = x.resumes;
      stops = x.stops;
    }

-- The end of a row of exits, with at most five counted: `host_entry` reached its last loop and
-- VMX is off, or a `vmresume` did not enter the guest.
pub data Ended : Step Status → Type 0 where
  went_off :
      (m : Machine)
      → m.exit_count ≤ max_hlt_exits
      → m.vmx_active ≡ false
      → root_mode m ≡ false
      → Ended (done stopped m)
  not_entered : (m : Machine) → m.exit_count ≤ max_hlt_exits → Ended (done stuck m)

-- On a live machine with fewer than five exits counted, the exits come to an end within the five:
-- no run of `host_entry` panics, at most five exits are counted, and either `host_entry` reached
-- its last loop with VMX off and VMX_ACTIVE not set, or a `vmresume` did not enter the guest.
pub exits-Ended :
    (fuel : ℕ) (m : Machine)
    → Live m
    → m.exit_count < max_hlt_exits
    → max_hlt_exits ≤ m.exit_count + fuel
    → Ended (exits fuel m)
unfolding exits host_entry entered
exits-Ended zero m l h f = absurd (omega arith)
exits-Ended (suc fuel) m l h f =
    let x = exit_handler-Exited m l h in
    rw (x.returns, exits, host_entry, ◌>>=◌)
      (elim (Bool-cases (x.code == 0)) [
        | inl resume ↦
            let again = x.resumes (==-eq _ _ resume) in
            let next = record x.after { history = Action.vmresume ∷ x.after.history } in
            let live : Live next = Live-Same (Same-by refl) again.2 in
            rw resume (elim (Bool-cases (next.hardware.enters next.history)) [
              | inl inside ↦ rw inside (exits-Ended fuel next live (omega arith) (omega arith))
              | inr outside ↦ rw outside (not_entered next (omega arith))
            ])
        | inr stop ↦
            let off = x.stops (==-ne _ _ stop) in
            rw stop (went_off x.after (omega (arith, x.counted)) off.0 off.1)
      ])
