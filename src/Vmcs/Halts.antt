-- ===== src/Vmcs/Halts.antt =====
-- The exits of src/hv/vmcs.rs with a guest that only halts.
use mochivm.Prelude.{
  ℕ, zero, suc, ◌+◌, ◌≤◌, ◌<◌, ◌≡◌, refl, ◌∙◌, ap, arith, true, false, Bool-cases, inl, inr, [],
  ◌∷◌, ◌==◌, leb, u64,
}
use mochivm.Machine.{Action, History, Hardware, Machine, done, ◌>>=◌}
use mochivm.Vmx
use mochivm.Vmcs.{exit_handler, entered, host_entry, exits, stopped}
use mochivm.Vmcs.Fields.{exit_reason, exit_reason_hlt, max_hlt_exits}
use mochivm.Vmcs.Mode.{Same-by, root_mode}
use mochivm.Vmcs.Teardown.{torn, torn-inactive, torn-exit_count}
use mochivm.Vmcs.Exits.{
  after_hlt, at_exit, printed, on_hlt_lem, last_hlt_lem, Live, Live-Same, Live-after_hlt,
  Live-printed, after_hlt-exit_count, torn-mode,
}

-- Each exit is by `hlt`, and each `vmresume` enters the guest.
pub record OnlyHalts (hw : Hardware) : Type 0 where
  pub reason : (h : History) → hw.field (Action.vmread exit_reason ∷ h) ≡ exit_reason_hlt
  pub enters : (h : History) → hw.enters h ≡ true

-- The handler on an exit by `hlt` that is not the last.
exit_handler-resumes :
    (m : Machine)
    → OnlyHalts m.hardware
    → leb max_hlt_exits (u64 (m.exit_count + 1)) ≡ false
    → exit_handler m ≡ done 0 (after_hlt (at_exit m))
unfolding exit_handler Vmx.vmread
exit_handler-resumes m o e =
    let hlt = ap (λ r. r == exit_reason_hlt) (o.reason m.history) in
    rw (hlt, on_hlt_lem (at_exit m), e) refl

-- The machine that the last `hlt` tears down.
abbrev at_last : Machine → Machine
at_last m =
    printed "[mochivm] guest halted {} times, vmxoff" (u64 (m.exit_count + 1) ∷ [])
      (after_hlt (at_exit m))

exit_handler-stops :
    (m : Machine)
    → OnlyHalts m.hardware
    → leb max_hlt_exits (u64 (m.exit_count + 1)) ≡ true
    → exit_handler m ≡ done 1 (torn (at_last m))
unfolding exit_handler Vmx.vmread
exit_handler-stops m o e =
    let hlt = ap (λ r. r == exit_reason_hlt) (o.reason m.history) in
    rw (hlt, on_hlt_lem (at_exit m), e, last_hlt_lem) refl

Live-at_exit : (m : Machine) → Live m → Live (at_exit m)
Live-at_exit m l = Live-Same (Same-by refl) l

after_hlt-hardware : (m : Machine) → (after_hlt m).hardware ≡ m.hardware
unfolding after_hlt
after_hlt-hardware m = refl

-- With a guest that only halts, on a processor that always resumes it, the exits from a live machine
-- with fewer than five counted reach the last loop of `host_entry`, with exactly five exits counted,
-- outside VMX root operation and with VMX_ACTIVE not set.
pub exits-stopped :
    (fuel : ℕ) (m : Machine)
    → Live m
    → OnlyHalts m.hardware
    → m.exit_count < max_hlt_exits
    → max_hlt_exits ≤ m.exit_count + fuel
    → (m' : Machine) × (exits fuel m ≡ done stopped m')
      × (m'.exit_count ≡ max_hlt_exits)
      × (m'.vmx_active ≡ false)
      × (root_mode m' ≡ false)
unfolding exits host_entry entered
exits-stopped zero m l o h f = absurd (omega arith)
exits-stopped (suc fuel) m l o h f =
    let next = after_hlt (at_exit m) in
    let counted = after_hlt-exit_count (at_exit m) h in
    let live = Live-after_hlt (at_exit m) (Live-at_exit m l) in
    elim (Bool-cases (leb max_hlt_exits (u64 (m.exit_count + 1)))) [
      | inl last ↦
          let fifth : next.exit_count ≡ max_hlt_exits = ground (arith, counted) in
          (
            torn (at_last m),
            rw (exit_handler-stops m o last, exits, host_entry, ◌>>=◌) refl,
            torn-exit_count (at_last m) ∙ fifth,
            torn-inactive (at_last m),
            torn-mode (at_last m) (Live-printed _ _ next live),
          )
      | inr more ↦
          let below : next.exit_count < max_hlt_exits = ground (arith, counted) in
          let resumed = record next { history = Action.vmresume ∷ next.history } in
          let inside : resumed.hardware.enters resumed.history ≡ true =
            rw (after_hlt-hardware (at_exit m)) (o.enters resumed.history) in
          rw (exit_handler-resumes m o more, exits, host_entry, ◌>>=◌, inside)
            (exits-stopped fuel resumed (Live-Same (Same-by refl) live)
              (rw (after_hlt-hardware (at_exit m)) o) below (omega (arith, counted)))
    ]
