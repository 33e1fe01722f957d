-- ===== src/App/SidePanel.antt =====
-- The side panel of manager/src/main.rs: the rows, a new virtual machine and a deletion.
use mochivm.Prelude.{
  ℕ, zero, suc, ◌+◌, ◌≤◌, ◌<◌, ◌≡◌, refl, ◌∙◌, subst, arith, Bool, true, false, Bool-cases, inl,
  inr, Option, none, some, [], ◌∷◌, ltb, ◌==◌, if◌then◌else◌, Outcome, ok, ◌>>=◌, length,
  length-append, length-remove_at,
}
use mochivm.Backend.{default_config}
use mochivm.App.{App, Frame, poll, rows, add_vm, remove_vm, delete_vm, side_panel}
use mochivm.App.Valid.{
  InRange, IsServed, IsServed-vms, Served, served, default-InRange, All-snoc, All-remove_at,
  index-some, poll-IsServed,
}

abbrev Below : Option ℕ → ℕ → Type 0
Below none n = Unit
Below (some i) n = i < n

-- The rows return, with the same number of virtual machines and a choice to delete among them.
data Rows (n : ℕ) : Outcome (App × Option ℕ) → Type 0 where
  listed : (a : App) (d : Option ℕ) → IsServed a → length a.vms ≡ n → Below d n → Rows n (ok (a, d))

polled-IsServed :
    (b : Bool) (a : App)
    → IsServed a
    → IsServed (if b then poll a else a) × (length (if b then poll a else a).vms ≡ length a.vms)
unfolding poll
polled-IsServed true a v = (poll-IsServed a v, refl)
polled-IsServed false a v = (v, refl)

chosen-IsServed :
    (b : Bool) (i : ℕ) (a : App)
    → i < length a.vms
    → IsServed a
    → IsServed (if b then record a { selected = i } else a)
      × (length (if b then record a { selected = i } else a).vms ≡ length a.vms)
chosen-IsServed true i a h v = (IsServed-vms v refl h v.ranges, refl)
chosen-IsServed false i a h v = (v, refl)

delete-Below :
    (b : Bool) (i n : ℕ) (d : Option ℕ) → i < n → Below d n → Below (if b then some i else d) n
delete-Below true i n d h k = h
delete-Below false i n d h k = k

rows-Rows :
    (f : Frame) (left i : ℕ) (d : Option ℕ) (a : App)
    → IsServed a
    → i + left ≤ length a.vms
    → Below d (length a.vms)
    → Rows (length a.vms) (rows f left i d a)
unfolding rows
rows-Rows f zero i d a v h k = listed a d v refl k
rows-Rows f (suc left) i d a v h k =
    let polled = if i == a.selected then poll a else a in
    let p = polled-IsServed (i == a.selected) a v in
    let here : i < length polled.vms = omega (arith, p.1) in
    let c = chosen-IsServed (f.label i) i polled here p.0 in
    let chosen = if f.label i then record polled { selected = i } else polled in
    let same : length chosen.vms ≡ length a.vms = c.1 ∙ p.1 in
    rw ((index-some polled.vms i here).2, ◌>>=◌)
      (subst (λ n. Rows n (rows f left (i + 1) (if f.delete i then some i else d) chosen)) same
        (rows-Rows f left (i + 1) (if f.delete i then some i else d) chosen c.0 (omega arith)
          (rw same (delete-Below (f.delete i) i (length a.vms) d (omega arith) k))))

add_vm-IsServed :
    (b : Bool) (a : App)
    → IsServed a
    → IsServed (add_vm b a) × (length a.vms ≤ length (add_vm b a).vms)
unfolding add_vm
add_vm-IsServed false a v = (v, omega arith)
add_vm-IsServed true a v =
    let n = length-append a.vms (default_config ∷ []) in
    (
      IsServed-vms v refl (omega (arith, n))
          (All-snoc InRange a.vms default_config v.ranges default-InRange),
      omega (arith, n),
    )

remove_vm-Served : (i : ℕ) (a : App) → i < length a.vms → IsServed a → Served (remove_vm i a)
unfolding remove_vm
remove_vm-Served i a h v = elim (Bool-cases (ltb 1 (length a.vms))) [
  | inl more ↦
      let inside : ltb i (length a.vms) ≡ true = ground arith in
      let several : 1 < length a.vms = ground arith in
      rw (more, inside)
        (served _ (
          IsServed-vms v refl (omega (arith, length-remove_at a.vms i h))
            (All-remove_at InRange a.vms i v.ranges)))
  | inr one ↦ rw one (served a v)
]

delete_vm-Served :
    (d : Option ℕ) (a : App) → Below d (length a.vms) → IsServed a → Served (delete_vm d a)
unfolding delete_vm
delete_vm-Served none a h v = served a v
delete_vm-Served (some i) a h v = remove_vm-Served i a h v

Below-le : (d : Option ℕ) (n k : ℕ) → n ≤ k → Below d n → Below d k
Below-le none n k h b = tt
Below-le (some i) n k h b = omega arith

pub side_panel-Served : (f : Frame) (a : App) → IsServed a → Served (side_panel f a)
unfolding side_panel
side_panel-Served f a v =
    by (rows f (length a.vms) 0 none a) (rows-Rows f (length a.vms) 0 none a v (omega arith) tt)
  where
    by :
        (r : Outcome (App × Option ℕ))
        → Rows (length a.vms) r
        → Served (r >>= (λ (a, d). delete_vm d (add_vm f.new_vm a)))
    by _ (listed a' d v' e k) =
        let added = add_vm-IsServed f.new_vm a' v' in
        delete_vm-Served d (add_vm f.new_vm a') (Below-le d _ _ (omega (arith, e, added.1)) k)
          added.0
