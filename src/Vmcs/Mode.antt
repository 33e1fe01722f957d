-- ===== src/Vmcs/Mode.antt =====
-- Whether the processor is in VMX root operation, by the VMX instructions that it has executed,
-- and the runs that leave that alone.
use mochivm.Prelude.{
  ℕ, ◌≡◌, ◌≢◌, refl, ◌∙◌, Bool, true, false, not, [], ◌∷◌, if◌then◌else◌, ◌==◌, bit_and, String,
}
use mochivm.Machine.{
  Action, History, Hardware, Machine, Step, out_value, done, panicked, M, ◌>>=◌, ◌>>◌, attempt,
  on_result, Result, ok, err,
}

-- CF after the newest instruction.
abbrev pub carry : Hardware → History → Bool
carry hw h = not (bit_and (hw.rflags h) 1 == 0)

-- A `vmxon` or `vmxoff` takes effect unless it sets CF.
abbrev pub in_root : Hardware → History → Bool
in_root hw [] = false
in_root hw (Action.vmxon r ∷ h) = if carry hw (Action.vmxon r ∷ h) then in_root hw h else true
in_root hw (Action.vmxoff ∷ h) = if carry hw (Action.vmxoff ∷ h) then in_root hw h else false
in_root hw (_ ∷ h) = in_root hw h

abbrev pub root_mode : Machine → Bool
root_mode m = in_root m.hardware m.history

-- What the code relies on: the function that is called for a page stores an address other than 0
-- whenever it succeeds, and `vmxoff` succeeds in VMX root operation.
pub record WellBehaved (hw : Hardware) : Type 0 where
  pub page_not_null : (h : History) → (hw.pages h).0 ≡ 0 → out_value (hw.pages h).1 ≢ 0
  pub vmxoff_succeeds : (h : History) → in_root hw h ≡ true → carry hw (Action.vmxoff ∷ h) ≡ false

-- The two machines have the same mode and the same statics about it.
pub record Same (m m' : Machine) : Type 0 where
  pub active : m'.vmx_active ≡ m.vmx_active
  pub region : m'.vmxon_region ≡ m.vmxon_region
  pub hardware : m'.hardware ≡ m.hardware
  pub mode : root_mode m' ≡ root_mode m
  pub exits : m'.exit_count ≡ m.exit_count
  pub table : m'.system_table ≡ m.system_table

pub WellBehaved-Same :
    {m m' : Machine} → Same m m' → WellBehaved m.hardware → WellBehaved m'.hardware
WellBehaved-Same s w = rw s.hardware w

pub Same-refl : (m : Machine) → Same m m
Same-refl m = record {
  active = refl;
  region = refl;
  hardware = refl;
  mode = refl;
  exits = refl;
  table = refl;
}

-- A run that changes history and control registers only.
pub Same-by :
    {m : Machine} {h : History} {cr : ℕ → ℕ}
    → in_root m.hardware h ≡ root_mode m
    → Same m (record m { history = h; cr = cr })
Same-by e = record {
  active = refl;
  region = refl;
  hardware = refl;
  mode = e;
  exits = refl;
  table = refl;
}

pub Same-trans : {a b c : Machine} → Same a b → Same b c → Same a c
Same-trans p q = record {
  active = q.active ∙ p.active;
  region = q.region ∙ p.region;
  hardware = q.hardware ∙ p.hardware;
  mode = q.mode ∙ p.mode;
  exits = q.exits ∙ p.exits;
  table = q.table ∙ p.table;
}

-- The run from `m` leaves mode and statics alone, whether it returns or panics.
pub data Quiet {A : Type 0} (m : Machine) : Step A → Type 0 where
  returns : (a : A) (m' : Machine) → Same m m' → Quiet m (done a m')
  panics : (e : String) (m' : Machine) → Same m m' → Quiet m (panicked e m')

-- The run from `m` returns and leaves mode and statics alone.
pub data Calm {A : Type 0} (m : Machine) : Step A → Type 0 where
  calm : (a : A) (m' : Machine) → Same m m' → Calm m (done a m')

pub Quiet-Calm : {A : Type 0} {m : Machine} {s : Step A} → Calm m s → Quiet m s
Quiet-Calm (calm a m' s) = returns a m' s

abbrev pub Quietly : {A : Type 0} → M A → Type 0
Quietly r = (m : Machine) → Quiet m (r m)

abbrev pub Calmly : {A : Type 0} → M A → Type 0
Calmly r = (m : Machine) → Calm m (r m)

Quiet-from : {A : Type 0} {m m' : Machine} {s : Step A} → Same m m' → Quiet m' s → Quiet m s
Quiet-from p (returns a m' q) = returns a m' (Same-trans p q)
Quiet-from p (panics e m' q) = panics e m' (Same-trans p q)

Calm-from : {A : Type 0} {m m' : Machine} {s : Step A} → Same m m' → Calm m' s → Calm m s
Calm-from p (calm a m' q) = calm a m' (Same-trans p q)

module _ {A B : Type 0} where
  Quiet-bind :
      {m : Machine} (f : A → M B) (s : Step A)
      → Quiet m s
      → ((a : A) → Quietly (f a))
      → Quiet m (elim s [ done a m' ↦ f a m' | panicked e m' ↦ panicked e m' ])
  Quiet-bind f _ (returns a m' p) q = Quiet-from p (q a m')
  Quiet-bind f _ (panics e m' p) q = panics e m' p

  pub >>=-Quietly :
      (r : M A) (f : A → M B) → Quietly r → ((a : A) → Quietly (f a)) → Quietly (r >>= f)
  >>=-Quietly r f p q m = Quiet-bind f (r m) (p m) q

  pub >>-Quietly : (r : M A) (s : M B) → Quietly r → Quietly s → Quietly (r >> s)
  >>-Quietly r s p q m = Quiet-bind (λ _. s) (r m) (p m) (λ _. q)

  Calm-bind :
      {m : Machine} (f : A → M B) (s : Step A)
      → Calm m s
      → ((a : A) → Calmly (f a))
      → Calm m (elim s [ done a m' ↦ f a m' | panicked e m' ↦ panicked e m' ])
  Calm-bind f _ (calm a m' p) q = Calm-from p (q a m')

  pub >>=-Calmly : (r : M A) (f : A → M B) → Calmly r → ((a : A) → Calmly (f a)) → Calmly (r >>= f)
  >>=-Calmly r f p q m = Calm-bind f (r m) (p m) q

  -- A calm step before the rest, whatever is to be shown of the rest.
  Calm-rest :
      {m : Machine} (P : Step B → Type 0) (f : A → M B) (s : Step A)
      → Calm m s
      → ((a : A) (m' : Machine) → Same m m' → P (f a m'))
      → P (elim s [ done a m' ↦ f a m' | panicked e m' ↦ panicked e m' ])
  Calm-rest P f _ (calm a m' p) q = q a m' p

  pub Calm-then :
      (P : Step B → Type 0) (r : M A) (f : A → M B) (m : Machine)
      → Calm m (r m)
      → ((a : A) (m' : Machine) → Same m m' → P (f a m'))
      → P ((r >>= f) m)
  Calm-then P r f m c q = Calm-rest P f (r m) c q

  Quiet-rest :
      {m : Machine} (P : Step B → Type 0) (f : A → M B) (s : Step A)
      → Quiet m s
      → ((a : A) (m' : Machine) → Same m m' → P (f a m'))
      → ((e : String) (m' : Machine) → Same m m' → P (panicked e m'))
      → P (elim s [ done a m' ↦ f a m' | panicked e m' ↦ panicked e m' ])
  Quiet-rest P f _ (returns a m' p) q r = q a m' p
  Quiet-rest P f _ (panics e m' p) q r = r e m' p

  pub Quiet-then :
      (P : Step B → Type 0) (r : M A) (f : A → M B) (m : Machine)
      → Quiet m (r m)
      → ((a : A) (m' : Machine) → Same m m' → P (f a m'))
      → ((e : String) (m' : Machine) → Same m m' → P (panicked e m'))
      → P ((r >>= f) m)
  Quiet-then P r f m c = Quiet-rest P f (r m) c

pub attempt-Calm :
    {A B : Type 0} (P : Step (Result B) → Type 0) (r : M (Result A)) (fail : String → M (Result B))
    (next : A → M (Result B)) (m : Machine)
    → Calm m (r m)
    → ((e : String) (m' : Machine) → Same m m' → P (fail e m'))
    → ((a : A) (m' : Machine) → Same m m' → P (next a m'))
    → P (attempt r fail next m)
attempt-Calm {A} P r fail next m c p q = Calm-then P r _ m c branch
  where
    branch : (x : Result A) (m' : Machine) → Same m m' → P (on_result fail next x m')
    branch (ok a) m' s = q a m' s
    branch (err e) m' s = p e m' s
