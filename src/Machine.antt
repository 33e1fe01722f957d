-- ===== src/Machine.antt =====
-- What the hypervisor's code does to the machine, and what it sees of it. Every privileged
-- instruction and every firmware call is an `Action` on a history, and what it yields is an answer
-- of the environment to that history: nothing is assumed of the processor. The statics of
-- src/hv/vmcs.rs and src/main.rs are fields of the state.
use mochivm.Prelude.{ℕ, Option, none, some, Bool, List, ◌∷◌, String}

-- The segment registers that src/x86.rs reads.
pub data Segment : Type 0 where
  cs ss ds es fs gs : Segment

pub data Action : Type 0 where
  cpuid : (leaf subleaf : ℕ) → Action
  rdmsr : (msr : ℕ) → Action
  wrmsr : (msr value : ℕ) → Action
  mov_to_cr : (cr value : ℕ) → Action
  mov_from_cr : (cr : ℕ) → Action
  mov_from_segment : Segment → Action
  str sgdt sidt : Action
  load : (address : ℕ) → Action
  store32 : (address value : ℕ) → Action
  copy : (address length : ℕ) → Action
  -- The call of the function at the address that is taken for that of AllocatePages.
  call_allocate : (function : Option ℕ) → (kind memory_type pages : ℕ) → Action
  vmxon vmclear vmptrld : (region : ℕ) → Action
  vmxoff : Action
  vmwrite : (field value : ℕ) → Action
  vmread : (field : ℕ) → Action
  vmlaunch vmresume : Action
  print : String → List ℕ → Action

abbrev pub History : Type 0
History = List Action

-- The answers to the newest action of a history.
pub record Hardware : Type 0 where
  pub cpuid : History → ℕ × ℕ × ℕ
  pub msr : History → ℕ × ℕ
  -- The content of a register that the code has not set.
  pub stale : History → ℕ
  pub segment : History → ℕ
  pub task : History → ℕ
  -- The ten bytes that `sgdt` and `sidt` store.
  pub table : History → ℕ → ℕ
  pub byte : History → ℕ
  -- The words of 64 bits that the memory holds behind a history.
  pub memory : History → ℕ → ℕ
  -- The status of the call of a function for a page, and the address that it stores, if it stores one.
  pub pages : History → ℕ × Option ℕ
  pub rflags : History → ℕ
  pub field : History → ℕ
  -- Whether the processor enters the guest.
  pub enters : History → Bool
  -- The address that the linker gives `host_entry`.
  pub host_entry : ℕ

-- A variable that is 0 before a call which may store a value in it.
abbrev pub out_value : Option ℕ → ℕ
out_value none = 0
out_value (some v) = v

pub record Machine : Type 0 where
  pub hardware : Hardware
  pub history : History
  pub cr : ℕ → ℕ
  pub system_table : ℕ
  pub vmxon_region : ℕ
  pub vmcs_region : ℕ
  pub vmx_active : Bool
  pub exit_count : ℕ

-- A run returns, or panics.
pub data Step (A : Type 0) : Type 0 where
  done : A → Machine → Step A
  panicked : String → Machine → Step A

abbrev pub M : Type 0 → Type 0
M A = Machine → Step A

abbrev pub pure : {A : Type 0} → A → M A
pure a m = done a m

infixl 5 ◌>>=◌ ◌>>◌
abbrev pub ◌>>=◌ : {A B : Type 0} → M A → (A → M B) → M B
◌>>=◌ r f m = elim (r m) [ done a m' ↦ f a m' | panicked e m' ↦ panicked e m' ]

abbrev pub ◌>>◌ : {A B : Type 0} → M A → M B → M B
◌>>◌ r s m = elim (r m) [ done _ m' ↦ s m' | panicked e m' ↦ panicked e m' ]

abbrev pub emit : Action → M (Unit {0})
emit a m = done tt (record m { history = a ∷ m.history })

abbrev pub ask : {A : Type 0} → (Hardware → History → A) → M A
ask f m = done (f m.hardware m.history) m

-- `Result<A, &str>`.
pub data Result (A : Type 0) : Type 0 where
  ok : A → Result A
  err : String → Result A

-- `match r { Ok(a) => a, Err(e) => { ...; return Err(...) } }`, and what follows it.
abbrev pub on_result :
    {A B : Type 0} → (String → M (Result B)) → (A → M (Result B)) → Result A → M (Result B)
on_result fail next (ok a) = next a
on_result fail next (err e) = fail e

abbrev pub attempt :
    {A B : Type 0} → M (Result A) → (String → M (Result B)) → (A → M (Result B)) → M (Result B)
attempt r fail next = r >>= on_result fail next

-- `serial_println!`: the format text and the numbers that are put into it.
abbrev pub println : String → List ℕ → M (Unit {0})
println text args = emit (Action.print text args)

-- `r.expect(text)`.
abbrev pub expected : String → Result (Unit {0}) → M (Unit {0})
expected text (ok _) = pure tt
expected text (err _) = panicked text

abbrev pub expect : M (Result (Unit {0})) → String → M (Unit {0})
expect r text = r >>= expected text
