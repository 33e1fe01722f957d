-- ===== src/Vmcs/HostEntry/Restores.antt =====
-- The registers behind `host_entry` of src/hv/vmcs.rs.
use mochivm.Prelude.{
  ℕ, ◌+◌, ◌-◌, ◌*◌, ◌%◌, ◌^◌, ◌≤◌, ◌<◌, ◌≡◌, refl, ◌∙◌, sym, ap, arith, u64, Bool, true, false,
  Bool-cases, inl, inr, List, [], ◌∷◌, ◌==◌, ==-eq, if◌then◌else◌, length, map, get_or,
}
use mochivm.Vmcs.HostEntry.{
  Reg, rax, rcx, rdx, rbx, rbp, rsi, rdi, r8, r9, r10, r11, r12, r13, r14, r15, number, Cpu, Insn,
  push, pop, step, run, saves, restores, drop_pad, host_entry, left, resumes,
}

-- What the calling convention asks of a function: the stack pointer is back, and memory from it
-- up is untouched.
pub record Conforms (handler : Cpu → Cpu) : Type 0 where
  pub pointer : (c : Cpu) → (handler c).rsp ≡ c.rsp
  pub above : (c : Cpu) (a : ℕ) → c.rsp ≤ a → (handler c).memory a ≡ c.memory a

-- The words `vs` stand in memory from `sp` up.
data Holds (memory : ℕ → ℕ) : List ℕ → ℕ → Type 0 where
  bottom : (sp : ℕ) → Holds memory [] sp
  word :
      (v : ℕ) (vs : List ℕ) (sp : ℕ)
      → memory sp ≡ v
      → Holds memory vs (sp + 8)
      → Holds memory (v ∷ vs) sp

Holds-above :
    (f g : ℕ → ℕ) (vs : List ℕ) (sp : ℕ)
    → ((a : ℕ) → sp ≤ a → g a ≡ f a)
    → Holds f vs sp
    → Holds g vs sp
Holds-above f g _ _ same (bottom sp) = bottom sp
Holds-above f g _ _ same (word v vs sp e h) =
    word v vs sp (same sp (omega arith) ∙ e)
      (Holds-above f g vs (sp + 8) (λ a l. same a (omega arith)) h)

-- The pushes of `rs`, the first one first.
abbrev pushes : List Reg → List Insn
pushes [] = []
pushes (r ∷ rs) = push r ∷ pushes rs

abbrev pops : List Reg → List Insn
pops [] = []
pops (r ∷ rs) = pop r ∷ pops rs

-- The registers' values on `vs`, one after the other.
abbrev onto : (Reg → ℕ) → List Reg → List ℕ → List ℕ
onto f [] vs = vs
onto f (r ∷ rs) vs = onto f rs (f r ∷ vs)

-- What `rs` pushed is on the stack.
record Pushed (c : Cpu) (rs : List Reg) (vs : List ℕ) (c' : Cpu) : Type 0 where
  kept : (r : Reg) → c'.regs r ≡ c.regs r
  pointer : c'.rsp ≡ c.rsp - 8 * length rs
  stack : Holds c'.memory (onto c.regs rs vs) c'.rsp

push-Holds :
    (r : Reg) (vs : List ℕ) (c : Cpu)
    → 8 ≤ c.rsp
    → c.rsp < 2 ^ 64
    → Holds c.memory vs c.rsp
    → Holds (step (push r) c).memory (c.regs r ∷ vs) (step (push r) c).rsp
unfolding step
push-Holds r vs c room wide h =
    let sp : u64 (c.rsp + 2 ^ 64 - 8) ≡ c.rsp - 8 = omega arith in
    let back : c.rsp - 8 + 8 ≡ c.rsp = omega arith in
    rw sp (
      word (c.regs r) vs (c.rsp - 8) (ground arith)
        (rw back (Holds-above c.memory _ vs c.rsp (λ a l. ground arith) h)))

pushes-Pushed :
    (rs : List Reg) (vs : List ℕ) (c : Cpu)
    → 8 * length rs ≤ c.rsp
    → c.rsp < 2 ^ 64
    → Holds c.memory vs c.rsp
    → Pushed c rs vs (run (pushes rs) c)
unfolding run step
pushes-Pushed [] vs c room wide h = record { kept = λ r. refl; pointer = omega arith; stack = h }
pushes-Pushed (r ∷ rs) vs c room wide h =
    let x =
      pushes-Pushed rs (c.regs r ∷ vs) (step (push r) c) (omega arith) (omega arith)
        (push-Holds r vs c (omega arith) wide h) in
    record { kept = x.kept; pointer = omega (arith, x.pointer); stack = x.stack }

abbrev member : Reg → List Reg → Bool
member r [] = false
member r (q ∷ rs) = let rest = member r rs in if number r == number q then true else rest

abbrev all : List Reg
all = rax ∷ rcx ∷ rdx ∷ rbx ∷ rbp ∷ rsi ∷ rdi ∷ r8 ∷ r9 ∷ r10 ∷ r11 ∷ r12 ∷ r13 ∷ r14 ∷ r15 ∷ []

reg_at : (r : Reg) → get_or all (number r) rax ≡ r
reg_at rax = refl
reg_at rcx = refl
reg_at rdx = refl
reg_at rbx = refl
reg_at rbp = refl
reg_at rsi = refl
reg_at rdi = refl
reg_at r8 = refl
reg_at r9 = refl
reg_at r10 = refl
reg_at r11 = refl
reg_at r12 = refl
reg_at r13 = refl
reg_at r14 = refl
reg_at r15 = refl

same_reg : (r q : Reg) → (number r == number q) ≡ true → r ≡ q
same_reg r q e = sym (reg_at r) ∙ ap (λ n. get_or all n rax) (==-eq _ _ e) ∙ reg_at q

-- What `rs` popped, where the stack held `f` of each.
record Popped (c : Cpu) (f : Reg → ℕ) (rs : List Reg) (c' : Cpu) : Type 0 where
  regs : (r : Reg) → c'.regs r ≡ (if member r rs then f r else c.regs r)
  pointer : c'.rsp ≡ c.rsp + 8 * length rs

popped_one :
    (r q : Reg) (rs : List Reg) (f : Reg → ℕ) (v old : ℕ)
    → v ≡ f q
    → (if member r rs then f r else (if number r == number q then v else old))
      ≡ (if member r (q ∷ rs) then f r else old)
popped_one r q rs f v old e = elim (Bool-cases (number r == number q)) [
  | inl t ↦
      let same : v ≡ f r = e ∙ sym (ap f (same_reg r q t)) in
      rw t (elim (Bool-cases (member r rs)) [ inl k ↦ rw k refl | inr k ↦ rw k same ])
  | inr t ↦ rw t refl
]

pops-Popped :
    (rs : List Reg) (f : Reg → ℕ) (c : Cpu)
    → c.rsp + 8 * length rs < 2 ^ 64
    → Holds c.memory (map f rs) c.rsp
    → Popped c f rs (run (pops rs) c)
unfolding run step
pops-Popped [] f c wide h = record { regs = λ r. refl; pointer = omega arith }
pops-Popped (q ∷ rs) f c wide (word _ _ _ e h) =
    let sp : u64 (c.rsp + 8) ≡ c.rsp + 8 = omega arith in
    let x = pops-Popped rs f (step (pop q) c) (omega arith) (rw sp h) in
    record {
      regs = λ r. x.regs r ∙ popped_one r q rs f (c.memory c.rsp) (c.regs r) e;
      pointer = omega (arith, x.pointer);
    }

-- The same registers, in the order in which they are popped.
abbrev popped : List Reg
popped = r15 ∷ r14 ∷ r13 ∷ r12 ∷ r11 ∷ r10 ∷ r9 ∷ r8 ∷ rdi ∷ rsi ∷ rbp ∷ rbx ∷ rdx ∷ rcx ∷ rax ∷ []

member-popped : (r : Reg) → member r popped ≡ true
member-popped rax = refl
member-popped rcx = refl
member-popped rdx = refl
member-popped rbx = refl
member-popped rbp = refl
member-popped rsi = refl
member-popped rdi = refl
member-popped r8 = refl
member-popped r9 = refl
member-popped r10 = refl
member-popped r11 = refl
member-popped r12 = refl
member-popped r13 = refl
member-popped r14 = refl
member-popped r15 = refl

abbrev pushed_regs : List Reg
pushed_regs =
    rax ∷ rcx ∷ rdx ∷ rbx ∷ rbp ∷ rsi ∷ rdi ∷ r8 ∷ r9 ∷ r10 ∷ r11 ∷ r12 ∷ r13 ∷ r14 ∷ r15 ∷ rax ∷ []

tail-Holds :
    {memory : ℕ → ℕ} {v : ℕ} {vs : List ℕ} {sp : ℕ}
    → Holds memory (v ∷ vs) sp
    → Holds memory vs (sp + 8)
tail-Holds (word _ _ _ _ h) = h

module _ (handler : Cpu → Cpu) (abi : Conforms handler) (c : Cpu) (room : 128 ≤ c.rsp)
    (wide : c.rsp < 2 ^ 64) where
  saved : Pushed c pushed_regs [] (run saves c)
  saved = pushes-Pushed pushed_regs [] c room wide (bottom c.rsp)

  after : Cpu
  after = drop_pad (handler (run saves c))

  after-rsp : after.rsp ≡ c.rsp - 120
  unfolding after drop_pad
  after-rsp = omega (arith, abi.pointer (run saves c), saved.pointer)

  after-Holds : Holds after.memory (map c.regs popped) after.rsp
  unfolding after drop_pad
  after-Holds =
      let sp : u64 ((handler (run saves c)).rsp + 8) ≡ (run saves c).rsp + 8 =
        omega (arith, abi.pointer (run saves c), saved.pointer) in
      rw sp (
        Holds-above (run saves c).memory _ _ _ (λ a l. abi.above (run saves c) a (omega arith))
          (tail-Holds saved.stack))

  restored : Popped after c.regs popped (run restores after)
  restored = pops-Popped popped c.regs after (omega (arith, after-rsp)) after-Holds

  left-restored : left (host_entry handler c) ≡ run restores after
  unfolding host_entry after
  left-restored = elim (Bool-cases (after.regs rax % 2 ^ 8 == 0)) [
    | inl e ↦ rw e refl
    | inr e ↦ rw e refl
  ]

  resumes-al : resumes (host_entry handler c) ≡ ((handler (run saves c)).regs rax % 2 ^ 8 == 0)
  unfolding host_entry after drop_pad
  resumes-al = elim (Bool-cases ((handler (run saves c)).regs rax % 2 ^ 8 == 0)) [
    | inl e ↦ rw e refl
    | inr e ↦ rw e refl
  ]

  -- For a handler that keeps the calling convention, and a host stack with room for 16 words whose
  -- top is a multiple of 16, `host_entry` calls the handler with a stack pointer that is a multiple
  -- of 16, resumes the guest just when the handler returns zero in AL, and on both paths leaves
  -- each of the 15 registers and the stack pointer as they were at the exit.
  pub host_entry-restores :
      (r : Reg)
      → c.rsp % 16 ≡ 0
      → ((run saves c).rsp % 16 ≡ 0)
        × (resumes (host_entry handler c) ≡ ((handler (run saves c)).regs rax % 2 ^ 8 == 0))
        × ((left (host_entry handler c)).regs r ≡ c.regs r)
        × ((left (host_entry handler c)).rsp ≡ c.rsp)
  host_entry-restores r aligned = (
    omega (arith, saved.pointer),
    resumes-al,
    rw left-restored (restored.regs r ∙ rw (member-popped r) refl),
    rw left-restored (omega (arith, restored.pointer, after-rsp)),
  )
