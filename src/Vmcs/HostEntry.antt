-- ===== src/Vmcs/HostEntry.antt =====
-- `host_entry` of src/hv/vmcs.rs, an instruction at a time: the registers that it saves on the host
-- stack and restores. Memory is by words of eight bytes, at the addresses at which they are stored.
pub mod Restores
mod Examples
use mochivm.Prelude.{
  ℕ, ◌+◌, ◌-◌, ◌%◌, ◌^◌, u64, List, [], ◌∷◌, ◌==◌, if◌then◌else◌, Bool, true, false,
}

pub data Reg : Type 0 where
  rax rcx rdx rbx rbp rsi rdi r8 r9 r10 r11 r12 r13 r14 r15 : Reg

abbrev pub number : Reg → ℕ
number rax = 0
number rcx = 1
number rdx = 2
number rbx = 3
number rbp = 4
number rsi = 5
number rdi = 6
number r8 = 7
number r9 = 8
number r10 = 9
number r11 = 10
number r12 = 11
number r13 = 12
number r14 = 13
number r15 = 14

pub record Cpu : Type 0 where
  pub regs : Reg → ℕ
  pub rsp : ℕ
  pub memory : ℕ → ℕ

-- The instructions up to `call`, and those behind the test of AL.
pub data Insn : Type 0 where
  push : Reg → Insn
  pop : Reg → Insn

unfoldable pub step : Insn → Cpu → Cpu
step (push r) c =
    let sp = u64 (c.rsp + 2 ^ 64 - 8) in
    record c { rsp = sp; memory = λ a. if a == sp then c.regs r else c.memory a }
step (pop r) c = record c {
  rsp = u64 (c.rsp + 8);
  regs = λ q. if number q == number r then c.memory c.rsp else c.regs q;
}

unfoldable pub run : List Insn → Cpu → Cpu
run [] c = c
run (i ∷ is) c = run is (step i c)

-- The last one is the pad.
abbrev pub saves : List Insn
saves =
    push rax
    ∷ push rcx
    ∷ push rdx
    ∷ push rbx
    ∷ push rbp
    ∷ push rsi
    ∷ push rdi
    ∷ push r8
    ∷ push r9
    ∷ push r10
    ∷ push r11
    ∷ push r12
    ∷ push r13
    ∷ push r14
    ∷ push r15
    ∷ push rax
    ∷ []

-- The same before `vmresume` and at the label `2:`.
abbrev pub restores : List Insn
restores =
    pop r15
    ∷ pop r14
    ∷ pop r13
    ∷ pop r12
    ∷ pop r11
    ∷ pop r10
    ∷ pop r9
    ∷ pop r8
    ∷ pop rdi
    ∷ pop rsi
    ∷ pop rbp
    ∷ pop rbx
    ∷ pop rdx
    ∷ pop rcx
    ∷ pop rax
    ∷ []

-- `add rsp, 8`
unfoldable pub drop_pad : Cpu → Cpu
drop_pad c = record c { rsp = u64 (c.rsp + 8) }

-- Where `host_entry` ends: at `vmresume`, or in the loop at `3:`.
pub data Exit : Type 0 where
  at_vmresume : Cpu → Exit
  at_stop : Cpu → Exit

-- The `call` of `handler`, with its return, is `handler` itself.
unfoldable pub host_entry : (handler : Cpu → Cpu) → Cpu → Exit
unfolding step run drop_pad
host_entry handler c =
    let c = drop_pad (handler (run saves c)) in
    if c.regs rax % 2 ^ 8 == 0 then at_vmresume (run restores c) else at_stop (run restores c)

-- The processor where `host_entry` leaves it.
abbrev pub left : Exit → Cpu
left (at_vmresume c) = c
left (at_stop c) = c

-- Whether `host_entry` resumes, by AL behind the call.
abbrev pub resumes : Exit → Bool
resumes (at_vmresume c) = true
resumes (at_stop c) = false
