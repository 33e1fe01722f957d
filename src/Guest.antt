-- ===== src/Guest.antt =====
-- The guest of src/hv/guest.rs and guest/hello.S: its machine code, on the three instructions that
-- it is made of, and its exits to the handler of src/hv/vmcs.rs.
pub mod Loop
mod Examples
use mochivm.Prelude.{
  ℕ, zero, suc, ◌+◌, ◌-◌, ◌*◌, ◌^◌, u64, Bool, true, false, ◌&&◌, Option, none, some, List, [], ◌∷◌,
  leb, ltb, ◌==◌, if◌then◌else◌,
}

-- guest/hello.bin.
abbrev pub guest_bin : List ℕ
guest_bin =
    0xBF ∷ 0xEF ∷ 0xBE ∷ 0xAD ∷ 0xDE ∷ 0xBB ∷ 0x78 ∷ 0x56 ∷ 0x34 ∷ 0x12 ∷ 0xF4 ∷ 0xEB ∷ 0xFD ∷ []

-- The registers by their numbers: 3 is RBX, 7 is RDI.
pub record Cpu : Type 0 where
  pub rip : ℕ
  pub reg : ℕ → ℕ

-- A step goes on, or executes `hlt`, or meets another instruction.
pub data Stepped : Type 0 where
  goes : Cpu → Stepped
  halts : Stepped
  other : Stepped

abbrev pub set_reg : ℕ → ℕ → Cpu → Cpu
set_reg r v c = record c { reg = λ k. if k == r then v else c.reg k }

-- The 32-bit operand at an address.
abbrev pub operand : (ℕ → ℕ) → ℕ → ℕ
operand memory a =
    memory a + 2 ^ 8 * memory (a + 1) + 2 ^ 16 * memory (a + 2) + 2 ^ 24 * memory (a + 3)

-- The displacement of a short jump, over 64 bits.
abbrev pub displacement : ℕ → ℕ
displacement d = if ltb d 0x80 then d else d + (2 ^ 64 - 2 ^ 8)

-- `mov r32, imm32`, whose upper half of the register becomes zero, `hlt`, and `jmp rel8`.
unfoldable pub decode : (ℕ → ℕ) → ℕ → Cpu → Stepped
decode memory op c =
    if op == 0xF4
    then halts
    else if op == 0xEB
    then goes (record c { rip = u64 (c.rip + 2 + displacement (memory (c.rip + 1))) })
    else if leb 0xB8 op && ltb op 0xC0
    then goes
        (set_reg (op - 0xB8) (operand memory (c.rip + 1)) (record c { rip = u64 (c.rip + 5) }))
    else other

unfoldable pub step : (ℕ → ℕ) → Cpu → Stepped
step memory c = decode memory (memory c.rip) c

-- To the next `hlt`, where the guest exits with RIP at the `hlt`, in at most `fuel` steps.
unfoldable pub to_hlt : (ℕ → ℕ) → (fuel : ℕ) → Cpu → Option Cpu
to_hlt memory zero c = none
to_hlt memory (suc fuel) c = elim (step memory c) [
  | goes c' ↦ to_hlt memory fuel c'
  | halts ↦ some c
  | other ↦ none
]

-- What the handler makes of RIP on an exit by `hlt`.
abbrev pub resumed : Cpu → Cpu
resumed c = record c { rip = u64 (c.rip + 1) }

-- The guest at its exit `n`, counted from zero, with at most three steps before each.
unfoldable pub at_exit : (ℕ → ℕ) → Cpu → ℕ → Option Cpu
at_exit memory c zero = to_hlt memory 3 c
at_exit memory c (suc n) = elim (at_exit memory c n) [
  | some c ↦ to_hlt memory 3 (resumed c)
  | none ↦ none
]
