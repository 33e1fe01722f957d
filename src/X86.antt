-- ===== src/X86.antt =====
-- src/x86.rs, an instruction at a time. `asm!` reads x86 text in Intel syntax, so `mov a, b`
-- writes `a`: `mov cr0, {0}` loads CR0 from the operand's register and `mov {0}, cr0` loads the
-- operand's register from CR0.
use mochivm.Prelude.{
  ℕ, zero, suc, ◌+◌, ◌*◌, ◌/◌, ◌^◌, bit_or, u32, u64, List, [], ◌∷◌, get_or, ◌==◌, if◌then◌else◌,
}
use mochivm.Machine.{Segment, Action, done, M, pure, ◌>>=◌, ◌>>◌, emit, ask}

unfoldable pub cpuid : (leaf subleaf : ℕ) → M (ℕ × ℕ × ℕ)
cpuid leaf subleaf = do emit (Action.cpuid leaf subleaf); ask (λ hw h. hw.cpuid h)

unfoldable pub rdmsr : ℕ → M ℕ
rdmsr msr = do
  emit (Action.rdmsr msr)
  (lo, hi) ← ask (λ hw h. hw.msr h)
  pure (bit_or (hi * 2 ^ 32) lo)

-- EAX and EDX hold the two halves.
unfoldable pub wrmsr : ℕ → ℕ → M (Unit {0})
wrmsr msr value = emit (Action.wrmsr msr (u32 (value / 2 ^ 32) * 2 ^ 32 + u32 value))

-- An operand of `mov`: a control register, or the register that stands for `{0}`.
pub data Operand : Type 0 where
  control : ℕ → Operand
  register : Operand

-- `mov dst, src` with `r` in the register `{0}`; the result is what it then holds.
mov : (dst src : Operand) → ℕ → M ℕ
mov (control n) register r = λ m. done r (record m {
  history = Action.mov_to_cr n r ∷ m.history;
  cr = λ k. if k == n then r else m.cr k;
})
mov register (control n) r =
    λ m. done (m.cr n) (record m { history = Action.mov_from_cr n ∷ m.history })
mov (control _) (control _) r = pure r
mov register register r = pure r

-- `asm!(..., out(reg) v)`: the register is not set before.
asm_out : (ℕ → M ℕ) → M ℕ
asm_out body = ask (λ hw h. hw.stale h) >>= body

-- `asm!(..., in(reg) v)`: what the register holds afterwards is dropped.
asm_in : (ℕ → M ℕ) → ℕ → M (Unit {0})
asm_in body v = do r ← body v; pure tt

unfoldable pub read_cr0 : M ℕ
unfolding mov asm_out
read_cr0 = asm_out (mov (control 0) register)

unfoldable pub read_cr3 : M ℕ
unfolding mov asm_out
read_cr3 = asm_out (mov (control 3) register)

unfoldable pub read_cr4 : M ℕ
unfolding mov asm_out
read_cr4 = asm_out (mov (control 4) register)

unfoldable pub write_cr0 : ℕ → M (Unit {0})
unfolding mov asm_in
write_cr0 v = asm_in (mov register (control 0)) v

unfoldable pub write_cr4 : ℕ → M (Unit {0})
unfolding mov asm_in
write_cr4 v = asm_in (mov register (control 4)) v

-- `read_seg!`: read_cs, read_ss, read_ds, read_es, read_fs, read_gs.
unfoldable pub read_seg : Segment → M ℕ
read_seg s = do emit (Action.mov_from_segment s); ask (λ hw h. hw.segment h)

unfoldable pub read_tr : M ℕ
read_tr = do emit Action.str; ask (λ hw h. hw.task h)

-- `uN::from_le_bytes` of the `n` bytes of `b` from `at` on.
unfoldable pub from_le_bytes : (b : ℕ → ℕ) (at n : ℕ) → ℕ
from_le_bytes b at zero = 0
from_le_bytes b at (suc n) = b at + from_le_bytes b (at + 1) n * 256

-- The limit and the base.
unfoldable pub sgdt : M (ℕ × ℕ)
unfolding from_le_bytes
sgdt = do
  emit Action.sgdt
  b ← ask (λ hw h. hw.table h)
  pure (from_le_bytes b 0 2, from_le_bytes b 2 8)

unfoldable pub sidt : M (ℕ × ℕ)
unfolding from_le_bytes
sidt = do
  emit Action.sidt
  b ← ask (λ hw h. hw.table h)
  pure (from_le_bytes b 0 2, from_le_bytes b 2 8)

unfoldable pub load : ℕ → M ℕ
load address = do emit (Action.load address); ask (λ hw h. hw.byte h)

-- `for i in 0..16`, with `left` rounds to go: each byte is read twice, and the second read kept.
unfoldable pub read_descriptor : (address left i : ℕ) → M (List ℕ)
unfolding load
read_descriptor address zero i = pure []
read_descriptor address (suc left) i = do
  load (u64 (address + i))
  b ← load (u64 (address + i))
  rest ← read_descriptor address left (i + 1)
  pure (b ∷ rest)

-- The shifts and ors that end `read_gdt_entry_base`.
unfoldable pub descriptor_base : List ℕ → ℕ
descriptor_base desc =
    let d = λ (i : ℕ). get_or desc i 0 in
    bit_or
      (bit_or
        (bit_or
          (bit_or (bit_or (bit_or (bit_or (d 2) (d 3 * 2 ^ 8)) (d 4 * 2 ^ 16)) (d 7 * 2 ^ 24))
            (d 8 * 2 ^ 32))
          (d 9 * 2 ^ 40))
        (d 10 * 2 ^ 48))
      (d 11 * 2 ^ 56)

unfoldable pub read_gdt_entry_base : (gdt_base offset : ℕ) → M ℕ
unfolding read_descriptor descriptor_base
read_gdt_entry_base gdt_base offset = do
  desc ← read_descriptor (u64 (gdt_base + offset)) 16 0
  pure (descriptor_base desc)
