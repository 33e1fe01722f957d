-- ===== src/Guest/Loop.antt =====
-- The exits of the guest of src/hv/guest.rs, one after the other.
use mochivm.Prelude.{ℕ, zero, suc, ◌+◌, ◌^◌, ◌<◌, ◌≡◌, refl, ◌∙◌, ap, arith, u64, some, get_elem?}
use mochivm.Guest.{
  guest_bin, Cpu, goes, halts, set_reg, displacement, decode, step, to_hlt, resumed, at_exit,
}

-- The code is in memory from `base` on, and does not wrap around the end of the address space.
pub record Loaded (memory : ℕ → ℕ) (base : ℕ) : Type 0 where
  pub byte : (i b : ℕ) → get_elem? guest_bin i ≡ some b → memory (base + i) ≡ b
  pub room : base + 13 < 2 ^ 64

-- At the `hlt`, with the two registers set.
abbrev pub halted : ℕ → Cpu → Cpu
halted base c = record (set_reg 3 0x1234_5678 (set_reg 7 0xDEAD_BEEF c)) { rip = base + 10 }

module _ (memory : ℕ → ℕ) (base : ℕ) (l : Loaded memory base) where
  at : (i b a : ℕ) → get_elem? guest_bin i ≡ some b → a ≡ base + i → memory a ≡ b
  at i b a e h = ap memory h ∙ l.byte i b e

  step-edi :
      (c : Cpu)
      → c.rip ≡ base
      → step memory c ≡ goes (set_reg 7 0xDEAD_BEEF (record c { rip = base + 5 }))
  unfolding step decode
  step-edi c e =
      let r = l.room in
      let next : u64 (base + 5) ≡ base + 5 = omega arith in
      rw
        (
          e,
          at 0 0xBF base refl (omega arith),
          at 1 0xEF (base + 1) refl refl,
          at 2 0xBE (base + 1 + 1) refl (omega arith),
          at 3 0xAD (base + 1 + 2) refl (omega arith),
          at 4 0xDE (base + 1 + 3) refl (omega arith),
          next,
        )
        refl

  step-ebx :
      (c : Cpu)
      → c.rip ≡ base + 5
      → step memory c ≡ goes (set_reg 3 0x1234_5678 (record c { rip = base + 10 }))
  unfolding step decode
  step-ebx c e =
      let r = l.room in
      let next : u64 (base + 5 + 5) ≡ base + 10 = omega arith in
      rw
        (
          e,
          at 5 0xBB (base + 5) refl refl,
          at 6 0x78 (base + 5 + 1) refl (omega arith),
          at 7 0x56 (base + 5 + 1 + 1) refl (omega arith),
          at 8 0x34 (base + 5 + 1 + 2) refl (omega arith),
          at 9 0x12 (base + 5 + 1 + 3) refl (omega arith),
          next,
        )
        refl

  step-hlt : (c : Cpu) → c.rip ≡ base + 10 → step memory c ≡ halts
  unfolding step decode
  step-hlt c e = rw (e, at 10 0xF4 (base + 10) refl refl) refl

  step-jmp : (c : Cpu) → c.rip ≡ base + 11 → step memory c ≡ goes (record c { rip = base + 10 })
  unfolding step decode
  step-jmp c e =
      let r = l.room in
      let back : u64 (base + 11 + 2 + displacement 0xFD) ≡ base + 10 = omega arith in
      rw (e, at 11 0xEB (base + 11) refl refl, at 12 0xFD (base + 11 + 1) refl (omega arith), back)
        refl

  to_hlt-goes :
      (n : ℕ) (c c' : Cpu) → step memory c ≡ goes c' → to_hlt memory (suc n) c ≡ to_hlt memory n c'
  unfolding to_hlt
  to_hlt-goes n c c' e = rw (to_hlt, e) refl

  to_hlt-halts : (n : ℕ) (c : Cpu) → step memory c ≡ halts → to_hlt memory (suc n) c ≡ some c
  unfolding to_hlt
  to_hlt-halts n c e = rw (to_hlt, e) refl

  to_hlt-first : (c : Cpu) → c.rip ≡ base → to_hlt memory 3 c ≡ some (halted base c)
  to_hlt-first c e =
      let c1 = set_reg 7 0xDEAD_BEEF (record c { rip = base + 5 }) in
      let c2 = set_reg 3 0x1234_5678 (record c1 { rip = base + 10 }) in
      to_hlt-goes 2 _ _ (step-edi c e)
      ∙ to_hlt-goes 1 _ _ (step-ebx c1 refl)
      ∙ to_hlt-halts 0 _ (step-hlt c2 refl)

  to_hlt-again : (c : Cpu) → to_hlt memory 3 (resumed (halted base c)) ≡ some (halted base c)
  to_hlt-again c =
      let r = l.room in
      let next : u64 (base + 10 + 1) ≡ base + 11 = omega arith in
      let c1 = record (halted base c) { rip = base + 11 } in
      rw next
        (to_hlt-goes 2 _ _ (step-jmp c1 refl) ∙ to_hlt-halts 1 _ (step-hlt (halted base c) refl))

  -- With the guest's code in memory from its start on, without a wrap of the address space: at each
  -- of its exits, the guest that was entered at the start of the code, and resumed by the handler
  -- after each exit before, is at its `hlt` within three steps, with RDI and RBX holding the two
  -- constants and every other register as it was at the entry.
  pub at_exit-halted : (c : Cpu) (n : ℕ) → c.rip ≡ base → at_exit memory c n ≡ some (halted base c)
  unfolding at_exit
  at_exit-halted c zero e = to_hlt-first c e
  at_exit-halted c (suc n) e = rw (at_exit-halted c n e) (to_hlt-again c)
