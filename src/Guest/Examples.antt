-- ===== src/Guest/Examples.antt =====
-- The guest's code at 0x3000.
use mochivm.Prelude.{ℕ, ◌+◌, ◌-◌, ◌≡◌, refl, arith, Option, none, some, length, get_elem?}
use mochivm.Guest.{guest_bin, Cpu, at_exit}
use mochivm.Guest.Loop.{Loaded, halted, at_exit-halted}

abbrev byte_or_zero : Option ℕ → ℕ
byte_or_zero none = 0
byte_or_zero (some b) = b

abbrev memory : ℕ → ℕ
memory a = byte_or_zero (get_elem? guest_bin (a - 0x3000))

memory-Loaded : Loaded memory 0x3000
memory-Loaded = record {
  byte = λ i b e. let back : (0x3000 + i) - 0x3000 ≡ i = omega arith in rw (back, e) refl;
  room = omega arith;
}

abbrev entry : Cpu
entry = record { rip = 0x3000; reg = λ k. 0 }

at_exit-halted_example : at_exit memory entry 4 ≡ some (halted 0x3000 entry)
at_exit-halted_example = at_exit-halted memory 0x3000 memory-Loaded entry 4 refl

-- What `setup` copies.
guest_bin_copied : length guest_bin ≡ 13
guest_bin_copied = refl
