-- ===== src/Serial.antt =====
-- src/serial.rs: the console on COM1. The device answers a read of a port by the accesses so far.
pub mod Output
pub mod Uart
mod Examples
use mochivm.Prelude.{
  ℕ, zero, suc, ◌+◌, bit_and, Bool, List, [], ◌∷◌, ◌==◌, if◌then◌else◌, Outcome, ok, out_of_fuel,
  ◌>>=◌,
}

abbrev pub com1 : ℕ
com1 = 0x3F8

-- An access to a port.
pub data Access : Type 0 where
  read : (port : ℕ) → Access
  written : (port value : ℕ) → Access

pub record Device : Type 0 where
  -- The answer to the newest access, which is a read.
  pub answer : List Access → ℕ
  -- The accesses so far, the newest first.
  pub accesses : List Access

unfoldable pub inb : ℕ → Device → ℕ × Device
inb port d = let h = Access.read port ∷ d.accesses in (d.answer h, record d { accesses = h })

unfoldable pub outb : (port value : ℕ) → Device → Device
outb port value d = record d { accesses = written port value ∷ d.accesses }

-- 115200 baud, eight bits, no parity, one stop bit.
unfoldable pub init : Device → Device
unfolding outb
init d =
    let d = outb (com1 + 1) 0x00 d in
    let d = outb (com1 + 3) 0x80 d in
    let d = outb (com1 + 0) 0x01 d in
    let d = outb (com1 + 1) 0x00 d in
    let d = outb (com1 + 3) 0x03 d in let d = outb (com1 + 2) 0xC7 d in outb (com1 + 4) 0x0B d

-- `while inb(COM1 + 5) & 0x20 == 0 {}`, with fuel.
unfoldable pub wait : ℕ → Device → Outcome Device
wait zero d = out_of_fuel
wait (suc fuel) d =
    let (v, d) = inb (com1 + 5) d in
    let again = wait fuel d in if bit_and v 0x20 == 0 then again else ok d

unfoldable pub put_char_raw : (fuel c : ℕ) → Device → Outcome Device
put_char_raw fuel c d = do d ← wait fuel d; ok (outb com1 c d)

unfoldable pub put_char : (fuel c : ℕ) → Device → Outcome Device
put_char fuel c d =
    if c == b'\n'
    then (do d ← put_char_raw fuel b'\r' d; put_char_raw fuel c d)
    else put_char_raw fuel c d

-- `for &b in s.as_bytes()`, on the text's bytes.
unfoldable pub write : ℕ → List ℕ → Device → Outcome Device
write fuel [] d = ok d
write fuel (b ∷ s) d = do d ← put_char fuel b d; write fuel s d

-- The calls of `write_str` that `write_fmt` makes, one for each piece of the formatted text.
unfoldable pub write_pieces : ℕ → List (List ℕ) → Device → Outcome Device
write_pieces fuel [] d = ok d
write_pieces fuel (s ∷ pieces) d = do d ← write fuel s d; write_pieces fuel pieces d

unfoldable pub serial_println : ℕ → List (List ℕ) → Device → Outcome Device
serial_println fuel pieces d = do d ← write_pieces fuel pieces d; write fuel (b'\n' ∷ []) d
