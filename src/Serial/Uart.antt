-- ===== src/Serial/Uart.antt =====
-- The registers of a 16550 on COM1, by the published layout, after `init` of src/serial.rs.
use mochivm.Prelude.{
  ℕ, ◌+◌, ◌≡◌, refl, bit_and, Bool, false, not, List, [], ◌∷◌, ◌==◌, if◌then◌else◌,
}
use mochivm.Serial.{com1, Access, read, written, Device, outb, init}

pub record Registers : Type 0 where
  pub divisor_low : ℕ
  pub divisor_high : ℕ
  pub interrupts : ℕ
  pub fifo : ℕ
  pub line : ℕ
  pub modem : ℕ

-- Bit 7 of the line register puts the divisor in the place of the first two registers.
abbrev pub latched : Registers → Bool
latched r = not (bit_and r.line 0x80 == 0)

unfoldable pub set_register : (port value : ℕ) → Registers → Registers
set_register p v r =
    if p == com1
    then if latched r then record r { divisor_low = v } else r
    else if p == com1 + 1
    then if latched r then record r { divisor_high = v } else record r { interrupts = v }
    else if p == com1 + 2
    then record r { fifo = v }
    else if p == com1 + 3
    then record r { line = v }
    else if p == com1 + 4
    then record r { modem = v }
    else r

-- The registers behind the accesses, from those before them.
unfoldable pub registers : Registers → List Access → Registers
registers r [] = r
registers r (read p ∷ h) = registers r h
registers r (written p v ∷ h) = set_register p v (registers r h)

-- If the divisor is not in the place of the first two registers before it, `init` sets the divisor
-- to 1, which is 115200 baud, leaves it out of their place again, and sets eight bits, no parity,
-- one stop bit, no interrupts, the FIFO and the modem lines.
pub init-registers :
    (r : Registers) (d : Device)
    → latched (registers r d.accesses) ≡ false
    → registers r (init d).accesses ≡ record {
      divisor_low = 1;
      divisor_high = 0;
      interrupts = 0;
      fifo = 0xC7;
      line = 3;
      modem = 0x0B;
    }
unfolding init outb registers set_register
init-registers r d h = rw h refl
