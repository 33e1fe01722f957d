-- ===== src/Serial/Examples.antt =====
-- A line on the console of src/serial.rs, on a device whose transmitter is always empty.
use mochivm.Prelude.{ℕ, ◌≡◌, refl, List, [], ◌∷◌, ◌++◌, arith, ok, pushed}
use mochivm.Serial.{Device, outb, init, serial_println}
use mochivm.Serial.Output.{
  sent, polled_empty, Paced, polls, crlf, concat, Drains, serial_println-sent,
}
use mochivm.Serial.Uart.{Registers, registers, init-registers}

abbrev idle : Device
idle = record { answer = λ h. 0x60; accesses = [] }

idle-Drains : Drains (λ h. 0x60) 1
unfolding polled_empty polls
idle-Drains = record { drains = λ h. (0, omega arith, refl) }

abbrev cleared : Registers
cleared = record {
  divisor_low = 0;
  divisor_high = 0;
  interrupts = 0;
  fifo = 0;
  line = 0;
  modem = 0;
}

-- "ab" and "c", as two pieces.
abbrev pieces : List (List ℕ)
pieces = (97 ∷ 98 ∷ []) ∷ (99 ∷ []) ∷ []

sent_bytes : crlf (concat pieces ++ 10 ∷ []) ≡ 97 ∷ 98 ∷ 99 ∷ 13 ∷ 10 ∷ []
unfolding crlf
sent_bytes = refl

-- The line behind the initialisation of the port.
serial_println-sent_example :
    (d' : Device) × (serial_println 1 pieces (init idle) ≡ ok d')
    × (sent d'.accesses ≡ pushed (crlf (concat pieces ++ 10 ∷ [])) (sent (init idle).accesses))
    × Paced (init idle).answer (init idle).accesses d'.accesses
unfolding init outb
serial_println-sent_example = serial_println-sent 1 1 pieces (init idle) (omega arith) idle-Drains

init-registers_example : registers cleared (init idle).accesses ≡ record {
  divisor_low = 1;
  divisor_high = 0;
  interrupts = 0;
  fifo = 0xC7;
  line = 3;
  modem = 0x0B;
}
unfolding registers
init-registers_example = init-registers cleared idle refl
