-- ===== src/Tests/Keyboard.antt =====
-- drivers/keyboard.c at fixed inputs.
use dionnex.Base.{◌≡◌, refl, true, false, List, [], ◌∷◌, arith, replicate}
use dionnex.Keyboard.{Keyboard, key_char}
use dionnex.Keyboard.Fifo.{IsValid, Event, interrupt, read, run, run_typed, view, run-run_typed}

-- The state at boot.
abbrev idle : Keyboard
idle = record {
  buffer = replicate 256 0;
  head = 0;
  tail = 0;
  shift_pressed = false;
  caps_lock = false;
}

-- Shift down, 'q', shift up, 'w', and three reads.
abbrev typing : List Event
typing = interrupt 0x2A ∷ interrupt 0x10 ∷ interrupt 0xAA ∷ interrupt 0x11 ∷ read ∷ read ∷ read ∷ []

idle-IsValid : IsValid idle
idle-IsValid = record { storage = refl; head_in = omega arith; tail_in = omega arith }

run-run_typed_example : run idle typing ≡ run_typed (view idle) typing
run-run_typed_example = run-run_typed typing idle-IsValid (omega arith)

-- The key `q` by itself, with shift, with caps lock and with both; the keys `1` and `/` with shift,
-- and `1` with caps lock.
keys :
    (key_char false false 0x10 ≡ b'q')
    × (key_char true false 0x10 ≡ b'Q')
    × (key_char false true 0x10 ≡ b'Q')
    × (key_char true true 0x10 ≡ b'q')
    × (key_char true false 0x02 ≡ b'!')
    × (key_char true false 0x35 ≡ b'?')
    × (key_char false true 0x02 ≡ b'1')
unfolding key_char
keys = (refl, refl, refl, refl, refl, refl, refl)
