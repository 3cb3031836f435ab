-- ===== src/Keyboard/Tests.antt =====
-- A keyboard on which the shell is not enabled.
use vros.Base.{ℕ, ◌<◌, ◌≡◌, refl, ◌⊎◌, false, List, [], ◌∷◌, arith, length, replicate}
use vros.Keyboard.{Keyboard, key_char, put_char, keyboard_handler, keyboard_getchar}
use vros.Keyboard.Buffer.{IsKeyboard, pending, buffer_cases}

abbrev idle : Keyboard
idle = record {
  shift_pressed = false;
  caps_lock = false;
  keyboard_buffer = replicate 256 0;
  buffer_read_pos = 3;
  buffer_write_pos = 3;
  shell_mode = false;
  shell_input = [];
}

idle-IsKeyboard : IsKeyboard idle
idle-IsKeyboard = record { array = refl; read_in = omega arith; write_in = omega arith }

-- Shift and the key "a", then the key alone.
typed :
    pending
      (keyboard_handler 30 (keyboard_handler 0xAA (keyboard_handler 30 (keyboard_handler 42 idle))))
    ≡ b'A' ∷ b'a' ∷ []
unfolding keyboard_handler key_char put_char
typed = refl

buffer_cases_example :
    (((length (pending idle) < 255) × (pending (put_char b'x' idle) ≡ b'x' ∷ []))
      ⊎ ((length (pending idle) ≡ 255) × (pending (put_char b'x' idle) ≡ [])))
    × (((pending idle ≡ []) × (keyboard_getchar idle ≡ (0, idle)))
        ⊎ ((d : ℕ) × (ds : List ℕ) × (pending idle ≡ d ∷ ds)
            × ((keyboard_getchar idle).0 ≡ d)
            × (pending (keyboard_getchar idle).1 ≡ ds)))
buffer_cases_example = buffer_cases b'x' idle idle-IsKeyboard
