-- ===== src/Keyboard.antt =====
-- The keyboard, src/drivers/keyboard.c with include/keyboard.h. The byte that `inb` reads is an
-- argument; `shell_input` is what was handed to `shell_handle_input`, the last character first.
pub mod Buffer
pub mod Tests
use vros.Base.{
  ℕ, zero, suc, ◌+◌, ◌-◌, ◌%◌, Bool, true, false, not, ◌&&◌, ◌||◌, List, [], ◌∷◌, length, get_or,
  set, ltb, leb, ◌==◌, if◌then◌else◌,
}

abbrev pub scancode_to_ascii : List ℕ
scancode_to_ascii =
    0 ∷ 27 ∷ 49 ∷ 50 ∷ 51 ∷ 52 ∷ 53 ∷ 54 ∷ 55 ∷ 56 ∷ 57 ∷ 48 ∷ 45 ∷ 61 ∷ 8 ∷ 9 ∷ 113 ∷ 119 ∷ 101
    ∷ 114 ∷ 116 ∷ 121 ∷ 117 ∷ 105 ∷ 111 ∷ 112 ∷ 91 ∷ 93 ∷ 10 ∷ 0 ∷ 97 ∷ 115 ∷ 100 ∷ 102 ∷ 103 ∷ 104
    ∷ 106 ∷ 107 ∷ 108 ∷ 59 ∷ 39 ∷ 96 ∷ 0 ∷ 92 ∷ 122 ∷ 120 ∷ 99 ∷ 118 ∷ 98 ∷ 110 ∷ 109 ∷ 44 ∷ 46 ∷ 47
    ∷ 0 ∷ 42 ∷ 0 ∷ 32 ∷ []

abbrev pub scancode_to_ascii_shift : List ℕ
scancode_to_ascii_shift =
    0 ∷ 27 ∷ 33 ∷ 64 ∷ 35 ∷ 36 ∷ 37 ∷ 94 ∷ 38 ∷ 42 ∷ 40 ∷ 41 ∷ 95 ∷ 43 ∷ 8 ∷ 9 ∷ 81 ∷ 87 ∷ 69 ∷ 82
    ∷ 84 ∷ 89 ∷ 85 ∷ 73 ∷ 79 ∷ 80 ∷ 123 ∷ 125 ∷ 10 ∷ 0 ∷ 65 ∷ 83 ∷ 68 ∷ 70 ∷ 71 ∷ 72 ∷ 74 ∷ 75 ∷ 76
    ∷ 58 ∷ 34 ∷ 126 ∷ 0 ∷ 124 ∷ 90 ∷ 88 ∷ 67 ∷ 86 ∷ 66 ∷ 78 ∷ 77 ∷ 60 ∷ 62 ∷ 63 ∷ 0 ∷ 42 ∷ 0 ∷ 32
    ∷ []

-- The static variables of keyboard.c.
pub record Keyboard : Type 0 where
  pub shift_pressed : Bool
  pub caps_lock : Bool
  pub keyboard_buffer : List ℕ
  pub buffer_read_pos : ℕ
  pub buffer_write_pos : ℕ
  pub shell_mode : Bool
  pub shell_input : List ℕ

abbrev pub keyboard_buffer_size : ℕ
keyboard_buffer_size = 256

pub keyboard_init : Keyboard → Keyboard
keyboard_init s = record s {
  buffer_read_pos = 0;
  buffer_write_pos = 0;
  shift_pressed = false;
  caps_lock = false;
  shell_mode = false;
}

pub keyboard_enable_shell : Keyboard → Keyboard
keyboard_enable_shell s = record s { shell_mode = true }

-- KEY_LSHIFT, KEY_RSHIFT
abbrev pub is_shift : ℕ → Bool
is_shift scancode = scancode == 0x2A || scancode == 0x36

-- KEY_CAPS_LOCK
abbrev pub key_caps_lock : ℕ
key_caps_lock = 0x3A

-- The character of a key, under the shift key and caps lock.
pub key_char : ℕ → Keyboard → ℕ
key_char scancode s =
    let c = get_or scancode_to_ascii scancode 0 in
    if s.shift_pressed
    then get_or scancode_to_ascii_shift scancode 0
    else if s.caps_lock && (leb b'a' c && leb c b'z')
    then c - b'a' + b'A'
    else c

-- A character goes to the shell, if that is enabled, and into the buffer.
pub put_char : ℕ → Keyboard → Keyboard
put_char c s = record s {
  shell_input = if s.shell_mode then c ∷ s.shell_input else s.shell_input;
  keyboard_buffer = set s.keyboard_buffer s.buffer_write_pos c;
  buffer_write_pos = (s.buffer_write_pos + 1) % keyboard_buffer_size;
}

-- The scan code is a byte; bit 7 marks a release.
pub keyboard_handler : ℕ → Keyboard → Keyboard
keyboard_handler scancode s =
    if leb 0x80 scancode
    then (if is_shift (scancode - 0x80) then record s { shift_pressed = false } else s)
    else if is_shift scancode
    then record s { shift_pressed = true }
    else if scancode == key_caps_lock
    then record s { caps_lock = not s.caps_lock }
    else if ltb scancode (length scancode_to_ascii)
    then (if key_char scancode s == 0 then s else put_char (key_char scancode s) s)
    else s

pub keyboard_buffer_empty : Keyboard → Bool
keyboard_buffer_empty s = s.buffer_read_pos == s.buffer_write_pos

pub keyboard_getchar : Keyboard → ℕ × Keyboard
keyboard_getchar s = if s.buffer_read_pos == s.buffer_write_pos then (0, s) else (
  get_or s.keyboard_buffer s.buffer_read_pos 0,
  record s { buffer_read_pos = (s.buffer_read_pos + 1) % keyboard_buffer_size },
)
