-- ===== src/Keyboard/Buffer.antt =====
-- The input buffer of keyboard.c as a queue of the characters that are not read yet.
use vros.Base.{
  ltb→le, ltb→lt, Bool-cases, drop, ne→==, ℕ, zero, suc, ◌+◌, ◌-◌, ◌%◌, ◌≤◌, ◌<◌, ◌≡◌, refl, sym,
  ap, subst, ◌∙◌, ◌≢◌, ◌⊎◌, inl, inr, List, [], ◌∷◌, ◌++◌, arith, length, get_or, set, ltb,
}
use vros.Base.{get_or-set_self, get_or-set_ne, length-set}
use vros.Keyboard.{Keyboard, keyboard_buffer_size, put_char, keyboard_getchar}

pub record IsKeyboard (s : Keyboard) : Type 0 where
  pub array : length s.keyboard_buffer ≡ keyboard_buffer_size
  pub read_in : s.buffer_read_pos < keyboard_buffer_size
  pub write_in : s.buffer_write_pos < keyboard_buffer_size

-- `n` characters from `pos` on, round the ring.
abbrev pub pending_from : ℕ → ℕ → List ℕ → List ℕ
pending_from zero pos buf = []
pending_from (suc n) pos buf =
    get_or buf pos 0 ∷ pending_from n ((pos + 1) % keyboard_buffer_size) buf

abbrev pub unread : Keyboard → ℕ
unread s = (s.buffer_write_pos + keyboard_buffer_size - s.buffer_read_pos) % keyboard_buffer_size

-- The characters that are not read yet, the oldest first.
abbrev pub pending : Keyboard → List ℕ
pending s = pending_from (unread s) s.buffer_read_pos s.keyboard_buffer

-- The `n`th place behind `pos`.
pending_from-snoc :
    (n pos c : ℕ) (buf : List ℕ)
    → length buf ≡ keyboard_buffer_size
    → pos < keyboard_buffer_size
    → n < keyboard_buffer_size
    → pending_from (suc n) pos (set buf ((pos + n) % keyboard_buffer_size) c)
      ≡ pending_from n pos buf ++ c ∷ []
pending_from-snoc zero pos c buf sized within lt =
    let here : (pos + 0) % keyboard_buffer_size ≡ pos = omega arith in
    rw here (ap (λ x. x ∷ []) (get_or-set_self buf pos c 0 (omega arith)))
pending_from-snoc (suc n) pos c buf sized within lt =
    let next = (pos + 1) % keyboard_buffer_size in
    let same : (next + n) % keyboard_buffer_size ≡ (pos + suc n) % keyboard_buffer_size =
      omega arith in
    let other : (pos + suc n) % keyboard_buffer_size ≢ pos = omega arith in
    let ih = pending_from-snoc n next c buf sized (omega arith) (omega arith) in
    let head = get_or-set_ne buf ((pos + suc n) % keyboard_buffer_size) pos c 0 other in
    let ih' =
      subst (λ i. pending_from (suc n) next (set buf i c) ≡ pending_from n next buf ++ c ∷ []) same
        ih in
    rw head (ap (◌∷◌ (get_or buf pos 0)) ih')

length-pending_from : (n pos : ℕ) (buf : List ℕ) → length (pending_from n pos buf) ≡ n
length-pending_from zero pos buf = refl
length-pending_from (suc n) pos buf =
    ap suc (length-pending_from n ((pos + 1) % keyboard_buffer_size) buf)

pub put_char-IsKeyboard : (c : ℕ) (s : Keyboard) → IsKeyboard s → IsKeyboard (put_char c s)
unfolding put_char
put_char-IsKeyboard c s v = record {
  array = length-set s.keyboard_buffer s.buffer_write_pos c ∙ v.array;
  read_in = v.read_in;
  write_in = omega arith;
}

module _ (c : ℕ) (s : Keyboard) (v : IsKeyboard s) where
  put_room : length (pending s) < 255 → pending (put_char c s) ≡ pending s ++ c ∷ []
  unfolding put_char
  put_room room =
      let few : unread s < 255 =
        omega (arith, room, length-pending_from (unread s) s.buffer_read_pos s.keyboard_buffer) in
      let more : unread (put_char c s) ≡ suc (unread s) =
        omega (arith, few, v.read_in, v.write_in) in
      let place : (s.buffer_read_pos + unread s) % keyboard_buffer_size ≡ s.buffer_write_pos =
        omega (arith, v.read_in, v.write_in) in
      let last =
        pending_from-snoc (unread s) s.buffer_read_pos c s.keyboard_buffer v.array v.read_in
          (omega (arith, few)) in
      ap (λ n. pending_from n s.buffer_read_pos (set s.keyboard_buffer s.buffer_write_pos c)) more
      ∙ subst
          (λ i.
            pending_from (suc (unread s)) s.buffer_read_pos (set s.keyboard_buffer i c)
            ≡ pending s ++ c ∷ [])
          place last

  put_full : 255 ≤ length (pending s) → pending (put_char c s) ≡ []
  unfolding put_char
  put_full full =
      let many : unread s ≡ 255 =
        omega (arith, full, length-pending_from (unread s) s.buffer_read_pos s.keyboard_buffer) in
      let none : unread (put_char c s) ≡ 0 = omega (arith, many, v.read_in, v.write_in) in
      ap (λ n. pending_from n s.buffer_read_pos (set s.keyboard_buffer s.buffer_write_pos c)) none

  get_none : pending s ≡ [] → keyboard_getchar s ≡ (0, s)
  unfolding keyboard_getchar
  get_none nil =
      let none : unread s ≡ 0 =
        sym (length-pending_from (unread s) s.buffer_read_pos s.keyboard_buffer) ∙ ap length nil in
      let same : s.buffer_read_pos ≡ s.buffer_write_pos =
        omega (arith, none, v.read_in, v.write_in) in
      ground (arith, same)

  get_some :
      (d : ℕ) (ds : List ℕ)
      → pending s ≡ d ∷ ds
      → ((keyboard_getchar s).0 ≡ d) × (pending (keyboard_getchar s).1 ≡ ds)
  unfolding keyboard_getchar
  get_some d ds e =
      let some : unread s ≡ suc (length ds) =
        sym (length-pending_from (unread s) s.buffer_read_pos s.keyboard_buffer) ∙ ap length e in
      let other : s.buffer_read_pos ≢ s.buffer_write_pos =
        omega (arith, some, v.read_in, v.write_in) in
      let next = (s.buffer_read_pos + 1) % keyboard_buffer_size in
      let fewer : (s.buffer_write_pos + keyboard_buffer_size - next) % keyboard_buffer_size
          ≡ length ds =
        omega (arith, some, v.read_in, v.write_in) in
      let split : get_or s.keyboard_buffer s.buffer_read_pos 0
            ∷ pending_from (length ds) next s.keyboard_buffer
          ≡ d ∷ ds =
        sym (ap (λ n. pending_from n s.buffer_read_pos s.keyboard_buffer) some) ∙ e in
      rw (ne→== s.buffer_read_pos s.buffer_write_pos other) (
        ap (λ l. get_or l 0 0) split,
        ap (λ n. pending_from n next s.keyboard_buffer) fewer ∙ ap (drop 1) split,
      )

length-pending : (s : Keyboard) → length (pending s) ≡ unread s
length-pending s = length-pending_from (unread s) s.buffer_read_pos s.keyboard_buffer

-- On a well-formed buffer the characters that wait are a queue of 255: a character typed goes last
-- if fewer wait, and if 255 wait then all of them and the new one are lost; keyboard_getchar takes
-- the oldest, or answers 0 and changes nothing if none waits.
pub buffer_cases :
    (c : ℕ) (s : Keyboard)
    → IsKeyboard s
    → (((length (pending s) < 255) × (pending (put_char c s) ≡ pending s ++ c ∷ []))
        ⊎ ((length (pending s) ≡ 255) × (pending (put_char c s) ≡ [])))
      × (((pending s ≡ []) × (keyboard_getchar s ≡ (0, s)))
          ⊎ ((d : ℕ) × (ds : List ℕ) × (pending s ≡ d ∷ ds)
              × ((keyboard_getchar s).0 ≡ d)
              × (pending (keyboard_getchar s).1 ≡ ds)))
buffer_cases c s v = (written, read (pending s) refl)
  where
    written :
        ((length (pending s) < 255) × (pending (put_char c s) ≡ pending s ++ c ∷ []))
        ⊎ ((length (pending s) ≡ 255) × (pending (put_char c s) ≡ []))
    written = elim (Bool-cases (ltb (length (pending s)) 255)) [
      | inl room ↦ let lt = ltb→lt (length (pending s)) 255 room in inl (lt, put_room c s v lt)
      | inr full ↦
          let le = ltb→le (length (pending s)) 255 full in
          inr (omega (arith, le, length-pending s), put_full c s v le)
    ]

    read :
        (l : List ℕ)
        → pending s ≡ l
        → ((pending s ≡ []) × (keyboard_getchar s ≡ (0, s)))
          ⊎ ((d : ℕ) × (ds : List ℕ) × (pending s ≡ d ∷ ds)
              × ((keyboard_getchar s).0 ≡ d)
              × (pending (keyboard_getchar s).1 ≡ ds))
    read [] e = inl (e, get_none c s v e)
    read (d ∷ ds) e = let r = get_some c s v d ds e in inr (d, ds, e, r.0, r.1)
