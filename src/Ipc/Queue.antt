-- ===== src/Ipc/Queue.antt =====
-- The message queue of a port of ipc.c as a first-in first-out list of at most 16 messages.
use vros.Base.{
  Option, none, some, some, Option, ℕ, zero, suc, ◌+◌, ◌-◌, ◌%◌, ◌≤◌, ◌<◌, ◌≡◌, refl, ap, ◌≢◌, ◌∙◌,
  true, arith, List, [], ◌∷◌, ◌++◌, All, length, get_or, set, length-set, get_or-set_self,
  get_or-set_ne, All-set,
}
use vros.Task.{next32}
use vros.Ipc.{
  Message, Port, Ipc, no_message, queue_size, msg_max_size, copy_bytes, sent_message, enqueue,
  dequeue, max_ports,
}

-- The `n` messages from slot `h` on, round the end of the array.
abbrev pub window : List Message → ℕ → ℕ → List Message
window q h zero = []
window q h (suc n) = get_or q h no_message ∷ window q ((h + 1) % queue_size) n

-- The messages that wait at a port, oldest first.
abbrev pub contents : Port → List Message
contents p = window p.queue p.queue_head p.queue_count

-- A message that a send may have written.
pub record IsMessage (m : Message) : Type 0 where
  pub size_fits : m.size ≤ msg_max_size
  pub array : length m.bytes ≡ msg_max_size

-- The indices of a port lie in its array, and count its messages while the port is in use: its
-- destruction leaves `queue_tail`. `slots` says that each slot has
-- its 256 bytes and a size within them.
pub record IsPort (p : Port) : Type 0 where
  pub array : length p.queue ≡ queue_size
  pub head_in : p.queue_head < queue_size
  pub count_in : p.queue_count ≤ queue_size
  pub tail_at : p.in_use ≡ true → p.queue_tail ≡ (p.queue_head + p.queue_count) % queue_size
  pub slots : All IsMessage p.queue
  pub name_array : length p.name ≡ 32

-- The table has 32 ports, each well formed.
pub record IsIpc (s : Ipc) : Type 0 where
  pub table : length s.ports ≡ max_ports
  pub each : All IsPort s.ports

window-length : (q : List Message) (h n : ℕ) → length (window q h n) ≡ n
window-length q h zero = refl
window-length q h (suc n) = ap suc (window-length q ((h + 1) % queue_size) n)

pub length-contents : (p : Port) → length (contents p) ≡ p.queue_count
length-contents p = window-length p.queue p.queue_head p.queue_count

-- A write just behind a window extends it by the message written.
window-set :
    (q : List Message) (m : Message) (n h i : ℕ)
    → length q ≡ queue_size
    → h < queue_size
    → n < queue_size
    → i ≡ (h + n) % queue_size
    → window (set q i m) h (suc n) ≡ window q h n ++ m ∷ []
window-set q m zero h i l hh hn e =
    let at : i ≡ h = omega arith in
    rw at (ap (λ (x : Message). x ∷ []) (get_or-set_self q h m no_message (omega arith)))
window-set q m (suc n) h i l hh hn e =
    let apart : i ≢ h = omega arith in
    rw (get_or-set_ne q i h m no_message apart) (
      ap (◌∷◌ (get_or q h no_message))
        (window-set q m n ((h + 1) % queue_size) i l (omega arith) (omega arith) (omega arith)))

-- A port with room takes a message at the end of its queue.
pub contents-enqueue :
    (m : Message) (p : Port)
    → IsPort p
    → p.in_use ≡ true
    → p.queue_count < queue_size
    → contents (enqueue m p) ≡ contents p ++ m ∷ []
unfolding enqueue
contents-enqueue m p v used h =
    let count : next32 p.queue_count ≡ suc p.queue_count = omega arith in
    rw count (
      window-set p.queue m p.queue_count p.queue_head p.queue_tail v.array v.head_in h
        (v.tail_at used))

pub enqueue-IsPort :
    (m : Message) (p : Port)
    → IsPort p
    → IsMessage m
    → p.queue_count < queue_size
    → IsPort (enqueue m p)
unfolding enqueue
enqueue-IsPort m p v w h = record {
  array = length-set p.queue p.queue_tail m ∙ v.array;
  head_in = v.head_in;
  count_in = omega arith;
  tail_at = λ used. omega (arith, v.tail_at used);
  slots = All-set IsMessage p.queue p.queue_tail m v.slots w;
  name_array = v.name_array;
}

window-suc :
    (q : List Message) (h n : ℕ)
    → n ≢ 0
    → window q h n ≡ get_or q h no_message ∷ window q ((h + 1) % queue_size) (n - 1)
window-suc q h zero ne = absurd (ne refl)
window-suc q h (suc n) ne = let e : suc n - 1 ≡ n = omega arith in rw e

-- A port that holds a message gives up the oldest one.
pub contents-dequeue :
    (p : Port)
    → p.queue_count ≢ 0
    → contents p ≡ get_or p.queue p.queue_head no_message ∷ contents (dequeue p)
unfolding dequeue
contents-dequeue p ne = window-suc p.queue p.queue_head p.queue_count ne

pub dequeue-IsPort : (p : Port) → IsPort p → p.queue_count ≢ 0 → IsPort (dequeue p)
unfolding dequeue
dequeue-IsPort p v ne = record {
  array = v.array;
  head_in = omega arith;
  count_in = omega arith;
  tail_at = λ used. omega (arith, v.tail_at used);
  slots = v.slots;
  name_array = v.name_array;
}

-- A slot of a valid port.
pub slot-IsMessage :
    (p : Port) (i : ℕ) → IsPort p → i < queue_size → IsMessage (get_or p.queue i no_message)
slot-IsMessage p i v h = slot_of p.queue i v.slots (omega (arith, v.array))
  where
    slot_of :
        (q : List Message) (i : ℕ)
        → All IsMessage q
        → i < length q
        → IsMessage (get_or q i no_message)
    slot_of [] i a h = absurd (omega arith)
    slot_of (x ∷ q) zero a h = a.0
    slot_of (x ∷ q) (suc i) a h = slot_of q i a.1 (omega arith)

pub length-copy_bytes : (n : ℕ) (src dst : List ℕ) → length (copy_bytes n src dst) ≡ length dst
unfolding copy_bytes
length-copy_bytes zero src dst = refl
length-copy_bytes (suc n) [] dst = refl
length-copy_bytes (suc n) (b ∷ src) [] = refl
length-copy_bytes (suc n) (b ∷ src) (d ∷ dst) = ap suc (length-copy_bytes n src dst)

pub sent-IsMessage :
    (pid port type : ℕ) (src : Option (List ℕ)) (size : ℕ) (slot : Message)
    → IsMessage slot
    → size ≤ msg_max_size
    → IsMessage (sent_message pid port type src size slot)
unfolding sent_message
sent-IsMessage pid port type none size slot w h = record { size_fits = h; array = w.array }
sent-IsMessage pid port type (some src) size slot w h = record {
  size_fits = h;
  array = length-copy_bytes size src slot.bytes ∙ w.array;
}
