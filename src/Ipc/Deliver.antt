-- ===== src/Ipc/Deliver.antt =====
-- What the owner of a port of ipc.c reads of a message that was sent.
use vros.Base.{
  ℕ, zero, suc, ◌≤◌, ◌<◌, ◌≡◌, refl, ap, sym, ◌≢◌, ◌∙◌, true, arith, List, [], ◌∷◌, ◌++◌, length,
  get_or, take, get_or-set_self, Bool, some,
}
use vros.Ipc.{
  Message, Ipc, Received, no_message, queue_size, msg_max_size, copy_bytes, sent_message, enqueue,
  max_ports, no_port, port_at, current_pid, ipc_send_from_port, read_message, ipc_try_recv,
}
use vros.Ipc.Queue.{
  contents, IsIpc, length-contents, contents-enqueue, slot-IsMessage, length-copy_bytes,
}
use vros.Ipc.Send.{sent_room, port_at-IsPort, message, send-IsIpc}
use vros.Ipc.Receive.{Owns, take-Takes, try_recv_some}
use vros.Ipc.Between.{Between, Waits, enqueue_keeps, port-Waits, Between-Waits}

copy-take :
    (n : ℕ) (src dst : List ℕ)
    → n ≤ length src
    → n ≤ length dst
    → take n (copy_bytes n src dst) ≡ take n src
unfolding copy_bytes
copy-take zero src dst h k = refl
copy-take (suc n) [] dst h k = absurd (omega arith)
copy-take (suc n) (b ∷ src) [] h k = absurd (omega arith)
copy-take (suc n) (b ∷ src) (d ∷ dst) h k =
    ap (◌∷◌ b) (copy-take n src dst (omega arith) (omega arith))

-- The fields of a message that was written by a send and read back.
read-sent :
    (pid src_port type : ℕ) (src : List ℕ) (size : ℕ) (slot msg : Message)
    → size ≤ length src
    → size ≤ length slot.bytes
    → size ≤ length msg.bytes
    → let m = read_message (sent_message pid src_port type (some src) size slot) msg in
      (m.sender_pid ≡ pid)
      × (m.sender_port ≡ src_port)
      × (m.type ≡ type)
      × (m.size ≡ size)
      × (take size m.bytes ≡ take size src)
unfolding read_message sent_message
read-sent pid src_port type src size slot msg h k l = (
  refl,
  refl,
  refl,
  refl,
  copy-take size (copy_bytes size src slot.bytes) msg.bytes
        (omega (arith, length-copy_bytes size src slot.bytes)) l
      ∙ copy-take size src slot.bytes h k,
)

module _ (src_port i type : ℕ) (src : List ℕ) (size : ℕ) (msg : Message) (s t : Ipc) where
  abbrev pub sent_there : Message
  sent_there = message src_port i type (some src) size s

  -- The message waits alone at a port that was empty.
  sent-Waits :
      IsIpc s
      → i < max_ports
      → (port_at s i).in_use ≡ true
      → contents (port_at s i) ≡ []
      → size ≤ msg_max_size
      → Waits i
          (port_at s i).owner_pid
          sent_there
          (ipc_send_from_port src_port i type (some src) size s).1
  sent-Waits v index used nil fits =
      let p = port_at s i in
      let room : p.queue_count < queue_size = omega (arith, ap length nil, length-contents p) in
      let (u, o) = enqueue_keeps sent_there p in
      port-Waits i p.owner_pid sent_there (ipc_send_from_port src_port i type (some src) size s).1
        (enqueue sent_there p) [] (send-IsIpc src_port i type (some src) size s v index)
        (ap (λ (r : Bool × Ipc). port_at r.1 i)
            (sent_room src_port i type (some src) size s index used fits room)
          ∙ get_or-set_self s.ports i (enqueue sent_there p) no_port
              (omega (arith, index, v.table)))
        (u ∙ used) o
        (contents-enqueue sent_there p (port_at-IsPort i v index) used room
          ∙ ap (λ q. q ++ (sent_there ∷ [])) nil)

  -- After a send of at most 256 bytes to an empty port in use, however the scheduler acts, whatever
  -- messages are sent to any ports and whatever other tasks receive meanwhile, as long as the owner
  -- receives nothing from the port: what the owner then reads has the sender's pid, the reply port,
  -- the type, the size and the bytes sent, and that message alone is taken from the front of the
  -- queue.
  pub recv-send :
      IsIpc s
      → i < max_ports
      → (port_at s i).in_use ≡ true
      → contents (port_at s i) ≡ []
      → size ≤ msg_max_size
      → size ≤ length src
      → length msg.bytes ≡ msg_max_size
      → Between i (ipc_send_from_port src_port i type (some src) size s).1 t
      → (port_at s i).owner_pid ≡ current_pid t
      → let out = ipc_try_recv i msg t in
        (out.0 ≡ Received.received)
        × (out.1.sender_pid ≡ current_pid s)
        × (out.1.sender_port ≡ src_port)
        × (out.1.type ≡ type)
        × (out.1.size ≡ size)
        × (take size out.1.bytes ≡ take size src)
        × (contents (port_at t i) ≡ sent_there ∷ contents (port_at out.2 i))
  recv-send v index used nil fits enough room later mine =
      let k = Between-Waits index (sent-Waits v index used nil fits) later in
      let owns : Owns t i = record { index = index; used = k.used; owner = k.mine ∙ mine } in
      let nonzero : (port_at t i).queue_count ≢ 0 =
        omega (arith, ap length k.first, length-contents (port_at t i)) in
      let taken = take-Takes i msg t k.valid index sent_there k.rest k.first in
      let slot = port_at-IsPort i v index in
      let slot_size =
        (slot-IsMessage (port_at s i) (port_at s i).queue_tail slot
          (omega (arith, slot.tail_at used))).array in
      let (pid, reply, kind, count, bytes) =
        read-sent (current_pid s) src_port type src size
          (get_or (port_at s i).queue (port_at s i).queue_tail no_message) msg enough
          (omega (arith, slot_size, fits)) (omega (arith, room, fits)) in
      rw (try_recv_some i msg t k.valid owns nonzero, taken.read)
        (
          taken.result,
          pid,
          reply,
          kind,
          count,
          bytes,
          k.first ∙ ap (λ q. sent_there ∷ q) (sym taken.left),
        )
