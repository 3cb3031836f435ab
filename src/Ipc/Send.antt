-- ===== src/Ipc/Send.antt =====
-- `ipc_send` and `ipc_send_from_port` of ipc.c.
use mathlib.Core.Path.{ap₂}
use native.Mathlib.Decide.{dec_lt}
use vros.Base.{
  ℕ, zero, suc, ◌≤◌, ◌<◌, ◌≡◌, refl, ◌≢◌, ◌∙◌, sym, true, false, arith, List, [], ◌∷◌, ◌++◌, All,
  length, get_or, set, length-set, get_or-set_self, get_or-set_ne, All-set, if◌then◌else◌, Bool,
  Option, ltb, ◌⊎◌, inl, inr,
}
use vros.Task.{next32, TaskState}
use vros.Ipc.{
  Message, Port, Ipc, no_message, queue_size, msg_max_size, sent_message, enqueue, max_ports,
  no_port, port_at, set_port, current_pid, wake, ipc_send_from_port,
}
use vros.Ipc.Queue.{
  contents, IsMessage, IsPort, IsIpc, length-contents, contents-enqueue, enqueue-IsPort,
  slot-IsMessage, sent-IsMessage,
}

-- The specification of a queue: first in, first out, at most `cap` messages.
pub push : ℕ → Message → List Message → Bool × List Message
push cap m q = if ltb (length q) cap then (true, q ++ m ∷ []) else (false, q)

push_room :
    (m : Message) (q : List Message)
    → length q < queue_size
    → push queue_size m q ≡ (true, q ++ m ∷ [])
unfolding push
push_room m q h = ground arith

push_full :
    (m : Message) (q : List Message) → queue_size ≤ length q → push queue_size m q ≡ (false, q)
unfolding push
push_full m q h = ground arith

pub port_at-IsPort : {s : Ipc} (i : ℕ) → IsIpc s → i < max_ports → IsPort (port_at s i)
port_at-IsPort {s} i v h = port_of s.ports i v.each (omega (arith, v.table))
  where
    port_of :
        (ps : List Port) (i : ℕ) → All IsPort ps → i < length ps → IsPort (get_or ps i no_port)
    port_of [] i a h = absurd (omega arith)
    port_of (x ∷ ps) zero a h = a.0
    port_of (x ∷ ps) (suc i) a h = port_of ps i a.1 (omega arith)

module _ (src_port dest type : ℕ) (src : Option (List ℕ)) (size : ℕ) (s : Ipc) where
  -- What the call would put into the queue.
  abbrev pub message : Message
  message =
      sent_message (current_pid s) src_port type src size
        (get_or (port_at s dest).queue (port_at s dest).queue_tail no_message)

  abbrev pub sent : Bool × Ipc
  sent = ipc_send_from_port src_port dest type src size s

  -- A send to no port, to a port that is not in use, or of more than 256 bytes fails and changes
  -- nothing.
  pub send_rejected :
      (max_ports ≤ dest) ⊎ ((port_at s dest).in_use ≡ false) ⊎ (msg_max_size < size)
      → sent ≡ (false, s)
  unfolding ipc_send_from_port
  send_rejected h = ground arith

  -- The state after a send that succeeds, and after one that finds the queue full.
  abbrev pub accepted : Ipc
  accepted = record {
    sched = wake (port_at s dest).waiting_task s.sched;
    ports = set s.ports dest (enqueue message (port_at s dest));
    total_messages_sent = next32 s.total_messages_sent;
  }

  abbrev pub dropped : Ipc
  dropped = set_port s dest (record (port_at s dest) { drops = next32 (port_at s dest).drops })

  pub send_cases :
      (sent ≡ (false, s))
      ⊎ ((queue_size ≤ (port_at s dest).queue_count) × (sent ≡ (false, dropped)))
      ⊎ (((port_at s dest).in_use ≡ true)
          × (size ≤ msg_max_size)
          × ((port_at s dest).queue_count < queue_size)
          × (sent ≡ (true, accepted)))
  unfolding ipc_send_from_port
  send_cases = ground arith

  module _ (h : dest < max_ports) (used : (port_at s dest).in_use ≡ true)
      (fits : size ≤ msg_max_size) where
    pub sent_room : (port_at s dest).queue_count < queue_size → sent ≡ (true, accepted)
    unfolding ipc_send_from_port
    sent_room room = ground arith

    sent_full : queue_size ≤ (port_at s dest).queue_count → sent ≡ (false, dropped)
    unfolding ipc_send_from_port
    sent_full full = ground arith

  module _ (v : IsIpc s) (h : dest < max_ports) where
    dest-IsPort : IsPort (port_at s dest)
    dest-IsPort = port_at-IsPort dest v h

    message-IsMessage : (port_at s dest).in_use ≡ true → size ≤ msg_max_size → IsMessage message
    message-IsMessage used fits =
        sent-IsMessage (current_pid s) src_port type src size _
          (slot-IsMessage (port_at s dest) (port_at s dest).queue_tail dest-IsPort
            (omega (arith, dest-IsPort.tail_at used)))
          fits

    -- Every branch of a send to an index of the table keeps the port table well formed.
    pub send-IsIpc : IsIpc sent.1
    send-IsIpc = elim send_cases [
      | inl e ↦ rw e v
      | inr (inl (_, e)) ↦ rw e (record {
        table = length-set s.ports dest _ ∙ v.table;
        each = All-set IsPort s.ports dest _ v.each (record {
          array = dest-IsPort.array;
          head_in = dest-IsPort.head_in;
          count_in = dest-IsPort.count_in;
          tail_at = dest-IsPort.tail_at;
          slots = dest-IsPort.slots;
          name_array = dest-IsPort.name_array;
        });
      })
      | inr (inr (used, fits, room, e)) ↦ rw e (record {
        table = length-set s.ports dest _ ∙ v.table;
        each = All-set IsPort s.ports dest _ v.each (
            enqueue-IsPort message (port_at s dest) dest-IsPort (message-IsMessage used fits) room);
      })
    ]

    -- A send of at most 256 bytes to a port in use acts on the messages that wait there as a
    -- first-in first-out queue of 16 places: with room the message goes last and the call succeeds,
    -- else it is dropped and the call fails; the other ports stay as they are.
    pub send_refines :
        (port_at s dest).in_use ≡ true
        → size ≤ msg_max_size
        → ((sent.0, contents (port_at sent.1 dest))
            ≡ push queue_size message (contents (port_at s dest)))
          × ((j : ℕ) → dest ≢ j → port_at sent.1 j ≡ port_at s j)
    send_refines used fits = elim (dec_lt (port_at s dest).queue_count queue_size) [
      | yes room ↦
          rw
            (
              sent_room h used fits room,
              get_or-set_self s.ports dest _ no_port (omega (arith, v.table)),
            )
            (
              ap₂ (λ (b : Bool) (q : List Message). (b, q)) refl
                    (contents-enqueue message (port_at s dest) dest-IsPort used room)
                  ∙ sym (push_room message (contents (port_at s dest)) (rw length-contents room)),
              λ j ne. get_or-set_ne s.ports dest j _ no_port ne,
            )
      | no full ↦
          rw
            (
              sent_full h used fits (omega arith),
              get_or-set_self s.ports dest _ no_port (omega (arith, v.table)),
            )
            (
              sym (
                  push_full message (contents (port_at s dest)) (
                    rw length-contents
                      (let le : queue_size ≤ (port_at s dest).queue_count = omega arith in le))),
              λ j ne. get_or-set_ne s.ports dest j _ no_port ne,
            )
    ]

    -- A send that succeeds makes the task that waits at the port ready, and no longer waiting.
    pub send_wakes :
        sent.0 ≡ true
        → ((port_at sent.1 dest).waiting_task ≡ 0)
          × ((port_at s dest).waiting_task ≢ 0
              → (sent.1.sched.mem (port_at s dest).waiting_task).state ≡ TaskState.ready)
    unfolding enqueue
    send_wakes ok = elim send_cases [
      | inl e ↦ absurd (clash (s) e)
      | inr (inl (_, e)) ↦ absurd (clash dropped e)
      | inr (inr (_, _, _, e)) ↦
          rw (e, get_or-set_self s.ports dest _ no_port (omega (arith, v.table)))
            (cleared, λ waits. woken waits)
    ]
      where
        clash : (t : Ipc) → sent ≡ (false, t) → ⊥
        clash t e = cc

        cleared : (enqueue message (port_at s dest)).waiting_task ≡ 0
        cleared = refl

        woken :
            (port_at s dest).waiting_task ≢ 0
            → (accepted.sched.mem (port_at s dest).waiting_task).state ≡ TaskState.ready
        woken ne = ground arith
