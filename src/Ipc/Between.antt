-- ===== src/Ipc/Between.antt =====
-- What may happen to the ports of ipc.c between a send and the receive of the message.
use vros.Base.{
  subst, ℕ, ◌<◌, ◌≡◌, refl, ap, sym, ◌≢◌, ◌∙◌, true, arith, List, [], ◌∷◌, ◌++◌, length, ltb, ◌==◌,
  get_or-set_self, get_or-set_ne, Bool, Option, ◌⊎◌, inl, inr, Bool-cases, ==→ne,
}
use vros.Task.{Sched, next32}
use vros.Ipc.{
  Message, Port, Ipc, Received, queue_size, enqueue, max_ports, no_port, port_at, current_pid,
  ipc_send_from_port, take_message, ipc_try_recv,
}
use vros.Ipc.Queue.{contents, IsPort, IsIpc, contents-enqueue}
use vros.Ipc.Send.{port_at-IsPort, message, send-IsIpc, send_cases, send_rejected}
use vros.Ipc.Receive.{try_recv_cases, try_recv-IsIpc}

pub enqueue_keeps :
    (m : Message) (p : Port)
    → ((enqueue m p).in_use ≡ p.in_use) × ((enqueue m p).owner_pid ≡ p.owner_pid)
unfolding enqueue
enqueue_keeps m p = (refl, refl)

-- What happens between two states while the owner of the port `i` does not receive from it: the
-- scheduler does anything, messages are sent to any ports, and received from other ports or by
-- tasks that do not own the port.
pub data Between (i : ℕ) (s : Ipc) : Ipc → Type 0 where
  stay : Between i s s
  schedule : {t : Ipc} (sched : Sched) → Between i s t → Between i s (record t { sched = sched })
  send :
      {t : Ipc} (src_port dest type : ℕ) (src : Option (List ℕ)) (size : ℕ)
      → Between i s t
      → Between i s (ipc_send_from_port src_port dest type src size t).1
  receive :
      {t : Ipc} (j : ℕ) (msg : Message)
      → (j ≢ i) ⊎ ((port_at t i).owner_pid ≢ current_pid t)
      → Between i s t
      → Between i s (ipc_try_recv j msg t).2

-- The port has the owner, and `m` is the oldest message that waits there.
pub record Waits (i owner : ℕ) (m : Message) (t : Ipc) : Type 0 where
  pub valid : IsIpc t
  pub used : (port_at t i).in_use ≡ true
  pub mine : (port_at t i).owner_pid ≡ owner
  pub rest : List Message
  pub first : contents (port_at t i) ≡ m ∷ rest

enqueue-Waits :
    (i owner : ℕ) (m n : Message) (p : Port) (rest : List Message)
    → IsPort p
    → p.in_use ≡ true
    → p.owner_pid ≡ owner
    → contents p ≡ m ∷ rest
    → p.queue_count < queue_size
    → ((enqueue n p).in_use ≡ true)
      × ((enqueue n p).owner_pid ≡ owner)
      × (contents (enqueue n p) ≡ m ∷ (rest ++ (n ∷ [])))
enqueue-Waits i owner m n p rest k used mine first room =
    let (u, o) = enqueue_keeps n p in
    (u ∙ used, o ∙ mine, contents-enqueue n p k used room ∙ ap (λ q. q ++ (n ∷ [])) first)

-- A state whose port `i` is as wanted.
pub port-Waits :
    (i owner : ℕ) (m : Message) (t : Ipc) (p : Port) (rest : List Message)
    → IsIpc t
    → port_at t i ≡ p
    → p.in_use ≡ true
    → p.owner_pid ≡ owner
    → contents p ≡ m ∷ rest
    → Waits i owner m t
port-Waits i owner m t p rest v e used mine first = record {
  valid = v;
  used = ap (λ (p : Port). p.in_use) e ∙ used;
  mine = ap (λ (p : Port). p.owner_pid) e ∙ mine;
  rest = rest;
  first = ap contents e ∙ first;
}

module _ (i owner : ℕ) (m : Message) (t : Ipc) (src_port type : ℕ) (src : Option (List ℕ))
    (size : ℕ) (index : i < max_ports) (k : Waits i owner m t) where
  send_here : Waits i owner m (ipc_send_from_port src_port i type src size t).1
  send_here =
      let v = send-IsIpc src_port i type src size t k.valid index in
      let p = port_at t i in
      let bound : i < length t.ports = omega (arith, index, k.valid.table) in
      elim (send_cases src_port i type src size t) [
        | inl e ↦ rw e k
        | inr (inl (_, e)) ↦
            port-Waits i owner m (ipc_send_from_port src_port i type src size t).1
              (record p { drops = next32 p.drops }) k.rest v
              (ap (λ (r : Bool × Ipc). port_at r.1 i) e ∙ get_or-set_self t.ports i _ no_port bound)
              k.used k.mine k.first
        | inr (inr (used, fits, room, e)) ↦
            let n = message src_port i type src size t in
            let (u, o, first) =
              enqueue-Waits i owner m n p k.rest (port_at-IsPort i k.valid index) k.used k.mine
                k.first room in
            port-Waits i owner m (ipc_send_from_port src_port i type src size t).1 (enqueue n p)
              (k.rest ++ (n ∷ [])) v
              (ap (λ (r : Bool × Ipc). port_at r.1 i) e ∙ get_or-set_self t.ports i _ no_port bound)
              u o first
      ]

  send_apart :
      (dest : ℕ)
      → dest < max_ports
      → dest ≢ i
      → Waits i owner m (ipc_send_from_port src_port dest type src size t).1
  send_apart dest h ne =
      let v = send-IsIpc src_port dest type src size t k.valid h in
      let same : port_at (ipc_send_from_port src_port dest type src size t).1 i ≡ port_at t i =
        elim (send_cases src_port dest type src size t) [
          | inl e ↦ ap (λ (r : Bool × Ipc). port_at r.1 i) e
          | inr (inl (_, e)) ↦
              ap (λ (r : Bool × Ipc). port_at r.1 i) e ∙ get_or-set_ne t.ports dest i _ no_port ne
          | inr (inr (_, _, _, e)) ↦
              ap (λ (r : Bool × Ipc). port_at r.1 i) e ∙ get_or-set_ne t.ports dest i _ no_port ne
        ] in
      port-Waits i owner m (ipc_send_from_port src_port dest type src size t).1 (port_at t i) k.rest
        v same k.used k.mine k.first

  send-Waits : (dest : ℕ) → Waits i owner m (ipc_send_from_port src_port dest type src size t).1
  send-Waits dest = elim (Bool-cases (ltb dest max_ports)) [
    | inr outside ↦
        rw (send_rejected src_port dest type src size t (inl (ground (arith, outside)))) k
    | inl inside ↦ elim (Bool-cases (dest == i)) [
      | inl here ↦
          let same : i ≡ dest = ground (arith, here) in
          subst (λ d. Waits i owner m (ipc_send_from_port src_port d type src size t).1) same
            send_here
      | inr other ↦ send_apart dest (ground (arith, inside)) (==→ne dest i other)
    ]
  ]

receive-Waits :
    (i owner : ℕ) (m : Message) (t : Ipc) (j : ℕ) (msg : Message)
    → i < max_ports
    → (j ≢ i) ⊎ ((port_at t i).owner_pid ≢ current_pid t)
    → Waits i owner m t
    → Waits i owner m (ipc_try_recv j msg t).2
unfolding take_message
receive-Waits i owner m t j msg index other k =
    let v = try_recv-IsIpc j msg t k.valid in
    elim (try_recv_cases j msg t) [
      | inl e ↦ rw e k
      | inr (inl e) ↦ rw e k
      | inr (inr (o, ne, e)) ↦
          let apart : j ≢ i = λ same. elim other [
            | inl ne' ↦ ne' same
            | inr foreign ↦ foreign (ap (λ x. (port_at t x).owner_pid) (sym same) ∙ o.owner)
          ] in
          port-Waits i owner m (ipc_try_recv j msg t).2 (port_at t i) k.rest v
            (ap (λ (r : Received × Message × Ipc). port_at r.2 i) e
              ∙ get_or-set_ne t.ports j i _ no_port apart)
            k.used k.mine k.first
    ]

pub Between-Waits :
    {i owner : ℕ} {m : Message} {s t : Ipc}
    → i < max_ports
    → Waits i owner m s
    → Between i s t
    → Waits i owner m t
Between-Waits index k stay = k
Between-Waits index k (schedule sched b) =
    let w = Between-Waits index k b in
    record {
      valid = record { table = w.valid.table; each = w.valid.each };
      used = w.used;
      mine = w.mine;
      rest = w.rest;
      first = w.first;
    }
Between-Waits {i} {owner} {m} index k (send {t} src_port dest type src size b) =
    send-Waits i owner m t src_port type src size index (Between-Waits index k b) dest
Between-Waits {i} {owner} {m} index k (receive {t} j msg other b) =
    receive-Waits i owner m t j msg index other (Between-Waits index k b)
