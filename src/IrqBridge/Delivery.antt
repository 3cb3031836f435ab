-- ===== src/IrqBridge/Delivery.antt =====
-- What a process reads after an interrupt that irq_bridge.c reports to its port.
use vros.Base.{
  subst, ℕ, zero, suc, ◌+◌, ◌*◌, ◌^◌, ◌<◌, ◌≡◌, refl, sym, ap, ◌∙◌, true, some, List, [], ◌∷◌,
  arith, length, get_or, take,
}
use vros.Task.{next32}
use vros.Ipc.{
  current_pid, Ipc, Message, Received, max_ports, msg_max_size, port_at, ipc_try_recv, ipc_send,
  ipc_send_from_port,
}
use vros.Ipc.Queue.{IsIpc, contents}
use vros.Ipc.Between.{Between}
use vros.Ipc.Deliver.{recv-send}
use vros.IrqBridge.{
  IrqBridge, irq_lines, ipc_msg_irq, irq_message_size, handler_at, irq_message, irq_bridge_notify,
}

get_or-take {ℓ} :
    {A : Type ℓ} (n i : ℕ) (xs : List A) (d : A) → i < n → get_or (take n xs) i d ≡ get_or xs i d
get_or-take zero i xs d lt = absurd (omega arith)
get_or-take (suc n) i [] d lt = refl
get_or-take (suc n) zero (x ∷ xs) d lt = refl
get_or-take (suc n) (suc i) (x ∷ xs) d lt = get_or-take n i xs d (omega arith)

-- The `uint32_t` at `i`.
abbrev pub read_le32 : List ℕ → ℕ → ℕ
read_le32 bytes i =
    get_or bytes i 0
    + 256 * get_or bytes (i + 1) 0
    + 65536 * get_or bytes (i + 2) 0
    + 16777216 * get_or bytes (i + 3) 0

-- An interrupt on a registered line, whose port is in use and empty, reaches the owner of the port,
-- however the scheduler acts, whatever messages are sent to any ports and whatever other tasks
-- receive meanwhile, as long as the owner receives nothing from the port: it then reads a message
-- of the type and size of an interrupt message with the line and the count of interrupts, and the
-- count is one higher afterwards.
pub notify_delivers :
    (irq : ℕ) (s : IrqBridge) (t : Ipc) (msg : Message)
    → irq < irq_lines
    → (handler_at s irq).registered ≡ true
    → s.irq_counter < 2 ^ 32
    → IsIpc s.ipc
    → (handler_at s irq).ipc_port < max_ports
    → (port_at s.ipc (handler_at s irq).ipc_port).in_use ≡ true
    → contents (port_at s.ipc (handler_at s irq).ipc_port) ≡ []
    → length msg.bytes ≡ msg_max_size
    → Between (handler_at s irq).ipc_port (irq_bridge_notify irq s).ipc t
    → (port_at s.ipc (handler_at s irq).ipc_port).owner_pid ≡ current_pid t
    → let s' = irq_bridge_notify irq s in
      let out = ipc_try_recv (handler_at s irq).ipc_port msg t in
      (out.0 ≡ Received.received)
      × (out.1.type ≡ ipc_msg_irq)
      × (out.1.size ≡ irq_message_size)
      × (read_le32 out.1.bytes 0 ≡ ipc_msg_irq)
      × (get_or out.1.bytes 4 0 ≡ irq)
      × (read_le32 out.1.bytes 8 ≡ s.irq_counter)
      × (s'.irq_counter ≡ next32 s.irq_counter)
unfolding irq_bridge_notify irq_message ipc_send
notify_delivers irq s t msg line reg small v index used nil room later mine =
    let p = (handler_at s irq).ipc_port in
    let src = irq_message irq s.irq_counter in
    let call : irq_bridge_notify irq s ≡ record s {
      ipc = (ipc_send_from_port 0 p ipc_msg_irq (some src) irq_message_size s.ipc).1;
      irq_counter = next32 s.irq_counter;
    } =
      ground (arith, reg) in
    let sent_state = (ipc_send_from_port 0 p ipc_msg_irq (some src) irq_message_size s.ipc).1 in
    let between : Between p sent_state t =
      subst (λ (x : IrqBridge). Between p x.ipc t) call later in
    let r =
      recv-send 0 p ipc_msg_irq src irq_message_size msg s.ipc t v index used nil (omega arith)
        (omega arith) room between mine in
    let bytes = (ipc_try_recv p msg t).1.bytes in
    let byte : (i : ℕ) → i < irq_message_size → get_or bytes i 0 ≡ get_or src i 0 = λ i lt.
      sym (get_or-take irq_message_size i bytes 0 lt)
      ∙ ap (λ b. get_or b i 0) r.5
      ∙ get_or-take irq_message_size i src 0 lt in
    rw call (
      r.0,
      r.3,
      r.4,
      omega (
        arith,
        byte 0 (omega arith),
        byte 1 (omega arith),
        byte 2 (omega arith),
        byte 3 (omega arith),
      ),
      byte 4 (omega arith),
      omega (
        arith,
        byte 8 (omega arith),
        byte 9 (omega arith),
        byte 10 (omega arith),
        byte 11 (omega arith),
      ),
      refl,
    )
