-- ===== src/IrqBridge.antt =====
-- Interrupts as messages, src/kernel/irq_bridge.c with include/irq_bridge.h: a process registers a
-- port for an IRQ, and each interrupt sends a message there.
pub mod Handlers
pub mod Delivery
pub mod Tests
use vros.Base.{
  ℕ, zero, suc, ◌+◌, ◌/◌, ◌%◌, ◌^◌, Bool, true, false, not, ◌&&◌, ◌||◌, Option, some, List, [], ◌∷◌,
  ◌++◌, get_or, set, replicate, leb, ◌==◌, if◌then◌else◌,
}
use vros.Task.{next32}
use vros.Ipc.{Ipc, ipc_send, current_pid}

-- struct irq_handler_entry
pub record IrqHandler : Type 0 where
  pub ipc_port : ℕ
  pub pid : ℕ
  pub registered : Bool

-- The static variables of irq_bridge.c, and the ports that it sends to.
pub record IrqBridge : Type 0 where
  pub ipc : Ipc
  pub irq_handlers : List IrqHandler
  pub irq_counter : ℕ

abbrev pub irq_lines : ℕ
irq_lines = 16

abbrev pub ipc_msg_irq : ℕ
ipc_msg_irq = 0x1000

abbrev pub no_handler : IrqHandler
no_handler = record { ipc_port = 0; pid = 0; registered = false }

abbrev pub handler_at : IrqBridge → ℕ → IrqHandler
handler_at s irq = get_or s.irq_handlers irq no_handler

-- `get_current_task()` is not NULL.
abbrev pub has_task : IrqBridge → Bool
has_task s = not (s.ipc.sched.current_task == 0)

pub irq_bridge_init : IrqBridge → IrqBridge
irq_bridge_init s = record s { irq_handlers = replicate irq_lines no_handler }

-- `false` is the result -1.
pub irq_bridge_register : ℕ → ℕ → IrqBridge → Bool × IrqBridge
irq_bridge_register irq ipc_port s =
    let h = handler_at s irq in
    let pid = current_pid s.ipc in
    if leb irq_lines irq
    then (false, s)
    else if not (has_task s)
    then (false, s)
    else if h.registered && not (h.pid == pid)
    then (false, s)
    else (
      true,
      record s {
        irq_handlers =
            set s.irq_handlers irq (record { ipc_port = ipc_port; pid = pid; registered = true });
      },
    )

pub irq_bridge_unregister : ℕ → IrqBridge → Bool × IrqBridge
irq_bridge_unregister irq s =
    let h = handler_at s irq in
    if leb irq_lines irq
    then (false, s)
    else if not (has_task s)
    then (false, s)
    else if h.registered && h.pid == current_pid s.ipc
    then (true, record s { irq_handlers = set s.irq_handlers irq no_handler })
    else (false, s)

-- A `uint32_t` in memory.
abbrev pub le32 : ℕ → List ℕ
le32 x = x % 256 ∷ x / 256 % 256 ∷ x / 65536 % 256 ∷ x / 16777216 % 256 ∷ []

-- struct irq_message
pub irq_message : ℕ → ℕ → List ℕ
irq_message irq timestamp = le32 ipc_msg_irq ++ irq ∷ 0 ∷ 0 ∷ 0 ∷ le32 timestamp

abbrev pub irq_message_size : ℕ
irq_message_size = 12

pub irq_bridge_notify : ℕ → IrqBridge → IrqBridge
irq_bridge_notify irq s =
    let h = handler_at s irq in
    if leb irq_lines irq then s else if not h.registered then s else record s {
      ipc =
          (ipc_send h.ipc_port ipc_msg_irq (some (irq_message irq s.irq_counter)) irq_message_size
            s.ipc).1;
      irq_counter = next32 s.irq_counter;
    }
