-- ===== src/IrqBridge/Tests.antt =====
-- The process 5 registers the line 14 for its port 0.
use vros.Base.{◌≡◌, refl, true, false, arith, get_or, set, replicate}
use vros.Ipc.{Received, ipc_try_recv}
use vros.Ipc.Tests.{raw, server, server-IsIpc, server_port, slot, busy, busy-Between}
use vros.IrqBridge.{
  IrqBridge, IrqHandler, no_handler, handler_at, ipc_msg_irq, irq_message_size, irq_bridge_init,
  irq_bridge_register, irq_bridge_unregister, irq_bridge_notify,
}
use vros.IrqBridge.Handlers.{foreign_kept, unregister-register}
use vros.IrqBridge.Delivery.{read_le32, notify_delivers}

abbrev quiet : IrqBridge
quiet = record { ipc = raw; irq_handlers = replicate 16 no_handler; irq_counter = 0x01020304 }

abbrev ata : IrqHandler
ata = record { ipc_port = 0; pid = 5; registered = true }

abbrev disk : IrqBridge
disk = record quiet { irq_handlers = set quiet.irq_handlers 14 ata }

registers : irq_bridge_register 14 0 (irq_bridge_init quiet) ≡ (true, disk)
unfolding irq_bridge_register irq_bridge_init
registers = refl

out_of_range : (irq_bridge_unregister 16 disk ≡ (false, disk)) × (irq_bridge_notify 16 disk ≡ disk)
unfolding irq_bridge_unregister irq_bridge_notify
out_of_range = (refl, refl)

-- The handler of the process 6.
abbrev taken_line : IrqBridge
taken_line = record quiet { irq_handlers = set quiet.irq_handlers 14 (record ata { pid = 6 }) }

foreign_kept_example :
    (handler_at (irq_bridge_register 14 3 taken_line).1 14 ≡ handler_at taken_line 14)
    × (handler_at (irq_bridge_unregister 14 taken_line).1 14 ≡ handler_at taken_line 14)
foreign_kept_example = foreign_kept 14 14 3 taken_line refl (omega arith)

unregister-register_example :
    ((irq_bridge_register 14 0 quiet).0 ≡ true)
    × (irq_bridge_unregister 14 (irq_bridge_register 14 0 quiet).1 ≡ (true, quiet))
unregister-register_example = unregister-register 14 0 quiet (omega arith) refl refl refl

-- The line is registered for the port "net.stack".
abbrev notified : IrqBridge
notified = record disk { ipc = server }

notify_delivers_example :
    let s' = irq_bridge_notify 14 notified in
    let out = ipc_try_recv 0 slot (busy s'.ipc) in
    (out.0 ≡ Received.received)
    × (out.1.type ≡ ipc_msg_irq)
    × (out.1.size ≡ irq_message_size)
    × (read_le32 out.1.bytes 0 ≡ ipc_msg_irq)
    × (get_or out.1.bytes 4 0 ≡ 14)
    × (read_le32 out.1.bytes 8 ≡ 0x01020304)
    × (s'.irq_counter ≡ 0x01020305)
notify_delivers_example =
    notify_delivers 14 notified (busy (irq_bridge_notify 14 notified).ipc) slot (omega arith) refl
      (omega arith) server-IsIpc (omega arith) server_port.0 server_port.2 refl
      (busy-Between (irq_bridge_notify 14 notified).ipc) server_port.1
