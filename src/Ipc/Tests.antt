-- ===== src/Ipc/Tests.antt =====
-- Runs of ipc.c: process 5 owns the port "net.stack", and sends to it.
use vros.Ipc.Stats.{active_track, active}
use vros.Base.{
  if◌then◌else◌, suc, All-set, ◌∙◌, length-set, ℕ, ◌≡◌, refl, ◌≢◌, true, false, arith, List, [],
  ◌∷◌, ◌++◌, some, none, ◌⊎◌, inl, replicate, take, ◌≤◌, All-replicate,
}
use vros.Task.{TaskState, Sched}
use vros.Task.Tests.{blank, reset}
use vros.Ipc.{
  Message, Port, Ipc, Received, no_message, no_port, max_ports, port_at, current_pid, ipc_init,
  init_ports, ipc_create_port, ipc_create_named_port, ipc_find_port, ipc_destroy_port, ipc_get_port,
  find_free_port, find_name, copy_name, ipc_send_from_port, ipc_try_recv, ipc_recv, block_on,
}
use vros.Ipc.Queue.{contents, IsMessage, IsPort, IsIpc}
use vros.Ipc.Send.{port_at-IsPort, push, message, send_rejected, send-IsIpc, send_refines}
use vros.Ipc.Receive.{Owns, Takes, try_recv_denied, try_recv_refines, try_recv-IsIpc, recv_cases}
use vros.Ipc.Between.{Between}
use vros.Ipc.Deliver.{recv-send}
use vros.Ipc.Names.{find_port_prefix, destroy_cases}
use vros.Ipc.Valid.{HasArrays, init-IsIpc, create-IsIpc, create_named-IsIpc, destroy-IsIpc}

abbrev pub slot : Message
slot = record no_message { bytes = replicate 256 0 }

abbrev bare : Port
bare = record no_port { queue = replicate 16 slot; name = replicate 32 0 }

abbrev pub process : Sched
process = record reset { mem = λ _. record blank { pid = 5 }; current_task = 100 }

abbrev pub raw : Ipc
raw = record { sched = process; ports = replicate 32 bare; total_messages_sent = 9 }

abbrev pub cleared : Ipc
cleared = ipc_init raw

-- "net" and "net.stack"
abbrev net : List ℕ
net = b'n' ∷ b'e' ∷ b't' ∷ []

abbrev dot_stack : List ℕ
dot_stack = b'.' ∷ b's' ∷ b't' ∷ b'a' ∷ b'c' ∷ b'k' ∷ []

abbrev pub server : Ipc
server = (ipc_create_named_port (some (net ++ dot_stack)) cleared).1

bare-HasArrays : HasArrays bare
bare-HasArrays = record {
  array = refl;
  slots = All-replicate IsMessage 16 slot (record { size_fits = omega arith; array = refl });
  name_array = refl;
}

init-IsIpc_example : IsIpc (ipc_init raw)
init-IsIpc_example = init-IsIpc raw refl (All-replicate HasArrays 32 bare bare-HasArrays)

pub cleared-IsIpc : IsIpc cleared
cleared-IsIpc = init-IsIpc raw refl (All-replicate HasArrays 32 bare bare-HasArrays)

create_named-IsIpc_example : IsIpc server
create_named-IsIpc_example = create_named-IsIpc (net ++ dot_stack) cleared cleared-IsIpc

pub server-IsIpc : IsIpc server
server-IsIpc = create_named-IsIpc (net ++ dot_stack) cleared cleared-IsIpc

create-IsIpc_example : IsIpc (ipc_create_port server).1
create-IsIpc_example = create-IsIpc server server-IsIpc

destroy-IsIpc_example : IsIpc (ipc_destroy_port 0 server).1
destroy-IsIpc_example = destroy-IsIpc 0 server server-IsIpc

-- The port "net.stack" answers to the name "net".
find_port_prefix_example :
    (ipc_find_port (some net) server ≢ none)
    × (ipc_create_named_port (some net) server ≡ (none, server))
unfolding ipc_create_named_port find_name find_free_port ipc_init init_ports copy_name
find_port_prefix_example =
    find_port_prefix b'n' (b'e' ∷ b't' ∷ []) dot_stack (replicate 22 0) server 0 server-IsIpc
      (omega arith) (omega arith) refl refl

pub server_port :
    ((port_at server 0).in_use ≡ true)
    × ((port_at server 0).owner_pid ≡ 5)
    × (contents (port_at server 0) ≡ [])
unfolding ipc_create_named_port find_name find_free_port ipc_init init_ports copy_name
server_port = (refl, refl, refl)

abbrev pub payload : List ℕ
payload = 7 ∷ 8 ∷ 9 ∷ []

send_rejected_example : ipc_send_from_port 1 40 2 (some payload) 3 server ≡ (false, server)
send_rejected_example = send_rejected 1 40 2 (some payload) 3 server (inl (omega arith))

send-IsIpc_example : IsIpc (ipc_send_from_port 1 0 2 (some payload) 3 server).1
send-IsIpc_example = send-IsIpc 1 0 2 (some payload) 3 server server-IsIpc (omega arith)

send_refines_example :
    let out = ipc_send_from_port 1 0 2 (some payload) 3 server in
    (out.0, contents (port_at out.1 0))
    ≡ push 16 (message 1 0 2 (some payload) 3 server) (contents (port_at server 0))
send_refines_example =
    (send_refines 1 0 2 (some payload) 3 server server-IsIpc (omega arith) server_port.0
      (omega arith)).0

-- Another process sends to the port, before its owner runs.
abbrev pub other_process : Sched
other_process = record reset { mem = λ _. record blank { pid = 6 }; current_task = 100 }

abbrev pub busy : Ipc → Ipc
busy s = record (ipc_send_from_port 0 0 3 (some payload) 2 (record s { sched = other_process })).1 {
  sched = process;
}

pub busy-Between : (s : Ipc) → Between 0 s (busy s)
busy-Between s =
    Between.schedule process
      (Between.send 0 0 3 (some payload) 2 (Between.schedule other_process Between.stay))

recv-send_example :
    let t = busy (ipc_send_from_port 1 0 2 (some payload) 3 server).1 in
    let out = ipc_try_recv 0 slot t in
    (out.0 ≡ Received.received)
    × (out.1.sender_pid ≡ current_pid server)
    × (out.1.sender_port ≡ 1)
    × (out.1.type ≡ 2)
    × (out.1.size ≡ 3)
    × (take 3 out.1.bytes ≡ payload)
    × (contents (port_at t 0) ≡ message 1 0 2 (some payload) 3 server ∷ contents (port_at out.2 0))
recv-send_example =
    let s' = (ipc_send_from_port 1 0 2 (some payload) 3 server).1 in
    recv-send 1 0 2 payload 3 slot server (busy s') server-IsIpc (omega arith) server_port.0
      server_port.2 (omega arith) (omega arith) refl (busy-Between s') server_port.1

server_owner : (port_at server 0).owner_pid ≡ current_pid server
unfolding ipc_create_named_port ipc_init init_ports find_name find_free_port copy_name
server_owner = refl

server-Owns : Owns server 0
server-Owns = record { index = omega arith; used = server_port.0; owner = server_owner }

try_recv_denied_example : ipc_try_recv 32 slot server ≡ (Received.failed, slot, server)
try_recv_denied_example = try_recv_denied 32 slot server (inl (omega arith))

try_recv_refines_example :
    ((contents (port_at server 0) ≡ [])
      × (ipc_try_recv 0 slot server ≡ (Received.empty, slot, server)))
    ⊎ ((m : Message) × (rest : List Message) × (contents (port_at server 0) ≡ m ∷ rest)
        × Takes server 0 slot m rest (ipc_try_recv 0 slot server))
try_recv_refines_example = try_recv_refines 0 slot server server-IsIpc server-Owns

try_recv-IsIpc_example : IsIpc (ipc_try_recv 0 slot server).2
try_recv-IsIpc_example = try_recv-IsIpc 0 slot server server-IsIpc

destroy_cases_example :
    ((ipc_destroy_port 0 server ≡ (false, server))
      × ((max_ports ≤ 0)
          ⊎ ((port_at server 0).in_use ≡ false)
          ⊎ ((port_at server 0).owner_pid ≢ current_pid server)))
    ⊎ (let s' = (ipc_destroy_port 0 server).1 in
        ((ipc_destroy_port 0 server).0 ≡ true)
        × ((port_at server 0).owner_pid ≡ current_pid server)
        × (ipc_get_port 0 s' ≡ none)
        × (contents (port_at s' 0) ≡ [])
        × ((port_at server 0).waiting_task ≢ 0
            → (s'.sched.mem (port_at server 0).waiting_task).state ≡ TaskState.ready)
        × ((j : ℕ) → 0 ≢ j → port_at s' j ≡ port_at server j))
destroy_cases_example = destroy_cases 0 server server-IsIpc

-- The owner waits, and another task sends meanwhile.
abbrev meanwhile : Ipc → Ipc
meanwhile s = (ipc_send_from_port 4 0 2 (some payload) 3 s).1

waiting-IsIpc : IsIpc (block_on 0 server)
unfolding block_on
waiting-IsIpc = record {
  table = length-set server.ports 0 _ ∙ server-IsIpc.table;
  each = All-set IsPort server.ports 0 _ server-IsIpc.each (
      let p = port_at-IsPort 0 server-IsIpc (omega arith) in
      record {
        array = p.array;
        head_in = p.head_in;
        count_in = p.count_in;
        tail_at = p.tail_at;
        slots = p.slots;
        name_array = p.name_array;
      });
}

recv_cases_example :
    let woken = meanwhile (block_on 0 server) in
    ((m : Message) × (rest : List Message) × (contents (port_at server 0) ≡ m ∷ rest)
      × Takes server 0 slot m rest (ipc_recv meanwhile 0 slot server))
    ⊎ ((contents (port_at server 0) ≡ [])
        × (m : Message) × (rest : List Message) × (contents (port_at woken 0) ≡ m ∷ rest)
        × Takes woken 0 slot m rest (ipc_recv meanwhile 0 slot server))
    ⊎ ((contents (port_at server 0) ≡ [])
        × (contents (port_at woken 0) ≡ [])
        × (ipc_recv meanwhile 0 slot server ≡ (Received.failed, slot, woken)))
recv_cases_example =
    recv_cases meanwhile 0 slot server server-IsIpc server-Owns
      (send-IsIpc 4 0 2 (some payload) 3 (block_on 0 server) waiting-IsIpc (omega arith))

active_track_example :
    ((ipc_create_port server ≡ (none, server))
      ⊎ ((i : ℕ) × ((ipc_create_port server).0 ≡ some i)
          × (active (ipc_create_port server).1 ≡ suc (active server))))
    × ((i : ℕ)
        → let out = ipc_destroy_port i server in
          (if out.0 then suc (active out.1) else active out.1) ≡ active server)
active_track_example = active_track server server-IsIpc
