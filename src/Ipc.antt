-- ===== src/Ipc.antt =====
-- Message ports, src/kernel/ipc.c with include/ipc.h.
-- A `const char *` is the list of its characters before the terminating zero, none of which is 0;
-- a `const void *` is `none` for NULL, else the bytes that it points to. `none` as a result is -1.
pub mod Queue
pub mod Send
pub mod Receive
pub mod Between
pub mod Deliver
pub mod Names
pub mod Valid
pub mod Stats
pub mod Tests
use vros.Base.{
  ℕ, zero, suc, ◌+◌, ◌-◌, ◌%◌, ◌^◌, Bool, true, false, not, ◌&&◌, ◌||◌, Option, none, some, List,
  [], ◌∷◌, map, get_or, set, replicate, ltb, leb, ◌==◌, if◌then◌else◌,
}
use vros.Task.{Task, TaskState, Sched, set_state, task_yield, next32}

-- struct ipc_message; `bytes` is the array `data`.
pub record Message : Type 0 where
  pub sender_pid : ℕ
  pub sender_port : ℕ
  pub type : ℕ
  pub size : ℕ
  pub bytes : List ℕ

-- struct ipc_port; `name` is the array of 32 characters, `waiting_task` a pointer.
pub record Port : Type 0 where
  pub port_id : ℕ
  pub owner_pid : ℕ
  pub in_use : Bool
  pub name : List ℕ
  pub queue : List Message
  pub queue_head : ℕ
  pub queue_tail : ℕ
  pub queue_count : ℕ
  pub total_sent : ℕ
  pub total_received : ℕ
  pub drops : ℕ
  pub waiting_task : ℕ

-- The static variables of ipc.c, and the scheduler that it calls.
pub record Ipc : Type 0 where
  pub sched : Sched
  pub ports : List Port
  pub total_messages_sent : ℕ

abbrev pub max_ports : ℕ
max_ports = 32

abbrev pub queue_size : ℕ
queue_size = 16

abbrev pub msg_max_size : ℕ
msg_max_size = 256

abbrev pub no_message : Message
no_message = record { sender_pid = 0; sender_port = 0; type = 0; size = 0; bytes = [] }

-- What a read outside the port table would give; the callers test the index first.
abbrev pub no_port : Port
no_port = record {
  port_id = 0;
  owner_pid = 0;
  in_use = false;
  name = [];
  queue = [];
  queue_head = 0;
  queue_tail = 0;
  queue_count = 0;
  total_sent = 0;
  total_received = 0;
  drops = 0;
  waiting_task = 0;
}

abbrev pub port_at : Ipc → ℕ → Port
port_at s i = get_or s.ports i no_port

abbrev pub set_port : Ipc → ℕ → Port → Ipc
set_port s i p = record s { ports = set s.ports i p }

-- `task_get_current()->pid`
abbrev pub current_pid : Ipc → ℕ
current_pid s = (s.sched.mem s.sched.current_task).pid

-- `name[0] = '\0'`
abbrev pub clear_name : List ℕ → List ℕ
clear_name name = set name 0 0

-- The fields that `ipc_init` and the creation of a port reset.
abbrev pub reset_port : Port → Port
reset_port p = record p {
  queue_head = 0;
  queue_tail = 0;
  queue_count = 0;
  total_sent = 0;
  total_received = 0;
  drops = 0;
  waiting_task = 0;
}

-- `ipc_init` from port `i` on.
pub init_ports : ℕ → List Port → List Port
init_ports i [] = []
init_ports i (p ∷ ps) =
    record (reset_port p) { port_id = i; owner_pid = 0; in_use = false; name = clear_name p.name }
    ∷ init_ports (i + 1) ps

pub ipc_init : Ipc → Ipc
unfolding init_ports
ipc_init s = record s { ports = init_ports 0 s.ports; total_messages_sent = 0 }

-- A pointer to a port is its index.
pub ipc_get_port : ℕ → Ipc → Option ℕ
ipc_get_port port_id s =
    if leb max_ports port_id
    then none
    else if not (port_at s port_id).in_use
    then none
    else some port_id

-- The loops `for (i …) if (!ports[i].in_use)`: the first free port, counted from `i` on.
pub find_free_port : ℕ → List Port → Option ℕ
find_free_port i [] = none
find_free_port i (p ∷ ps) = if not p.in_use then some i else find_free_port (i + 1) ps

pub ipc_create_port : Ipc → Option ℕ × Ipc
ipc_create_port s = elim (find_free_port 0 s.ports) [
  | none ↦ (none, s)
  | some i ↦ (
    some i,
    set_port s i (record (reset_port (port_at s i)) {
      in_use = true;
      owner_pid = current_pid s;
      name = clear_name (port_at s i).name;
    }),
  )
]

-- `for (j = 0; j < n && name[j]; j++) dst[j] = name[j]; dst[j] = '\0';`
pub copy_name : ℕ → List ℕ → List ℕ → List ℕ
copy_name n name [] = []
copy_name zero name (d ∷ dst) = 0 ∷ dst
copy_name (suc n) [] (d ∷ dst) = 0 ∷ dst
copy_name (suc n) (c ∷ name) (d ∷ dst) = c ∷ copy_name n name dst

-- The comparison `for (j = 0; j < n && name[j] && ports[i].name[j]; j++)`, true if no difference shows.
pub names_match : ℕ → List ℕ → List ℕ → Bool
names_match zero name dst = true
names_match (suc n) [] dst = true
names_match (suc n) (c ∷ name) [] = true
names_match (suc n) (c ∷ name) (d ∷ dst) =
    if d == 0 then true else if c == d then names_match n name dst else false

-- The first port in use whose name is not empty and matches, counted from `i` on.
pub find_name : List ℕ → ℕ → List Port → Option ℕ
find_name name i [] = none
find_name name i (p ∷ ps) =
    if p.in_use && not (get_or p.name 0 0 == 0) && names_match 32 name p.name
    then some i
    else find_name name (i + 1) ps

-- `ipc_create_named_port`; a NULL name is `none`.
pub ipc_create_named_port : Option (List ℕ) → Ipc → Option ℕ × Ipc
ipc_create_named_port none s = (none, s)
ipc_create_named_port (some name) s =
    if s.sched.current_task == 0 then (none, s) else elim (find_name name 0 s.ports) [
      | some taken ↦ (none, s)
      | none ↦ elim (find_free_port 0 s.ports) [
        | none ↦ (none, s)
        | some i ↦ (
          some i,
          set_port s i (record (reset_port (port_at s i)) {
            in_use = true;
            owner_pid = current_pid s;
            name = copy_name 31 name (port_at s i).name;
          }),
        )
      ]
    ]

pub ipc_find_port : Option (List ℕ) → Ipc → Option ℕ
ipc_find_port none s = none
ipc_find_port (some name) s = find_name name 0 s.ports

-- `if (port->waiting_task) port->waiting_task->state = TASK_READY;`
abbrev pub wake : ℕ → Sched → Sched
wake t sched =
    if t == 0 then sched else record sched { mem = set_state sched.mem t TaskState.ready }

-- True is the result 0, false is -1.
pub ipc_destroy_port : ℕ → Ipc → Bool × Ipc
ipc_destroy_port port_id s =
    if leb max_ports port_id
    then (false, s)
    else if not (port_at s port_id).in_use || not ((port_at s port_id).owner_pid == current_pid s)
    then (false, s)
    else (
      true,
      record (set_port s port_id (record (port_at s port_id) {
        in_use = false;
        owner_pid = 0;
        queue_count = 0;
        waiting_task = 0;
      })) { sched = wake (port_at s port_id).waiting_task s.sched },
    )

-- `for (i = 0; i < size && i < 256; i++) dst[i] = src[i];`
pub copy_bytes : ℕ → List ℕ → List ℕ → List ℕ
copy_bytes zero src dst = dst
copy_bytes (suc n) [] dst = dst
copy_bytes (suc n) (b ∷ src) [] = []
copy_bytes (suc n) (b ∷ src) (d ∷ dst) = b ∷ copy_bytes n src dst

-- A NULL pointer leaves the slot's bytes as they are.
abbrev pub fill : Option (List ℕ) → ℕ → List ℕ → List ℕ
fill none size dst = dst
fill (some src) size dst = copy_bytes size src dst

-- The message that a send writes into the slot at `queue_tail`.
pub sent_message : ℕ → ℕ → ℕ → Option (List ℕ) → ℕ → Message → Message
sent_message pid src_port type src size slot = record {
  sender_pid = pid;
  sender_port = src_port;
  type = type;
  size = size;
  bytes = fill src size slot.bytes;
}

-- Adding a message to a port that has room: the queue, the counters, the waiting task.
pub enqueue : Message → Port → Port
enqueue m p = record p {
  queue = set p.queue p.queue_tail m;
  queue_tail = (p.queue_tail + 1) % queue_size;
  queue_count = next32 p.queue_count;
  total_sent = next32 p.total_sent;
  waiting_task = 0;
}

pub ipc_send_from_port : ℕ → ℕ → ℕ → Option (List ℕ) → ℕ → Ipc → Bool × Ipc
ipc_send_from_port src_port dest_port type src size s =
    let port = port_at s dest_port in
    if leb max_ports dest_port
    then (false, s)
    else if not port.in_use
    then (false, s)
    else if ltb msg_max_size size
    then (false, s)
    else if leb queue_size port.queue_count
    then (false, set_port s dest_port (record port { drops = next32 port.drops }))
    else (
      true,
      record {
        sched = wake port.waiting_task s.sched;
        ports = set s.ports dest_port (
            enqueue
              (sent_message (current_pid s) src_port type src size
                (get_or port.queue port.queue_tail no_message))
              port);
        total_messages_sent = next32 s.total_messages_sent;
      },
    )

-- `ipc_send` has the same body, with `sender_port` set to 0.
unfoldable pub ipc_send : ℕ → ℕ → Option (List ℕ) → ℕ → Ipc → Bool × Ipc
ipc_send dest_port type src size s = ipc_send_from_port 0 dest_port type src size s

-- The results 0, -1 and -2 of a receive.
pub data Received : Type 0 where
  received failed empty : Received

-- The copy from a slot to the caller's buffer.
pub read_message : Message → Message → Message
read_message slot msg = record slot { bytes = copy_bytes slot.size slot.bytes msg.bytes }

pub dequeue : Port → Port
dequeue p = record p {
  queue_head = (p.queue_head + 1) % queue_size;
  queue_count = p.queue_count - 1;
  total_received = next32 p.total_received;
}

-- The end of both receives, for a port that holds a message.
pub take_message : ℕ → Message → Ipc → Received × Message × Ipc
take_message port_id msg s =
    let port = port_at s port_id in
    (
      Received.received,
      read_message (get_or port.queue port.queue_head no_message) msg,
      set_port s port_id (dequeue port),
    )

pub ipc_try_recv : ℕ → Message → Ipc → Received × Message × Ipc
ipc_try_recv port_id msg s =
    let port = port_at s port_id in
    if leb max_ports port_id
    then (Received.failed, msg, s)
    else if not port.in_use || not (port.owner_pid == current_pid s)
    then (Received.failed, msg, s)
    else if port.queue_count == 0
    then (Received.empty, msg, s)
    else take_message port_id msg s

-- The caller waits: it is entered at the port, blocked, and gives up the processor.
pub block_on : ℕ → Ipc → Ipc
block_on port_id s =
    record (set_port s port_id
      (record (port_at s port_id) { waiting_task = s.sched.current_task })) {
        sched =
            (task_yield (record s.sched {
              mem = set_state s.sched.mem s.sched.current_task TaskState.blocked;
            })).0;
      }

-- The first argument is what the other tasks do between the call of `task_yield` and its return.
pub ipc_recv : (Ipc → Ipc) → ℕ → Message → Ipc → Received × Message × Ipc
ipc_recv others port_id msg s =
    let port = port_at s port_id in
    let woken = others (block_on port_id s) in
    if leb max_ports port_id
    then (Received.failed, msg, s)
    else if not port.in_use || not (port.owner_pid == current_pid s)
    then (Received.failed, msg, s)
    else if port.queue_count == 0
    then (if (port_at woken port_id).queue_count == 0
        then (Received.failed, msg, woken)
        else take_message port_id msg woken)
    else take_message port_id msg s
