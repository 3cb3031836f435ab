-- ===== src/Task.antt =====
-- The scheduler, src/kernel/task.c with include/task.h (the Makefile builds this one, not
-- task_mlfq.c). A `struct task *` is a number, 0 for NULL; `mem` is what the task structures hold.
-- What `kmalloc` and `paging_get_kernel_directory` return is an argument, and so is the entry point.
pub mod Ring
pub mod Schedule
pub mod Fair
pub mod Calls
pub mod Tests
use vros.Base.{
  ℕ, zero, suc, ◌+◌, ◌-◌, ◌%◌, ◌^◌, Bool, true, false, not, ◌&&◌, ◌||◌, Option, none, some, List,
  [], ◌∷◌, get_or, set, replicate, take, ltb, leb, ◌==◌, if◌then◌else◌,
}

pub data TaskState : Type 0 where
  running ready blocked sleeping zombie : TaskState

abbrev pub is_running : TaskState → Bool
is_running TaskState.running = true
is_running _ = false

abbrev pub is_zombie : TaskState → Bool
is_zombie TaskState.zombie = true
is_zombie _ = false

abbrev pub is_blocked : TaskState → Bool
is_blocked TaskState.blocked = true
is_blocked _ = false

pub data Priority : Type 0 where
  high normal low idle : Priority

-- struct registers_state
pub record Registers : Type 0 where
  pub eax : ℕ
  pub ebx : ℕ
  pub ecx : ℕ
  pub edx : ℕ
  pub esi : ℕ
  pub edi : ℕ
  pub ebp : ℕ
  pub esp : ℕ
  pub eip : ℕ
  pub eflags : ℕ
  pub cr3 : ℕ

-- struct task. A name is its characters before the terminating zero.
pub record Task : Type 0 where
  pub pid : ℕ
  pub name : List ℕ
  pub state : TaskState
  pub regs : Registers
  pub kernel_stack : ℕ
  pub time_slice : ℕ
  pub next : ℕ
  pub priority : Priority
  pub base_priority : Priority
  pub quantum : ℕ
  pub ticks_used : ℕ
  pub total_ticks : ℕ
  pub context_switches : ℕ
  pub created_time : ℕ
  pub sleep_until : ℕ
  pub wait_on : ℕ
  pub parent : ℕ
  pub child : ℕ
  pub sibling : ℕ
  pub exit_code : ℕ
  pub iopb : ℕ

-- The static variables of task.c, and the memory of the task structures.
pub record Sched : Type 0 where
  pub mem : ℕ → Task
  pub tasks : List ℕ
  pub current_task : ℕ
  pub ready_queue : ℕ
  pub next_pid : ℕ
  pub tasking_enabled : Bool
  pub global_ticks : ℕ

abbrev pub max_tasks : ℕ
max_tasks = 32

abbrev pub time_slice_ticks : ℕ
time_slice_ticks = 5

-- `x++` on uint32_t
abbrev pub next32 : ℕ → ℕ
next32 x = (x + 1) % 2 ^ 32

-- `*p = t`
abbrev pub store : (ℕ → Task) → ℕ → Task → ℕ → Task
store m p t q = if p == q then t else m q

abbrev pub set_next : (ℕ → Task) → ℕ → ℕ → ℕ → Task
set_next m p n = store m p (record (m p) { next = n })

abbrev pub set_state : (ℕ → Task) → ℕ → TaskState → ℕ → Task
set_state m p s = store m p (record (m p) { state = s })

pub simple_queue_add : ℕ → Sched → Sched
simple_queue_add t s =
    if s.ready_queue == 0
    then record s { mem = set_next s.mem t t; ready_queue = t }
    else record s {
      mem = set_next (set_next s.mem t (s.mem s.ready_queue).next) s.ready_queue t;
      ready_queue = t;
    }

-- The loop that puts a new task into the first free slot from `i` on; `n` rounds are left.
pub add_to_tasks : ℕ → ℕ → ℕ → List ℕ → List ℕ
add_to_tasks zero i t tasks = tasks
add_to_tasks (suc n) i t tasks =
    let rest = add_to_tasks n (i + 1) t tasks in
    if get_or tasks i 0 == 0 then set tasks i t else rest

-- `kmalloc`'s result `t` is not tested in `task_init`. The name is "idle".
pub task_init : ℕ → Registers → ℕ → Sched → Sched
task_init t regs stack s = record s {
  mem = store s.mem t idle_task;
  tasks = set (replicate max_tasks 0) 0 t;
  current_task = t;
  ready_queue = t;
  tasking_enabled = true;
}
  where
    idle_task : Task
    idle_task = record {
      pid = 0;
      name = b'i' ∷ b'd' ∷ b'l' ∷ b'e' ∷ [];
      state = TaskState.running;
      regs = regs;
      kernel_stack = stack;
      time_slice = time_slice_ticks;
      next = t;
      priority = Priority.idle;
      base_priority = Priority.idle;
      quantum = time_slice_ticks;
      ticks_used = 0;
      total_ticks = 0;
      context_switches = 0;
      created_time = 0;
      sleep_until = 0;
      wait_on = 0;
      parent = 0;
      child = 0;
      sibling = 0;
      exit_code = 0;
      iopb = 0;
    }

-- The arguments of `task_create`, then what the two calls of `kmalloc` (the task, its stack) and
-- `paging_get_kernel_directory` return. The result is the new pid, or 0 when there is no memory.
-- The field `next` is not set here but by `simple_queue_add`.
pub task_create : List ℕ → ℕ → ℕ → ℕ → ℕ → Sched → ℕ × Sched
task_create name entry_point t stack directory s = if t == 0 then (0, s) else (
  s.next_pid,
  simple_queue_add t (record s {
    mem = store s.mem t new_task;
    tasks = add_to_tasks 31 1 t s.tasks;
    next_pid = next32 s.next_pid;
  }),
)
  where
    new_task : Task
    new_task = record {
      pid = s.next_pid;
      name = take 31 name;
      state = TaskState.ready;
      regs = record {
        eax = 0;
        ebx = 0;
        ecx = 0;
        edx = 0;
        esi = 0;
        edi = 0;
        ebp = 0;
        esp = (stack + 4096) % 2 ^ 32;
        eip = entry_point;
        eflags = 0x202;
        cr3 = directory;
      };
      kernel_stack = (stack + 4096) % 2 ^ 32;
      time_slice = time_slice_ticks;
      next = (s.mem t).next;
      priority = Priority.normal;
      base_priority = Priority.normal;
      quantum = time_slice_ticks;
      ticks_used = 0;
      total_ticks = 0;
      context_switches = 0;
      created_time = s.global_ticks;
      sleep_until = 0;
      wait_on = 0;
      parent = s.current_task;
      child = 0;
      sibling = 0;
      exit_code = 0;
      iopb = 0;
    }

-- `while (next->state == TASK_ZOMBIE && attempts < max_tasks)`: the value of `ready_queue` at the
-- end, with `n` attempts left. `next` is always `ready_queue->next`.
pub skip_zombies : ℕ → (ℕ → Task) → ℕ → ℕ
skip_zombies zero m rq = rq
skip_zombies (suc n) m rq =
    let rest = skip_zombies n m (m rq).next in if is_zombie (m (m rq).next).state then rest else rq

-- The task that is chosen is charged a new time slice, unless it is a zombie.
pub start_task : (ℕ → Task) → ℕ → ℕ → Task
start_task m p =
    if is_zombie (m p).state
    then m
    else store m p (record (m p) {
      time_slice = time_slice_ticks;
      state = TaskState.running;
      context_switches = next32 (m p).context_switches;
    })

-- `if (old_task->state == TASK_RUNNING) old_task->state = TASK_READY;`
pub stop_task : (ℕ → Task) → ℕ → ℕ → Task
stop_task m p = if is_running (m p).state then set_state m p TaskState.ready else m

-- The choice of another task in `task_schedule`. A pair of addresses stands for the call of
-- `task_switch`, which exchanges the processor's registers.
pub pick_next : Sched → Sched × Option (ℕ × ℕ)
pick_next s =
    let old = s.current_task in
    let chosen = (s.mem (skip_zombies 32 s.mem s.ready_queue)).next in
    (
      record s {
        mem = stop_task (start_task s.mem chosen) old;
        current_task = chosen;
        ready_queue = chosen;
      },
      if old == chosen then none else some (old, chosen),
    )

-- The accounting at the head of `task_schedule`: the tick, the running time, the time slice.
pub count_tick : Sched → Sched
count_tick s = record s {
  mem = store s.mem s.current_task charged;
  global_ticks = next32 s.global_ticks;
}
  where
    cur : Task
    cur = s.mem s.current_task

    charged : Task
    charged = record cur {
      total_ticks =
          if not (s.current_task == 0) && is_running cur.state
          then next32 cur.total_ticks
          else cur.total_ticks;
      time_slice = cur.time_slice - 1;
    }

pub must_switch : Sched → Bool
must_switch s =
    (s.mem s.current_task).time_slice == 0
    || is_zombie (s.mem s.current_task).state
    || is_blocked (s.mem s.current_task).state

pub task_schedule : Sched → Sched × Option (ℕ × ℕ)
task_schedule s =
    if not s.tasking_enabled || s.ready_queue == 0
    then (s, none)
    else if must_switch (count_tick s)
    then pick_next (count_tick s)
    else (count_tick s, none)

-- `current_task->time_slice = 0;`
pub expire : Sched → Sched
expire s = record s {
  mem = store s.mem s.current_task (record (s.mem s.current_task) { time_slice = 0 });
}

pub task_yield : Sched → Sched × Option (ℕ × ℕ)
task_yield s = if not s.tasking_enabled then (s, none) else task_schedule (expire s)
