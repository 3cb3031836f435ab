-- ===== src/Task/Tests.antt =====
-- Three tasks at the addresses 100, 200 and 300: the idle task and two that it created.
use vros.Task.Calls.{find_by_pid-create, task_find_by_pid}
use vros.Base.{◌≤◌, inl, ◌≢◌, ◌⊎◌, All-replicate, replicate, ◌≡◌, refl, false, arith, [], ◌∷◌, none}
use vros.Task.{
  Task, Sched, TaskState, Priority, Registers, task_init, task_create, simple_queue_add,
  add_to_tasks, count_tick, must_switch, expire, task_schedule,
}
use vros.Task.Ring.{IsRing, order, add-IsRing}
use vros.Task.Schedule.{NextLive, Switched, schedule_switches, schedule_continues}
use vros.Task.Fair.{expire_slice, IsFair, yields, round_robin}

abbrev pub no_regs : Registers
no_regs = record {
  eax = 0;
  ebx = 0;
  ecx = 0;
  edx = 0;
  esi = 0;
  edi = 0;
  ebp = 0;
  esp = 0;
  eip = 0;
  eflags = 0;
  cr3 = 0;
}

abbrev pub blank : Task
blank = record {
  pid = 0;
  name = [];
  state = TaskState.ready;
  regs = no_regs;
  kernel_stack = 0;
  time_slice = 0;
  next = 0;
  priority = Priority.idle;
  base_priority = Priority.idle;
  quantum = 0;
  ticks_used = 0;
  total_ticks = 0;
  context_switches = 0;
  created_time = 0;
  sleep_until = 0;
  wait_on = 0;
  parent = 0;
  child = 0;
  sibling = 0;
  exit_code = 0;
  iopb = 0;
}

abbrev pub reset : Sched
reset = record {
  mem = λ _. blank;
  tasks = [];
  current_task = 0;
  ready_queue = 0;
  next_pid = 1;
  tasking_enabled = false;
  global_ticks = 0;
}

abbrev alone : Sched
alone = task_init 100 no_regs 0 reset

abbrev pair : Sched
pair = (task_create (b'a' ∷ []) 7 200 5000 9 alone).1

abbrev trio : Sched
trio = (task_create (b'b' ∷ []) 8 300 9096 9 pair).1

pids : ((task_create (b'b' ∷ []) 8 300 9096 9 pair).0 ≡ 2) × (trio.ready_queue ≡ 300)
unfolding task_create simple_queue_add add_to_tasks task_init
pids = (refl, refl)

alone-IsRing : IsRing alone.mem alone.ready_queue []
unfolding task_init
alone-IsRing = record { links = refl; apart = tt; distinct = tt }

trio-IsRing : IsRing trio.mem trio.ready_queue (100 ∷ 200 ∷ [])
unfolding task_create simple_queue_add add_to_tasks task_init
trio-IsRing = record { links = (refl, (refl, refl)); apart = omega arith; distinct = omega arith }

add-IsRing_example :
    let s' = simple_queue_add 400 trio in
    (s'.ready_queue ≡ 400) × IsRing s'.mem 400 (order (100 ∷ 200 ∷ []) trio.ready_queue)
unfolding task_create simple_queue_add task_init
add-IsRing_example = add-IsRing 400 trio (100 ∷ 200 ∷ []) (omega arith) trio-IsRing (omega arith)

trio-IsFair : IsFair trio (100 ∷ 200 ∷ [])
unfolding task_create simple_queue_add add_to_tasks task_init
trio-IsFair = record {
  on = refl;
  ring = trio-IsRing;
  live = ((omega arith, refl), ((omega arith, refl), ((omega arith, refl), tt)));
}

-- The task at 300 stands behind two others.
round_robin_example : (yields 3 trio).current_task ≡ 300
unfolding task_create simple_queue_add task_init
round_robin_example = round_robin (100 ∷ 200 ∷ []) trio (100 ∷ 200 ∷ []) 300 [] trio-IsFair refl

trio-NextLive : NextLive trio.mem trio.ready_queue (100 ∷ 200 ∷ []) [] 100 (200 ∷ 300 ∷ [])
unfolding task_create simple_queue_add task_init
trio-NextLive = record { split = refl; dead = tt; live = refl; few = omega arith }

abbrev spent : Sched
spent = expire trio

spent-IsRing : IsRing spent.mem spent.ready_queue (100 ∷ 200 ∷ [])
unfolding expire task_create simple_queue_add add_to_tasks task_init
spent-IsRing = record { links = (refl, (refl, refl)); apart = omega arith; distinct = omega arith }

spent-NextLive : NextLive spent.mem spent.ready_queue (100 ∷ 200 ∷ []) [] 100 (200 ∷ 300 ∷ [])
unfolding expire task_create simple_queue_add task_init
spent-NextLive = record { split = refl; dead = tt; live = refl; few = omega arith }

spent_slice : (spent.mem spent.current_task).time_slice ≤ 1
spent_slice = expire_slice trio

-- The idle task's slice is over, and it is first in the queue itself.
schedule_switches_example :
    Switched spent.mem spent.current_task 100 (200 ∷ 300 ∷ []) (task_schedule spent)
unfolding expire count_tick must_switch task_create simple_queue_add task_init
schedule_switches_example =
    schedule_switches spent (100 ∷ 200 ∷ []) [] 100 (200 ∷ 300 ∷ []) refl (omega arith)
      (inl spent_slice) spent-IsRing spent-NextLive

schedule_continues_example : (task_schedule trio).1 ≡ none
unfolding count_tick must_switch task_create simple_queue_add task_init
schedule_continues_example = (schedule_continues trio (100 ∷ 200 ∷ []) refl trio-IsRing).0

abbrev no_tasks : Sched
no_tasks = record reset { tasks = replicate 32 0 }

find_by_pid-create_example :
    let out = task_create (b'a' ∷ []) 7 200 5000 9 no_tasks in
    (out.0 ≡ 1) × (task_find_by_pid out.0 out.1 ≡ 200)
find_by_pid-create_example =
    find_by_pid-create (b'a' ∷ []) 7 200 5000 9 1 no_tasks (omega arith) (omega arith) (omega arith)
      refl refl (All-replicate (λ u. (u ≡ 0) ⊎ ((no_tasks.mem u).pid ≢ 1)) 32 0 (inl refl))
