-- ===== src/Ioport/Tests.antt =====
-- Two tasks: the current one, at 100, has no map yet, the other, at 200, has one in the heap at 1012.
use vros.Base.{
  ℕ, ◌≡◌, refl, Bool, true, false, ◌&&◌, ◌||◌, not, [], ◌∷◌, ◌++◌, arith, leb, ◌==◌, if◌then◌else◌,
}
use vros.Task.{Task}
use vros.Task.Tests.{blank}
use vros.Kmalloc.{Block, store}
use vros.Kmalloc.Live.{Holds}
use vros.Ioport.{
  Ioport, no_ports, ioport_grant_access, ioport_revoke_access, ioport_check_access,
  ioport_load_current_task_iopb,
}
use vros.Ioport.Maps.{no_ports-IsMap, permits}
use vros.Ioport.Access.{IsIoport, granted, grant_lem, revoke_lem, load_lem}
use vros.Ioport.Isolation.{as_task, grant_isolated}

abbrev tasks_mem : ℕ → Task
tasks_mem t = if t == 200 then record blank { iopb = 1012 } else blank

abbrev block : ℕ → Bool → ℕ → Block
block s f n = record { size = s; is_free = f; next = n }

abbrev two_tasks : Ioport
two_tasks = record {
  sched = record {
    mem = tasks_mem;
    tasks = 100 ∷ 200 ∷ [];
    current_task = 100;
    ready_queue = 100;
    next_pid = 2;
    tasking_enabled = true;
    global_ticks = 0;
  };
  heap = record {
    mem =
        store (store (λ q. block 0 false 0) 1000 (block 8192 false 9204)) 9204 (block 11784 true 0);
    heap_start = 1000;
    heap_size = 20000;
  };
  maps = λ q. no_ports;
  tss = record {
    prev_tss = 0;
    esp0 = 0;
    ss0 = 0;
    esp1 = 0;
    ss1 = 0;
    esp2 = 0;
    ss2 = 0;
    cr3 = 0;
    eip = 0;
    eflags = 0;
    eax = 0;
    ecx = 0;
    edx = 0;
    ebx = 0;
    esp = 0;
    ebp = 0;
    esi = 0;
    edi = 0;
    es = 0;
    cs = 0;
    ss = 0;
    ds = 0;
    fs = 0;
    gs = 0;
    ldt = 0;
    trap = 0;
    iomap_base = 0;
  };
  iopb = no_ports;
}

two_tasks-IsIoport : IsIoport two_tasks
two_tasks-IsIoport t ne = no_ports-IsMap

two_tasks-Holds : Holds two_tasks.heap ([] ++ (1012, 8192) ∷ [])
two_tasks-Holds = record {
  pieces = record { size = 8192; is_free = false } ∷ record { size = 11784; is_free = true } ∷ [];
  heap = record {
    tiles = (refl, (refl, refl));
    some_bytes = omega arith;
    not_low = omega arith;
    in_memory = omega arith;
  };
  in_use = refl;
}

grant_lem_example :
    let s' = (ioport_grant_access 0x1F0 0x1F7 two_tasks).1 in
    let ok = (ioport_grant_access 0x1F0 0x1F7 two_tasks).0 in
    IsIoport s'
    × (ok ≡ granted 0x1F0 0x1F7 two_tasks)
    × (ioport_check_access 0x1F5 s'
        ≡ ((ok && (leb 0x1F0 0x1F5 && leb 0x1F5 0x1F7)) || ioport_check_access 0x1F5 two_tasks))
grant_lem_example =
    grant_lem 0x1F0 0x1F7 0x1F5 two_tasks two_tasks-IsIoport (omega arith) (omega arith)

revoke_lem_example :
    let s' = (ioport_revoke_access 0x1F0 0x1F7 (as_task 200 two_tasks)).1 in
    let ok = (ioport_revoke_access 0x1F0 0x1F7 (as_task 200 two_tasks)).0 in
    IsIoport s'
    × ((q : ℕ)
        → ioport_check_access q s' ≡ (
            not (ok && (leb 0x1F0 q && leb q 0x1F7))
            && ioport_check_access q (as_task 200 two_tasks)))
revoke_lem_example = revoke_lem 0x1F0 0x1F7 (as_task 200 two_tasks) two_tasks-IsIoport (omega arith)

load_lem_example :
    permits (ioport_load_current_task_iopb two_tasks).iopb 0x60 ≡ ioport_check_access 0x60 two_tasks
load_lem_example = load_lem 0x60 two_tasks (omega arith)

grant_isolated_example :
    ioport_check_access 0x60 (as_task 200 (ioport_grant_access 0x60 0x64 two_tasks).1)
    ≡ ioport_check_access 0x60 (as_task 200 two_tasks)
grant_isolated_example =
    grant_isolated 0x60 0x64 two_tasks 200 0x60 [] 8192 [] (omega arith) (omega arith) (omega arith)
      two_tasks-Holds (omega arith)
