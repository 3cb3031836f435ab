-- ===== src/Task/Calls.antt =====
-- The calls of task.c besides scheduling: search by pid, priorities, the end of a task, and the calls
-- that it leaves to the other scheduler.
use vros.Base.{
  Bool-cases, ℕ, zero, suc, ◌+◌, ◌≤◌, ◌<◌, ◌≡◌, refl, ◌≢◌, ◌⊎◌, inl, inr, ◌&&◌, not, Option, none,
  List, [], ◌∷◌, arith, length, get_or, set, All, ◌==◌, if◌then◌else◌,
}
use vros.Task.{
  Task, TaskState, Priority, Sched, store, set_state, simple_queue_add, add_to_tasks, task_create,
}

-- The loop of `task_find_by_pid`.
pub find_pid : ℕ → (ℕ → Task) → List ℕ → ℕ
find_pid pid m [] = 0
find_pid pid m (t ∷ ts) =
    let rest = find_pid pid m ts in if not (t == 0) && (m t).pid == pid then t else rest

pub task_find_by_pid : ℕ → Sched → ℕ
task_find_by_pid pid s = find_pid pid s.mem s.tasks

pub task_set_priority : ℕ → Priority → Sched → Sched
task_set_priority t priority s = if t == 0 then s else record s {
  mem = store s.mem t (record (s.mem t) { priority = priority; base_priority = priority });
}

pub task_get_priority : ℕ → Sched → Priority
task_get_priority t s = if t == 0 then Priority.idle else (s.mem t).priority

-- The state in which `task_exit` waits to be switched away from; the exit code is not kept.
pub task_exit : ℕ → Sched → Sched
task_exit exit_code s = record s { mem = set_state s.mem s.current_task TaskState.zombie }

-- The calls that have no effect, or fail at once.
pub task_sleep : ℕ → Sched → Sched
task_sleep ticks s = s

pub task_wake : ℕ → Sched → Sched
task_wake t s = s

pub task_fork_with_regs : Sched → Option ℕ × Sched
task_fork_with_regs s = (none, s)

pub task_waitpid : ℕ → Sched → Option ℕ × Sched
task_waitpid pid s = (none, s)

-- The new task takes a free slot from `i` on, if there is one.
add_to_tasks_lem :
    (n i j t : ℕ) (tasks : List ℕ)
    → i ≤ j
    → j < i + n
    → j < length tasks
    → get_or tasks j 0 ≡ 0
    → (k : ℕ) × (k < length tasks) × (add_to_tasks n i t tasks ≡ set tasks k t)
unfolding add_to_tasks
add_to_tasks_lem zero i j t tasks le lt within free = absurd (omega arith)
add_to_tasks_lem (suc n) i j t tasks le lt within free = elim (Bool-cases (get_or tasks i 0 == 0)) [
  | inl here ↦ (i, omega arith, rw here refl)
  | inr not_here ↦
      let ne : i ≢ j = λ e. ground (arith, e, free, not_here) in
      let (k, lt', same) =
        add_to_tasks_lem n (i + 1) j t tasks (omega arith) (omega arith) within free in
      (k, lt', rw not_here same)
]

-- No task in the table has the pid.
abbrev pub NoPid : ℕ → (ℕ → Task) → List ℕ → Type 0
NoPid pid m ts = All (λ u. (u ≡ 0) ⊎ ((m u).pid ≢ pid)) ts

find_pid-set :
    (pid t k : ℕ) (m m' : ℕ → Task) (ts : List ℕ)
    → NoPid pid m ts
    → ((u : ℕ) → t ≢ u → (m' u).pid ≡ (m u).pid)
    → (m' t).pid ≡ pid
    → t ≢ 0
    → k < length ts
    → find_pid pid m' (set ts k t) ≡ t
unfolding find_pid
find_pid-set pid t k m m' [] fresh kept new ne lt = absurd (omega arith)
find_pid-set pid t zero m m' (u ∷ ts) fresh kept new ne lt = ground (arith, new)
find_pid-set pid t (suc k) m m' (u ∷ ts) fresh kept new ne lt =
    let rest = find_pid-set pid t k m m' ts fresh.1 kept new ne (omega arith) in
    ground (arith, rest, fresh.0, kept u)

-- A task that task_create makes is found by its pid, if the table has room and no task in it has
-- that pid.
pub find_by_pid-create :
    (name : List ℕ) (entry_point t stack directory j : ℕ) (s : Sched)
    → t ≢ 0
    → 1 ≤ j
    → j < 32
    → length s.tasks ≡ 32
    → get_or s.tasks j 0 ≡ 0
    → NoPid s.next_pid s.mem s.tasks
    → let (pid, s') = task_create name entry_point t stack directory s in
      (pid ≡ s.next_pid) × (task_find_by_pid pid s' ≡ t)
unfolding task_create task_find_by_pid simple_queue_add
find_by_pid-create name entry_point t stack directory j s ne low high table free fresh =
    let (k, lt, same) = add_to_tasks_lem 31 1 j t s.tasks low (omega arith) (omega arith) free in
    let s' = (task_create name entry_point t stack directory s).1 in
    let slots : s'.tasks ≡ set s.tasks k t = ground (arith, same) in
    let kept : (u : ℕ) → t ≢ u → (s'.mem u).pid ≡ (s.mem u).pid = λ u other. ground arith in
    let new : (s'.mem t).pid ≡ s.next_pid = ground arith in
    let found = find_pid-set s.next_pid t k s.mem s'.mem s.tasks fresh kept new ne lt in
    let pid : (task_create name entry_point t stack directory s).0 ≡ s.next_pid = ground arith in
    (pid, rw (pid, slots) found)
