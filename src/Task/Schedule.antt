-- ===== src/Task/Schedule.antt =====
-- `task_schedule` of task.c: round robin over the queue, past the zombies.
use vros.Base.{
  ==_refl, ◌⊎◌, ◌||◌, not, some, inr, none, inl, Bool-cases, Option, ℕ, zero, suc, ◌≤◌, ◌≡◌, refl,
  ap, ◌≢◌, ◌∙◌, sym, true, false, ◌==◌, arith, if◌then◌else◌, List, [], ◌∷◌, ◌++◌, All, length,
}
use mathlib.Core.List.{append-nil, append_assoc}
use vros.Task.{
  Task, Sched, TaskState, is_zombie, is_running, skip_zombies, start_task, stop_task, pick_next,
  count_tick, must_switch, task_schedule, time_slice_ticks,
}
use vros.Task.Ring.{IsRing, order, turn_one, IsRing-keep}

-- `zs` are zombies, `t` is none, and the queue's order is `zs`, `t`, `vs`.
pub record NextLive (m : ℕ → Task) (rq : ℕ) (us zs : List ℕ) (t : ℕ) (vs : List ℕ) : Type 0 where
  pub split : order us rq ≡ zs ++ t ∷ vs
  pub dead : All (λ z. is_zombie (m z).state ≡ true) zs
  pub live : is_zombie (m t).state ≡ false
  pub few : length zs ≤ 32

-- The head of the queue's order is what `ready_queue->next` points to.
pub next-head :
    {m : ℕ → Task} {rq : ℕ} (us : List ℕ) {x : ℕ} (l : List ℕ)
    → IsRing m rq us
    → order us rq ≡ x ∷ l
    → (m rq).next ≡ x
next-head [] l r e = r.links ∙ (cc)
next-head (u ∷ us) l r e = r.links.0 ∙ (cc)

append-ne-nil : (zs : List ℕ) (t : ℕ) (vs : List ℕ) → [] ≡ zs ++ t ∷ vs → ⊥
append-ne-nil [] t vs e = cc
append-ne-nil (z ∷ zs) t vs e = cc

stays :
    (n : ℕ) (m : ℕ → Task) (rq : ℕ)
    → is_zombie (m (m rq).next).state ≡ false
    → skip_zombies n m rq ≡ rq
unfolding skip_zombies
stays zero m rq e = refl
stays (suc n) m rq e = rw e

-- The loop over zombies stops before the first live task, with the queue turned so that it follows.
skip_to_live :
    (n : ℕ) (m : ℕ → Task) (rq : ℕ) (us zs : List ℕ) (t : ℕ) (vs : List ℕ)
    → IsRing m rq us
    → order us rq ≡ zs ++ t ∷ vs
    → All (λ z. is_zombie (m z).state ≡ true) zs
    → is_zombie (m t).state ≡ false
    → length zs ≤ n
    → let rq' = skip_zombies n m rq in
      (us' : List ℕ) × IsRing m rq' us' × (order us' rq' ≡ t ∷ vs ++ zs)
unfolding skip_zombies
skip_to_live n m rq us [] t vs r e dead live few =
    let next_live : is_zombie (m (m rq).next).state ≡ false = rw (next-head us vs r e) live in
    rw (stays n m rq next_live) (us, r, e ∙ sym (append-nil (t ∷ vs)))
skip_to_live zero m rq us (z ∷ zs) t vs r e dead live few = absurd (omega arith)
skip_to_live (suc n) m rq [] (z ∷ zs) t vs r e dead live few = absurd (append-ne-nil zs t vs (cc))
skip_to_live (suc n) m rq (u ∷ us) (z ∷ zs) t vs r e dead live few =
    let next : (m rq).next ≡ u = r.links.0 in
    let same : u ≡ z = cc in
    let dead_next : is_zombie (m (m rq).next).state ≡ true = rw (next, same) dead.0 in
    let rest : order us rq ≡ zs ++ t ∷ vs = cc in
    let turned : order (order us rq) u ≡ zs ++ t ∷ (vs ++ z ∷ []) =
      rw (same, rest) (append_assoc zs (t ∷ vs) (z ∷ [])) in
    let (us', r', e') =
      skip_to_live n m u (order us rq) zs t (vs ++ z ∷ []) (turn_one r) turned dead.1 live
        (omega arith) in
    rw (dead_next, next) (us', r', e' ∙ ap (◌∷◌ t) (append_assoc vs (z ∷ []) zs))

-- The queue turned until `x`, its first member, is its last.
turn_to :
    {m : ℕ → Task} {rq : ℕ} (us : List ℕ) {x : ℕ} (l : List ℕ)
    → IsRing m rq us
    → order us rq ≡ x ∷ l
    → IsRing m x l
turn_to {m} {rq} [] {x} l r e =
    let same : rq ≡ x = cc in let nil : [] ≡ l = cc in rw (← same, ← nil) r
turn_to {m} {rq} (u ∷ us) {x} l r e =
    let same : u ≡ x = cc in let rest : order us rq ≡ l = cc in rw (← same, ← rest) (turn_one r)

start-IsRing :
    {m : ℕ → Task} {rq : ℕ} {us : List ℕ} (p : ℕ) → IsRing m rq us → IsRing (start_task m p) rq us
unfolding start_task
start-IsRing {m} p r = elim (Bool-cases (is_zombie (m p).state)) [
  | inl e ↦ rw e r
  | inr e ↦ rw e (IsRing-keep p _ refl r)
]

stop-IsRing :
    {m : ℕ → Task} {rq : ℕ} {us : List ℕ} (p : ℕ) → IsRing m rq us → IsRing (stop_task m p) rq us
unfolding stop_task
stop-IsRing {m} p r = elim (Bool-cases (is_running (m p).state)) [
  | inl e ↦ rw e (IsRing-keep p _ refl r)
  | inr e ↦ rw e r
]

-- What a switch away from `old` to the live task `t` leaves: `t` is current and last in the queue
-- `us`, it has a fresh time slice and runs, and the other tasks but `old` are as they were. Where
-- `t` is `old` itself, it ends up ready instead of running.
pub record Switched (m : ℕ → Task) (old t : ℕ) (us : List ℕ) (out : Sched × Option (ℕ × ℕ))
    : Type 0 where
  pub current : out.0.current_task ≡ t
  pub last : out.0.ready_queue ≡ t
  pub ring : IsRing out.0.mem t us
  pub slice : (out.0.mem t).time_slice ≡ time_slice_ticks
  pub state : (out.0.mem t).state ≡ (if old == t then TaskState.ready else TaskState.running)
  pub old_state :
      old ≢ t
      → (out.0.mem old).state
        ≡ (if is_running (m old).state then TaskState.ready else (m old).state)
  pub frame : (q : ℕ) → q ≢ old → q ≢ t → out.0.mem q ≡ m q
  pub switch : out.1 ≡ (if old == t then none else some (old, t))
  pub enabled : out.0.tasking_enabled ≡ true

module _ (m : ℕ → Task) (old t : ℕ) (live : is_zombie (m t).state ≡ false) where
  after_slice : (stop_task (start_task m t) old t).time_slice ≡ time_slice_ticks
  unfolding stop_task start_task
  after_slice = ground arith

  after_state :
      (stop_task (start_task m t) old t).state
      ≡ (if old == t then TaskState.ready else TaskState.running)
  unfolding stop_task start_task
  after_state = ground arith

  after_old_state :
      old ≢ t
      → (stop_task (start_task m t) old old).state
        ≡ (if is_running (m old).state then TaskState.ready else (m old).state)
  unfolding stop_task start_task
  after_old_state ne = ground arith

  after_frame : (q : ℕ) → q ≢ old → q ≢ t → stop_task (start_task m t) old q ≡ m q
  unfolding stop_task start_task
  after_frame q p p' = ground arith

pick-Switched :
    (s : Sched) (us zs : List ℕ) (t : ℕ) (vs : List ℕ)
    → s.tasking_enabled ≡ true
    → IsRing s.mem s.ready_queue us
    → NextLive s.mem s.ready_queue us zs t vs
    → Switched s.mem s.current_task t (vs ++ zs) (pick_next s)
unfolding pick_next
pick-Switched s us zs t vs on r n =
    let (us', r', e) =
      skip_to_live 32 s.mem s.ready_queue us zs t vs r n.split n.dead n.live n.few in
    rw (next-head us' (vs ++ zs) r' e) (record {
      current = refl;
      last = refl;
      ring = stop-IsRing s.current_task (start-IsRing t (turn_to us' (vs ++ zs) r' e));
      slice = after_slice s.mem s.current_task t n.live;
      state = after_state s.mem s.current_task t n.live;
      old_state = after_old_state s.mem s.current_task t n.live;
      frame = after_frame s.mem s.current_task t n.live;
      switch = refl;
      enabled = on;
    })

-- The accounting of a tick leaves the queue and the states as they are.
tick-IsRing :
    (s : Sched) (us : List ℕ)
    → IsRing s.mem s.ready_queue us
    → IsRing (count_tick s).mem (count_tick s).ready_queue us
unfolding count_tick
tick-IsRing s us r = IsRing-keep s.current_task _ refl r

pub tick-state : (s : Sched) (q : ℕ) → ((count_tick s).mem q).state ≡ (s.mem q).state
unfolding count_tick
tick-state s q = ground arith

tick-NextLive :
    (s : Sched) (us zs : List ℕ) (t : ℕ) (vs : List ℕ)
    → NextLive s.mem s.ready_queue us zs t vs
    → NextLive (count_tick s).mem (count_tick s).ready_queue us zs t vs
unfolding count_tick
tick-NextLive s us zs t vs n = record {
  split = n.split;
  dead = All_states zs n.dead;
  live = ap is_zombie (tick-state s t) ∙ n.live;
  few = n.few;
}
  where
    All_states :
        (zs : List ℕ)
        → All (λ z. is_zombie (s.mem z).state ≡ true) zs
        → All (λ z. is_zombie ((count_tick s).mem z).state ≡ true) zs
    All_states [] h = tt
    All_states (z ∷ zs) h = (ap is_zombie (tick-state s z) ∙ h.0, All_states zs h.1)

due-schedule :
    (s : Sched)
    → s.tasking_enabled ≡ true
    → s.ready_queue ≢ 0
    → must_switch (count_tick s) ≡ true
    → task_schedule s ≡ pick_next (count_tick s)
unfolding task_schedule
due-schedule s on ne due = ground arith

tick_fields :
    (s : Sched)
    → ((count_tick s).tasking_enabled ≡ s.tasking_enabled)
      × ((count_tick s).current_task ≡ s.current_task)
      × ((count_tick s).ready_queue ≡ s.ready_queue)
unfolding count_tick
tick_fields s = (refl, refl, refl)

-- After the tick, a slice of at most one tick is used up.
trigger :
    (s : Sched)
    → ((s.mem s.current_task).time_slice ≤ 1)
      ⊎ (((s.mem s.current_task).state ≡ TaskState.zombie)
          ⊎ ((s.mem s.current_task).state ≡ TaskState.blocked))
    → must_switch (count_tick s) ≡ true
unfolding count_tick must_switch
trigger s (inl used) = ground (arith, used, ==_refl s.current_task)
trigger s (inr (inl ended)) = rw (==_refl s.current_task, ended) (ground arith)
trigger s (inr (inr waits)) = rw (==_refl s.current_task, waits) (ground arith)

tick_frame : (s : Sched) (q : ℕ) → q ≢ s.current_task → (count_tick s).mem q ≡ s.mem q
unfolding count_tick
tick_frame s q ne = ground arith

-- The same of the memory before the tick, which charges the current task alone.
Switched-before :
    (s : Sched) (t : ℕ) (us : List ℕ) (out : Sched × Option (ℕ × ℕ))
    → Switched (count_tick s).mem (count_tick s).current_task t us out
    → Switched s.mem s.current_task t us out
unfolding count_tick
Switched-before s t us out k = record {
  current = k.current;
  last = k.last;
  ring = k.ring;
  slice = k.slice;
  state = k.state;
  old_state = λ ne.
      k.old_state ne
      ∙ ap (λ x. if is_running x then TaskState.ready else x) (tick-state s s.current_task);
  frame = λ q ne ne'. k.frame q ne ne' ∙ tick_frame s q ne;
  switch = k.switch;
  enabled = k.enabled;
}

-- If the scheduler is on and there is a queue, and the current task has at most one tick of its
-- time slice left or is a zombie or blocked: task_schedule skips up to 32 zombies at the front of
-- the queue, passes the processor to the live task behind them with a fresh time slice, and turns
-- the queue so that this task is last; a task that is chosen while it is current ends up ready
-- instead of running, and all tasks but these two are as before.
pub schedule_switches :
    (s : Sched) (us zs : List ℕ) (t : ℕ) (vs : List ℕ)
    → s.tasking_enabled ≡ true
    → s.ready_queue ≢ 0
    → ((s.mem s.current_task).time_slice ≤ 1)
      ⊎ (((s.mem s.current_task).state ≡ TaskState.zombie)
          ⊎ ((s.mem s.current_task).state ≡ TaskState.blocked))
    → IsRing s.mem s.ready_queue us
    → NextLive s.mem s.ready_queue us zs t vs
    → Switched s.mem s.current_task t (vs ++ zs) (task_schedule s)
schedule_switches s us zs t vs on ne due r n = rw (due-schedule s on ne (trigger s due)) (
    Switched-before s t (vs ++ zs) (pick_next (count_tick s)) (
      pick-Switched (count_tick s) us zs t vs ((tick_fields s).0 ∙ on) (tick-IsRing s us r)
        (tick-NextLive s us zs t vs n)))

-- While the time slice lasts and the current task neither ended nor blocked, `task_schedule` makes no
-- switch, and changes no state and no queue.
pub schedule_continues :
    (s : Sched) (us : List ℕ)
    → must_switch (count_tick s) ≡ false
    → IsRing s.mem s.ready_queue us
    → let s' = (task_schedule s).0 in
      ((task_schedule s).1 ≡ none)
      × (s'.current_task ≡ s.current_task)
      × IsRing s'.mem s'.ready_queue us
      × ((q : ℕ) → (s'.mem q).state ≡ (s.mem q).state)
unfolding task_schedule
schedule_continues s us due r = elim (Bool-cases (not s.tasking_enabled || s.ready_queue == 0)) [
  | inl off ↦ rw off (refl, refl, r, λ q. refl)
  | inr on ↦ rw (on, due) (refl, (tick_fields s).1, tick-IsRing s us r, tick-state s)
]
