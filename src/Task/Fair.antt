-- ===== src/Task/Fair.antt =====
-- Fairness of the scheduler of task.c: repeated `task_yield` reaches every task of the queue.
use mathlib.Core.List.{append-nil, append_assoc}
use vros.Base.{
  ==_refl, inl, ◌≤◌, subst, Option, Option, ℕ, zero, suc, ◌≡◌, refl, ap, ◌≢◌, ◌∙◌, true, false,
  arith, List, [], ◌∷◌, ◌++◌, All, length,
}
use vros.Task.{Task, Sched, is_zombie, task_schedule, task_yield, expire}
use vros.Task.Ring.{IsRing, order, IsRing-keep, All-snoc}
use vros.Task.Schedule.{NextLive, Switched, schedule_switches}

-- A task that can be run: it exists and is no zombie.
abbrev pub Live : (ℕ → Task) → ℕ → Type 0
Live m q = (q ≢ 0) × (is_zombie (m q).state ≡ false)

-- The scheduler is on, and its queue is `us`, then `ready_queue`, all live.
pub record IsFair (s : Sched) (us : List ℕ) : Type 0 where
  pub on : s.tasking_enabled ≡ true
  pub ring : IsRing s.mem s.ready_queue us
  pub live : All (Live s.mem) (order us s.ready_queue)

pub yields : ℕ → Sched → Sched
yields zero s = s
yields (suc n) s = yields n (task_yield s).0

Switched-live :
    {m : ℕ → Task} {old t : ℕ} {us : List ℕ} {out : Sched × Option (ℕ × ℕ)} (q : ℕ)
    → Switched m old t us out
    → is_zombie (m q).state ≡ false
    → is_zombie (out.0.mem q).state ≡ false
Switched-live {m} {old} {t} q w h = ground (arith, w.frame q)

All-map : {P Q : ℕ → Type 0} (us : List ℕ) → ((q : ℕ) → P q → Q q) → All P us → All Q us
All-map [] f h = tt
All-map (u ∷ us) f h = (f u h.0, All-map us f h.1)

rq-ne-zero : (m : ℕ → Task) (us : List ℕ) (rq : ℕ) → All (Live m) (order us rq) → rq ≢ 0
rq-ne-zero m [] rq h = h.0.0
rq-ne-zero m (u ∷ us) rq h = rq-ne-zero m us rq h.1

yield-schedule : (s : Sched) → s.tasking_enabled ≡ true → task_yield s ≡ task_schedule (expire s)
unfolding task_yield
yield-schedule s on = ground arith

-- `task_yield` makes `task_schedule` switch, and keeps the queue and the states.
expire_lem :
    (s : Sched) (us : List ℕ)
    → IsFair s us
    → IsRing (expire s).mem (expire s).ready_queue us
      × ((q : ℕ) → ((expire s).mem q).state ≡ (s.mem q).state)
unfolding expire
expire_lem s us f = (IsRing-keep s.current_task _ refl f.ring, λ q. ground arith)

pub expire_slice : (s : Sched) → ((expire s).mem (expire s).current_task).time_slice ≤ 1
unfolding expire
expire_slice s = ground (arith, ==_refl s.current_task)

expire_fields :
    (s : Sched)
    → ((expire s).tasking_enabled ≡ s.tasking_enabled) × ((expire s).ready_queue ≡ s.ready_queue)
unfolding expire
expire_fields s = (refl, refl)

order-live :
    (P : ℕ → Type 0) (us : List ℕ) (rq : ℕ) {x : ℕ} {l : List ℕ}
    → order us rq ≡ x ∷ l
    → All P (order us rq)
    → P x × All P (order l x)
order-live P us rq {x} {l} e h =
    let g : All P (x ∷ l) = subst (All P) e h in (g.0, All-snoc P l x g.1 g.0)

-- `task_yield` makes the first task of the queue current and moves it to the end.
yield-IsFair :
    (s : Sched) (us : List ℕ) (x : ℕ) (l : List ℕ)
    → IsFair s us
    → order us s.ready_queue ≡ x ∷ l
    → let s' = (task_yield s).0 in (s'.current_task ≡ x) × (s'.ready_queue ≡ x) × IsFair s' l
yield-IsFair s us x l f e = rw (yield-schedule s f.on) (
  sw.current,
  sw.last,
  record {
    on = sw.enabled;
    ring = rw (sw.last, ← append-nil l) sw.ring;
    live =
        rw sw.last
          (All-map (order l x) still (order-live (Live s.mem) us s.ready_queue e f.live).1);
  },
)
  where
    first : Live s.mem x
    first = (order-live (Live s.mem) us s.ready_queue e f.live).0

    n : NextLive (expire s).mem (expire s).ready_queue us [] x l
    n = record {
      split = rw (expire_fields s).1 e;
      dead = tt;
      live = ap is_zombie ((expire_lem s us f).1 x) ∙ first.1;
      few = omega arith;
    }

    sw : Switched (expire s).mem (expire s).current_task x (l ++ []) (task_schedule (expire s))
    sw =
        schedule_switches (expire s) us [] x l ((expire_fields s).0 ∙ f.on)
          (rw (expire_fields s).1 (rq-ne-zero s.mem us s.ready_queue f.live)) (inl (expire_slice s))
          (expire_lem s us f).0 n

    still : (q : ℕ) → Live s.mem q → Live (task_schedule (expire s)).0.mem q
    still q h = (h.0, Switched-live q sw (ap is_zombie ((expire_lem s us f).1 q) ∙ h.1))

-- If the scheduler is on and no task of the queue is a zombie, n + 1 calls of task_yield give the
-- processor to the task that stands behind n others in the queue.
pub round_robin :
    (xs : List ℕ) (s : Sched) (us : List ℕ) (t : ℕ) (ys : List ℕ)
    → IsFair s us
    → order us s.ready_queue ≡ xs ++ t ∷ ys
    → (yields (suc (length xs)) s).current_task ≡ t
unfolding yields
round_robin [] s us t ys f e = (yield-IsFair s us t ys f e).0
round_robin (x ∷ xs) s us t ys f e =
    let (_, last, f') = yield-IsFair s us x (xs ++ t ∷ ys) f e in
    round_robin xs (task_yield s).0 (xs ++ t ∷ ys) t (ys ++ x ∷ []) f'
      (rw last (append_assoc xs (t ∷ ys) (x ∷ [])))
