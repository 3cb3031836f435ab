-- ===== src/Task/Ring.antt =====
-- The ready queue of task.c: a circular list through `next`, `ready_queue` its last member.
use vros.Base.{ne→==, ℕ, ◌≡◌, refl, ◌≢◌, sym, arith, List, [], ◌∷◌, ◌++◌, All}
use vros.Task.{Task, Sched, store, set_next, simple_queue_add}

-- From `a` the `next` pointers lead through `us` to `b`.
abbrev pub Segment : (ℕ → Task) → ℕ → List ℕ → ℕ → Type 0
Segment m a [] b = a ≡ b
Segment m a (u ∷ us) b = (a ≡ u) × Segment m (m u).next us b

abbrev pub Distinct : List ℕ → Type 0
Distinct [] = Unit {0}
Distinct (u ∷ us) = All (λ v. u ≢ v) us × Distinct us

-- Starting behind `rq` the queue is `us`, then `rq` itself, and round again.
pub record IsRing (m : ℕ → Task) (rq : ℕ) (us : List ℕ) : Type 0 where
  pub links : Segment m (m rq).next us rq
  pub apart : All (λ u. rq ≢ u) us
  pub distinct : Distinct us

-- The tasks of the queue in the order in which they get the processor.
abbrev pub order : List ℕ → ℕ → List ℕ
order us rq = us ++ rq ∷ []

pub Segment-frame :
    (m : ℕ → Task) (t : ℕ) (v : Task) (a : ℕ) (us : List ℕ) (b : ℕ)
    → All (λ u. t ≢ u) us
    → Segment m a us b
    → Segment (store m t v) a us b
Segment-frame m t v a [] b h g = g
Segment-frame m t v a (u ∷ us) b h g =
    let same : (store m t v u) ≡ m u = ground (arith, h.0) in
    (g.0, rw same (Segment-frame m t v (m u).next us b h.1 g.1))

-- A store that keeps the pointer `next` keeps every segment.
pub Segment-keep :
    (m : ℕ → Task) (t : ℕ) (v : Task) (a : ℕ) (us : List ℕ) (b : ℕ)
    → v.next ≡ (m t).next
    → Segment m a us b
    → Segment (store m t v) a us b
Segment-keep m t v a [] b e g = g
Segment-keep m t v a (u ∷ us) b e g =
    let same : (store m t v u).next ≡ (m u).next = ground arith in
    (g.0, rw same (Segment-keep m t v (m u).next us b e g.1))

pub Segment-snoc :
    (m : ℕ → Task) (a : ℕ) (us : List ℕ) (b c : ℕ)
    → Segment m a us b
    → (m b).next ≡ c
    → Segment m a (us ++ b ∷ []) c
Segment-snoc m a [] b c g e = (g, e)
Segment-snoc m a (u ∷ us) b c g e = (g.0, Segment-snoc m (m u).next us b c g.1 e)

pub All-snoc {ℓ κ} :
    {A : Type ℓ} (P : A → Type κ) (us : List A) (b : A) → All P us → P b → All P (us ++ b ∷ [])
All-snoc P [] b h k = (k, tt)
All-snoc P (u ∷ us) b h k = (h.0, All-snoc P us b h.1 k)

pub Distinct-snoc :
    (us : List ℕ) (b : ℕ) → Distinct us → All (λ u. b ≢ u) us → Distinct (us ++ b ∷ [])
Distinct-snoc [] b d h = (tt, tt)
Distinct-snoc (u ∷ us) b d h =
    (All-snoc (λ v. u ≢ v) us b d.0 (λ e. h.0 (sym e)), Distinct-snoc us b d.1 h.1)

-- A store that keeps `next` keeps the queue.
pub IsRing-keep :
    {m : ℕ → Task} {rq : ℕ} {us : List ℕ} (t : ℕ) (v : Task)
    → v.next ≡ (m t).next
    → IsRing m rq us
    → IsRing (store m t v) rq us
IsRing-keep {m} {rq} {us} t v e r = record {
  links =
      let same : (store m t v rq).next ≡ (m rq).next = ground arith in
      rw same (Segment-keep m t v (m rq).next us rq e r.links);
  apart = r.apart;
  distinct = r.distinct;
}

-- The queue turned by one place.
pub turn_one :
    {m : ℕ → Task} {rq u : ℕ} {us : List ℕ} → IsRing m rq (u ∷ us) → IsRing m u (order us rq)
turn_one {m} {rq} {u} {us} r = record {
  links = Segment-snoc m (m u).next us rq u r.links.1 r.links.0;
  apart = All-snoc (λ v. u ≢ v) us rq r.distinct.0 (λ e. r.apart.0 (sym e));
  distinct = Distinct-snoc us rq r.distinct.1 r.apart.1;
}

pub All-unsnoc {ℓ κ} :
    {A : Type ℓ} (P : A → Type κ) (us : List A) (b : A) → All P (us ++ b ∷ []) → All P us × P b
All-unsnoc P [] b h = (tt, h.0)
All-unsnoc P (u ∷ us) b h = let (low, last) = All-unsnoc P us b h.1 in ((h.0, low), last)

-- What the two stores of `simple_queue_add` do to the queue.
linked_in :
    (m : ℕ → Task) (t rq : ℕ) (us : List ℕ)
    → IsRing m rq us
    → All (λ u. t ≢ u) (order us rq)
    → IsRing (set_next (set_next m t (m rq).next) rq t) t (order us rq)
linked_in m t rq us r fresh = record {
  links = rw first (Segment-snoc m' (m rq).next us rq t kept last);
  apart = fresh;
  distinct = Distinct-snoc us rq r.distinct r.apart;
}
  where
    m1 : ℕ → Task
    m1 = set_next m t (m rq).next

    m' : ℕ → Task
    m' = set_next m1 rq t

    other : (All (λ u. t ≢ u) us) × (t ≢ rq)
    other = All-unsnoc (λ u. t ≢ u) us rq fresh

    first : (m' t).next ≡ (m rq).next
    first = ground (arith, other.1)

    last : (m' rq).next ≡ t
    last = ground arith

    kept : Segment m' (m rq).next us rq
    kept =
        Segment-frame m1 rq _ (m rq).next us rq r.apart
          (Segment-frame m t _ (m rq).next us rq other.0 r.links)

-- `simple_queue_add` on an empty queue makes a queue of the one task; on a queue that does not hold
-- the task it puts it last, leaving the order of the others.
pub add-empty :
    (t : ℕ) (s : Sched)
    → s.ready_queue ≡ 0
    → let s' = simple_queue_add t s in (s'.ready_queue ≡ t) × IsRing s'.mem t []
unfolding simple_queue_add
add-empty t s e = ground arith

-- On a queue that does not hold the task, simple_queue_add puts it last and leaves the order of the
-- others.
pub add-IsRing :
    (t : ℕ) (s : Sched) (us : List ℕ)
    → s.ready_queue ≢ 0
    → IsRing s.mem s.ready_queue us
    → All (λ u. t ≢ u) (order us s.ready_queue)
    → let s' = simple_queue_add t s in
      (s'.ready_queue ≡ t) × IsRing s'.mem t (order us s.ready_queue)
unfolding simple_queue_add
add-IsRing t s us ne r fresh =
    rw (ne→== s.ready_queue 0 ne) (refl, linked_in s.mem t s.ready_queue us r fresh)
