-- ===== src/Ioport/Isolation.antt =====
-- The other tasks of ioport.c keep their permissions: the heap gives a new map its own bytes.
use vros.Base.{ℕ, ◌<◌, ◌≡◌, ◌≢◌, inl, inr, List, [], ◌∷◌, ◌++◌, arith, All}
use vros.Kmalloc.{kmalloc}
use vros.Kmalloc.Live.{Holds}
use vros.Kmalloc.Use.{Clear, kmalloc_safe}
use vros.Ioport.{
  Ioport, iopb_size, iopb_of, current, ensure_iopb, ioport_grant_access, ioport_check_access,
}

All-middle {ℓ κ} :
    {A : Type ℓ} (P : A → Type κ) (xs : List A) (y : A) (ys : List A) → All P (xs ++ y ∷ ys) → P y
All-middle P [] y ys h = h.0
All-middle P (x ∷ xs) y ys h = All-middle P xs y ys h.1

-- `kmalloc` of a map does not return a block in use.
kmalloc-ne :
    (s : Ioport) (us : List (ℕ × ℕ)) (p n : ℕ) (vs : List (ℕ × ℕ))
    → Holds s.heap (us ++ (p, n) ∷ vs)
    → 0 < n
    → p ≢ 0
    → (kmalloc iopb_size s.heap).0 ≢ p
kmalloc-ne s us p n vs k pos ne =
    elim (kmalloc_safe iopb_size s.heap (us ++ (p, n) ∷ vs) k (omega arith) (omega arith)) [
      | inl (null, same) ↦ omega (arith, null)
      | inr (m, xs, ys, split, holds, fit, low, high, clear) ↦
          let apart : Clear (kmalloc iopb_size s.heap).0 m (p, n) =
            All-middle _ us (p, n) vs clear in
          ground (arith, apart)
    ]

-- The state as the task `t` finds it when it runs.
abbrev pub as_task : ℕ → Ioport → Ioport
as_task t s = record s { sched = record s.sched { current_task = t } }

-- A grant to the current task changes no permission of another task whose bitmap is a block of the
-- heap in use, other than the current task's.
pub grant_isolated :
    (a b : ℕ) (s : Ioport) (t q : ℕ) (us : List (ℕ × ℕ)) (n : ℕ) (vs : List (ℕ × ℕ))
    → t ≢ current s
    → iopb_of s t ≢ 0
    → iopb_of s t ≢ iopb_of s (current s)
    → Holds s.heap (us ++ (iopb_of s t, n) ∷ vs)
    → 0 < n
    → ioport_check_access q (as_task t (ioport_grant_access a b s).1)
      ≡ ioport_check_access q (as_task t s)
unfolding ioport_grant_access ioport_check_access ensure_iopb
grant_isolated a b s t q us n vs other mapped apart k pos =
    ground (arith, kmalloc-ne s us (iopb_of s t) n vs k pos mapped)
