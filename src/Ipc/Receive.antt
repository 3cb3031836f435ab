-- ===== src/Ipc/Receive.antt =====
-- `ipc_try_recv` and `ipc_recv` of ipc.c.
use vros.Base.{
  ℕ, ◌≤◌, ◌<◌, ◌≡◌, refl, ap, ◌≢◌, ◌∙◌, true, false, arith, List, [], ◌∷◌, length, get_or,
  length-set, get_or-set_self, get_or-set_ne, All-set, ◌⊎◌, inl, inr,
}
use vros.Ipc.{
  Message, Ipc, Received, no_message, dequeue, max_ports, no_port, port_at, current_pid,
  read_message, take_message, ipc_try_recv, ipc_recv, block_on,
}
use vros.Ipc.Queue.{contents, IsPort, IsIpc, length-contents, contents-dequeue, dequeue-IsPort}
use vros.Ipc.Send.{port_at-IsPort}

-- The caller may receive at the port: it is in use, and the caller's own.
pub record Owns (s : Ipc) (i : ℕ) : Type 0 where
  pub index : i < max_ports
  pub used : (port_at s i).in_use ≡ true
  pub owner : (port_at s i).owner_pid ≡ current_pid s

-- What a receive takes: the oldest message, copied into the caller's buffer. The other ports stay
-- as they are.
pub record Takes (s : Ipc) (i : ℕ) (msg m : Message) (rest : List Message)
    (out : Received × Message × Ipc) : Type 0 where
  pub result : out.0 ≡ Received.received
  pub read : out.1 ≡ read_message m msg
  pub left : contents (port_at out.2 i) ≡ rest
  pub frame : (j : ℕ) → i ≢ j → port_at out.2 j ≡ port_at s j
  pub sched : out.2.sched ≡ s.sched

-- A non-blocking receive at an index outside the table, at a port that is not in use, or at another
-- process's port fails and changes nothing.
pub try_recv_denied :
    (i : ℕ) (msg : Message) (s : Ipc)
    → (max_ports ≤ i) ⊎ ((port_at s i).in_use ≡ false) ⊎ ((port_at s i).owner_pid ≢ current_pid s)
    → ipc_try_recv i msg s ≡ (Received.failed, msg, s)
unfolding ipc_try_recv
try_recv_denied i msg s h = ground arith

module _ (i : ℕ) (msg : Message) (s : Ipc) (v : IsIpc s) (h : i < max_ports) where
  pub take-Takes :
      (m : Message) (rest : List Message)
      → contents (port_at s i) ≡ m ∷ rest
      → Takes s i msg m rest (take_message i msg s)
  unfolding take_message
  take-Takes m rest e =
      let ne : (port_at s i).queue_count ≢ 0 =
        omega (arith, ap length e, length-contents (port_at s i)) in
      let split = contents-dequeue (port_at s i) ne in
      let head : get_or (port_at s i).queue (port_at s i).queue_head no_message ≡ m = cc in
      let tail : contents (dequeue (port_at s i)) ≡ rest = cc in
      record {
        result = refl;
        read = ap (λ x. read_message x msg) head;
        left =
            rw
              (get_or-set_self s.ports i (dequeue (port_at s i)) no_port
                (omega (arith, v.table, h)))
              tail;
        frame = λ j ne'. get_or-set_ne s.ports i j _ no_port ne';
        sched = refl;
      }

  take-IsIpc : (port_at s i).queue_count ≢ 0 → IsIpc (take_message i msg s).2
  unfolding take_message
  take-IsIpc ne = record {
    table = length-set s.ports i _ ∙ v.table;
    each =
        All-set IsPort s.ports i _ v.each (dequeue-IsPort (port_at s i) (port_at-IsPort i v h) ne);
  }

module _ (i : ℕ) (msg : Message) (s : Ipc) (v : IsIpc s) (o : Owns s i) where
  try_recv_empty : (port_at s i).queue_count ≡ 0 → ipc_try_recv i msg s ≡ (Received.empty, msg, s)
  unfolding ipc_try_recv
  try_recv_empty e = ground (arith, o)

  pub try_recv_some : (port_at s i).queue_count ≢ 0 → ipc_try_recv i msg s ≡ take_message i msg s
  unfolding ipc_try_recv
  try_recv_some ne = ground (arith, o)

  -- A non-blocking receive by the owner of a port acts on the waiting messages as a first-in
  -- first-out queue: with none it reports that and changes nothing, else it takes the oldest and
  -- leaves the other ports.
  pub try_recv_refines :
      ((contents (port_at s i) ≡ []) × (ipc_try_recv i msg s ≡ (Received.empty, msg, s)))
      ⊎ ((m : Message) × (rest : List Message) × (contents (port_at s i) ≡ m ∷ rest)
          × Takes s i msg m rest (ipc_try_recv i msg s))
  try_recv_refines = by_contents (contents (port_at s i)) refl
    where
      by_contents :
          (q : List Message)
          → contents (port_at s i) ≡ q
          → ((contents (port_at s i) ≡ []) × (ipc_try_recv i msg s ≡ (Received.empty, msg, s)))
            ⊎ ((m : Message) × (rest : List Message) × (contents (port_at s i) ≡ m ∷ rest)
                × Takes s i msg m rest (ipc_try_recv i msg s))
      by_contents [] e =
          inl (e, try_recv_empty (omega (arith, ap length e, length-contents (port_at s i))))
      by_contents (m ∷ rest) e = inr (
        m,
        rest,
        e,
        rw (try_recv_some (omega (arith, ap length e, length-contents (port_at s i))))
            (take-Takes i msg s v o.index m rest e),
      )

pub try_recv_cases :
    (i : ℕ) (msg : Message) (s : Ipc)
    → (ipc_try_recv i msg s ≡ (Received.failed, msg, s))
      ⊎ (ipc_try_recv i msg s ≡ (Received.empty, msg, s))
      ⊎ (Owns s i × ((port_at s i).queue_count ≢ 0) × (ipc_try_recv i msg s ≡ take_message i msg s))
unfolding ipc_try_recv
try_recv_cases i msg s = ground arith

-- Every branch of a non-blocking receive keeps the port table well formed.
pub try_recv-IsIpc : (i : ℕ) (msg : Message) (s : Ipc) → IsIpc s → IsIpc (ipc_try_recv i msg s).2
try_recv-IsIpc i msg s v = elim (try_recv_cases i msg s) [
  | inl e ↦ rw e v
  | inr (inl e) ↦ rw e v
  | inr (inr (o, ne, e)) ↦ rw e (take-IsIpc i msg s v o.index ne)
]

module _ (others : Ipc → Ipc) (i : ℕ) (msg : Message) (s : Ipc) (o : Owns s i) where
  recv_at_once : (port_at s i).queue_count ≢ 0 → ipc_recv others i msg s ≡ take_message i msg s
  unfolding ipc_recv
  recv_at_once ne = ground (arith, o)

  recv_woken :
      (port_at s i).queue_count ≡ 0
      → (port_at (others (block_on i s)) i).queue_count ≢ 0
      → ipc_recv others i msg s ≡ take_message i msg (others (block_on i s))
  unfolding ipc_recv
  recv_woken e ne = ground (arith, o)

  recv_nothing :
      (port_at s i).queue_count ≡ 0
      → (port_at (others (block_on i s)) i).queue_count ≡ 0
      → ipc_recv others i msg s ≡ (Received.failed, msg, others (block_on i s))
  unfolding ipc_recv
  recv_nothing e e' = ground (arith, o)

-- For whatever the other tasks do while the caller waits, ipc_recv by the owner of a port takes the
-- oldest message at once if there is one; if there is none it takes the oldest of those that wait
-- when it runs again, and fails if there is still none.
pub recv_cases :
    (others : Ipc → Ipc) (i : ℕ) (msg : Message) (s : Ipc)
    → IsIpc s
    → Owns s i
    → IsIpc (others (block_on i s))
    → let woken = others (block_on i s) in
      ((m : Message) × (rest : List Message) × (contents (port_at s i) ≡ m ∷ rest)
        × Takes s i msg m rest (ipc_recv others i msg s))
      ⊎ ((contents (port_at s i) ≡ [])
          × (m : Message) × (rest : List Message) × (contents (port_at woken i) ≡ m ∷ rest)
          × Takes woken i msg m rest (ipc_recv others i msg s))
      ⊎ ((contents (port_at s i) ≡ [])
          × (contents (port_at woken i) ≡ [])
          × (ipc_recv others i msg s ≡ (Received.failed, msg, woken)))
recv_cases others i msg s v o w =
    by_contents (contents (port_at s i)) refl (contents (port_at woken i)) refl
  where
    woken : Ipc
    woken = others (block_on i s)

    nonempty :
        (t : Ipc) {m : Message} {rest : List Message}
        → contents (port_at t i) ≡ m ∷ rest
        → (port_at t i).queue_count ≢ 0
    nonempty t e = omega (arith, ap length e, length-contents (port_at t i))

    none_waits : (t : Ipc) → contents (port_at t i) ≡ [] → (port_at t i).queue_count ≡ 0
    none_waits t e = omega (arith, ap length e, length-contents (port_at t i))

    Cases : Type 0
    Cases =
        ((m : Message) × (rest : List Message) × (contents (port_at s i) ≡ m ∷ rest)
          × Takes s i msg m rest (ipc_recv others i msg s))
        ⊎ ((contents (port_at s i) ≡ [])
            × (m : Message) × (rest : List Message) × (contents (port_at woken i) ≡ m ∷ rest)
            × Takes woken i msg m rest (ipc_recv others i msg s))
        ⊎ ((contents (port_at s i) ≡ [])
            × (contents (port_at woken i) ≡ [])
            × (ipc_recv others i msg s ≡ (Received.failed, msg, woken)))

    by_contents :
        (q : List Message)
        → contents (port_at s i) ≡ q
        → (q' : List Message) → contents (port_at woken i) ≡ q'
        → Cases
    by_contents (m ∷ rest) e q' e' = inl (
      m,
      rest,
      e,
      rw (recv_at_once others i msg s o (nonempty s e)) (take-Takes i msg s v o.index m rest e),
    )
    by_contents [] e (m ∷ rest) e' = inr (
        inl (
          e,
          m,
          rest,
          e',
          rw (recv_woken others i msg s o (none_waits s e) (nonempty woken e'))
              (take-Takes i msg woken w o.index m rest e'),
        ))
    by_contents [] e [] e' =
        inr (inr (e, e', recv_nothing others i msg s o (none_waits s e) (none_waits woken e')))
