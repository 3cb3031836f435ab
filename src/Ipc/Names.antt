-- ===== src/Ipc/Names.antt =====
-- Creation, search and destruction of ports in ipc.c.
use vros.Base.{
  ℕ, zero, suc, ◌+◌, ◌-◌, ◌≤◌, ◌<◌, ◌≡◌, refl, ap, ◌≢◌, true, false, arith, List, [], ◌∷◌, ◌++◌,
  length, get_or, get_or-set_self, get_or-set_ne, ◌==◌, Bool, none, some, ◌⊎◌, inl, inr, Bool-cases,
  not, ◌&&◌,
}
use vros.Task.{TaskState}
use vros.Ipc.{
  Port, Ipc, max_ports, no_port, port_at, set_port, current_pid, wake, reset_port, find_free_port,
  find_name, names_match, copy_name, ipc_create_named_port, ipc_find_port, ipc_destroy_port,
  ipc_get_port,
}
use vros.Ipc.Queue.{contents, IsIpc}

-- A text that `text` starts with does not differ from it under the comparison of the source.
pub names_match_prefix :
    (n : ℕ) (name more junk : List ℕ) → names_match n name ((name ++ more) ++ 0 ∷ junk) ≡ true
unfolding names_match
names_match_prefix zero name more junk = refl
names_match_prefix (suc n) [] more junk = refl
names_match_prefix (suc n) (c ∷ name) more junk =
    ground (arith, names_match_prefix n name more junk)

pub length-copy_name : (n : ℕ) (name dst : List ℕ) → length (copy_name n name dst) ≡ length dst
unfolding copy_name
length-copy_name n name [] = refl
length-copy_name zero name (d ∷ dst) = refl
length-copy_name (suc n) [] (d ∷ dst) = refl
length-copy_name (suc n) (c ∷ name) (d ∷ dst) = ap suc (length-copy_name n name dst)

-- Whether the search stops at a port.
abbrev hits : List ℕ → Port → Bool
hits name p = p.in_use && not (get_or p.name 0 0 == 0) && names_match 32 name p.name

find_name_hit :
    (name : List ℕ) (k j : ℕ) (ps : List Port)
    → j < length ps
    → hits name (get_or ps j no_port) ≡ true
    → find_name name k ps ≢ none
unfolding find_name
find_name_hit name k j [] h e = absurd (omega arith)
find_name_hit name k zero (p ∷ ps) h e = ground (arith, e)
find_name_hit name k (suc j) (p ∷ ps) h e =
    ground (arith, find_name_hit name (k + 1) j ps (omega arith) e)

-- The port that a creation sets up in place `k`.
abbrev pub named : List ℕ → ℕ → Ipc → Port
named name k s = record (reset_port (port_at s k)) {
  in_use = true;
  owner_pid = current_pid s;
  name = copy_name 31 name (port_at s k).name;
}

pub named_cases :
    (name : List ℕ) (s : Ipc)
    → (ipc_create_named_port (some name) s ≡ (none, s))
      ⊎ ((k : ℕ) × (find_name name 0 s.ports ≡ none)
          × (find_free_port 0 s.ports ≡ some k)
          × (ipc_create_named_port (some name) s ≡ (some k, set_port s k (named name k s))))
unfolding ipc_create_named_port
named_cases name s = ground arith

pub find_free-lt :
    (ps : List Port) (k i : ℕ)
    → find_free_port k ps ≡ some i
    → (k ≤ i) × (i < k + length ps) × ((get_or ps (i - k) no_port).in_use ≡ false)
unfolding find_free_port
find_free-lt [] k i e = cc
find_free-lt (p ∷ ps) k i e = elim (Bool-cases p.in_use) [
  | inl used ↦
      let (lo, hi, f) = find_free-lt ps (k + 1) i (ground (arith, e, used)) in
      let back : i - k ≡ suc (i - (k + 1)) = omega arith in (omega arith, omega arith, rw back f)
  | inr unused ↦
      let at : k ≡ i = ground (arith, e, unused) in
      let zero_off : i - k ≡ 0 = omega arith in (omega arith, omega arith, rw zero_off unused)
]

module _ (c : ℕ) (cs : List ℕ) (s : Ipc) (v : IsIpc s) (nz : c ≢ 0) where
  abbrev with_named : ℕ → Ipc
  with_named k = set_port s k (named (c ∷ cs) k s)

-- A search for a name succeeds as soon as the name of some port in use starts with it, and creating
-- a port of that name then fails.
pub find_port_prefix :
    (c : ℕ) (name more junk : List ℕ) (s : Ipc) (i : ℕ)
    → IsIpc s
    → i < max_ports
    → c ≢ 0
    → (port_at s i).in_use ≡ true
    → (port_at s i).name ≡ ((c ∷ name) ++ more) ++ 0 ∷ junk
    → (ipc_find_port (some (c ∷ name)) s ≢ none)
      × (ipc_create_named_port (some (c ∷ name)) s ≡ (none, s))
unfolding ipc_find_port ipc_create_named_port
find_port_prefix c name more junk s i v h nz used e = (found, refused)
  where
    hit : hits (c ∷ name) (port_at s i) ≡ true
    hit = ground (arith, names_match_prefix 32 (c ∷ name) more junk, used, e, nz)

    found : find_name (c ∷ name) 0 s.ports ≢ none
    found = find_name_hit (c ∷ name) 0 i s.ports (omega (arith, v.table)) hit

    refused : ipc_create_named_port (some (c ∷ name)) s ≡ (none, s)
    refused = ground (arith, found)

abbrev pub closed : Port → Port
closed p = record p { in_use = false; owner_pid = 0; queue_count = 0; waiting_task = 0 }

abbrev pub destroyed : ℕ → Ipc → Ipc
destroyed i s = record (set_port s i (closed (port_at s i))) {
  sched = wake (port_at s i).waiting_task s.sched;
}

pub destroyed_or_not :
    (i : ℕ) (s : Ipc)
    → ((ipc_destroy_port i s ≡ (false, s))
        × ((max_ports ≤ i)
            ⊎ ((port_at s i).in_use ≡ false)
            ⊎ ((port_at s i).owner_pid ≢ current_pid s)))
      ⊎ ((i < max_ports)
          × ((port_at s i).owner_pid ≡ current_pid s)
          × (ipc_destroy_port i s ≡ (true, destroyed i s)))
unfolding ipc_destroy_port
destroyed_or_not i s = ground arith

-- On a well-formed table ipc_destroy_port succeeds only for a port of the caller's own: the port is
-- then unused and empty, the task that waits there is ready and the other ports are as they were;
-- in every other case it changes nothing.
pub destroy_cases :
    (i : ℕ) (s : Ipc)
    → IsIpc s
    → ((ipc_destroy_port i s ≡ (false, s))
        × ((max_ports ≤ i)
            ⊎ ((port_at s i).in_use ≡ false)
            ⊎ ((port_at s i).owner_pid ≢ current_pid s)))
      ⊎ (let s' = (ipc_destroy_port i s).1 in
          ((ipc_destroy_port i s).0 ≡ true)
          × ((port_at s i).owner_pid ≡ current_pid s)
          × (ipc_get_port i s' ≡ none)
          × (contents (port_at s' i) ≡ [])
          × ((port_at s i).waiting_task ≢ 0
              → (s'.sched.mem (port_at s i).waiting_task).state ≡ TaskState.ready)
          × ((j : ℕ) → i ≢ j → port_at s' j ≡ port_at s j))
unfolding ipc_get_port
destroy_cases i s v = elim (destroyed_or_not i s) [
  | inl (e, why) ↦ inl (e, why)
  | inr (index, owner, e) ↦ inr (
      rw e (
        refl,
        owner,
        unused index,
        ap contents (after index),
        woken,
        λ j ne. get_or-set_ne s.ports i j _ no_port ne,
      ))
]
  where
    after : i < max_ports → port_at (destroyed i s) i ≡ closed (port_at s i)
    after h = get_or-set_self s.ports i (closed (port_at s i)) no_port (omega (arith, v.table))

    unused : i < max_ports → ipc_get_port i (destroyed i s) ≡ none
    unused h = ground (arith, after h)

    woken :
        (port_at s i).waiting_task ≢ 0
        → ((destroyed i s).sched.mem (port_at s i).waiting_task).state ≡ TaskState.ready
    woken ne = ground arith
