-- ===== src/Ipc/Valid.antt =====
-- The well-formedness of the port table of ipc.c under initialisation, creation and destruction.
use vros.Base.{
  true, ℕ, suc, ◌+◌, ◌≡◌, refl, ap, ◌∙◌, List, [], ◌∷◌, All, length, length-set, All-set, none,
  some, inl, inr, ◌⊎◌, arith, Bool, ◌<◌,
}
use vros.Ipc.{
  Port, Ipc, max_ports, port_at, set_port, reset_port, clear_name, ipc_init, init_ports,
  ipc_create_port, ipc_create_named_port, ipc_destroy_port, find_free_port, queue_size, current_pid,
}
use vros.Ipc.Queue.{IsMessage, IsPort, IsIpc}
use vros.Ipc.Send.{port_at-IsPort}
use vros.Ipc.Names.{named, named_cases, closed, destroyed_or_not, find_free-lt, length-copy_name}

-- Before `ipc_init` only the sizes of the arrays are fixed.
pub record HasArrays (p : Port) : Type 0 where
  pub array : length p.queue ≡ queue_size
  pub slots : All IsMessage p.queue
  pub name_array : length p.name ≡ 32

reset-IsPort :
    (p : Port) (used : Bool) (pid id : ℕ) (name : List ℕ)
    → HasArrays p
    → length name ≡ 32
    → IsPort (record (reset_port p) { in_use = used; owner_pid = pid; port_id = id; name = name })
reset-IsPort p used pid id name a l = record {
  array = a.array;
  head_in = omega arith;
  count_in = omega arith;
  tail_at = λ _. refl;
  slots = a.slots;
  name_array = l;
}

has_arrays : (p : Port) → IsPort p → HasArrays p
has_arrays p v = record { array = v.array; slots = v.slots; name_array = v.name_array }

init_ports-IsPort : (i : ℕ) (ps : List Port) → All HasArrays ps → All IsPort (init_ports i ps)
unfolding init_ports
init_ports-IsPort i [] h = tt
init_ports-IsPort i (p ∷ ps) h = (
  reset-IsPort p _ 0 i (clear_name p.name) h.0 (length-set p.name 0 0 ∙ h.0.name_array),
  init_ports-IsPort (i + 1) ps h.1,
)

length-init_ports : (i : ℕ) (ps : List Port) → length (init_ports i ps) ≡ length ps
unfolding init_ports
length-init_ports i [] = refl
length-init_ports i (p ∷ ps) = ap suc (length-init_ports (i + 1) ps)

-- `ipc_init` makes the port table well formed, whatever it held.
pub init-IsIpc : (s : Ipc) → length s.ports ≡ max_ports → All HasArrays s.ports → IsIpc (ipc_init s)
unfolding ipc_init
init-IsIpc s l h = record {
  table = length-init_ports 0 s.ports ∙ l;
  each = init_ports-IsPort 0 s.ports h;
}

set-IsIpc : (s : Ipc) (i : ℕ) (p : Port) → IsIpc s → IsPort p → IsIpc (set_port s i p)
set-IsIpc s i p v w = record {
  table = length-set s.ports i p ∙ v.table;
  each = All-set IsPort s.ports i p v.each w;
}

free-index : (s : Ipc) (k : ℕ) → IsIpc s → find_free_port 0 s.ports ≡ some k → k < max_ports
free-index s k v e = omega (arith, (find_free-lt s.ports 0 k e).1, v.table)

create_cases :
    (s : Ipc)
    → (ipc_create_port s ≡ (none, s))
      ⊎ ((k : ℕ) × (find_free_port 0 s.ports ≡ some k)
          × ((ipc_create_port s).1
              ≡ set_port s k (record (reset_port (port_at s k)) {
                in_use = true;
                owner_pid = current_pid s;
                name = clear_name (port_at s k).name;
              })))
unfolding ipc_create_port
create_cases s = ground arith

-- Creating a port keeps the table well formed, on every branch.
pub create-IsIpc : (s : Ipc) → IsIpc s → IsIpc (ipc_create_port s).1
create-IsIpc s v = elim (create_cases s) [
  | inl e ↦ rw e v
  | inr (k, free, e) ↦
      let p = port_at-IsPort k v (free-index s k v free) in
      rw e (
        set-IsIpc s k _ v (
          reset-IsPort (port_at s k) _ _ _ (clear_name (port_at s k).name) (has_arrays _ p)
            (length-set (port_at s k).name 0 0 ∙ p.name_array)))
]

-- Creating a named port keeps the table well formed, on every branch.
pub create_named-IsIpc :
    (name : List ℕ) (s : Ipc) → IsIpc s → IsIpc (ipc_create_named_port (some name) s).1
create_named-IsIpc name s v = elim (named_cases name s) [
  | inl e ↦ rw e v
  | inr (k, _, free, e) ↦
      let p = port_at-IsPort k v (free-index s k v free) in
      rw e (
        set-IsIpc s k (named name k s) v (
          reset-IsPort (port_at s k) _ _ _ _ (has_arrays _ p)
            (length-copy_name 31 name (port_at s k).name ∙ p.name_array)))
]

closed-IsPort : (p : Port) → IsPort p → IsPort (closed p)
closed-IsPort p v = record {
  array = v.array;
  head_in = v.head_in;
  count_in = omega arith;
  tail_at = λ used. absurd (cc);
  slots = v.slots;
  name_array = v.name_array;
}

-- Destroying a port keeps the port table well formed, on every branch.
pub destroy-IsIpc : (i : ℕ) (s : Ipc) → IsIpc s → IsIpc (ipc_destroy_port i s).1
destroy-IsIpc i s v = elim (destroyed_or_not i s) [
  | inl (e, _) ↦ rw e v
  | inr (h, _, e) ↦ rw e (record {
    table = length-set s.ports i (closed (port_at s i)) ∙ v.table;
    each =
        All-set IsPort s.ports i (closed (port_at s i)) v.each
          (closed-IsPort (port_at s i) (port_at-IsPort i v h));
  })
]
