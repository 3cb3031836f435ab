-- ===== src/Ipc/Stats.antt =====
-- `ipc_get_stats` of ipc.c.
use vros.Base.{
  Bool-cases, ℕ, zero, suc, ◌+◌, ◌-◌, ◌^◌, ◌<◌, ◌≡◌, refl, sym, ap, subst, ◌∙◌, ◌⊎◌, inl, inr, Bool,
  true, false, ◌&&◌, not, none, some, List, [], ◌∷◌, arith, length, get_or, set, ◌==◌,
  if◌then◌else◌,
}
use vros.Ipc.{
  clear_name, reset_port, no_port, Port, Ipc, max_ports, port_at, ipc_create_port, ipc_destroy_port,
  find_free_port, current_pid,
}
use vros.Ipc.Queue.{IsIpc}
use vros.Ipc.Names.{find_free-lt, destroyed, destroyed_or_not}
use vros.Ipc.Valid.{create-IsIpc, destroy-IsIpc}
use vros.Base.{Option-cases}
use vros.Task.{next32}

-- struct ipc_stats
pub record IpcStats : Type 0 where
  pub total_ports : ℕ
  pub active_ports : ℕ
  pub total_messages : ℕ
  pub blocked_tasks : ℕ

-- The loop over the ports.
pub count_ports : List Port → IpcStats → IpcStats
count_ports [] st = st
count_ports (p ∷ ps) st = count_ports ps (
    if p.in_use
    then record st {
      active_ports = next32 st.active_ports;
      blocked_tasks =
          if not (p.waiting_task == 0) then next32 st.blocked_tasks else st.blocked_tasks;
    }
    else st)

pub ipc_get_stats : Ipc → IpcStats
ipc_get_stats s = count_ports s.ports (record {
  total_ports = max_ports;
  active_ports = 0;
  total_messages = s.total_messages_sent;
  blocked_tasks = 0;
})

-- The ports in use, and those of them at which a task waits.
abbrev pub used_ports : List Port → ℕ
used_ports [] = 0
used_ports (p ∷ ps) = let rest = used_ports ps in if p.in_use then suc rest else rest

abbrev pub waited_ports : List Port → ℕ
waited_ports [] = 0
waited_ports (p ∷ ps) =
    let rest = waited_ports ps in if p.in_use && not (p.waiting_task == 0) then suc rest else rest

count_ports_lem :
    (ps : List Port) (st : IpcStats)
    → st.active_ports + length ps < 2 ^ 32
    → st.blocked_tasks + length ps < 2 ^ 32
    → count_ports ps st ≡ record st {
      active_ports = st.active_ports + used_ports ps;
      blocked_tasks = st.blocked_tasks + waited_ports ps;
    }
unfolding count_ports
count_ports_lem [] st h k = ground arith
count_ports_lem (p ∷ ps) st h k = elim (Bool-cases p.in_use) [
  | inr unused ↦ rw unused (count_ports_lem ps st (omega arith) (omega arith))
  | inl used ↦
      let more : next32 st.active_ports ≡ st.active_ports + 1 = omega arith in
      let more' : next32 st.blocked_tasks ≡ st.blocked_tasks + 1 = omega arith in
      elim (Bool-cases (p.waiting_task == 0)) [
        | inl idle ↦
            rw (used, idle, more)
              (count_ports_lem ps (record st { active_ports = st.active_ports + 1 }) (omega arith)
                  (omega arith)
                ∙ ground arith)
        | inr waits ↦
            rw (used, waits, more, more')
              (count_ports_lem ps
                  (record st {
                    active_ports = st.active_ports + 1;
                    blocked_tasks = st.blocked_tasks + 1;
                  })
                  (omega arith) (omega arith)
                ∙ ground arith)
      ]
]

pub stats_lem :
    (s : Ipc)
    → IsIpc s
    → ipc_get_stats s ≡ record {
      total_ports = max_ports;
      active_ports = used_ports s.ports;
      total_messages = s.total_messages_sent;
      blocked_tasks = waited_ports s.ports;
    }
unfolding ipc_get_stats
stats_lem s v =
    count_ports_lem s.ports _ (omega (arith, v.table)) (omega (arith, v.table)) ∙ ground arith

used_ports-set_on :
    (ps : List Port) (i : ℕ) (p d : Port)
    → i < length ps
    → (get_or ps i d).in_use ≡ false
    → p.in_use ≡ true
    → used_ports (set ps i p) ≡ suc (used_ports ps)
used_ports-set_on [] i p d lt off on = absurd (omega arith)
used_ports-set_on (q ∷ ps) zero p d lt off on = rw (off, on) refl
used_ports-set_on (q ∷ ps) (suc i) p d lt off on =
    let ih = used_ports-set_on ps i p d (omega arith) off on in ground (arith, ih)

used_ports-set_off :
    (ps : List Port) (i : ℕ) (p d : Port)
    → i < length ps
    → (get_or ps i d).in_use ≡ true
    → p.in_use ≡ false
    → suc (used_ports (set ps i p)) ≡ used_ports ps
used_ports-set_off [] i p d lt on off = absurd (omega arith)
used_ports-set_off (q ∷ ps) zero p d lt on off = rw (off, on) refl
used_ports-set_off (q ∷ ps) (suc i) p d lt on off =
    let ih = used_ports-set_off ps i p d (omega arith) on off in ground (arith, ih)

abbrev pub active : Ipc → ℕ
active s = (ipc_get_stats s).active_ports

active_lem : (s : Ipc) → IsIpc s → active s ≡ used_ports s.ports
active_lem s v = ap (λ (st : IpcStats). st.active_ports) (stats_lem s v)

-- On a well-formed table `ipc_create_port` either finds every port in use and changes nothing, or the
-- statistics count one port more.
active-create :
    (s : Ipc)
    → IsIpc s
    → (ipc_create_port s ≡ (none, s))
      ⊎ ((i : ℕ) × ((ipc_create_port s).0 ≡ some i)
          × (active (ipc_create_port s).1 ≡ suc (active s)))
unfolding ipc_create_port
active-create s v = elim (Option-cases (find_free_port 0 s.ports)) [
  | inl full ↦ inl (rw (ipc_create_port, full) refl)
  | inr (i, found) ↦
      let (low, lt, off) = find_free-lt s.ports 0 i found in
      let place : i - 0 ≡ i = omega arith in
      let s' = (ipc_create_port s).1 in
      let first : (ipc_create_port s).0 ≡ some i = rw (ipc_create_port, found) refl in
      let opened : Port = record (reset_port (port_at s i)) {
        in_use = true;
        owner_pid = current_pid s;
        name = clear_name (port_at s i).name;
      } in
      let ports' : s'.ports ≡ set s.ports i opened = rw (ipc_create_port, found) refl in
      let free : (port_at s i).in_use ≡ false =
        subst (λ k. (port_at s k).in_use ≡ false) place off in
      let counted : used_ports s'.ports ≡ suc (used_ports s.ports) =
        ap used_ports ports'
        ∙ used_ports-set_on s.ports i opened no_port (omega (arith, lt)) free refl in
      inr (i, first, active_lem s' (create-IsIpc s v) ∙ counted ∙ ap suc (sym (active_lem s v)))
]

-- The statistics count one port less after `ipc_destroy_port` succeeds, and as many after it fails.
active-destroy :
    (i : ℕ) (s : Ipc)
    → IsIpc s
    → let (ok, s') = ipc_destroy_port i s in (if ok then suc (active s') else active s') ≡ active s
unfolding ipc_destroy_port
active-destroy i s v = elim (destroyed_or_not i s) [
  | inl (same, why) ↦ rw same refl
  | inr (lt, mine, e) ↦ elim (Bool-cases (port_at s i).in_use) [
    | inl used ↦
        let counted : suc (used_ports (destroyed i s).ports) ≡ used_ports s.ports =
          used_ports-set_off s.ports i _ no_port (omega (arith, lt, v.table)) used refl in
        let v' : IsIpc (destroyed i s) =
          subst IsIpc (ap (λ (r : Bool × Ipc). r.1) e) (destroy-IsIpc i s v) in
        rw e (ap suc (active_lem (destroyed i s) v') ∙ counted ∙ sym (active_lem s v))
    | inr unused ↦
        let same : ipc_destroy_port i s ≡ (false, s) = ground (arith, unused) in rw same refl
  ]
]

-- On a well-formed table the active ports of ipc_get_stats follow the table: a creation either
-- finds every port in use and changes nothing, or makes one more; a destruction that succeeds makes
-- one less, and one that fails leaves them.
pub active_track :
    (s : Ipc)
    → IsIpc s
    → ((ipc_create_port s ≡ (none, s))
        ⊎ ((i : ℕ) × ((ipc_create_port s).0 ≡ some i)
            × (active (ipc_create_port s).1 ≡ suc (active s))))
      × ((i : ℕ)
          → let (ok, s') = ipc_destroy_port i s in
            (if ok then suc (active s') else active s') ≡ active s)
active_track s v = (active-create s v, λ i. active-destroy i s v)
