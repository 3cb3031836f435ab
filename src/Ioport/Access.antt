-- ===== src/Ioport/Access.antt =====
-- The permissions of the current task in ioport.c, through the calls that change them.
use vros.Base.{
  ==_refl, ==→ne, ne→==, ℕ, ◌+◌, ◌-◌, ◌<◌, ◌≡◌, refl, sym, ◌∙◌, ◌≢◌, inl, inr, Bool, true, false,
  ◌&&◌, ◌||◌, not, List, arith, ltb, leb, ◌==◌, if◌then◌else◌,
}
use vros.Base.{Bool-cases}
use vros.Kmalloc.{kmalloc}
use vros.Ioport.{
  Heap, Ioport, iopb_size, no_ports, iopb_of, current, set_iopb, store_map, allow_from, forbid_from,
  ensure_iopb, ioport_grant_access, ioport_revoke_access, ioport_check_access,
  ioport_load_current_task_iopb,
}
use vros.Ioport.Maps.{
  IsMap, permits, allow_from_lem, forbid_from_lem, no_ports-IsMap, no_ports-permits,
}

-- Every task's pointer is null or points to a map.
abbrev pub IsIoport : Ioport → Type 0
IsIoport s = (t : ℕ) → iopb_of s t ≢ 0 → IsMap (s.maps (iopb_of s t))

check_mapped :
    (q : ℕ) (s : Ioport)
    → current s ≢ 0
    → iopb_of s (current s) ≢ 0
    → ioport_check_access q s ≡ permits (s.maps (iopb_of s (current s))) q
unfolding ioport_check_access
check_mapped q s ne ne' = rw (ne→== (current s) 0 ne, ne→== (iopb_of s (current s)) 0 ne') refl

check_null : (q : ℕ) (s : Ioport) → iopb_of s (current s) ≡ 0 → ioport_check_access q s ≡ false
unfolding ioport_check_access
check_null q s e = ground (arith, e)

-- After a write of the current task's map.
check_stored :
    (q : ℕ) (s : Ioport) (map : List ℕ)
    → current s ≢ 0
    → iopb_of s (current s) ≢ 0
    → ioport_check_access q (record s { maps = store_map s.maps (iopb_of s (current s)) map })
      ≡ permits map q
unfolding ioport_check_access
check_stored q s map ne ne' =
    rw
      (ne→== (current s) 0 ne, ne→== (iopb_of s (current s)) 0 ne', ==_refl (iopb_of s (current s)))
      refl

-- A map written at `p` is a map for each task that points there.
store_map-IsIoport :
    (s : Ioport) (p : ℕ) (map : List ℕ)
    → IsMap map
    → IsIoport s
    → IsIoport (record s { maps = store_map s.maps p map })
store_map-IsIoport s p map k h t ne = elim (Bool-cases (p == iopb_of s t)) [
  | inl e ↦ rw e k
  | inr e ↦ rw e (h t ne)
]

-- The state in which the current task has the new map at `p`, if that is not null.
abbrev with_map : ℕ → Heap → Ioport → Ioport
with_map p heap s = record s {
  sched = set_iopb p s.sched;
  heap = heap;
  maps = if p == 0 then s.maps else store_map s.maps p no_ports;
}

with_map-IsIoport : (p : ℕ) (heap : Heap) (s : Ioport) → IsIoport s → IsIoport (with_map p heap s)
with_map-IsIoport p heap s h t ne = elim (Bool-cases (current s == t)) [
  | inl mine ↦
      let given : iopb_of (with_map p heap s) t ≡ p = ground (arith, mine) in
      let stored : (with_map p heap s).maps p ≡ no_ports = ground (arith, ne, given) in
      rw (given, stored) no_ports-IsMap
  | inr other ↦
      let kept : iopb_of (with_map p heap s) t ≡ iopb_of s t = ground (arith, other) in
      rw kept (elim (Bool-cases (p == 0)) [
        | inl null ↦ rw null (h t (ground (arith, ne, kept)))
        | inr new ↦
            rw new (store_map-IsIoport s p no_ports no_ports-IsMap h t (ground (arith, ne, kept)))
      ])
]

with_map-check :
    (p : ℕ) (heap : Heap) (s : Ioport) (q : ℕ)
    → q < 65536
    → ioport_check_access q (with_map p heap s) ≡ false
unfolding ioport_check_access
with_map-check p heap s q lt = ground (arith, no_ports-permits q lt)

-- A task that has no map gets one that permits nothing, so no permission changes.
ensure_lem :
    (s : Ioport)
    → IsIoport s
    → current s ≢ 0
    → IsIoport (ensure_iopb s)
      × (current (ensure_iopb s) ≡ current s)
      × ((q : ℕ) → q < 65536 → ioport_check_access q (ensure_iopb s) ≡ ioport_check_access q s)
unfolding ensure_iopb
ensure_lem s h ne = elim (Bool-cases (iopb_of s (current s) == 0)) [
  | inl e ↦
      let (p, heap) = kmalloc iopb_size s.heap in
      rw e (
        with_map-IsIoport p heap s h,
        refl,
        λ q lt. with_map-check p heap s q lt ∙ sym (check_null q s (ground (arith, e))),
      )
  | inr e ↦ rw e (h, refl, λ q lt. refl)
]

-- A range that is not empty, a current task, and a bitmap of it or room for one in the heap.
abbrev pub granted : ℕ → ℕ → Ioport → Bool
granted a b s =
    leb a b
    && (not (current s == 0)
        && (not (iopb_of s (current s) == 0) || not ((kmalloc iopb_size s.heap).0 == 0)))

-- Whether the current task has a bitmap then.
ensure_maps :
    (s : Ioport)
    → not (iopb_of (ensure_iopb s) (current s) == 0)
      ≡ (not (iopb_of s (current s) == 0) || not ((kmalloc iopb_size s.heap).0 == 0))
unfolding ensure_iopb
ensure_maps s = elim (Bool-cases (iopb_of s (current s) == 0)) [
  | inl e ↦ ground (arith, e, ==_refl (current s))
  | inr e ↦ ground (arith, e)
]

-- The call for all ports at once.
grant_all :
    (a b : ℕ) (s : Ioport)
    → IsIoport s
    → b < 65536
    → let (ok, s') = ioport_grant_access a b s in
      IsIoport s'
      × (ok ≡ granted a b s)
      × ((q : ℕ)
          → q < 65536
          → ioport_check_access q s' ≡ ((ok && (leb a q && leb q b)) || ioport_check_access q s))
unfolding ioport_grant_access
grant_all a b s h lt = elim (Bool-cases (ltb b a || leb 65536 b)) [
  | inl bad ↦
      let none : ioport_grant_access a b s ≡ (false, s) = rw bad refl in
      rw none (h, ground (arith, bad), λ q lt'. refl)
  | inr good ↦ elim (Bool-cases (current s == 0)) [
    | inl null ↦
        let none : ioport_grant_access a b s ≡ (false, s) = rw (good, null) refl in
        rw none (h, ground (arith, null), λ q lt'. refl)
    | inr task ↦
        let s1 = ensure_iopb s in
        let p = iopb_of s1 (current s1) in
        let (k, same, kept) = ensure_lem s h (==→ne (current s) 0 task) in
        elim (Bool-cases (p == 0)) [
          | inl full ↦
              let none : ioport_grant_access a b s ≡ (false, s1) = rw (good, task, full) refl in
              rw none (k, ground (arith, full, same, ensure_maps s), kept)
          | inr mapped ↦
              let map = allow_from (b + 1 - a) a (s1.maps p) in
              let s2 = record s1 { maps = store_map s1.maps p map } in
              let done : ioport_grant_access a b s ≡ (true, s2) = rw (good, task, mapped) refl in
              let (is_map, allowed) =
                allow_from_lem (b + 1 - a) a (s1.maps p) (k (current s1) (==→ne p 0 mapped))
                  (ground (arith, good)) in
              let there : current s1 ≢ 0 = ground (arith, same, task) in
              let some : p ≢ 0 = ==→ne p 0 mapped in
              rw done (
                store_map-IsIoport s1 p map is_map k,
                ground (arith, good, task, mapped, same, ensure_maps s),
                λ q lt'.
                    check_stored q s1 map there some
                    ∙ ground (arith, good, allowed q, kept q lt', check_mapped q s1 there some),
              )
        ]
  ]
]

-- Where every task's pointer is null or leads to a bitmap of its size: after ioport_grant_access
-- the current task may use exactly the ports that it could use before and, if the call succeeds,
-- those of the range; it succeeds exactly for a range that is not empty, a current task, and a
-- bitmap that exists or finds room in the heap.
pub grant_lem :
    (a b q : ℕ) (s : Ioport)
    → IsIoport s
    → b < 65536
    → q < 65536
    → let (ok, s') = ioport_grant_access a b s in
      IsIoport s'
      × (ok ≡ granted a b s)
      × (ioport_check_access q s' ≡ ((ok && (leb a q && leb q b)) || ioport_check_access q s))
grant_lem a b q s h lt lt' = let (k, ok, all) = grant_all a b s h lt in (k, ok, all q lt')

-- Where every task's pointer is null or leads to a bitmap of its size: after ioport_revoke_access
-- the current task may use exactly the ports that it could use before, without those of the range
-- if the call succeeds.
pub revoke_lem :
    (a b : ℕ) (s : Ioport)
    → IsIoport s
    → b < 65536
    → let (ok, s') = ioport_revoke_access a b s in
      IsIoport s'
      × ((q : ℕ)
          → ioport_check_access q s'
            ≡ (not (ok && (leb a q && leb q b)) && ioport_check_access q s))
unfolding ioport_revoke_access
revoke_lem a b s h lt = elim (Bool-cases (ltb b a || leb 65536 b)) [
  | inl bad ↦
      let none : ioport_revoke_access a b s ≡ (false, s) = rw bad refl in rw none (h, λ q. refl)
  | inr good ↦ elim (Bool-cases (current s == 0 || p == 0)) [
    | inl null ↦
        let none : ioport_revoke_access a b s ≡ (false, s) = rw (good, null) refl in
        rw none (h, λ q. refl)
    | inr mapped ↦
        let map = forbid_from (b + 1 - a) a (s.maps p) in
        let done : ioport_revoke_access a b s ≡ (true, record s { maps = store_map s.maps p map }) =
          rw (good, mapped) refl in
        let there : current s ≢ 0 = ground (arith, mapped) in
        let some : p ≢ 0 = ground (arith, mapped) in
        let (is_map, left) =
          forbid_from_lem (b + 1 - a) a (s.maps p) (h (current s) some) (ground (arith, good)) in
        rw done (
          store_map-IsIoport s p map is_map h,
          λ q.
              check_stored q s map there some
              ∙ ground (arith, good, left q, check_mapped q s there some),
        )
  ]
]
  where
    p : ℕ
    p = iopb_of s (current s)

-- The bitmap that ioport_load_current_task_iopb loads for the processor permits exactly the ports
-- that ioport_check_access grants to the current task.
pub load_lem :
    (q : ℕ) (s : Ioport)
    → q < 65536
    → permits (ioport_load_current_task_iopb s).iopb q ≡ ioport_check_access q s
unfolding ioport_load_current_task_iopb ioport_check_access
load_lem q s lt = ground (arith, no_ports-permits q lt)
