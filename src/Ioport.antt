-- ===== src/Ioport.antt =====
-- Permissions on I/O ports, src/kernel/ioport.c: each task has a bitmap of 65536 ports, a set bit
-- forbids the port. `maps` is what the bytes at a pointer from `kmalloc` hold. The current task, its
-- pointer `iopb` and the heap are those of the scheduler and of kmalloc.c.
pub mod Maps
pub mod Access
pub mod Isolation
pub mod Tests
use vros.Base.{
  ℕ, zero, suc, ◌+◌, ◌-◌, ◌/◌, ◌%◌, Bool, true, false, not, ◌||◌, List, get_or, set, replicate, ltb,
  leb, ◌==◌, if◌then◌else◌,
}
use vros.Bits.{has_bit, with_bit, without_bit}
use vros.Task.{Task, Sched}
use vros.Kmalloc.{Heap, kmalloc}

-- struct tss_entry
pub record TssEntry : Type 0 where
  pub prev_tss : ℕ
  pub esp0 : ℕ
  pub ss0 : ℕ
  pub esp1 : ℕ
  pub ss1 : ℕ
  pub esp2 : ℕ
  pub ss2 : ℕ
  pub cr3 : ℕ
  pub eip : ℕ
  pub eflags : ℕ
  pub eax : ℕ
  pub ecx : ℕ
  pub edx : ℕ
  pub ebx : ℕ
  pub esp : ℕ
  pub ebp : ℕ
  pub esi : ℕ
  pub edi : ℕ
  pub es : ℕ
  pub cs : ℕ
  pub ss : ℕ
  pub ds : ℕ
  pub fs : ℕ
  pub gs : ℕ
  pub ldt : ℕ
  pub trap : ℕ
  pub iomap_base : ℕ

pub record Ioport : Type 0 where
  pub sched : Sched
  pub heap : Heap
  pub maps : ℕ → List ℕ
  pub tss : TssEntry
  pub iopb : List ℕ

abbrev pub iopb_size : ℕ
iopb_size = 8192

-- Every port forbidden.
pub no_ports : List ℕ
no_ports = replicate iopb_size 0xFF

-- 25 fields of four bytes and two of two bytes.
abbrev pub tss_size : ℕ
tss_size = 104

pub ioport_init : Ioport → Ioport
ioport_init s = record s {
  tss = record {
    prev_tss = 0;
    esp0 = 0;
    ss0 = 0x10;
    esp1 = 0;
    ss1 = 0;
    esp2 = 0;
    ss2 = 0;
    cr3 = 0;
    eip = 0;
    eflags = 0;
    eax = 0;
    ecx = 0;
    edx = 0;
    ebx = 0;
    esp = 0;
    ebp = 0;
    esi = 0;
    edi = 0;
    es = 0;
    cs = 0;
    ss = 0;
    ds = 0;
    fs = 0;
    gs = 0;
    ldt = 0;
    trap = 0;
    iomap_base = tss_size;
  };
  iopb = no_ports;
}

-- The pointer of the task `t`.
abbrev pub iopb_of : Ioport → ℕ → ℕ
iopb_of s t = (s.sched.mem t).iopb

abbrev pub current : Ioport → ℕ
current s = s.sched.current_task

-- `map[port / 8] &= ~(1 << port % 8)`
pub allow : ℕ → List ℕ → List ℕ
allow port map = set map (port / 8) (without_bit 8 (get_or map (port / 8) 0) (port % 8))

-- `map[port / 8] |= 1 << port % 8`
pub forbid : ℕ → List ℕ → List ℕ
forbid port map = set map (port / 8) (with_bit (get_or map (port / 8) 0) (port % 8))

-- The loops over the ports from `port` on; `n` rounds are left.
pub allow_from : ℕ → ℕ → List ℕ → List ℕ
allow_from zero port map = map
allow_from (suc n) port map = allow_from n (port + 1) (allow port map)

pub forbid_from : ℕ → ℕ → List ℕ → List ℕ
forbid_from zero port map = map
forbid_from (suc n) port map = forbid_from n (port + 1) (forbid port map)

-- The bytes at `p` become `map`.
abbrev pub store_map : (ℕ → List ℕ) → ℕ → List ℕ → ℕ → List ℕ
store_map maps p map q = if p == q then map else maps q

-- `current->iopb = p`
abbrev pub set_iopb : ℕ → Sched → Sched
set_iopb p d = record d {
  mem = λ t. if d.current_task == t then record (d.mem t) { iopb = p } else d.mem t;
}

-- A task without a bitmap gets one that forbids all, unless the heap has no room.
pub ensure_iopb : Ioport → Ioport
ensure_iopb s =
    let (p, h) = kmalloc iopb_size s.heap in
    if iopb_of s (current s) == 0
    then record s {
      sched = set_iopb p s.sched;
      heap = h;
      maps = if p == 0 then s.maps else store_map s.maps p no_ports;
    }
    else s

-- `false` is the result -1. A `uint16_t` is less than 65536.
pub ioport_grant_access : ℕ → ℕ → Ioport → Bool × Ioport
ioport_grant_access port_start port_end s =
    if ltb port_end port_start || leb 65536 port_end
    then (false, s)
    else if current s == 0
    then (false, s)
    else if p == 0
    then (false, s1)
    else (
      true,
      record s1 {
        maps = store_map s1.maps p (allow_from (port_end + 1 - port_start) port_start (s1.maps p));
      },
    )
  where
    s1 : Ioport
    s1 = ensure_iopb s

    p : ℕ
    p = iopb_of s1 (current s1)

pub ioport_revoke_access : ℕ → ℕ → Ioport → Bool × Ioport
ioport_revoke_access port_start port_end s =
    let p = iopb_of s (current s) in
    if ltb port_end port_start || leb 65536 port_end
    then (false, s)
    else if current s == 0 || p == 0
    then (false, s)
    else (
      true,
      record s {
        maps = store_map s.maps p (forbid_from (port_end + 1 - port_start) port_start (s.maps p));
      },
    )

pub ioport_check_access : ℕ → Ioport → Bool
ioport_check_access port s =
    let p = iopb_of s (current s) in
    if current s == 0 || p == 0
    then false
    else not (has_bit (get_or (s.maps p) (port / 8) 0) (port % 8))

pub ioport_load_current_task_iopb : Ioport → Ioport
ioport_load_current_task_iopb s =
    let p = iopb_of s (current s) in
    if current s == 0 || p == 0 then record s { iopb = no_ports } else record s { iopb = s.maps p }
