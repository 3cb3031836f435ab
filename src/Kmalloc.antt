-- ===== src/Kmalloc.antt =====
-- The kernel heap, src/mm/kmalloc.c with include/kmalloc.h. A `struct heap_block *` is a number, 0
-- for NULL; `mem` is the header at an address. What callers store in their blocks is left out.
pub mod Tiles
pub mod First
pub mod Merge
pub mod Live
pub mod Free
pub mod Use
pub mod Wrap
pub mod Tests
pub mod Statistics
pub mod Alloc
use vros.Base.{
  ℕ, zero, suc, ◌+◌, ◌-◌, ◌%◌, ◌^◌, Bool, true, false, ◌&&◌, ◌||◌, leb, ◌==◌, if◌then◌else◌,
}

-- struct heap_block
pub record Block : Type 0 where
  pub size : ℕ
  pub is_free : Bool
  pub next : ℕ

-- The static variables of kmalloc.c, and the memory of the headers.
pub record Heap : Type 0 where
  pub mem : ℕ → Block
  pub heap_start : ℕ
  pub heap_size : ℕ

-- sizeof(struct heap_block)
abbrev pub header_size : ℕ
header_size = 12

abbrev pub min_block_size : ℕ
min_block_size = 16

abbrev pub add32 : ℕ → ℕ → ℕ
add32 x y = (x + y) % 2 ^ 32

abbrev pub sub32 : ℕ → ℕ → ℕ
sub32 x y = (x + 2 ^ 32 - y) % 2 ^ 32

-- `*p = b`
abbrev pub store : (ℕ → Block) → ℕ → Block → ℕ → Block
store m p b q = if p == q then b else m q

pub kmalloc_init : ℕ → ℕ → Heap → Heap
kmalloc_init start size h = record {
  mem = store h.mem start (record { size = sub32 size header_size; is_free = true; next = 0 });
  heap_start = start;
  heap_size = size;
}

-- The loop of `find_free_block`; `n` rounds are left.
pub find_from : ℕ → ℕ → (ℕ → Block) → ℕ → ℕ
find_from zero size m current = 0
find_from (suc n) size m current =
    let rest = find_from n size m (m current).next in
    if current == 0
    then 0
    else if (m current).is_free && leb size (m current).size
    then current
    else rest

-- A list of blocks in `heap_size` bytes has fewer blocks than that.
pub find_free_block : ℕ → Heap → ℕ
find_free_block size h = find_from h.heap_size size h.mem h.heap_start

pub split_block : ℕ → ℕ → (ℕ → Block) → ℕ → Block
split_block block size m =
    if leb (add32 size (header_size + min_block_size)) (m block).size
    then store m1 block (record (m1 block) { size = size; next = new_block })
    else m
  where
    new_block : ℕ
    new_block = add32 block (header_size + size)

    m1 : ℕ → Block
    m1 = store m new_block (record {
      size = sub32 (sub32 (m block).size size) header_size;
      is_free = true;
      next = (m block).next;
    })

-- One round of the loop of `merge_free_blocks`: the block to go on with, and the memory.
pub merge_step : ℕ → (ℕ → Block) → ℕ × (ℕ → Block)
merge_step current m =
    let after = (m current).next in
    if (m current).is_free && (m after).is_free
    then (
      current,
      store m current (record (m current) {
        size = add32 (m current).size (header_size + (m after).size);
        next = (m after).next;
      }),
    )
    else (after, m)

pub merge_from : ℕ → ℕ → (ℕ → Block) → ℕ → Block
merge_from zero current m = m
merge_from (suc n) current m =
    let rest = merge_from n (merge_step current m).0 (merge_step current m).1 in
    if current == 0 || (m current).next == 0 then m else rest

pub merge_free_blocks : Heap → Heap
merge_free_blocks h = record h { mem = merge_from h.heap_size h.heap_start h.mem }

-- The size rounded up to a multiple of 4, in 32 bits.
pub align : ℕ → ℕ
align size = if size % 4 == 0 then size else add32 size (4 - size % 4)

-- The pointer returned, 0 for NULL.
pub kmalloc : ℕ → Heap → ℕ × Heap
kmalloc size h = if size == 0 then (0, h) else if block == 0 then (0, h) else (
  add32 block header_size,
  record h { mem = store m1 block (record (m1 block) { is_free = false }) },
)
  where
    block : ℕ
    block = find_free_block (align size) h

    m1 : ℕ → Block
    m1 = split_block block (align size) h.mem

pub kfree : ℕ → Heap → Heap
kfree ptr h =
    if ptr == 0
    then h
    else merge_free_blocks
        (record h { mem = store h.mem block (record (h.mem block) { is_free = true }) })
  where
    block : ℕ
    block = sub32 ptr header_size

-- What `kmalloc_stats` reports.
pub record Stats : Type 0 where
  pub total : ℕ
  pub used : ℕ
  pub free_mem : ℕ

pub count_from : ℕ → (ℕ → Block) → ℕ → Stats → Stats
count_from zero m current s = s
count_from (suc n) m current s =
    let bytes = add32 (m current).size header_size in
    let rest = count_from n m (m current).next (
      if (m current).is_free
      then record s { free_mem = add32 s.free_mem bytes }
      else record s { used = add32 s.used bytes }) in
    if current == 0 then s else rest

pub kmalloc_stats : Heap → Stats
kmalloc_stats h =
    count_from h.heap_size h.mem h.heap_start
      (record { total = h.heap_size; used = 0; free_mem = 0 })
