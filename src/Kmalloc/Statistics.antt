-- ===== src/Kmalloc/Statistics.antt =====
-- The start of the heap of kmalloc.c, and its statistics.
use vros.Base.{
  ne→==, Bool-cases, ℕ, zero, suc, ◌+◌, ◌-◌, ◌%◌, ◌^◌, ◌≤◌, ◌<◌, ◌≡◌, refl, sym, ap, ◌∙◌, ◌≢◌, inl,
  inr, true, List, [], ◌∷◌, arith, length, if◌then◌else◌,
}
use vros.Kmalloc.{Block, Heap, Stats, header_size, kmalloc_init, kmalloc_stats, count_from}
use vros.Kmalloc.Tiles.{Piece, extent, link, Tiles, Tiles-end, IsHeap, rounds_enough}
use vros.Kmalloc.Live.{live, Holds}

-- kmalloc_init makes a well-formed heap in which no block is in use, if the heap holds a header and
-- lies between the address 16 and the end of memory.
pub kmalloc_init-IsHeap :
    (start size : ℕ) (h : Heap)
    → 16 ≤ start
    → header_size ≤ size
    → start + size < 2 ^ 32
    → Holds (kmalloc_init start size h) []
unfolding kmalloc_init
kmalloc_init-IsHeap start size h low enough lt = record {
  pieces = record { size = size - header_size; is_free = true } ∷ [];
  heap = record {
    tiles = (ground arith, omega arith);
    some_bytes = omega arith;
    not_low = low;
    in_memory = lt;
  };
  in_use = refl;
}

-- The bytes of the pieces in use, headers included.
abbrev pub used_bytes : List (ℕ × ℕ) → ℕ
used_bytes [] = 0
used_bytes (u ∷ us) = header_size + u.1 + used_bytes us

abbrev free_bytes : List Piece → ℕ
free_bytes [] = 0
free_bytes (p ∷ ps) =
    let rest = free_bytes ps in if p.is_free then header_size + p.size + rest else rest

bytes_lem : (a : ℕ) (ps : List Piece) → used_bytes (live a ps) + free_bytes ps ≡ extent ps
bytes_lem a [] = refl
bytes_lem a (p ∷ ps) =
    let ih = bytes_lem (a + (header_size + p.size)) ps in
    elim (Bool-cases p.is_free) [
      | inl free ↦ rw free (omega (arith, ih))
      | inr used ↦ rw used (omega (arith, ih))
    ]

-- The loop over the list of blocks.
count_lem :
    (n a : ℕ) (m : ℕ → Block) (ps : List Piece) (e : ℕ) (s : Stats)
    → Tiles m a ps e
    → a ≢ 0
    → length ps ≤ n
    → s.used + s.free_mem + extent ps < 2 ^ 32
    → count_from n m (link ps a) s
      ≡ record s { used = s.used + used_bytes (live a ps); free_mem = s.free_mem + free_bytes ps }
unfolding count_from
count_lem zero a m [] e s t ne le lt = ground arith
count_lem (suc n) a m [] e s t ne le lt = ground arith
count_lem zero a m (p ∷ ps) e s t ne le lt = absurd (omega arith)
count_lem (suc n) a m (p ∷ ps) e s t ne le lt =
    let step : (s' : Stats)
        → s'.used + s'.free_mem + extent ps < 2 ^ 32
        → count_from n m (link ps b) s' ≡ _ =
      λ s' lt'. count_lem n b m ps e s' t.1 (omega arith) (omega arith) lt' in
    let bytes : (p.size + header_size) % 2 ^ 32 ≡ p.size + header_size = omega arith in
    elim (Bool-cases p.is_free) [
      | inl free ↦
          let sum : (s.free_mem + (p.size + header_size)) % 2 ^ 32
              ≡ s.free_mem + (p.size + header_size) =
            omega arith in
          rw (t.0, ne→== a 0 ne, free, bytes, sum)
            (step (record s { free_mem = s.free_mem + (p.size + header_size) }) (omega arith)
              ∙ ap
                  (λ x. record {
                    total = s.total;
                    used = s.used + used_bytes (live b ps);
                    free_mem = x;
                  })
                  (omega arith))
      | inr used ↦
          let sum : (s.used + (p.size + header_size)) % 2 ^ 32 ≡ s.used + (p.size + header_size) =
            omega arith in
          rw (t.0, ne→== a 0 ne, used, bytes, sum)
            (step (record s { used = s.used + (p.size + header_size) }) (omega arith)
              ∙ ap
                  (λ x. record { total = s.total; used = x; free_mem = s.free_mem + free_bytes ps })
                  (omega arith))
    ]
  where
    b : ℕ
    b = a + (header_size + p.size)

link-heap : (h : Heap) (ps : List Piece) → IsHeap h ps → link ps h.heap_start ≡ h.heap_start
link-heap h [] k = absurd (omega (arith, k.tiles, k.some_bytes))
link-heap h (p ∷ ps) k = refl

-- kmalloc_stats reports as used the bytes of the blocks in use, headers included, and the rest of
-- the heap as free.
pub kmalloc_stats_lem :
    (h : Heap) (us : List (ℕ × ℕ))
    → Holds h us
    → let s = kmalloc_stats h in
      (s.total ≡ h.heap_size) × (s.used ≡ used_bytes us) × (s.used + s.free_mem ≡ s.total)
unfolding kmalloc_stats
kmalloc_stats_lem h us k =
    let s0 : Stats = record { total = h.heap_size; used = 0; free_mem = 0 } in
    let end = Tiles-end h.mem h.heap_start k.pieces _ k.heap.tiles in
    let counted =
      count_lem h.heap_size h.heap_start h.mem k.pieces _ s0 k.heap.tiles
        (omega (arith, k.heap.not_low)) (rounds_enough h k.pieces k.heap)
        (omega (arith, end, k.heap.in_memory)) in
    let all =
      ap (λ c. count_from h.heap_size h.mem c s0) (sym (link-heap h k.pieces k.heap)) ∙ counted in
    rw all (
      refl,
      omega (arith, ap used_bytes k.in_use),
      omega (arith, bytes_lem h.heap_start k.pieces, end),
    )
