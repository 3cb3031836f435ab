-- ===== src/Kmalloc/Alloc.antt =====
-- What `kmalloc` of kmalloc.c hands out.
use vros.Base.{
  ne→==, ℕ, ◌+◌, ◌-◌, ◌%◌, ◌^◌, ◌≤◌, ◌<◌, ◌≡◌, refl, subst, ◌≢◌, ◌⊎◌, inl, inr, false, List, [],
  ◌∷◌, ◌++◌, arith, All,
}
use vros.Kmalloc.{Heap, header_size, find_free_block, align, kmalloc}
use vros.Kmalloc.Tiles.{
  Tiles-end, rounds_enough, Piece, extent, Tiles, IsHeap, Tiles-drop, Tiles-replace,
}
use vros.Kmalloc.First.{
  First, fits, find_cases, taken, remnant, take_block, take_block_below, take_block-Tiles,
}

-- The rounded size is the next multiple of 4.
pub align_lem :
    (size : ℕ)
    → size ≤ 2 ^ 32 - 4
    → (align size % 4 ≡ 0) × (size ≤ align size) × (align size < size + 4)
unfolding align
align_lem size le = (ground arith, ground arith, ground arith)

kmalloc-none : (size : ℕ) (h : Heap) → find_free_block (align size) h ≡ 0 → kmalloc size h ≡ (0, h)
unfolding kmalloc
kmalloc-none size h e = ground (arith, e)

kmalloc-some :
    (size b : ℕ) (h : Heap)
    → size ≢ 0
    → find_free_block (align size) h ≡ b
    → b ≢ 0
    → b < 2 ^ 32 - header_size
    → kmalloc size h ≡ (b + header_size, record h { mem = take_block b (align size) h.mem })
unfolding kmalloc
kmalloc-some size b h ne e ne' lt =
    let sum : (b + header_size) % 2 ^ 32 ≡ b + header_size = omega arith in
    rw (ne→== size 0 ne, e, ne→== b 0 ne', sum) refl

-- The new list of blocks.
abbrev pub with_block : ℕ → List Piece → Piece → List Piece → List Piece
with_block n xs p ys = xs ++ taken n p ∷ (remnant n p ++ ys)

-- On a heap that its blocks tile, kmalloc is first fit: with no free block of the rounded size it
-- returns a null pointer and changes nothing, else it takes the first such block, hands out the
-- bytes behind its header, and cuts off what is worth a block.
pub kmalloc_cases :
    (size : ℕ) (h : Heap) (ps : List Piece)
    → IsHeap h ps
    → size ≢ 0
    → let n = align size in
      let (r, h') = kmalloc size h in
      (All (λ q. fits n q ≡ false) ps × (r ≡ 0) × (h' ≡ h))
      ⊎ ((xs : List Piece) × (p : Piece) × (ys : List Piece) × First n ps xs p ys
          × (r ≡ h.heap_start + extent xs + header_size)
          × IsHeap h' (with_block n xs p ys))
unfolding find_free_block
kmalloc_cases size h [] k ne = absurd (omega (arith, k.tiles, k.some_bytes))
kmalloc_cases size h (p0 ∷ ps) k ne = elim found_cases [
  | inl (misfit, none_found) ↦ rw (kmalloc-none size h none_found) (inl (misfit, refl, refl))
  | inr (xs, p, ys, first, found) ↦
      let b = h.heap_start + extent xs in
      let e = h.heap_start + h.heap_size in
      let tiles = subst (λ l. Tiles h.mem h.heap_start l e) first.split k.tiles in
      let here : Tiles h.mem b (p ∷ ys) e = Tiles-drop h.mem h.heap_start xs (p ∷ ys) e tiles in
      let bound = Tiles-end h.mem b (p ∷ ys) e here in
      let enough : n ≤ p.size = ground (arith, first.fit) in
      let done =
        take_block-Tiles h.mem b n p ys e here k.in_memory enough (omega (arith, k.not_low)) in
      let below : (q : ℕ) → q < b → take_block b n h.mem q ≡ h.mem q =
        λ q lt. take_block_below b n q h.mem (omega (arith, bound, enough, k.in_memory)) lt in
      rw
        (kmalloc-some size b h ne found (omega (arith, k.not_low))
          (omega (arith, bound, k.in_memory)))
        (inr (
          xs,
          p,
          ys,
          first,
          refl,
          record {
            tiles =
                Tiles-replace h.mem _ h.heap_start xs ys (remnant n p ++ ys) p (taken n p) e below
                  tiles done;
            some_bytes = k.some_bytes;
            not_low = k.not_low;
            in_memory = k.in_memory;
          },
        ))
]
  where
    n : ℕ
    n = align size

    found_cases :
        (All (λ q. fits n q ≡ false) (p0 ∷ ps) × (find_free_block n h ≡ 0))
        ⊎ ((xs : List Piece) × (p : Piece) × (ys : List Piece) × First n (p0 ∷ ps) xs p ys
            × (find_free_block n h ≡ h.heap_start + extent xs))
    found_cases =
        find_cases h.heap_size n h.mem h.heap_start (p0 ∷ ps) _ k.tiles (omega (arith, k.not_low))
          (rounds_enough h (p0 ∷ ps) k)
