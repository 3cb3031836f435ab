-- ===== src/Kmalloc/Wrap.antt =====
-- `kmalloc` of kmalloc.c on sizes that leave 32 bits when they are rounded up.
use vros.Base.{
  drop, ℕ, ◌+◌, ◌-◌, ◌^◌, ◌≤◌, ◌<◌, ◌≡◌, sym, ap, ◌∙◌, ◌≢◌, inl, inr, true, false, List, [], ◌∷◌,
  arith, get_or,
}
use vros.Kmalloc.{Heap, header_size, kmalloc, align}
use vros.Kmalloc.Tiles.{Piece, IsHeap}
use vros.Kmalloc.First.{fits, taken}
use vros.Kmalloc.Live.{live, Holds}
use vros.Kmalloc.Alloc.{kmalloc_cases, with_block}
use vros.Kmalloc.Use.{live-with_block}
use vros.Kmalloc.Free.{kmalloc-heap_start}

align-wraps : (size : ℕ) → 2 ^ 32 - 4 < size → size < 2 ^ 32 → align size ≡ 0
unfolding align
align-wraps size low high = ground arith

-- If the first block is free and holds 28 bytes, kmalloc of more than 2 ^ 32 - 4 bytes succeeds
-- with a block of no bytes.
pub kmalloc_wraps :
    (size : ℕ) (h : Heap) (p : Piece) (ps : List Piece)
    → IsHeap h (p ∷ ps)
    → p.is_free ≡ true
    → 28 ≤ p.size
    → 2 ^ 32 - 4 < size
    → size < 2 ^ 32
    → let (ptr, h') = kmalloc size h in
      let a = h.heap_start in
      (ptr ≡ a + header_size)
      × Holds h' ((a + header_size, 0) ∷ live (a + (header_size + p.size)) ps)
kmalloc_wraps size h p ps k free room low high =
    elim (kmalloc_cases size h (p ∷ ps) k (omega arith)) [
      | inl (misfit, null, same) ↦ absurd (true≢false (sym fit ∙ misfit.0))
      | inr ([], q, ys, first, address, heap) ↦
          let n = align size in
          let a = h.heap_start in
          let head : p ≡ q = ap (λ l. get_or l 0 p) first.split in
          let tail : ps ≡ ys = ap (drop 1) first.split in
          let same : p.size ≡ q.size = ap (λ (r : Piece). r.size) head in
          let empty : (taken n q).size ≡ 0 = ground (arith, none_asked, same) in
          let uses : live (kmalloc size h).1.heap_start (with_block n [] q ys)
              ≡ (a + header_size, 0) ∷ live (a + (header_size + p.size)) ps =
            ap (λ c. live c (with_block n [] q ys)) (kmalloc-heap_start size h)
            ∙ live-with_block n a [] q ys first.fit
            ∙ ap (λ x. (a + 0 + header_size, x) ∷ live (a + 0 + (header_size + q.size)) ys) empty
            ∙ ap (λ l. (a + 0 + header_size, 0) ∷ live (a + 0 + (header_size + q.size)) l)
                (sym tail)
            ∙ ap (λ x. (a + 0 + header_size, 0) ∷ live (a + 0 + (header_size + x)) ps) (sym same)
            ∙ ap (λ c. (c + header_size, 0) ∷ live (c + (header_size + p.size)) ps) (omega arith) in
          (
            omega (arith, address),
            record { pieces = with_block n [] q ys; heap = heap; in_use = uses },
          )
      | inr (x ∷ xs, q, ys, first, address, heap) ↦
          let head : p ≡ x = ap (λ l. get_or l 0 p) first.split in
          absurd (true≢false (sym fit ∙ ap (fits (align size)) head ∙ first.before.0))
    ]
  where
    none_asked : align size ≡ 0
    none_asked = align-wraps size low high

    fit : fits (align size) p ≡ true
    fit = rw (none_asked, free) (ground arith)

    true≢false : true ≢ false
    true≢false e = ground (arith, e)
