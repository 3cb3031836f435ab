-- ===== src/Kmalloc/Free.antt =====
-- `kfree` of kmalloc.c.
use vros.Base.{
  Bool-cases, ne→==, ℕ, ◌+◌, ◌-◌, ◌%◌, ◌^◌, ◌<◌, ◌≡◌, refl, sym, ap, subst, ◌∙◌, ◌≢◌, inl, inr,
  true, List, [], ◌∷◌, ◌++◌, arith, leb,
}
use vros.Kmalloc.{
  min_block_size, Heap, header_size, store, merge_free_blocks, kmalloc, kfree, align,
}
use vros.Kmalloc.Tiles.{
  Tiles-end, Piece, extent, link, block_of, Tiles, IsHeap, Tiles-frame, Tiles-drop, Tiles-replace,
  rounds_enough,
}
use vros.Kmalloc.Merge.{coalesce, merged, Apart, merge_lem}
use vros.Kmalloc.First.{taken, remnant, fits}
use vros.Kmalloc.Live.{
  Holds, live, live_split, live-append, live-coalesce, coalesce-Apart, join_pair, join_same,
}
use vros.Kmalloc.Alloc.{kmalloc_cases}

abbrev pub freed : Piece → Piece
freed p = record { size = p.size; is_free = true }

merge_free_blocks-IsHeap :
    (h : Heap) (ps : List Piece) → IsHeap h ps → IsHeap (merge_free_blocks h) (coalesce ps)
unfolding merge_free_blocks
merge_free_blocks-IsHeap h [] k = absurd (omega (arith, k.tiles, k.some_bytes))
merge_free_blocks-IsHeap h (p ∷ ps) k = record {
  tiles =
      (merge_lem h.heap_size h.heap_start h.mem p ps _ k.tiles (omega (arith, k.not_low))
        k.in_memory (omega (arith, rounds_enough h (p ∷ ps) k))).0;
  some_bytes = k.some_bytes;
  not_low = k.not_low;
  in_memory = k.in_memory;
}

-- The store of `kfree`, at the block `b`.
abbrev set_free : ℕ → Heap → Heap
set_free b h = record h { mem = store h.mem b (record (h.mem b) { is_free = true }) }

set_free-IsHeap :
    (h : Heap) (xs : List Piece) (p : Piece) (ys : List Piece)
    → IsHeap h (xs ++ p ∷ ys)
    → IsHeap (set_free (h.heap_start + extent xs) h) (xs ++ freed p ∷ ys)
set_free-IsHeap h xs p ys k =
    let b = h.heap_start + extent xs in
    let e = h.heap_start + h.heap_size in
    let m' = (set_free b h).mem in
    let here : Tiles h.mem b (p ∷ ys) e = Tiles-drop h.mem h.heap_start xs (p ∷ ys) e k.tiles in
    let at : m' b ≡ block_of (freed p) (link ys (b + (header_size + p.size))) =
      ground (arith, here.0) in
    let tail : Tiles m' (b + (header_size + p.size)) ys e =
      Tiles-frame h.mem m' _ ys e (λ q le. ground arith) here.1 in
    let below : (q : ℕ) → q < b → m' q ≡ h.mem q = λ q lt. ground arith in
    record {
      tiles = Tiles-replace h.mem m' h.heap_start xs ys ys p (freed p) e below k.tiles (at, tail);
      some_bytes = k.some_bytes;
      not_low = k.not_low;
      in_memory = k.in_memory;
    }

-- Freeing the block of the piece `p` frees that piece and joins free neighbours.
pub kfree_at :
    (h : Heap) (xs : List Piece) (p : Piece) (ys : List Piece)
    → IsHeap h (xs ++ p ∷ ys)
    → IsHeap (kfree (h.heap_start + extent xs + header_size) h) (coalesce (xs ++ freed p ∷ ys))
unfolding kfree
kfree_at h xs p ys k =
    let b = h.heap_start + extent xs in
    let e = h.heap_start + h.heap_size in
    let here : Tiles h.mem b (p ∷ ys) e = Tiles-drop h.mem h.heap_start xs (p ∷ ys) e k.tiles in
    let bound = Tiles-end h.mem b (p ∷ ys) e here in
    let back : (b + header_size + 2 ^ 32 - header_size) % 2 ^ 32 ≡ b =
      omega (arith, bound, k.in_memory) in
    rw (ne→== (b + header_size) 0 (omega arith), back)
      (merge_free_blocks-IsHeap (set_free b h) (xs ++ freed p ∷ ys) (set_free-IsHeap h xs p ys k))

kfree-heap_start : (ptr : ℕ) (h : Heap) → (kfree ptr h).heap_start ≡ h.heap_start
unfolding kfree merge_free_blocks
kfree-heap_start ptr h = ground arith

-- kfree of a block in use takes away that block alone from the blocks in use, and leaves no two
-- free neighbours.
pub kfree_frees :
    (h : Heap) (us : List (ℕ × ℕ)) (ptr n : ℕ) (vs : List (ℕ × ℕ))
    → Holds h (us ++ (ptr, n) ∷ vs)
    → (k : Holds (kfree ptr h) (us ++ vs)) × Apart k.pieces
kfree_frees h us ptr n vs k =
    let i = live_split h.heap_start k.pieces us ptr n vs k.in_use in
    let ps' = i.before ++ freed i.piece ∷ i.behind in
    let freed_heap = kfree_at h i.before i.piece i.behind (subst (IsHeap h) i.split k.heap) in
    let same = kfree-heap_start ptr h in
    let uses : live h.heap_start (coalesce ps') ≡ us ++ vs =
      live-coalesce h.heap_start ps'
      ∙ live-append h.heap_start i.before (freed i.piece ∷ i.behind)
      ∙ ap (λ l. l ++ live (h.heap_start + extent i.before + (header_size + i.piece.size)) i.behind)
          i.live_before
      ∙ ap (◌++◌ us) i.live_behind in
    (
      record {
        pieces = coalesce ps';
        heap = subst (λ r. IsHeap (kfree r h) (coalesce ps')) (sym i.address) freed_heap;
        in_use = ap (λ a. live a (coalesce ps')) same ∙ uses;
      },
      coalesce-Apart ps',
    )

pub kmalloc-heap_start : (size : ℕ) (h : Heap) → (kmalloc size h).1.heap_start ≡ h.heap_start
unfolding kmalloc
kmalloc-heap_start size h = ground arith

kfree-null : (h : Heap) → kfree 0 h ≡ h
unfolding kfree
kfree-null h = refl

coalesce_pair :
    (xs : List Piece) (q r : Piece) (ys : List Piece)
    → q.is_free ≡ true
    → r.is_free ≡ true
    → coalesce (xs ++ q ∷ r ∷ ys) ≡ coalesce (xs ++ merged q r ∷ ys)
coalesce_pair [] q r ys f g = rw (f, g) refl
coalesce_pair (x ∷ xs) q r ys f g = join_pair x xs q r ys f g

-- What was cut from a free piece joins to that piece again.
coalesce-with_block :
    (n : ℕ) (xs : List Piece) (p : Piece) (ys : List Piece)
    → fits n p ≡ true
    → coalesce (xs ++ freed (taken n p) ∷ (remnant n p ++ ys)) ≡ coalesce (xs ++ p ∷ ys)
coalesce-with_block n xs p ys fit =
    elim (Bool-cases (leb (n + (header_size + min_block_size)) p.size)) [
      | inl big ↦
          let whole : n + (header_size + (p.size - n - header_size)) ≡ p.size = ground arith in
          rw big (
            coalesce_pair xs _ _ ys refl refl
            ∙ ap (λ q. coalesce (xs ++ q ∷ ys))
                (ap (λ k. record { size = k; is_free = true }) whole ∙ same))
      | inr small ↦ rw small (ap (λ q. coalesce (xs ++ q ∷ ys)) same)
    ]
  where
    same : freed p ≡ p
    same = ap (λ f. record { size = p.size; is_free = f }) (ground (arith, fit))

coalesce_same : (ps : List Piece) → Apart ps → coalesce ps ≡ ps
coalesce_same [] h = refl
coalesce_same (p ∷ ps) h = join_same p ps h

-- On a heap without free neighbours, freeing what kmalloc has just returned, a block or a null
-- pointer, restores the list of blocks.
pub kfree-kmalloc :
    (size : ℕ) (h : Heap) (ps : List Piece)
    → IsHeap h ps
    → Apart ps
    → size ≢ 0
    → let (ptr, h') = kmalloc size h in IsHeap (kfree ptr h') ps
kfree-kmalloc size h ps k apart ne = elim (kmalloc_cases size h ps k ne) [
  | inl (misfit, null, same) ↦ rw (null, kfree-null, same) k
  | inr (xs, p, ys, first, address, heap) ↦
      let n = align size in
      let h' = (kmalloc size h).1 in
      let place : h'.heap_start + extent xs + header_size ≡ (kmalloc size h).0 =
        ap (λ a. a + extent xs + header_size) (kmalloc-heap_start size h) ∙ sym address in
      let restored : coalesce (xs ++ freed (taken n p) ∷ (remnant n p ++ ys)) ≡ ps =
        coalesce-with_block n xs p ys first.fit
        ∙ ap coalesce (sym first.split)
        ∙ coalesce_same ps apart in
      subst (IsHeap (kfree (kmalloc size h).0 h')) restored (
        subst (λ r. IsHeap (kfree r h') (coalesce (xs ++ freed (taken n p) ∷ (remnant n p ++ ys))))
          place (kfree_at h' xs (taken n p) (remnant n p ++ ys) heap))
]
