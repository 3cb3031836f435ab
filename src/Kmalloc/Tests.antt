-- ===== src/Kmalloc/Tests.antt =====
-- A heap of 200 bytes at the address 1000: a block in use, a free one of 40 bytes, a block in use, and
-- a free one at the end.
use vros.Base.{
  ℕ, ◌+◌, ◌-◌, ◌^◌, ◌≤◌, ◌<◌, ◌≡◌, refl, ◌⊎◌, Bool, true, false, List, [], ◌∷◌, ◌++◌, arith, All,
}
use vros.Kmalloc.{
  Block, Heap, header_size, store, kmalloc_init, find_from, find_free_block, split_block,
  merge_step, merge_from, merge_free_blocks, align, kmalloc, kfree, count_from, kmalloc_stats,
}
use vros.Kmalloc.Tiles.{Piece, extent, IsHeap}
use vros.Kmalloc.First.{First, fits}
use vros.Kmalloc.Merge.{Apart}
use vros.Kmalloc.Live.{Holds}
use vros.Kmalloc.Alloc.{kmalloc_cases, with_block}
use vros.Kmalloc.Free.{kfree_frees, kfree-kmalloc}
use vros.Kmalloc.Use.{Clear, kmalloc_safe}
use vros.Kmalloc.Statistics.{used_bytes, kmalloc_init-IsHeap, kmalloc_stats_lem}
use vros.Kmalloc.Wrap.{kmalloc_wraps}

abbrev block : ℕ → Bool → ℕ → Block
block s f n = record { size = s; is_free = f; next = n }

abbrev piece : ℕ → Bool → Piece
piece s f = record { size = s; is_free = f }

abbrev no_block : ℕ → Block
no_block q = block 0 false 0

abbrev no_heap : Heap
no_heap = record { mem = no_block; heap_start = 0; heap_size = 0 }

abbrev heap : Heap
heap = record {
  mem =
      store
        (store (store (store no_block 1000 (block 20 false 1032)) 1032 (block 40 true 1084)) 1084
          (block 8 false 1104))
        1104 (block 84 true 0);
  heap_start = 1000;
  heap_size = 200;
}

abbrev pieces : List Piece
pieces = piece 20 false ∷ piece 40 true ∷ piece 8 false ∷ piece 84 true ∷ []

abbrev in_use : List (ℕ × ℕ)
in_use = (1012, 20) ∷ (1096, 8) ∷ []

heap-IsHeap : IsHeap heap pieces
heap-IsHeap = record {
  tiles = (refl, (refl, (refl, (refl, refl))));
  some_bytes = omega arith;
  not_low = omega arith;
  in_memory = omega arith;
}

heap-Holds : Holds heap in_use
heap-Holds = record { pieces = pieces; heap = heap-IsHeap; in_use = refl }

heap-Apart : Apart pieces
heap-Apart = (refl, (refl, (refl, tt)))

first_fit : (kmalloc 7 heap).0 ≡ 1044
unfolding kmalloc find_free_block find_from align split_block
first_fit = refl

beyond_first_fit : (kmalloc 41 heap).0 ≡ 1116
unfolding kmalloc find_free_block find_from align split_block
beyond_first_fit = refl

too_much : (kmalloc 85 heap).0 ≡ 0
unfolding kmalloc find_free_block find_from align split_block
too_much = refl

joined : ((kfree 1096 heap).mem 1032).size ≡ 156
unfolding kfree merge_free_blocks merge_from merge_step
joined = refl

counted : (kmalloc_stats heap).free_mem ≡ 148
unfolding kmalloc_stats count_from
counted = refl

kmalloc_cases_example :
    (All (λ q. fits (align 7) q ≡ false) pieces
      × ((kmalloc 7 heap).0 ≡ 0)
      × ((kmalloc 7 heap).1 ≡ heap))
    ⊎ ((xs : List Piece) × (p : Piece) × (ys : List Piece) × First (align 7) pieces xs p ys
        × ((kmalloc 7 heap).0 ≡ 1000 + extent xs + header_size)
        × IsHeap (kmalloc 7 heap).1 (with_block (align 7) xs p ys))
kmalloc_cases_example = kmalloc_cases 7 heap pieces heap-IsHeap (omega arith)

kmalloc_safe_example :
    (((kmalloc 7 heap).0 ≡ 0) × ((kmalloc 7 heap).1 ≡ heap))
    ⊎ ((n : ℕ) × (xs : List (ℕ × ℕ)) × (ys : List (ℕ × ℕ)) × (in_use ≡ xs ++ ys)
        × Holds (kmalloc 7 heap).1 (xs ++ ((kmalloc 7 heap).0, n) ∷ ys)
        × (7 ≤ n)
        × (1000 < (kmalloc 7 heap).0)
        × ((kmalloc 7 heap).0 + n ≤ 1000 + 200)
        × All (Clear (kmalloc 7 heap).0 n) in_use)
kmalloc_safe_example = kmalloc_safe 7 heap in_use heap-Holds (omega arith) (omega arith)

kfree_frees_example : (k : Holds (kfree 1096 heap) ((1012, 20) ∷ [])) × Apart k.pieces
kfree_frees_example = kfree_frees heap ((1012, 20) ∷ []) 1096 8 [] heap-Holds

kfree-kmalloc_example : IsHeap (kfree (kmalloc 7 heap).0 (kmalloc 7 heap).1) pieces
kfree-kmalloc_example = kfree-kmalloc 7 heap pieces heap-IsHeap heap-Apart (omega arith)

kmalloc_init-IsHeap_example : Holds (kmalloc_init 1000 200 no_heap) []
kmalloc_init-IsHeap_example =
    kmalloc_init-IsHeap 1000 200 no_heap (omega arith) (omega arith) (omega arith)

kmalloc_stats_lem_example :
    ((kmalloc_stats heap).total ≡ 200)
    × ((kmalloc_stats heap).used ≡ used_bytes in_use)
    × ((kmalloc_stats heap).used + (kmalloc_stats heap).free_mem ≡ (kmalloc_stats heap).total)
kmalloc_stats_lem_example = kmalloc_stats_lem heap in_use heap-Holds

abbrev fresh : Heap
fresh = record { mem = store no_block 1000 (block 188 true 0); heap_start = 1000; heap_size = 200 }

fresh-IsHeap : IsHeap fresh (piece 188 true ∷ [])
fresh-IsHeap = record {
  tiles = (refl, refl);
  some_bytes = omega arith;
  not_low = omega arith;
  in_memory = omega arith;
}

kmalloc_wraps_example :
    ((kmalloc (2 ^ 32 - 2) fresh).0 ≡ 1000 + header_size)
    × Holds (kmalloc (2 ^ 32 - 2) fresh).1 ((1000 + header_size, 0) ∷ [])
kmalloc_wraps_example =
    kmalloc_wraps (2 ^ 32 - 2) fresh (piece 188 true) [] fresh-IsHeap refl (omega arith)
      (omega arith) (omega arith)
