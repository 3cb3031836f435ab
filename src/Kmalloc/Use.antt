-- ===== src/Kmalloc/Use.antt =====
-- `kmalloc` of kmalloc.c as its callers see it, the heap's start, and its statistics.
use vros.Base.{
  Bool-cases, ℕ, ◌+◌, ◌-◌, ◌^◌, ◌≤◌, ◌<◌, ◌≡◌, refl, sym, ap, subst, ◌∙◌, ◌≢◌, ◌⊎◌, inl, inr, true,
  List, [], ◌∷◌, ◌++◌, arith, All, leb,
}
use vros.Kmalloc.{min_block_size, Heap, header_size, kmalloc, align}
use vros.Kmalloc.Tiles.{extent-append, Tiles-end, Piece, extent}
use vros.Kmalloc.First.{taken, remnant, fits}
use vros.Kmalloc.Live.{live, live-append, live-free, Holds}
use vros.Kmalloc.Alloc.{kmalloc_cases, with_block, align_lem}
use vros.Kmalloc.Free.{kmalloc-heap_start}

-- The bytes `ptr` to `ptr + n` have none in common with those of the block `u`.
abbrev pub Clear : ℕ → ℕ → ℕ × ℕ → Type 0
Clear ptr n u = (u.0 + u.1 ≤ ptr) ⊎ (ptr + n ≤ u.0)

All-map {ℓ κ κ'} :
    {A : Type ℓ} (P : A → Type κ) (Q : A → Type κ')
    → ((x : A) → P x → Q x)
    → (xs : List A) → All P xs
    → All Q xs
All-map P Q f [] h = tt
All-map P Q f (x ∷ xs) h = (f x h.0, All-map P Q f xs h.1)

All-append {ℓ κ} :
    {A : Type ℓ} (P : A → Type κ) (xs ys : List A) → All P xs → All P ys → All P (xs ++ ys)
All-append P [] ys h k = k
All-append P (x ∷ xs) ys h k = (h.0, All-append P xs ys h.1 k)

-- The blocks in use lie in the bytes of their pieces.
live-range :
    (a : ℕ) (ps : List Piece)
    → All (λ u. (a + header_size ≤ u.0) × (u.0 + u.1 ≤ a + extent ps)) (live a ps)
live-range a [] = tt
live-range a (p ∷ ps) =
    let b = a + (header_size + p.size) in
    let rest =
      All-map (λ u. (b + header_size ≤ u.0) × (u.0 + u.1 ≤ b + extent ps))
        (λ u. (a + header_size ≤ u.0) × (u.0 + u.1 ≤ a + (header_size + p.size + extent ps)))
        (λ u h. (omega (arith, h.0), omega (arith, h.1))) (live b ps) (live-range b ps) in
    elim (Bool-cases p.is_free) [
      | inl free ↦ rw free rest
      | inr used ↦ rw used ((omega arith, omega arith), rest)
    ]

-- A piece that is cut for use, among the blocks in use.
pub live-with_block :
    (n a : ℕ) (xs : List Piece) (p : Piece) (ys : List Piece)
    → fits n p ≡ true
    → live a (with_block n xs p ys)
      ≡ live a xs
        ++ (a + extent xs + header_size, (taken n p).size)
          ∷ live (a + extent xs + (header_size + p.size)) ys
live-with_block n a xs p ys fit =
    live-append a xs (taken n p ∷ (remnant n p ++ ys))
    ∙ ap (◌++◌ (live a xs)) (elim (Bool-cases (leb (n + (header_size + min_block_size)) p.size)) [
      | inl big ↦ rw big (ap (λ b. (a + extent xs + header_size, n) ∷ live b ys) (ground arith))
      | inr small ↦ rw small refl
    ])

-- kmalloc of at most 2 ^ 32 - 4 bytes either returns a null pointer and changes nothing, or hands
-- out a block inside the heap that has the bytes asked for and shares none with a block in use, and
-- the blocks in use stay in use.
pub kmalloc_safe :
    (size : ℕ) (h : Heap) (us : List (ℕ × ℕ))
    → Holds h us
    → size ≢ 0
    → size ≤ 2 ^ 32 - 4
    → let (ptr, h') = kmalloc size h in
      ((ptr ≡ 0) × (h' ≡ h))
      ⊎ ((n : ℕ) × (xs : List (ℕ × ℕ)) × (ys : List (ℕ × ℕ)) × (us ≡ xs ++ ys)
          × Holds h' (xs ++ (ptr, n) ∷ ys)
          × (size ≤ n)
          × (h.heap_start < ptr)
          × (ptr + n ≤ h.heap_start + h.heap_size)
          × All (Clear ptr n) us)
kmalloc_safe size h us k ne le = elim (kmalloc_cases size h k.pieces k.heap ne) [
  | inl (misfit, null, same) ↦ inl (null, same)
  | inr (xs, p, ys, first, address, heap) ↦
      let n = align size in
      let a = h.heap_start in
      let b = a + extent xs in
      let e = b + (header_size + p.size) in
      let k_size = (taken n p).size in
      let end = Tiles-end h.mem a k.pieces (a + h.heap_size) k.heap.tiles in
      let total : extent k.pieces ≡ extent xs + (header_size + p.size + extent ys) =
        ap extent first.split ∙ extent-append xs (p ∷ ys) in
      let free : p.is_free ≡ true = ground (arith, first.fit) in
      let fit : n ≤ k_size = ground (arith, first.fit) in
      let fit' : k_size ≤ p.size = ground (arith, first.fit) in
      let whole : us ≡ live a xs ++ live e ys =
        sym k.in_use
        ∙ ap (live a) first.split
        ∙ live-append a xs (p ∷ ys)
        ∙ ap (◌++◌ (live a xs)) (live-free b p ys free) in
      let uses : live (kmalloc size h).1.heap_start (with_block n xs p ys)
          ≡ live a xs ++ ((kmalloc size h).0, k_size) ∷ live e ys =
        ap (λ c. live c (with_block n xs p ys)) (kmalloc-heap_start size h)
        ∙ live-with_block n a xs p ys first.fit
        ∙ ap (λ r. live a xs ++ (r, k_size) ∷ live e ys) (sym address) in
      let low : All (Clear (kmalloc size h).0 k_size) (live a xs) =
        All-map _ _ (λ u r. inl (omega (arith, r, address))) (live a xs) (live-range a xs) in
      let high : All (Clear (kmalloc size h).0 k_size) (live e ys) =
        All-map _ _ (λ u r. inr (omega (arith, r, address, fit'))) (live e ys) (live-range e ys) in
      inr (
        k_size,
        live a xs,
        live e ys,
        whole,
        record { pieces = with_block n xs p ys; heap = heap; in_use = uses },
        omega (arith, fit, align_lem size le),
        omega (arith, address),
        omega (arith, address, end, total, fit'),
        subst (All (Clear (kmalloc size h).0 k_size)) (sym whole)
            (All-append _ (live a xs) (live e ys) low high),
      )
]
