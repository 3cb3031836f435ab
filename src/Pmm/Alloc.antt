-- ===== src/Pmm/Alloc.antt =====
-- `pmm_alloc_block` and `pmm_free_block` of pmm.c.
use vros.Base.{
  ℕ, ◌+◌, ◌*◌, ◌/◌, ◌%◌, ◌^◌, ◌≤◌, ◌<◌, ◌≡◌, refl, ap, ◌≢◌, ◌∙◌, sym, inl, inr, ◌⊎◌, true, false,
  leb, arith, Bool-cases, length, Option, none, some,
}
use vros.Pmm.Bitmap.{
  length-bitmap_set, length-bitmap_clear, bitmap_set-Words, bitmap_clear-Words, test-bitmap_set,
  bitmap_clear-set, count-bitmap_set, count-bitmap_clear, count-le, count-lt,
}
use native.Mathlib.Decide.{dec_lt}
use vros.Pmm.Search.{FirstClear, bitmap_first_free-FirstClear}
use vros.Pmm.{
  Pmm, IsValid, page_size, bitmap_test, bitmap_set, bitmap_clear, bitmap_first_free,
  pmm_alloc_block, pmm_free_block,
}

-- `block` is the lowest free block, and `q` is `p` with that block taken.
pub record Takes (p : Pmm) (block : ℕ) (q : Pmm) : Type 0 where
  pub inside : block < p.max_blocks
  pub was_free : bitmap_test p.memory_map block ≡ false
  pub lowest : (c : ℕ) → c < block → bitmap_test p.memory_map c ≡ true
  pub map_after : q.memory_map ≡ bitmap_set p.memory_map block
  pub used_after : q.used_blocks ≡ p.used_blocks + 1
  pub max_after : q.max_blocks ≡ p.max_blocks
  pub size_after : q.memory_size ≡ p.memory_size

-- A managed block has its bit inside the map.
index_in : {p : Pmm} (b : ℕ) → IsValid p → b < p.max_blocks → b / 32 < length p.memory_map
index_in b v h = omega arith

-- No block is left in the whole words of the map: the call returns a null pointer.
abbrev pub Full : Pmm → Type 0
Full p = (c : ℕ) → c < p.max_blocks / 32 * 32 → bitmap_test p.memory_map c ≡ true

taken :
    {p : Pmm} (b : ℕ)
    → IsValid p
    → FirstClear (bitmap_test p.memory_map) 0 (p.max_blocks / 32 * 32) (some b)
    → bitmap_first_free p ≡ some b
    → ((pmm_alloc_block p).0 ≡ b * page_size) × Takes p b (pmm_alloc_block p).1
unfolding pmm_alloc_block
taken {p} b v f e =
    let below : p.used_blocks < p.max_blocks =
      omega (arith, count-lt p.max_blocks p.memory_map b (omega arith) f.2, v.counted) in
    let test : leb p.max_blocks p.used_blocks ≡ false = ground arith in
    let inc : (p.used_blocks + 1) % 2 ^ 32 ≡ p.used_blocks + 1 = omega (arith, v.covered) in
    rw (test, e)
      (
        refl,
        record {
          inside = omega arith;
          was_free = f.2;
          lowest = λ c h. f.3 c (omega arith) h;
          map_after = refl;
          used_after = inc;
          max_after = refl;
          size_after = refl;
        },
      )

exhausted : {p : Pmm} → bitmap_first_free p ≡ none → pmm_alloc_block p ≡ (0, p)
unfolding pmm_alloc_block
exhausted {p} e = elim (Bool-cases (leb p.max_blocks p.used_blocks)) [
  | inl full ↦ rw full
  | inr room ↦ rw (room, e)
]

-- On a valid manager pmm_alloc_block either finds every block of the bitmap's whole words used, and
-- then returns a null pointer and changes nothing, or it returns the address of the lowest free
-- block, marks that block alone as used and counts it.
pub alloc_cases :
    {p : Pmm}
    → IsValid p
    → (Full p × (pmm_alloc_block p ≡ (0, p)))
      ⊎ ((b : ℕ) × ((pmm_alloc_block p).0 ≡ b * page_size) × Takes p b (pmm_alloc_block p).1)
alloc_cases {p} v = by_search (bitmap_first_free p) refl (bitmap_first_free-FirstClear p)
  where
    by_search :
        (r : Option ℕ)
        → bitmap_first_free p ≡ r
        → FirstClear (bitmap_test p.memory_map) 0 (p.max_blocks / 32 * 32) r
        → (Full p × (pmm_alloc_block p ≡ (0, p)))
          ⊎ ((b : ℕ) × ((pmm_alloc_block p).0 ≡ b * page_size) × Takes p b (pmm_alloc_block p).1)
    by_search none e f = inl (λ c h. f c (omega arith) h, exhausted e)
    by_search (some b) e f = inr (b, (taken b v f e).0, (taken b v f e).1)

Takes-IsValid : {p : Pmm} (b : ℕ) {q : Pmm} → IsValid p → Takes p b q → IsValid q
Takes-IsValid {p} b {q} v t = record {
  map_length = rw t.map_after (length-bitmap_set p.memory_map b ∙ v.map_length);
  words = rw t.map_after (bitmap_set-Words p.memory_map b v.words);
  covered = rw t.max_after v.covered;
  counted =
      rw (t.map_after, t.max_after, t.used_after)
        (ground (
          arith,
          v,
          t.inside,
          count-bitmap_set p.max_blocks p.memory_map b (index_in b v t.inside) t.was_free,
        ));
}

-- pmm_alloc_block keeps the manager valid: the bitmap has its size, its words fit 32 bits, and the
-- counter agrees with the bitmap.
pub alloc-IsValid : {p : Pmm} → IsValid p → IsValid (pmm_alloc_block p).1
alloc-IsValid {p} v = elim (alloc_cases v) [
  | inl (_, e) ↦ rw e v
  | inr (b, _, t) ↦ Takes-IsValid b v t
]

-- pmm_free_block of an address within the managed memory keeps the manager valid, also when the
-- block was free already.
pub free-IsValid :
    {p : Pmm} (addr : ℕ)
    → IsValid p
    → addr / page_size < p.max_blocks
    → IsValid (pmm_free_block addr p)
unfolding pmm_free_block
free-IsValid {p} addr v h = elim (Bool-cases (bitmap_test p.memory_map (addr / page_size))) [
  | inl used ↦ rw used (record {
    map_length = length-bitmap_clear p.memory_map (addr / page_size) ∙ v.map_length;
    words = bitmap_clear-Words p.memory_map (addr / page_size) v.words;
    covered = v.covered;
    counted = ground (
      arith,
      count-bitmap_clear p.max_blocks p.memory_map (addr / page_size) (index_in _ v h) v.words used,
      count-le p.max_blocks p.memory_map,
    );
  })
  | inr free ↦ rw free v
]

free-Takes :
    {p : Pmm} (b : ℕ) {q : Pmm} → IsValid p → Takes p b q → pmm_free_block (b * page_size) q ≡ p
unfolding pmm_free_block
free-Takes {p} b {q} v t =
    let block : b * page_size / page_size ≡ b = omega arith in
    let test : bitmap_test q.memory_map b ≡ true =
      rw t.map_after (ground (arith, test-bitmap_set p.memory_map b b (index_in b v t.inside))) in
    let map_back : bitmap_clear q.memory_map b ≡ p.memory_map =
      rw t.map_after (bitmap_clear-set p.memory_map b (index_in b v t.inside) v.words t.was_free) in
    rw (block, test)
      (ground (
        arith,
        map_back,
        t.used_after,
        t.max_after,
        t.size_after,
        v.covered,
        v.counted,
        count-le p.max_blocks p.memory_map,
      ))

-- On a valid manager, freeing a block that was just allocated restores the whole state.
pub free-alloc :
    {p : Pmm}
    → IsValid p
    → (pmm_alloc_block p).0 ≢ 0
    → pmm_free_block (pmm_alloc_block p).0 (pmm_alloc_block p).1 ≡ p
free-alloc {p} v h = elim (alloc_cases v) [
  | inl (_, e) ↦ absurd (h (ap (λ (r : ℕ × Pmm). r.0) e))
  | inr (b, e, t) ↦ rw e (free-Takes b v t)
]

taken_again : {p : Pmm} (b c : ℕ) {q r : Pmm} → IsValid p → Takes p b q → Takes q c r → c ≡ b → ⊥
taken_again {p} b c {q} v t t' e =
    let test : bitmap_test q.memory_map b ≡ true =
      rw t.map_after (ground (arith, test-bitmap_set p.memory_map b b (index_in b v t.inside))) in
    let clear : bitmap_test q.memory_map b ≡ false = rw e at t'.was_free in cc

-- Two allocations in a row never hand out the same block.
pub alloc-alloc_ne :
    {p : Pmm}
    → IsValid p
    → (pmm_alloc_block p).0 ≢ 0
    → (pmm_alloc_block (pmm_alloc_block p).1).0 ≢ (pmm_alloc_block p).0
alloc-alloc_ne {p} v h = elim (alloc_cases v) [
  | inl (_, e) ↦ absurd (h (ap (λ (r : ℕ × Pmm). r.0) e))
  | inr (b, e, t) ↦ elim (alloc_cases (Takes-IsValid b v t)) [
    | inl (_, e') ↦ λ same. h (sym same ∙ ap (λ (r : ℕ × Pmm). r.0) e')
    | inr (b', e', t') ↦ λ same.
        taken_again b b' v t t'
          (let eq : b' * page_size ≡ b * page_size = sym e' ∙ same ∙ e in omega arith)
  ]
]

-- A free block 0 is handed out as the address 0, which callers read as a null pointer: the block is
-- marked as used and lost.
pub alloc-block_zero :
    {p : Pmm}
    → IsValid p
    → 32 ≤ p.max_blocks
    → bitmap_test p.memory_map 0 ≡ false
    → ((pmm_alloc_block p).0 ≡ 0)
      × (bitmap_test (pmm_alloc_block p).1.memory_map 0 ≡ true)
      × ((pmm_alloc_block p).1.used_blocks ≡ p.used_blocks + 1)
alloc-block_zero {p} v big free = elim (alloc_cases v) [
  | inl (full, e) ↦ absurd (let one = full 0 (omega arith) in cc)
  | inr (b, e, t) ↦
      let zero_block : b ≡ 0 = elim (dec_lt 0 b) [
        | yes p0 ↦ absurd (let one = t.lowest 0 p0 in cc)
        | no p0 ↦ omega arith
      ] in
      (
        rw (e, zero_block),
        rw (t.map_after, zero_block)
            (ground (arith, test-bitmap_set p.memory_map 0 0 (index_in 0 v (omega arith)))),
        t.used_after,
      )
]
