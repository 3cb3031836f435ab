-- ===== src/Pmm/Region.antt =====
-- `pmm_init`, `pmm_init_region` and `pmm_deinit_region` of pmm.c.
use vros.Bits.{test_bit-zero, test_bit-complement, has_bit_lem}
use vros.Base.{
  ◌%◌, refl, All-replicate, length-replicate, List, ◌*◌, get_or-replicate, ◌^◌, replicate, false, ℕ,
  zero, suc, ◌+◌, ◌/◌, ◌≤◌, ◌<◌, ◌≡◌, ◌∙◌, Bool, true, not, ltb, leb, ◌||◌, ◌&&◌, arith, length,
}
use vros.Pmm.Bitmap.{
  count-bitmap_set, bitmap_set-Words, Words, length-bitmap_set, length-bitmap_clear,
  bitmap_clear-Words, test-bitmap_set, test-bitmap_clear, count-bitmap_clear, count-le,
}
use vros.Pmm.{
  pmm_init, count_used, Pmm, IsValid, map_blocks, page_size, bitmap_test, bitmap_set, bitmap_clear,
  inc32, dec32, release_from, reserve_from, pmm_init_region, pmm_deinit_region,
}

-- Block `c` is one of the `n` blocks from `b` on.
abbrev pub within : ℕ → ℕ → ℕ → Bool
within b n c = leb b c && ltb c (b + n)

-- `pmm_init_region` clears the bits of the region's blocks and no other.
pub test-init_region :
    (base size : ℕ) (p : Pmm) (c : ℕ)
    → length p.memory_map ≡ map_blocks / 32
    → Words p.memory_map
    → base / page_size + size / page_size ≤ map_blocks
    → bitmap_test (pmm_init_region base size p).memory_map c
      ≡ (not (within (base / page_size) (size / page_size) c) && bitmap_test p.memory_map c)
unfolding pmm_init_region
test-init_region base size p c l w h = released (size / page_size) (base / page_size) p c l w h
  where
    released :
        (n b : ℕ) (p : Pmm) (c : ℕ)
        → length p.memory_map ≡ map_blocks / 32
        → Words p.memory_map
        → b + n ≤ map_blocks
        → bitmap_test (release_from n b p).memory_map c
          ≡ (not (within b n c) && bitmap_test p.memory_map c)
    released zero b p c l w h = ground arith
    released (suc n) b p c l w h = ground (
      arith,
      test-bitmap_clear p.memory_map b c (omega arith) w,
      released n (b + 1)
          (record p { memory_map = bitmap_clear p.memory_map b; used_blocks = dec32 p.used_blocks })
          c (length-bitmap_clear p.memory_map b ∙ l) (bitmap_clear-Words p.memory_map b w)
          (omega arith),
    )

-- `pmm_deinit_region` sets the bits of the region's blocks and no other.
pub test-deinit_region :
    (base size : ℕ) (p : Pmm) (c : ℕ)
    → length p.memory_map ≡ map_blocks / 32
    → base / page_size + size / page_size ≤ map_blocks
    → bitmap_test (pmm_deinit_region base size p).memory_map c
      ≡ (within (base / page_size) (size / page_size) c || bitmap_test p.memory_map c)
unfolding pmm_deinit_region
test-deinit_region base size p c l h = reserved (size / page_size) (base / page_size) p c l h
  where
    reserved :
        (n b : ℕ) (p : Pmm) (c : ℕ)
        → length p.memory_map ≡ map_blocks / 32
        → b + n ≤ map_blocks
        → bitmap_test (reserve_from n b p).memory_map c
          ≡ (within b n c || bitmap_test p.memory_map c)
    reserved zero b p c l h = ground arith
    reserved (suc n) b p c l h = ground (
      arith,
      test-bitmap_set p.memory_map b c (omega arith),
      reserved n (b + 1)
          (record p { memory_map = bitmap_set p.memory_map b; used_blocks = inc32 p.used_blocks }) c
          (length-bitmap_set p.memory_map b ∙ l) (omega arith),
    )

-- Making a region of used blocks available keeps the manager valid.
pub init_region-IsValid :
    (base size : ℕ) {p : Pmm}
    → IsValid p
    → base / page_size + size / page_size ≤ p.max_blocks
    → ((c : ℕ)
        → within (base / page_size) (size / page_size) c ≡ true
        → bitmap_test p.memory_map c ≡ true)
    → IsValid (pmm_init_region base size p)
unfolding pmm_init_region
init_region-IsValid base size {p} v h used =
    released (size / page_size) (base / page_size) p v h used
  where
    released :
        (n b : ℕ) (p : Pmm)
        → IsValid p
        → b + n ≤ p.max_blocks
        → ((c : ℕ) → within b n c ≡ true → bitmap_test p.memory_map c ≡ true)
        → IsValid (release_from n b p)
    released zero b p v h used = v
    released (suc n) b p v h used =
        let here : bitmap_test p.memory_map b ≡ true = used b (ground arith) in
        let bound : b / 32 < length p.memory_map = omega arith in
        released n (b + 1)
          (record p { memory_map = bitmap_clear p.memory_map b; used_blocks = dec32 p.used_blocks })
          (record {
            map_length = length-bitmap_clear p.memory_map b ∙ v.map_length;
            words = bitmap_clear-Words p.memory_map b v.words;
            covered = v.covered;
            counted = ground (
              arith,
              count-bitmap_clear p.max_blocks p.memory_map b bound v.words here,
              count-le p.max_blocks p.memory_map,
            );
          })
          (omega arith)
          (λ c k. ground (arith, test-bitmap_clear p.memory_map b c bound v.words, used c))

-- Taking a region of free blocks out of use keeps the manager valid.
pub deinit_region-IsValid :
    (base size : ℕ) {p : Pmm}
    → IsValid p
    → base / page_size + size / page_size ≤ p.max_blocks
    → ((c : ℕ)
        → within (base / page_size) (size / page_size) c ≡ true
        → bitmap_test p.memory_map c ≡ false)
    → IsValid (pmm_deinit_region base size p)
unfolding pmm_deinit_region
deinit_region-IsValid base size {p} v h free =
    reserved (size / page_size) (base / page_size) p v h free
  where
    reserved :
        (n b : ℕ) (p : Pmm)
        → IsValid p
        → b + n ≤ p.max_blocks
        → ((c : ℕ) → within b n c ≡ true → bitmap_test p.memory_map c ≡ false)
        → IsValid (reserve_from n b p)
    reserved zero b p v h free = v
    reserved (suc n) b p v h free =
        let here : bitmap_test p.memory_map b ≡ false = free b (ground arith) in
        let bound : b / 32 < length p.memory_map = omega arith in
        reserved n (b + 1)
          (record p { memory_map = bitmap_set p.memory_map b; used_blocks = inc32 p.used_blocks })
          (record {
            map_length = length-bitmap_set p.memory_map b ∙ v.map_length;
            words = bitmap_set-Words p.memory_map b v.words;
            covered = v.covered;
            counted = ground (
              arith,
              count-bitmap_set p.max_blocks p.memory_map b bound here,
              count-le p.max_blocks p.memory_map,
            );
          })
          (omega arith) (λ c k. ground (arith, test-bitmap_set p.memory_map b c bound, free c))

reserve_used :
    (n b : ℕ) (p : Pmm)
    → p.used_blocks + n < 2 ^ 32
    → ((reserve_from n b p).used_blocks ≡ p.used_blocks + n)
      × ((reserve_from n b p).max_blocks ≡ p.max_blocks)
unfolding reserve_from
reserve_used zero b p h = (omega arith, refl)
reserve_used (suc n) b p h =
    let inc : inc32 p.used_blocks ≡ p.used_blocks + 1 = omega arith in
    let next : Pmm = record p {
      memory_map = bitmap_set p.memory_map b;
      used_blocks = inc32 p.used_blocks;
    } in
    let ih = reserve_used n (b + 1) next (omega arith) in (omega arith, ih.1)

count_ext :
    (n : ℕ) (m m' : List ℕ)
    → ((c : ℕ) → bitmap_test m c ≡ bitmap_test m' c)
    → count_used n m ≡ count_used n m'
unfolding count_used
count_ext zero m m' h = refl
count_ext (suc n) m m' h = ground (arith, h n, count_ext n m m' h)

-- Taking a region out of use whose blocks are used already leaves the bitmap as it is and makes the
-- counter exceed the number of used blocks by the size of the region.
pub deinit_region_overcounts :
    (base size : ℕ) {p : Pmm}
    → IsValid p
    → base / page_size + size / page_size ≤ map_blocks
    → ((c : ℕ)
        → within (base / page_size) (size / page_size) c ≡ true
        → bitmap_test p.memory_map c ≡ true)
    → let q = pmm_deinit_region base size p in
      ((c : ℕ) → bitmap_test q.memory_map c ≡ bitmap_test p.memory_map c)
      × (q.used_blocks ≡ count_used q.max_blocks q.memory_map + size / page_size)
unfolding pmm_deinit_region
deinit_region_overcounts base size {p} v h used = (same, counter)
  where
    same :
        (c : ℕ)
        → bitmap_test (pmm_deinit_region base size p).memory_map c ≡ bitmap_test p.memory_map c
    same c = ground (arith, test-deinit_region base size p c v.map_length h, used c)

    small : p.used_blocks + size / page_size < 2 ^ 32
    small = omega (arith, v.counted, v.covered, count-le p.max_blocks p.memory_map)

    deinit_used :
        ((pmm_deinit_region base size p).used_blocks ≡ p.used_blocks + size / page_size)
        × ((pmm_deinit_region base size p).max_blocks ≡ p.max_blocks)
    deinit_used = reserve_used (size / page_size) (base / page_size) p small

    counter :
        (pmm_deinit_region base size p).used_blocks
        ≡ count_used
            (pmm_deinit_region base size p).max_blocks
            (pmm_deinit_region base size p).memory_map
          + size / page_size
    counter =
        let (counted, max_same) = deinit_used in
        rw (counted, max_same, count_ext p.max_blocks _ p.memory_map same)
          (omega (arith, v.counted))

count_all : (n : ℕ) (m : List ℕ) → ((c : ℕ) → c < n → bitmap_test m c ≡ true) → n ≡ count_used n m
unfolding count_used
count_all zero m h = refl
count_all (suc n) m h = ground (arith, h n (omega arith), count_all n m (λ c k. h c (omega arith)))

all_ones : (c : ℕ) → c < map_blocks → bitmap_test (replicate (map_blocks / 32) 0xFFFF_FFFF) c ≡ true
unfolding bitmap_test
all_ones c h =
    rw (get_or-replicate {A = ℕ} (map_blocks / 32) (c / 32) 0xFFFF_FFFF 0 (omega arith)) (
      ground (
        arith,
        has_bit_lem 0xFFFF_FFFF (c % 32),
        test_bit-complement 32 0 (c % 32),
        test_bit-zero (c % 32),
      ))

-- `pmm_init` starts with every block of the bitmap used and the counter right, for a memory of at
-- most 128 MB.
pub pmm_init-IsValid :
    (mem_size : ℕ)
    → mem_size ≤ map_blocks * page_size
    → IsValid (pmm_init mem_size)
      × ((c : ℕ) → c < map_blocks → bitmap_test (pmm_init mem_size).memory_map c ≡ true)
unfolding pmm_init
pmm_init-IsValid mem_size h = (
  record {
    map_length = length-replicate {A = ℕ} (map_blocks / 32) 0xFFFF_FFFF;
    words = All-replicate {A = ℕ} (λ w. w < 2 ^ 32) (map_blocks / 32) 0xFFFF_FFFF (omega arith);
    covered = omega arith;
    counted = count_all (mem_size / page_size) _ (λ c k. all_ones c (omega arith));
  },
  all_ones,
)
