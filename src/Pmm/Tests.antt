-- ===== src/Pmm/Tests.antt =====
-- Runs of pmm.c on a 2 MB machine whose second megabyte has eight free blocks.
use vros.Base.{◌*◌, ◌≤◌, ℕ, ◌+◌, ◌/◌, ◌<◌, ◌≡◌, refl, ◌≢◌, ◌⊎◌, true, false, arith}
use vros.Bits.{without_bit, has_bit}
use vros.Pmm.{
  Pmm, IsValid, map_blocks, page_size, bitmap_test, bitmap_clear, bitmap_first_free, free_bit,
  first_free_from, count_used, release_from, pmm_init, pmm_init_region, pmm_deinit_region,
  pmm_alloc_block, pmm_free_block,
}
use vros.Pmm.Alloc.{
  Takes, Full, alloc_cases, alloc-IsValid, free-IsValid, free-alloc, alloc-alloc_ne,
  alloc-block_zero,
}
use vros.Pmm.Region.{
  within, test-init_region, init_region-IsValid, deinit_region_overcounts, pmm_init-IsValid,
}

abbrev machine : Pmm
machine = pmm_init 0x20_0000

abbrev booted : Pmm
booted = pmm_init_region 0x10_0000 0x8000 machine

first_alloc : (pmm_alloc_block booted).0 ≡ 0x10_0000
unfolding pmm_alloc_block pmm_init_region pmm_init bitmap_first_free first_free_from free_bit
    bitmap_clear has_bit without_bit
first_alloc = refl

machine-IsValid : IsValid machine
machine-IsValid = (pmm_init-IsValid 0x20_0000 (omega arith)).0

pmm_init-IsValid_example :
    IsValid (pmm_init 0x20_0000)
    × ((c : ℕ) → c < map_blocks → bitmap_test (pmm_init 0x20_0000).memory_map c ≡ true)
pmm_init-IsValid_example = pmm_init-IsValid 0x20_0000 (omega arith)

region_used :
    (c : ℕ)
    → within (0x10_0000 / page_size) (0x8000 / page_size) c ≡ true
    → bitmap_test machine.memory_map c ≡ true
region_used c h = (pmm_init-IsValid 0x20_0000 (omega arith)).1 c (ground arith)

region_in_memory : 0x10_0000 / page_size + 0x8000 / page_size ≤ machine.max_blocks
unfolding pmm_init
region_in_memory = omega arith

booted-IsValid : IsValid booted
booted-IsValid = init_region-IsValid 0x10_0000 0x8000 machine-IsValid region_in_memory region_used

init_region-IsValid_example : IsValid (pmm_init_region 0x10_0000 0x8000 (pmm_init 0x20_0000))
init_region-IsValid_example =
    init_region-IsValid 0x10_0000 0x8000 machine-IsValid region_in_memory region_used

test-init_region_example : bitmap_test booted.memory_map 256 ≡ false
test-init_region_example =
    test-init_region 0x10_0000 0x8000 machine 256 machine-IsValid.map_length machine-IsValid.words
      (omega arith)

alloc_cases_example :
    (Full booted × (pmm_alloc_block booted ≡ (0, booted)))
    ⊎ ((b : ℕ) × ((pmm_alloc_block booted).0 ≡ b * page_size)
        × Takes booted b (pmm_alloc_block booted).1)
alloc_cases_example = alloc_cases booted-IsValid

alloc-IsValid_example : IsValid (pmm_alloc_block booted).1
alloc-IsValid_example = alloc-IsValid booted-IsValid

free-IsValid_example : IsValid (pmm_free_block 0x10_0000 booted)
unfolding pmm_init_region release_from pmm_init
free-IsValid_example = free-IsValid 0x10_0000 booted-IsValid (omega arith)

granted : (pmm_alloc_block booted).0 ≢ 0
granted e = omega (arith, first_alloc)

free-alloc_example : pmm_free_block (pmm_alloc_block booted).0 (pmm_alloc_block booted).1 ≡ booted
free-alloc_example = free-alloc booted-IsValid granted

alloc-alloc_ne_example : (pmm_alloc_block (pmm_alloc_block booted).1).0 ≢ (pmm_alloc_block booted).0
alloc-alloc_ne_example = alloc-alloc_ne booted-IsValid granted

deinit_region_overcounts_example :
    let q = pmm_deinit_region 0x10_0000 0x8000 machine in
    ((c : ℕ) → bitmap_test q.memory_map c ≡ bitmap_test machine.memory_map c)
    × (q.used_blocks ≡ count_used q.max_blocks q.memory_map + 8)
deinit_region_overcounts_example =
    deinit_region_overcounts 0x10_0000 0x8000 machine-IsValid (omega arith) region_used

-- A machine whose first eight blocks are made available, block 0 among them.
abbrev low_memory : Pmm
low_memory = pmm_init_region 0 0x8000 machine

low_region_used :
    (c : ℕ)
    → within (0 / page_size) (0x8000 / page_size) c ≡ true
    → bitmap_test machine.memory_map c ≡ true
low_region_used c h = (pmm_init-IsValid 0x20_0000 (omega arith)).1 c (ground arith)

low_in_memory : 0 / page_size + 0x8000 / page_size ≤ machine.max_blocks
unfolding pmm_init
low_in_memory = omega arith

low_memory-IsValid : IsValid low_memory
low_memory-IsValid = init_region-IsValid 0 0x8000 machine-IsValid low_in_memory low_region_used

block_zero_free : (32 ≤ low_memory.max_blocks) × (bitmap_test low_memory.memory_map 0 ≡ false)
unfolding pmm_init_region release_from pmm_init bitmap_clear bitmap_test has_bit without_bit
block_zero_free = (omega arith, refl)

alloc-block_zero_example :
    ((pmm_alloc_block low_memory).0 ≡ 0)
    × (bitmap_test (pmm_alloc_block low_memory).1.memory_map 0 ≡ true)
    × ((pmm_alloc_block low_memory).1.used_blocks ≡ low_memory.used_blocks + 1)
alloc-block_zero_example = alloc-block_zero low_memory-IsValid block_zero_free.0 block_zero_free.1
