-- ===== src/Pmm.antt =====
-- The physical memory manager, src/mm/pmm.c: a bitmap with one bit for each 4 KB block.
-- The file's static variables are the fields of `Pmm`. An index outside `memory_map`, undefined in C,
-- reads 0 and writes nothing here; the theorems' hypotheses keep indices inside.
mod Bitmap
mod Search
pub mod Alloc
pub mod Region
pub mod Tests
use vros.Base.{
  ℕ, zero, suc, ◌+◌, ◌-◌, ◌*◌, ◌/◌, ◌%◌, ◌^◌, ◌<◌, ◌≤◌, ◌≡◌, All, length, Bool, not, Option, none,
  some, List, get_or, set, replicate, ltb, leb, ◌==◌, if◌then◌else◌,
}
use vros.Bits.{with_bit, without_bit, has_bit}

pub record Pmm : Type 0 where
  pub memory_map : List ℕ
  pub memory_size : ℕ
  pub used_blocks : ℕ
  pub max_blocks : ℕ

abbrev pub page_size : ℕ
page_size = 4096

-- MAX_BLOCKS
abbrev pub map_blocks : ℕ
map_blocks = 32768

-- uint32_t `x++` and `x--`
abbrev pub inc32 : ℕ → ℕ
inc32 x = (x + 1) % 2 ^ 32

abbrev pub dec32 : ℕ → ℕ
dec32 x = (x + 2 ^ 32 - 1) % 2 ^ 32

pub bitmap_set : List ℕ → ℕ → List ℕ
bitmap_set m bit = set m (bit / 32) (with_bit (get_or m (bit / 32) 0) (bit % 32))

pub bitmap_clear : List ℕ → ℕ → List ℕ
bitmap_clear m bit = set m (bit / 32) (without_bit 32 (get_or m (bit / 32) 0) (bit % 32))

pub bitmap_test : List ℕ → ℕ → Bool
bitmap_test m bit = has_bit (get_or m (bit / 32) 0) (bit % 32)

-- The inner loop of `bitmap_first_free`: the first clear bit of a word from bit `j` on, `n` rounds.
pub free_bit : ℕ → ℕ → ℕ → Option ℕ
free_bit zero j word = none
free_bit (suc n) j word =
    let rest = free_bit n (j + 1) word in if has_bit word j then rest else some j

-- Its outer loop, from word `i` on. A word that is not all ones but shows no clear bit goes on.
pub first_free_from : ℕ → ℕ → List ℕ → Option ℕ
first_free_from zero i m = none
first_free_from (suc n) i m =
    let rest = first_free_from n (i + 1) m in
    if get_or m i 0 == 0xFFFF_FFFF
    then rest
    else elim (free_bit 32 0 (get_or m i 0)) [ none ↦ rest | some j ↦ some (i * 32 + j) ]

-- `none` is the -1 of the source.
pub bitmap_first_free : Pmm → Option ℕ
bitmap_first_free p = first_free_from (p.max_blocks / 32) 0 p.memory_map

pub pmm_init : ℕ → Pmm
pmm_init mem_size = record {
  memory_map = replicate (map_blocks / 32) 0xFFFF_FFFF;
  memory_size = mem_size;
  used_blocks = mem_size / page_size;
  max_blocks = mem_size / page_size;
}

-- The loops of `pmm_init_region` and `pmm_deinit_region`, `n` rounds from block `b` on.
pub release_from : ℕ → ℕ → Pmm → Pmm
release_from zero b p = p
release_from (suc n) b p =
    release_from n (b + 1)
      (record p { memory_map = bitmap_clear p.memory_map b; used_blocks = dec32 p.used_blocks })

pub reserve_from : ℕ → ℕ → Pmm → Pmm
reserve_from zero b p = p
reserve_from (suc n) b p =
    reserve_from n (b + 1)
      (record p { memory_map = bitmap_set p.memory_map b; used_blocks = inc32 p.used_blocks })

pub pmm_init_region : ℕ → ℕ → Pmm → Pmm
unfolding release_from
pmm_init_region base size p = release_from (size / page_size) (base / page_size) p

pub pmm_deinit_region : ℕ → ℕ → Pmm → Pmm
unfolding reserve_from
pmm_deinit_region base size p = reserve_from (size / page_size) (base / page_size) p

-- The address returned is 0 where the source returns a null pointer.
pub pmm_alloc_block : Pmm → ℕ × Pmm
pmm_alloc_block p = if leb p.max_blocks p.used_blocks then (0, p) else elim (bitmap_first_free p) [
  | none ↦ (0, p)
  | some block ↦ (
    block * page_size,
    record p { memory_map = bitmap_set p.memory_map block; used_blocks = inc32 p.used_blocks },
  )
]

pub pmm_free_block : ℕ → Pmm → Pmm
pmm_free_block addr p = if not (bitmap_test p.memory_map (addr / page_size)) then p else record p {
  memory_map = bitmap_clear p.memory_map (addr / page_size);
  used_blocks = dec32 p.used_blocks;
}

pub pmm_get_free_blocks : Pmm → ℕ
pmm_get_free_blocks p = (p.max_blocks + 2 ^ 32 - p.used_blocks) % 2 ^ 32

-- What the counter `used_blocks` is meant to hold: the set bits below `n`.
pub count_used : ℕ → List ℕ → ℕ
count_used zero m = 0
count_used (suc n) m = (if bitmap_test m n then 1 else 0) + count_used n m

-- The bitmap has its 1024 words of 32 bits, covers the memory, and the counter agrees with it.
pub record IsValid (p : Pmm) : Type 0 where
  pub map_length : length p.memory_map ≡ map_blocks / 32
  pub words : All (λ w. w < 2 ^ 32) p.memory_map
  pub covered : p.max_blocks ≤ map_blocks
  pub counted : p.used_blocks ≡ count_used p.max_blocks p.memory_map
