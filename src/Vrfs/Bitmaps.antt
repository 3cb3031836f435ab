-- ===== src/Vrfs/Bitmaps.antt =====
-- The bitmaps of src/fs/vrfs.c and their counts of free inodes and blocks: vrfs_alloc_inode and
-- vrfs_alloc_block.
use vros.Base.{
  ℕ, zero, suc, ◌+◌, ◌-◌, ◌/◌, ◌%◌, ◌≤◌, ◌<◌, ◌≡◌, refl, sym, ◌∙◌, ◌≢◌, ◌⊎◌, inl, inr, true, false,
  ◌||◌, none, some, List, arith, length, get_or, ◌==◌, if◌then◌else◌, Bool-cases, ==→ne, ltb,
  length-set, set, get_or-set_self, get_or-set_ne,
}
use vros.Bits.{with_bit, has_bit_lem, test_bit-with_bit}
use vros.Blkdev.{BlockDevice}
use vros.Vrfs.{
  Machine, SbInfo, bitmap_set, bitmap_test, find_free_from, bitmap_find_free, vrfs_alloc_inode,
  vrfs_alloc_block, write_block,
}
use vros.Vrfs.Disk.{put}
use vros.Vrfs.Inodes.{IsLayout}

pub length-bitmap_set : (bitmap : List ℕ) (bit : ℕ) → length (bitmap_set bitmap bit) ≡ length bitmap
unfolding bitmap_set
length-bitmap_set bitmap bit = length-set bitmap _ _

pub bitmap_test-bitmap_set :
    (bitmap : List ℕ) (bit j : ℕ)
    → bit / 8 < length bitmap
    → bitmap_test (bitmap_set bitmap bit) j ≡ ((bit == j) || bitmap_test bitmap j)
unfolding bitmap_set bitmap_test
bitmap_test-bitmap_set bitmap bit j lt =
    let w = get_or bitmap (bit / 8) 0 in
    let w' = with_bit w (bit % 8) in
    elim (Bool-cases (bit / 8 == j / 8)) [
      | inl e ↦
          let same : bit / 8 ≡ j / 8 = ground (arith, e) in
          let byte : get_or (set bitmap (bit / 8) w') (bit / 8) 0 ≡ w' =
            get_or-set_self bitmap (bit / 8) w' 0 lt in
          rw (sym same, byte)
            (ground (
              arith,
              same,
              has_bit_lem w' (j % 8),
              has_bit_lem w (j % 8),
              test_bit-with_bit w (bit % 8) (j % 8),
            ))
      | inr e ↦
          let other : bit / 8 ≢ j / 8 = ==→ne (bit / 8) (j / 8) e in
          rw (get_or-set_ne bitmap (bit / 8) (j / 8) w' 0 other) (ground (arith, other))
    ]

-- The number of clear bits among the `n` from `i` on.
abbrev pub clear_from : ℕ → ℕ → List ℕ → ℕ
clear_from zero i bitmap = 0
clear_from (suc n) i bitmap =
    let rest = clear_from n (i + 1) bitmap in if bitmap_test bitmap i then rest else suc rest

pub find_free_from_lem :
    (n i : ℕ) (bitmap : List ℕ)
    → ((find_free_from n i bitmap ≡ none) × (clear_from n i bitmap ≡ 0))
      ⊎ ((k : ℕ) × (find_free_from n i bitmap ≡ some k)
          × (i ≤ k)
          × (k < i + n)
          × (bitmap_test bitmap k ≡ false)
          × ((j : ℕ) → i ≤ j → j < k → bitmap_test bitmap j ≡ true))
unfolding find_free_from
find_free_from_lem zero i bitmap = inl (refl, refl)
find_free_from_lem (suc n) i bitmap = elim (Bool-cases (bitmap_test bitmap i)) [
  | inr clear ↦
      rw clear (inr (i, refl, omega arith, omega arith, clear, λ j le lt. absurd (omega arith)))
  | inl used ↦ rw used (elim (find_free_from_lem n (i + 1) bitmap) [
    | inl h ↦ inl h
    | inr (k, found, le, lt, clear, low) ↦ inr (
      k,
      found,
      omega arith,
      omega arith,
      clear,
      λ j le' lt'. elim (Bool-cases (i == j)) [
        | inl e ↦ ground (arith, e, used)
        | inr e ↦ low j (ground (arith, e)) lt'
      ],
    )
  ])
]

clear_from-bitmap_set_apart :
    (n i : ℕ) (bitmap : List ℕ) (bit : ℕ)
    → bit / 8 < length bitmap
    → (bit < i) ⊎ (i + n ≤ bit)
    → clear_from n i (bitmap_set bitmap bit) ≡ clear_from n i bitmap
clear_from-bitmap_set_apart zero i bitmap bit lt h = refl
clear_from-bitmap_set_apart (suc n) i bitmap bit lt h = ground (
  arith,
  bitmap_test-bitmap_set bitmap bit i lt,
  clear_from-bitmap_set_apart n (i + 1) bitmap bit lt (ground (arith, h)),
)

-- Setting a clear bit takes one from the count.
pub clear_from-bitmap_set :
    (n i : ℕ) (bitmap : List ℕ) (bit : ℕ)
    → bit / 8 < length bitmap
    → i ≤ bit
    → bit < i + n
    → bitmap_test bitmap bit ≡ false
    → clear_from n i bitmap ≡ suc (clear_from n i (bitmap_set bitmap bit))
clear_from-bitmap_set zero i bitmap bit lt lo hi clear = absurd (omega arith)
clear_from-bitmap_set (suc n) i bitmap bit lt lo hi clear = elim (Bool-cases (bit == i)) [
  | inl e ↦
      let same : bit ≡ i = ground (arith, e) in
      ground (
        arith,
        e,
        same,
        clear,
        bitmap_test-bitmap_set bitmap bit i lt,
        clear_from-bitmap_set_apart n (i + 1) bitmap bit lt (inl (omega arith)),
      )
  | inr e ↦ ground (
    arith,
    e,
    bitmap_test-bitmap_set bitmap bit i lt,
    clear_from-bitmap_set n (i + 1) bitmap bit lt (ground (arith, e)) (omega arith) clear,
  )
]

-- A mounted file system whose counts are those of its bitmaps, with the blocks of its tables in use.
pub record IsVrfs {W : Type 0} (dev : BlockDevice W) (sbi : SbInfo) : Type 0 where
  pub layout : IsLayout dev sbi
  pub inode_bytes : length sbi.inode_bitmap ≡ 512
  pub block_bytes : length sbi.block_bitmap ≡ 512
  pub free_inodes : sbi.sb.free_inodes ≡ clear_from sbi.sb.inode_count 0 sbi.inode_bitmap
  pub free_blocks : sbi.sb.free_blocks ≡ clear_from sbi.sb.block_count 0 sbi.block_bitmap
  pub root_used : bitmap_test sbi.inode_bitmap 0 ≡ true
  pub tables_used : (b : ℕ) → b < 19 → bitmap_test sbi.block_bitmap b ≡ true

-- The superblock with an inode or a block more in use.
abbrev pub with_inode : ℕ → SbInfo → SbInfo
with_inode n sbi = record sbi {
  inode_bitmap = bitmap_set sbi.inode_bitmap n;
  sb = record sbi.sb { free_inodes = sbi.sb.free_inodes - 1 };
}

abbrev pub with_block : ℕ → SbInfo → SbInfo
with_block b sbi = record sbi {
  block_bitmap = bitmap_set sbi.block_bitmap b;
  sb = record sbi.sb { free_blocks = sbi.sb.free_blocks - 1 };
}

module _ {W : Type 0} (dev : BlockDevice W) where
  same_places :
      {sbi sbi' : SbInfo}
      → IsLayout dev sbi
      → sbi'.sb.inode_bitmap_block ≡ sbi.sb.inode_bitmap_block
      → sbi'.sb.block_bitmap_block ≡ sbi.sb.block_bitmap_block
      → sbi'.sb.inode_table_block ≡ sbi.sb.inode_table_block
      → sbi'.sb.data_block_start ≡ sbi.sb.data_block_start
      → sbi'.sb.inode_count ≡ sbi.sb.inode_count
      → sbi'.sb.block_count ≡ sbi.sb.block_count
      → IsLayout dev sbi'
  same_places k e1 e2 e3 e4 e5 e6 = record {
    inode_bitmap_block = e1 ∙ k.inode_bitmap_block;
    block_bitmap_block = e2 ∙ k.block_bitmap_block;
    inode_table_block = e3 ∙ k.inode_table_block;
    data_block_start = e4 ∙ k.data_block_start;
    inode_count = e5 ∙ k.inode_count;
    room = omega (arith, k.room);
    most = omega (arith, k.most);
    inside = omega (arith, k.inside);
  }

  with_inode-IsVrfs :
      (n : ℕ) (sbi : SbInfo)
      → IsVrfs dev sbi
      → n < sbi.sb.inode_count
      → bitmap_test sbi.inode_bitmap n ≡ false
      → IsVrfs dev (with_inode n sbi)
  with_inode-IsVrfs n sbi k lt clear =
      let byte : n / 8 < length sbi.inode_bitmap =
        omega (arith, k.inode_bytes, k.layout.inode_count) in
      record {
        layout = same_places k.layout refl refl refl refl refl refl;
        inode_bytes = length-bitmap_set sbi.inode_bitmap n ∙ k.inode_bytes;
        block_bytes = k.block_bytes;
        free_inodes = omega (
          arith,
          k.free_inodes,
          clear_from-bitmap_set sbi.sb.inode_count 0 sbi.inode_bitmap n byte (omega arith)
              (omega arith) clear,
        );
        free_blocks = k.free_blocks;
        root_used = ground (arith, k.root_used, bitmap_test-bitmap_set sbi.inode_bitmap n 0 byte);
        tables_used = k.tables_used;
      }

  with_block-IsVrfs :
      (b : ℕ) (sbi : SbInfo)
      → IsVrfs dev sbi
      → b < sbi.sb.block_count
      → bitmap_test sbi.block_bitmap b ≡ false
      → IsVrfs dev (with_block b sbi)
  with_block-IsVrfs b sbi k lt clear =
      let byte : b / 8 < length sbi.block_bitmap = omega (arith, k.block_bytes, k.layout.most) in
      record {
        layout = same_places k.layout refl refl refl refl refl refl;
        inode_bytes = k.inode_bytes;
        block_bytes = length-bitmap_set sbi.block_bitmap b ∙ k.block_bytes;
        free_inodes = k.free_inodes;
        free_blocks = omega (
          arith,
          k.free_blocks,
          clear_from-bitmap_set sbi.sb.block_count 0 sbi.block_bitmap b byte (omega arith)
              (omega arith) clear,
        );
        root_used = k.root_used;
        tables_used = λ c lt'.
            ground (arith, k.tables_used c lt', bitmap_test-bitmap_set sbi.block_bitmap b c byte);
      }

  -- On a well-formed superblock vrfs_alloc_inode either finds the count of free inodes 0 and
  -- changes nothing, or takes the lowest free inode, which is not the root, writes the bitmap to
  -- its block, and keeps the superblock well formed: the count is that of the bitmap.
  pub alloc_inode-IsVrfs :
      (sbi : SbInfo) (m : Machine W)
      → IsVrfs dev sbi
      → ((vrfs_alloc_inode dev sbi m ≡ (none, sbi, m)) × (sbi.sb.free_inodes ≡ 0))
        ⊎ ((n : ℕ) × (vrfs_alloc_inode dev sbi m ≡ (
          some n,
          with_inode n sbi,
          put dev sbi.sb.inode_bitmap_block (bitmap_set sbi.inode_bitmap n) m,
        ))
            × (0 < n)
            × (n < sbi.sb.inode_count)
            × (bitmap_test sbi.inode_bitmap n ≡ false)
            × ((j : ℕ) → j < n → bitmap_test sbi.inode_bitmap j ≡ true)
            × IsVrfs dev (with_inode n sbi))
  unfolding vrfs_alloc_inode bitmap_find_free write_block
  alloc_inode-IsVrfs sbi m k = elim (Bool-cases (sbi.sb.free_inodes == 0)) [
    | inl full ↦ rw full (inl (refl, ground (arith, full)))
    | inr some_left ↦
        rw some_left (elim (find_free_from_lem sbi.sb.inode_count 0 sbi.inode_bitmap) [
          | inl (nil, count) ↦ absurd (ground (arith, some_left, count, k.free_inodes))
          | inr (n, found, lo, hi, clear, low) ↦
              let pos : 0 < n = elim (Bool-cases (n == 0)) [
                | inl z ↦ absurd (ground (arith, z, clear, k.root_used))
                | inr nz ↦ ground (arith, nz)
              ] in
              rw found (
                inr (
                  n,
                  refl,
                  pos,
                  omega arith,
                  clear,
                  λ j lt. low j (omega arith) lt,
                  with_inode-IsVrfs n sbi k (omega arith) clear,
                ))
        ])
  ]

  -- On a well-formed superblock vrfs_alloc_block either finds the count of free blocks 0 and
  -- changes nothing, or takes the lowest free block, which is none of the tables, writes the bitmap
  -- to its block, and keeps the superblock well formed: the count is that of the bitmap.
  pub alloc_block-IsVrfs :
      (sbi : SbInfo) (m : Machine W)
      → IsVrfs dev sbi
      → ((vrfs_alloc_block dev sbi m ≡ (none, sbi, m)) × (sbi.sb.free_blocks ≡ 0))
        ⊎ ((b : ℕ) × (vrfs_alloc_block dev sbi m ≡ (
          some b,
          with_block b sbi,
          put dev sbi.sb.block_bitmap_block (bitmap_set sbi.block_bitmap b) m,
        ))
            × (sbi.sb.data_block_start ≤ b)
            × (b < sbi.sb.block_count)
            × (bitmap_test sbi.block_bitmap b ≡ false)
            × ((j : ℕ) → j < b → bitmap_test sbi.block_bitmap j ≡ true)
            × IsVrfs dev (with_block b sbi))
  unfolding vrfs_alloc_block bitmap_find_free write_block
  alloc_block-IsVrfs sbi m k = elim (Bool-cases (sbi.sb.free_blocks == 0)) [
    | inl full ↦ rw full (inl (refl, ground (arith, full)))
    | inr some_left ↦
        rw some_left (elim (find_free_from_lem sbi.sb.block_count 0 sbi.block_bitmap) [
          | inl (nil, count) ↦ absurd (ground (arith, some_left, count, k.free_blocks))
          | inr (b, found, lo, hi, clear, low) ↦
              let above : sbi.sb.data_block_start ≤ b = elim (Bool-cases (ltb b 19)) [
                | inl z ↦ absurd (ground (arith, clear, k.tables_used b (ground (arith, z))))
                | inr nz ↦ ground (arith, nz, k.layout.data_block_start)
              ] in
              rw found (
                inr (
                  b,
                  refl,
                  above,
                  omega arith,
                  clear,
                  λ j lt. low j (omega arith) lt,
                  with_block-IsVrfs b sbi k (omega arith) clear,
                ))
        ])
  ]
