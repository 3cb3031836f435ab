-- ===== src/Vrfs/Format.antt =====
-- Formatting, mounting and unmounting, vrfs_mkfs, vrfs_mount and vrfs_unmount of src/fs/vrfs.c.
use vros.Base.{
  ℕ, zero, suc, ◌+◌, ◌-◌, ◌*◌, ◌/◌, ◌%◌, ◌^◌, Bool, true, false, not, Option, none, some, List, [],
  ◌∷◌, ◌++◌, get_or, replicate, ltb, ◌==◌, if◌then◌else◌,
}
use vros.Bytes.{fs_memcpy, word_bytes, words}
use vros.Blkdev.{BlockDevice}
use vros.Vrfs.{
  vrfs_magic, vrfs_block_size, vrfs_max_inodes, vrfs_max_blocks, vrfs_inode_dir, Superblock,
  DiskInode, SbInfo, Machine, inode_bytes, bitmap_set, try_alloc, release, read_block, write_block,
  vrfs_read_inode,
}
use vros.Vrfs.File.{Inode}
use vros.Vrfs.Dir.{vfs_directory}

-- A block with the superblock and zeroes behind it.
unfoldable pub superblock_bytes : Superblock → List ℕ
superblock_bytes sb =
    word_bytes (
      sb.magic ∷ sb.block_count ∷ sb.inode_count ∷ sb.free_blocks ∷ sb.free_inodes
      ∷ sb.inode_bitmap_block ∷ sb.block_bitmap_block ∷ sb.inode_table_block ∷ sb.data_block_start
      ∷ [])
    ++ replicate 476 0

unfoldable pub superblock_of : List ℕ → Superblock
superblock_of bytes =
    let w = words 9 bytes in
    record {
      magic = get_or w 0 0;
      block_count = get_or w 1 0;
      inode_count = get_or w 2 0;
      free_blocks = get_or w 3 0;
      free_inodes = get_or w 4 0;
      inode_bitmap_block = get_or w 5 0;
      block_bitmap_block = get_or w 6 0;
      inode_table_block = get_or w 7 0;
      data_block_start = get_or w 8 0;
    }

-- The blocks for the inode table: (VRFS_MAX_INODES * 64 + 511) / 512.
abbrev pub table_blocks : ℕ
table_blocks = (vrfs_max_inodes * 64 + 511) / 512

-- The superblock that `vrfs_mkfs` writes on a device of `size` blocks.
unfoldable pub new_superblock : ℕ → Superblock
new_superblock size =
    let block_count = if ltb size vrfs_max_blocks then size else vrfs_max_blocks in
    let data_block_start = 3 + table_blocks in
    record {
      magic = vrfs_magic;
      block_count = block_count;
      inode_count = vrfs_max_inodes;
      free_blocks = (block_count + 2 ^ 32 - data_block_start) % 2 ^ 32;
      free_inodes = vrfs_max_inodes - 1;
      inode_bitmap_block = 1;
      block_bitmap_block = 2;
      inode_table_block = 3;
      data_block_start = data_block_start;
    }

-- The loop that marks the blocks `i`, `i + 1` and so on as used, `n` of them.
unfoldable pub mark_from : ℕ → ℕ → List ℕ → List ℕ
mark_from zero i bitmap = bitmap
mark_from (suc n) i bitmap = mark_from n (i + 1) (bitmap_set bitmap i)

abbrev pub root_inode : DiskInode
root_inode = record {
  mode = vrfs_inode_dir;
  links_count = 2;
  size = 0;
  blocks = 0;
  direct = replicate 12 0;
  indirect = 0;
  padding = replicate 12 0;
}

unfoldable pub zero_block : List ℕ
zero_block = replicate vrfs_block_size 0

-- struct superblock as `vrfs_mount` returns it.
pub record Mounted : Type 0 where
  pub sbi : SbInfo
  pub root : Inode

module _ {W : Type 0} (dev : BlockDevice W) where
  -- `vrfs_mkfs` from the block bitmap on.
  unfoldable pub write_blocks_and_root : Superblock → Machine W → Bool × Machine W
  write_blocks_and_root sb m =
      let (ok2, m2) =
        write_block dev sb.block_bitmap_block (mark_from sb.data_block_start 0 zero_block) m in
      if not ok2
      then (false, release m2)
      else let (ok3, m3) =
          write_block dev sb.inode_table_block (fs_memcpy zero_block 0 (inode_bytes root_inode))
            m2 in
        if not ok3 then (false, release m3) else (true, release m3)

  unfoldable pub vrfs_mkfs : Machine W → Bool × Machine W
  vrfs_mkfs m =
      let (ok, m1) = try_alloc m in
      if not ok
      then (false, m1)
      else let sb = new_superblock dev.size in
        let (ok0, m2) = write_block dev 0 (superblock_bytes sb) m1 in
        if not ok0
        then (false, release m2)
        else let (ok1, m3) = write_block dev sb.inode_bitmap_block (bitmap_set zero_block 0) m2 in
          if not ok1 then (false, release m3) else write_blocks_and_root sb m3

  -- A block read into a new buffer, which keeps what it held when the read fails.
  unfoldable pub read_over : ℕ → List ℕ → Machine W → List ℕ × Machine W
  read_over block held m =
      let (r, m') = read_block dev block m in
      elim r [ none ↦ (held, m') | some bytes ↦ (bytes, m') ]

  -- `vrfs_mount` once the bitmaps are read, with what is allocated so far.
  unfoldable pub mount_root : SbInfo → Machine W → Option Mounted × Machine W
  mount_root sbi m =
      let (ok1, m1) = try_alloc m in
      if not ok1
      then (none, release (release (release (release m1))))
      else let (ok2, m2) = try_alloc m1 in
        if not ok2
        then (none, release (release (release (release (release m2)))))
        else let (ok3, m3) = try_alloc m2 in
          if not ok3
          then (none, release (release (release (release (release (release m3))))))
          else let (r, m4) = vrfs_read_inode dev sbi 0 m3 in
            elim r [
              | none ↦ (
                none,
                release (release (release (release (release (release (release (release m4))))))),
              )
              | some disk_inode ↦ (
                some (record {
                  sbi = sbi;
                  root = record {
                    ino = 0;
                    mode = vfs_directory;
                    size = disk_inode.size;
                    inode_no = 0;
                    disk_inode = disk_inode;
                  };
                }),
                release m4,
              )
            ]

  -- `held1` and `held2` are what the memory given for the two bitmaps held before.
  unfoldable pub mount_bitmaps :
      Superblock → List ℕ → List ℕ → Machine W → Option Mounted × Machine W
  mount_bitmaps sb held1 held2 m =
      let (ok1, m1) = try_alloc m in
      if not ok1
      then (none, release m1)
      else let (ok2, m2) = try_alloc m1 in
        if not ok2
        then (none, release (release m2))
        else let (inode_bitmap, m3) = read_over sb.inode_bitmap_block held1 m2 in
          let (ok4, m4) = try_alloc m3 in
          if not ok4
          then (none, release (release (release m4)))
          else let (block_bitmap, m5) = read_over sb.block_bitmap_block held2 m4 in
            mount_root
              (record { sb = sb; inode_bitmap = inode_bitmap; block_bitmap = block_bitmap }) m5

  unfoldable pub vrfs_mount : List ℕ → List ℕ → Machine W → Option Mounted × Machine W
  vrfs_mount held1 held2 m =
      let (ok, m1) = try_alloc m in
      if not ok
      then (none, m1)
      else let (r, m2) = read_block dev 0 m1 in
        elim r [
          | none ↦ (none, release m2)
          | some buffer ↦
              let sb = superblock_of buffer in
              if not (sb.magic == vrfs_magic)
              then (none, release m2)
              else mount_bitmaps sb held1 held2 m2
        ]

-- What `vrfs_unmount` frees of a mounted file system: the two bitmaps, the superblock's information,
-- the root inode and the superblock.
unfoldable pub vrfs_unmount : {W : Type 0} → Machine W → Machine W
vrfs_unmount m = release (release (release (release (release m))))
