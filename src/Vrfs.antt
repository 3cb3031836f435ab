-- ===== src/Vrfs.antt =====
-- The file system VRFS on a block device, src/fs/vrfs.c with include/vrfs.h: its structures, the
-- bitmaps and the inode table. Pointers that the code tests for NULL first are taken as given.
pub mod Disk
pub mod Inodes
pub mod Bitmaps
pub mod Overlap
pub mod ReadWrite
pub mod File
pub mod Dir
pub mod Entries
pub mod Lookup
pub mod Unlink
pub mod AddEntry
pub mod Create
pub mod Mounting
pub mod Memory
pub mod Tests
pub mod Format
use vros.Base.{
  ℕ, zero, suc, ◌+◌, ◌-◌, ◌*◌, ◌/◌, ◌%◌, ◌^◌, ◌≤◌, ◌<◌, Bool, true, false, not, Option, none, some,
  List, [], ◌∷◌, ◌++◌, length, get_or, set, replicate, take, drop, ◌==◌, if◌then◌else◌,
}
use vros.Bits.{with_bit, has_bit}
use vros.Bytes.{fs_memcpy, bytes_at, word_bytes, words}
use vros.Blkdev.{BlockDevice, blkdev_read, blkdev_write}

abbrev pub vrfs_magic : ℕ
vrfs_magic = 0x56524653

abbrev pub vrfs_block_size : ℕ
vrfs_block_size = 512

abbrev pub vrfs_max_inodes : ℕ
vrfs_max_inodes = 128

abbrev pub vrfs_max_blocks : ℕ
vrfs_max_blocks = 1024

abbrev pub vrfs_max_name : ℕ
vrfs_max_name = 28

abbrev pub vrfs_inode_file : ℕ
vrfs_inode_file = 1

abbrev pub vrfs_inode_dir : ℕ
vrfs_inode_dir = 2

-- struct vrfs_superblock, without its padding, which is 0 on the disk and never read.
pub record Superblock : Type 0 where
  pub magic : ℕ
  pub block_count : ℕ
  pub inode_count : ℕ
  pub free_blocks : ℕ
  pub free_inodes : ℕ
  pub inode_bitmap_block : ℕ
  pub block_bitmap_block : ℕ
  pub inode_table_block : ℕ
  pub data_block_start : ℕ

-- struct vrfs_inode, of 76 bytes
pub record DiskInode : Type 0 where
  pub mode : ℕ
  pub links_count : ℕ
  pub size : ℕ
  pub blocks : ℕ
  pub direct : List ℕ
  pub indirect : ℕ
  pub padding : List ℕ

-- struct vrfs_sb_info; its block device is an argument of the operations.
pub record SbInfo : Type 0 where
  pub sb : Superblock
  pub inode_bitmap : List ℕ
  pub block_bitmap : List ℕ

-- What the operations share: the hardware behind the block device, the outcomes of the next calls of
-- `kmalloc` (after the end of the list a call succeeds), and the number of blocks of the heap
-- allocated and not yet freed.
pub record Machine (W : Type 0) : Type 0 where
  pub disk : W
  pub memory : List Bool
  pub live : ℕ

-- sizeof(struct vrfs_inode)
abbrev pub inode_size : ℕ
inode_size = 76

abbrev pub inodes_per_block : ℕ
inodes_per_block = vrfs_block_size / inode_size

-- The bytes of a `struct vrfs_inode`.
unfoldable pub inode_bytes : DiskInode → List ℕ
inode_bytes i =
    i.mode % 256
    ∷ i.mode / 256 % 256
    ∷ i.links_count % 256
    ∷ i.links_count / 256 % 256
    ∷ (word_bytes (i.size ∷ i.blocks ∷ (i.direct ++ (i.indirect ∷ []))) ++ i.padding)

-- The `struct vrfs_inode` in 76 bytes.
unfoldable pub inode_of : List ℕ → DiskInode
inode_of bytes =
    let w = words 15 (drop 4 bytes) in
    record {
      mode = get_or bytes 0 0 + 256 * get_or bytes 1 0;
      links_count = get_or bytes 2 0 + 256 * get_or bytes 3 0;
      size = get_or w 0 0;
      blocks = get_or w 1 0;
      direct = take 12 (drop 2 w);
      indirect = get_or w 14 0;
      padding = drop 64 bytes;
    }

unfoldable pub bitmap_set : List ℕ → ℕ → List ℕ
bitmap_set bitmap bit = set bitmap (bit / 8) (with_bit (get_or bitmap (bit / 8) 0) (bit % 8))

unfoldable pub bitmap_test : List ℕ → ℕ → Bool
bitmap_test bitmap bit = has_bit (get_or bitmap (bit / 8) 0) (bit % 8)

-- The loop of `bitmap_find_free` for `n` more bits from `i` on.
unfoldable pub find_free_from : ℕ → ℕ → List ℕ → Option ℕ
find_free_from zero i bitmap = none
find_free_from (suc n) i bitmap =
    let rest = find_free_from n (i + 1) bitmap in
    if not (bitmap_test bitmap i) then some i else rest

unfoldable pub bitmap_find_free : List ℕ → ℕ → Option ℕ
bitmap_find_free bitmap max_bits = find_free_from max_bits 0 bitmap

-- The block of the inode table with the inode.
abbrev pub inode_block : SbInfo → ℕ → ℕ
inode_block sbi inode_no = (sbi.sb.inode_table_block + inode_no / inodes_per_block) % 2 ^ 32

abbrev pub inode_offset : ℕ → ℕ
inode_offset inode_no = inode_no % inodes_per_block * inode_size

abbrev pred : ℕ → ℕ
pred zero = zero
pred (suc n) = n

module _ {W : Type 0} where
  -- A call of `kmalloc`: whether it gives memory.
  unfoldable pub try_alloc : Machine W → Bool × Machine W
  try_alloc m = elim m.memory [
    | [] ↦ (true, record m { live = suc m.live })
    | true ∷ later ↦ (true, record m { memory = later; live = suc m.live })
    | false ∷ later ↦ (false, record m { memory = later })
  ]

  -- `kfree` of a block that was allocated.
  unfoldable pub release : Machine W → Machine W
  release m = record m { live = pred m.live }

module _ {W : Type 0} (dev : BlockDevice W) where
  unfoldable pub read_block : ℕ → Machine W → Option (List ℕ) × Machine W
  read_block block m =
      let (r, w) = blkdev_read (some dev) block m.disk in (r, record m { disk = w })

  unfoldable pub write_block : ℕ → List ℕ → Machine W → Bool × Machine W
  write_block block buffer m =
      let (r, w) = blkdev_write (some dev) block buffer m.disk in (r, record m { disk = w })

  unfoldable pub vrfs_alloc_inode : SbInfo → Machine W → Option ℕ × SbInfo × Machine W
  vrfs_alloc_inode sbi m =
      if sbi.sb.free_inodes == 0
      then (none, sbi, m)
      else elim (bitmap_find_free sbi.inode_bitmap sbi.sb.inode_count) [
        | none ↦ (none, sbi, m)
        | some inode_no ↦
            let bitmap = bitmap_set sbi.inode_bitmap inode_no in
            (
              some inode_no,
              record sbi {
                inode_bitmap = bitmap;
                sb = record sbi.sb { free_inodes = sbi.sb.free_inodes - 1 };
              },
              (write_block sbi.sb.inode_bitmap_block bitmap m).1,
            )
      ]

  unfoldable pub vrfs_alloc_block : SbInfo → Machine W → Option ℕ × SbInfo × Machine W
  vrfs_alloc_block sbi m =
      if sbi.sb.free_blocks == 0
      then (none, sbi, m)
      else elim (bitmap_find_free sbi.block_bitmap sbi.sb.block_count) [
        | none ↦ (none, sbi, m)
        | some block_no ↦
            let bitmap = bitmap_set sbi.block_bitmap block_no in
            (
              some block_no,
              record sbi {
                block_bitmap = bitmap;
                sb = record sbi.sb { free_blocks = sbi.sb.free_blocks - 1 };
              },
              (write_block sbi.sb.block_bitmap_block bitmap m).1,
            )
      ]

  unfoldable pub vrfs_write_inode : SbInfo → ℕ → DiskInode → Machine W → Bool × Machine W
  vrfs_write_inode sbi inode_no inode_data m =
      let block_no = inode_block sbi inode_no in
      let (ok, m1) = try_alloc m in
      if not ok
      then (false, m1)
      else let (r, m2) = read_block block_no m1 in
        elim r [
          | none ↦ (false, release m2)
          | some buffer ↦
              let (result, m3) =
                write_block block_no
                  (fs_memcpy buffer (inode_offset inode_no) (inode_bytes inode_data)) m2 in
              (result, release m3)
        ]

  unfoldable pub vrfs_read_inode : SbInfo → ℕ → Machine W → Option DiskInode × Machine W
  vrfs_read_inode sbi inode_no m =
      let block_no = inode_block sbi inode_no in
      let (ok, m1) = try_alloc m in
      if not ok
      then (none, m1)
      else let (r, m2) = read_block block_no m1 in
        elim r [
          | none ↦ (none, release m2)
          | some buffer ↦
              (some (inode_of (bytes_at buffer (inode_offset inode_no) inode_size)), release m2)
        ]
