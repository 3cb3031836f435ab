-- ===== src/Vrfs/File.antt =====
-- Reading and writing files, vrfs_read and vrfs_write of src/fs/vrfs.c.
use vros.Base.{
  ℕ, ◌+◌, ◌-◌, ◌%◌, ◌^◌, not, ◌||◌, Option, none, some, List, [], get_or, set, replicate, take, ltb,
  leb, ◌==◌, if◌then◌else◌,
}
use vros.Bytes.{fs_memcpy, bytes_at}
use vros.Blkdev.{BlockDevice}
use vros.Vrfs.{
  vrfs_block_size, DiskInode, SbInfo, Machine, try_alloc, release, read_block, write_block,
  vrfs_alloc_block, vrfs_write_inode,
}

-- struct inode of a file system of this kind with the struct vrfs_inode_info behind it. Its
-- superblock is the one in use, its operations those of the file system.
pub record Inode : Type 0 where
  pub ino : ℕ
  pub mode : ℕ
  pub size : ℕ
  pub inode_no : ℕ
  pub disk_inode : DiskInode

-- The block pointer direct[0].
abbrev pub first_block : DiskInode → ℕ
first_block i = get_or i.direct 0 0

abbrev pub with_first_block : ℕ → DiskInode → DiskInode
with_first_block block_no i = record i { direct = set i.direct 0 block_no; blocks = 1 }

-- The bytes that are copied to the buffer, or `none` for -1.
unfoldable pub read_first :
    {W : Type 0} → BlockDevice W → Inode → ℕ → Machine W → Option (List ℕ) × Machine W
read_first dev inode size m =
    if first_block inode.disk_inode == 0
    then (some [], m)
    else let (ok, m1) = try_alloc m in
      if not ok
      then (none, m1)
      else let (r, m2) = read_block dev (first_block inode.disk_inode) m1 in
        elim r [
          | none ↦ (none, release m2)
          | some block_buffer ↦
              let to_read = if ltb size inode.size then size else inode.size in
              (some (bytes_at block_buffer 0 to_read), release m2)
        ]

unfoldable pub vrfs_read :
    {W : Type 0} → BlockDevice W → Inode → ℕ → ℕ → Machine W → Option (List ℕ) × Machine W
vrfs_read dev inode size offset m =
    if leb inode.size offset
    then (some [], m)
    else let size' =
        if ltb inode.size ((offset + size) % 2 ^ 32) then inode.size - offset else size in
      if not (offset == 0) then (none, m) else read_first dev inode size' m

-- The part of `vrfs_write` once the inode has a block.
unfoldable pub write_first :
    {W : Type 0}
    → BlockDevice W
    → Inode
    → List ℕ
    → ℕ
    → SbInfo
    → Machine W
    → Option ℕ × Inode × SbInfo × Machine W
write_first dev inode buffer size sbi m =
    let (ok, m1) = try_alloc m in
    if not ok
    then (none, inode, sbi, m1)
    else let block_buffer = fs_memcpy (replicate vrfs_block_size 0) 0 (take size buffer) in
      let (written, m2) = write_block dev (first_block inode.disk_inode) block_buffer m1 in
      if not written
      then (none, inode, sbi, release m2)
      else let inode' = record inode {
        size = size;
        disk_inode = record inode.disk_inode { size = size };
      } in
        (
          some size,
          inode',
          sbi,
          (vrfs_write_inode dev sbi inode.inode_no inode'.disk_inode (release m2)).1,
        )

unfoldable pub vrfs_write :
    {W : Type 0}
    → BlockDevice W
    → Inode
    → List ℕ
    → ℕ
    → ℕ
    → SbInfo
    → Machine W
    → Option ℕ × Inode × SbInfo × Machine W
vrfs_write dev inode buffer size offset sbi m =
    if size == 0
    then (none, inode, sbi, m)
    else if not (offset == 0) || ltb vrfs_block_size size
    then (none, inode, sbi, m)
    else if not (first_block inode.disk_inode == 0)
    then write_first dev inode buffer size sbi m
    else let (r, sbi', m') = vrfs_alloc_block dev sbi m in
      elim r [
        | none ↦ (none, inode, sbi', m')
        | some block_no ↦
            write_first dev
              (record inode { disk_inode = with_first_block block_no inode.disk_inode }) buffer size
              sbi' m'
      ]
