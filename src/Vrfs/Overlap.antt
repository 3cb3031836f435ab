-- ===== src/Vrfs/Overlap.antt =====
-- Where the inode table that vrfs_mkfs of src/fs/vrfs.c lays out meets the data blocks.
use vros.Base.{
  ℕ, ◌+◌, ◌*◌, ◌/◌, ◌%◌, ◌≤◌, ◌<◌, ◌≡◌, ap, ◌∙◌, ◌≢◌, ◌⊎◌, inl, inr, [], arith, length, ltb,
  Bool-cases,
}
use vros.Bytes.{bytes_at, length-fs_memcpy, bytes_at-fs_memcpy}
use vros.Blkdev.{BlockDevice}
use vros.Vrfs.{
  Machine, DiskInode, SbInfo, Superblock, vrfs_max_inodes, inode_bytes, inode_block, inode_offset,
  vrfs_write_inode,
}
use vros.Vrfs.Disk.{Reliable, put, table_with, write_inode_lem, content-put, content-put_ne}
use vros.Vrfs.Inodes.{IsInode, length-inode_bytes}
use vros.Vrfs.Format.{new_superblock}

-- The places in a new superblock.
layout :
    (sbi : SbInfo) (size : ℕ)
    → sbi.sb ≡ new_superblock size
    → (sbi.sb.inode_table_block ≡ 3) × (sbi.sb.data_block_start ≡ 19)
unfolding new_superblock
layout sbi size e = (
  ap (λ (sb : Superblock). sb.inode_table_block) e,
  ap (λ (sb : Superblock). sb.data_block_start) e,
)

module _ {W : Type 0} {dev : BlockDevice W} (ok : Reliable dev) where
  -- With the superblock that vrfs_mkfs makes for a reliable device of at least 25 blocks, and
  -- memory for the buffer, writing an inode of a number below 128 whose fields fit their types
  -- keeps every block in front of the inode table; for a number below 96 it keeps every data block
  -- too, and for every other number the bytes of the inode end up in a data block.
  pub write_inode-new_superblock :
      (sbi : SbInfo) (n : ℕ) (i : DiskInode) (m : Machine W)
      → sbi.sb ≡ new_superblock dev.size
      → 25 ≤ dev.size
      → IsInode i
      → n < vrfs_max_inodes
      → m.memory ≡ []
      → let m' = (vrfs_write_inode dev sbi n i m).1 in
        ((b : ℕ) → b < sbi.sb.inode_table_block → ok.content m'.disk b ≡ ok.content m.disk b)
        × (((n < 96)
              × ((b : ℕ)
                  → sbi.sb.data_block_start ≤ b
                  → ok.content m'.disk b ≡ ok.content m.disk b))
            ⊎ ((96 ≤ n)
                × (b : ℕ) × (sbi.sb.data_block_start ≤ b)
                × (b < dev.size)
                × (bytes_at (ok.content m'.disk b) (n % 6 * 76) 76 ≡ inode_bytes i)))
  write_inode-new_superblock sbi n i m e big k lt plenty =
      let (table, data_start) = layout sbi dev.size e in
      let at = inode_block sbi n in
      let old = ok.content m.disk at in
      let long = length-inode_bytes i k in
      let place : at ≡ 3 + n / 6 = omega (arith, table) in
      let inside : at < dev.size = omega (arith, place) in
      let sized : length (table_with ok sbi n i m.disk) ≡ 512 =
        length-fs_memcpy old (inode_offset n) (inode_bytes i) ∙ ok.sized m.disk at in
      let there = content-put ok at (table_with ok sbi n i m.disk) m inside sized in
      let kept : (b : ℕ)
          → at ≢ b
          → ok.content (put dev at (table_with ok sbi n i m.disk) m).disk b ≡ ok.content m.disk b =
        λ b ne. content-put_ne ok at b (table_with ok sbi n i m.disk) m ne in
      rw (write_inode_lem ok sbi n i m plenty inside) (
        λ b below. kept b (omega (arith, below, table, place)),
        elim (Bool-cases (ltb n 96)) [
          | inl small ↦
              let few : n < 96 = ground (arith, small) in
              inl (few, λ b above. kept b (omega (arith, above, data_start, place, few)))
          | inr large ↦
              let many : 96 ≤ n = ground (arith, large) in
              inr (
                many,
                at,
                omega (arith, many, place, data_start),
                inside,
                ap (λ x. bytes_at x (n % 6 * 76) 76) there
                    ∙ (rw (long) at (
                        bytes_at-fs_memcpy old (inode_offset n) (inode_bytes i)
                          (omega (arith, long, ok.sized m.disk at)))),
              )
        ],
      )
