-- ===== src/Vrfs/Disk.antt =====
-- What the file system of src/fs/vrfs.c relies on: a block device that keeps what is written, and
-- memory for its buffers.
use vros.Base.{ℕ, suc, ◌<◌, ◌≡◌, refl, ap, ◌∙◌, ◌≢◌, true, some, List, [], length}
use vros.Bytes.{fs_memcpy, bytes_at, length-fs_memcpy}
use vros.Blkdev.{BlockDevice, blkdev_read, blkdev_write}
use vros.Vrfs.{
  Machine, DiskInode, SbInfo, inode_of, inode_bytes, try_alloc, release, read_block, write_block,
  vrfs_read_inode, vrfs_write_inode, inode_block, inode_offset, inode_size,
}

-- The blocks of a device: every read within its size succeeds and gives the block, every write of a
-- whole block within its size succeeds and changes that block alone.
pub record Reliable {W : Type 0} (dev : BlockDevice W) : Type 0 where
  pub content : W → ℕ → List ℕ
  pub sized : (w : W) (b : ℕ) → length (content w b) ≡ 512
  pub reads : (w : W) (b : ℕ) → b < dev.size → blkdev_read (some dev) b w ≡ (some (content w b), w)
  pub writes :
      (w : W) (b : ℕ) (buffer : List ℕ)
      → b < dev.size
      → length buffer ≡ 512
      → ((blkdev_write (some dev) b buffer w).0 ≡ true)
        × (content (blkdev_write (some dev) b buffer w).1 b ≡ buffer)
  pub keeps :
      (w : W) (b c : ℕ) (buffer : List ℕ)
      → b ≢ c
      → content (blkdev_write (some dev) b buffer w).1 c ≡ content w c

module _ {W : Type 0} (dev : BlockDevice W) where
  abbrev pub put : ℕ → List ℕ → Machine W → Machine W
  put b buffer m = record m { disk = (blkdev_write (some dev) b buffer m.disk).1 }

pub try_alloc_plenty :
    {W : Type 0} (m : Machine W)
    → m.memory ≡ []
    → try_alloc m ≡ (true, record m { live = suc m.live })
unfolding try_alloc
try_alloc_plenty m h = rw h refl

module _ {W : Type 0} {dev : BlockDevice W} (ok : Reliable dev) where
  pub read_block_lem :
      (b : ℕ) (m : Machine W) → b < dev.size → read_block dev b m ≡ (some (ok.content m.disk b), m)
  unfolding read_block
  read_block_lem b m lt = rw (ok.reads m.disk b lt) refl

  pub write_block_lem :
      (b : ℕ) (buffer : List ℕ) (m : Machine W)
      → b < dev.size
      → length buffer ≡ 512
      → write_block dev b buffer m ≡ (true, put dev b buffer m)
  unfolding write_block
  write_block_lem b buffer m lt sized =
      ap (λ r. (r, put dev b buffer m)) (ok.writes m.disk b buffer lt sized).0

  pub content-put :
      (b : ℕ) (buffer : List ℕ) (m : Machine W)
      → b < dev.size
      → length buffer ≡ 512
      → ok.content (put dev b buffer m).disk b ≡ buffer
  content-put b buffer m lt sized = (ok.writes m.disk b buffer lt sized).1

  pub content-put_ne :
      (b c : ℕ) (buffer : List ℕ) (m : Machine W)
      → b ≢ c
      → ok.content (put dev b buffer m).disk c ≡ ok.content m.disk c
  content-put_ne b c buffer m ne = ok.keeps m.disk b c buffer ne

  -- The inode that is on the disk.
  abbrev pub inode_at : SbInfo → W → ℕ → DiskInode
  inode_at sbi w n =
      inode_of (bytes_at (ok.content w (inode_block sbi n)) (inode_offset n) inode_size)

  -- The block of the table after an inode is written.
  abbrev pub table_with : SbInfo → ℕ → DiskInode → W → List ℕ
  table_with sbi n i w =
      fs_memcpy (ok.content w (inode_block sbi n)) (inode_offset n) (inode_bytes i)

  pub read_inode_lem :
      (sbi : SbInfo) (n : ℕ) (m : Machine W)
      → m.memory ≡ []
      → inode_block sbi n < dev.size
      → vrfs_read_inode dev sbi n m ≡ (some (inode_at sbi m.disk n), m)
  unfolding vrfs_read_inode release
  read_inode_lem sbi n m plenty lt =
      let alloc = try_alloc_plenty m plenty in
      let read = read_block_lem (inode_block sbi n) (record m { live = suc m.live }) lt in
      rw (alloc, read, alloc, read) refl

  pub write_inode_lem :
      (sbi : SbInfo) (n : ℕ) (i : DiskInode) (m : Machine W)
      → m.memory ≡ []
      → inode_block sbi n < dev.size
      → vrfs_write_inode dev sbi n i m
        ≡ (true, put dev (inode_block sbi n) (table_with sbi n i m.disk) m)
  unfolding vrfs_write_inode release
  write_inode_lem sbi n i m plenty lt =
      let b = inode_block sbi n in
      let m1 : Machine W = record m { live = suc m.live } in
      let alloc = try_alloc_plenty m plenty in
      let read = read_block_lem b m1 lt in
      let sized : length (table_with sbi n i m.disk) ≡ 512 =
        length-fs_memcpy (ok.content m.disk b) (inode_offset n) (inode_bytes i)
        ∙ ok.sized m.disk b in
      let write = write_block_lem b (table_with sbi n i m.disk) m1 lt sized in
      rw (alloc, read, alloc, read, write) refl
