-- ===== src/Vfs/OnVrfs.antt =====
-- Files of VRFS (src/fs/vrfs.c) read and written through src/fs/vfs.c: one file, whose inode is part
-- of the state.
use vros.Base.{
  ℕ, ◌+◌, ◌%◌, ◌^◌, ◌≤◌, ◌<◌, ◌≡◌, refl, ◌⊎◌, inl, inr, true, none, some, List, [], length, take,
  arith,
}
use vros.Blkdev.{BlockDevice}
use vros.Vrfs.{Machine, SbInfo}
use vros.Vrfs.Disk.{Reliable}
use vros.Vrfs.Inodes.{IsInode}
use vros.Vrfs.Bitmaps.{IsVrfs}
use vros.Vrfs.File.{Inode, first_block, vrfs_read, vrfs_write}
use vros.Vrfs.ReadWrite.{read-write, length-take}
use vros.Vfs.Files.{File, FileOps, vfs_read, vfs_write, seek_default, vfs_lseek}

-- The inode of the file, the superblock and the machine.
abbrev pub Vrfs : Type 0 → Type 0
Vrfs W = Inode × SbInfo × Machine W

module _ {W : Type 0} (dev : BlockDevice W) where
  -- vrfs_open and vrfs_close return 0.
  unfoldable pub vrfs_fops : FileOps Unit (Vrfs W)
  vrfs_fops = record {
    open_file = some (λ u s. (true, s));
    close = some (λ u s. s);
    read = some (λ u size pos s. let (r, m) = vrfs_read dev s.0 size pos s.2 in (r, (s.0, s.1, m)));
    write = some (λ u buffer size pos s.
        let out = vrfs_write dev s.0 buffer size pos s.1 s.2 in (out.0, (out.1, out.2, out.3)));
    lseek = none;
    size_of = λ u s. s.0.size;
  }

-- Within a file, but not at its start, nothing can be read.
behind_start :
    {W : Type 0} (dev : BlockDevice W) (inode : Inode) (size offset : ℕ) (m : Machine W)
    → 0 < offset
    → offset < inode.size
    → (vrfs_read dev inode size offset m).0 ≡ none
unfolding vrfs_read
behind_start dev inode size offset m pos lt = ground arith

-- A file at a position.
abbrev pub at_pos : ℕ → ℕ → File Unit
at_pos flags pos = record { inode = tt; flags = flags; pos = pos; ref_count = 1 }

module _ {W : Type 0} (dev : BlockDevice W) where
  vfs_write-none :
      (flags pos size : ℕ) (buffer : List ℕ) (inode : Inode) (sbi : SbInfo) (m : Machine W)
      → (vrfs_write dev inode buffer size pos sbi m).0 ≡ none
      → (vfs_write (some (vrfs_fops dev)) (at_pos flags pos) buffer size (inode, sbi, m)).0 ≡ none
  unfolding vfs_write vrfs_fops
  vfs_write-none flags pos size buffer inode sbi m e = rw (vfs_write, e) refl

  vfs_write-some :
      (flags pos size n : ℕ) (buffer : List ℕ) (inode : Inode) (sbi : SbInfo) (m : Machine W)
      → (vrfs_write dev inode buffer size pos sbi m).0 ≡ some n
      → let out = vrfs_write dev inode buffer size pos sbi m in
        vfs_write (some (vrfs_fops dev)) (at_pos flags pos) buffer size (inode, sbi, m)
        ≡ (some n, at_pos flags ((pos + n) % 2 ^ 32), (out.1, out.2, out.3))
  unfolding vfs_write vrfs_fops
  vfs_write-some flags pos size n buffer inode sbi m e = rw (vfs_write, e) refl

  vfs_read-some :
      (flags pos size : ℕ) (bytes : List ℕ) (inode : Inode) (sbi : SbInfo) (m : Machine W)
      → (vrfs_read dev inode size pos m).0 ≡ some bytes
      → vfs_read (some (vrfs_fops dev)) (at_pos flags pos) size (inode, sbi, m) ≡ (
        some bytes,
        at_pos flags ((pos + length bytes) % 2 ^ 32),
        (inode, sbi, (vrfs_read dev inode size pos m).1),
      )
  unfolding vfs_read vrfs_fops
  vfs_read-some flags pos size bytes inode sbi m e = rw (vfs_read, e) refl

  vfs_read-none :
      (flags pos size : ℕ) (inode : Inode) (sbi : SbInfo) (m : Machine W)
      → (vrfs_read dev inode size pos m).0 ≡ none
      → (vfs_read (some (vrfs_fops dev)) (at_pos flags pos) size (inode, sbi, m)).0 ≡ none
  unfolding vfs_read vrfs_fops
  vfs_read-none flags pos size inode sbi m e = rw (vfs_read, e) refl

  rewind :
      (flags pos size : ℕ) (s : Vrfs W)
      → vfs_lseek (some (vrfs_fops dev)) (at_pos flags pos) size 0 0 s ≡ (some 0, at_pos flags 0, s)
  unfolding vfs_lseek seek_default vrfs_fops
  rewind flags pos size s = refl

module _ {W : Type 0} {dev : BlockDevice W} (ok : Reliable dev) where
  -- Under the hypotheses for a write to a VRFS file, through a newly opened file: writing 1 to 512
  -- bytes either fails, and then no data block is left, or returns the size and moves the position
  -- behind it; seeking to 0 then returns 0, and reading as many bytes gives those written and moves
  -- the position behind them.
  pub read-seek-write :
      (flags : ℕ) (sbi : SbInfo) (inode : Inode) (buffer : List ℕ) (size : ℕ) (m : Machine W)
      → IsVrfs dev sbi
      → IsInode inode.disk_inode
      → inode.inode_no < 96
      → m.memory ≡ []
      → 0 < size
      → size ≤ 512
      → size ≤ length buffer
      → (first_block inode.disk_inode ≡ 0)
        ⊎ ((sbi.sb.data_block_start ≤ first_block inode.disk_inode)
            × (first_block inode.disk_inode < sbi.sb.block_count))
      → let (written, file1, s1) =
          vfs_write (some (vrfs_fops dev)) (at_pos flags 0) buffer size (inode, sbi, m) in
        let (at, file2, s2) = vfs_lseek (some (vrfs_fops dev)) file1 s1.0.size 0 0 s1 in
        let (bytes, file3, s3) = vfs_read (some (vrfs_fops dev)) file2 size s2 in
        ((written ≡ none) × (sbi.sb.free_blocks ≡ 0))
        ⊎ ((written ≡ some size)
            × (file1.pos ≡ size)
            × (at ≡ some 0)
            × (bytes ≡ some (take size buffer))
            × (file3.pos ≡ size))
  read-seek-write flags sbi inode buffer size m k i low plenty pos small enough block =
      let out = vrfs_write dev inode buffer size 0 sbi m in
      elim (read-write ok sbi inode buffer size m k i low plenty pos small enough block) [
        | inl (call, full) ↦
            inl (vfs_write-none dev flags 0 size buffer inode sbi m (rw call refl), full)
        | inr (r, sized, k', read, on_disk) ↦
            let long : length (take size buffer) ≡ size = length-take size buffer enough in
            let fits : (0 + size) % 2 ^ 32 ≡ size = omega arith in
            let got =
              vfs_read-some dev flags 0 size (take size buffer) out.1 out.2 out.3 (rw read refl) in
            rw
              (
                vfs_write-some dev flags 0 size size buffer inode sbi m r,
                rewind dev flags ((0 + size) % 2 ^ 32) out.1.size (out.1, out.2, out.3),
                got,
                long,
                fits,
              )
              (inr (refl, refl, refl, refl, refl))
      ]

-- After a read through the virtual file system that gives some but not all bytes of a VRFS file,
-- the position is behind them, and every further read from there fails with -1.
pub read_again :
    {W : Type 0} (dev : BlockDevice W) (flags size again : ℕ) (bytes : List ℕ) (inode : Inode)
    (sbi : SbInfo) (m : Machine W)
    → (vrfs_read dev inode size 0 m).0 ≡ some bytes
    → 0 < length bytes
    → length bytes < inode.size
    → inode.size < 2 ^ 32
    → let (first, file1, s1) =
        vfs_read (some (vrfs_fops dev)) (at_pos flags 0) size (inode, sbi, m) in
      (first ≡ some bytes)
      × (file1.pos ≡ length bytes)
      × ((vfs_read (some (vrfs_fops dev)) file1 again s1).0 ≡ none)
read_again dev flags size again bytes inode sbi m e pos part fits =
    let m1 = (vrfs_read dev inode size 0 m).1 in
    let at : (0 + length bytes) % 2 ^ 32 ≡ length bytes = omega arith in
    rw (vfs_read-some dev flags 0 size bytes inode sbi m e, at)
      (
        refl,
        refl,
        vfs_read-none dev flags (length bytes) again inode sbi m1
            (behind_start dev inode again (length bytes) m1 pos part),
      )
