-- ===== src/Vrfs/ReadWrite.antt =====
-- Files of src/fs/vrfs.c: what vrfs_write stores, vrfs_read gives.
use vros.Base.{
  ==_refl, ℕ, zero, suc, ◌^◌, ◌≤◌, ◌<◌, ◌≡◌, refl, ap, ◌∙◌, ◌≢◌, ◌⊎◌, inl, inr, false, Option, none,
  some, List, [], ◌∷◌, arith, length, ◌==◌, ltb, length-set, get_or-set_self, take, replicate,
  length-replicate, All-set,
}
use vros.Bytes.{fs_memcpy, bytes_at, length-fs_memcpy, bytes_at-fs_memcpy}
use vros.Blkdev.{BlockDevice}
use vros.Vrfs.{
  Machine, DiskInode, SbInfo, vrfs_block_size, release, vrfs_read_inode, inode_block, bitmap_set,
}
use vros.Vrfs.Disk.{
  Reliable, put, try_alloc_plenty, read_block_lem, write_block_lem, content-put, content-put_ne,
  write_inode_lem, read_inode_lem, table_with,
}
use vros.Vrfs.Inodes.{IsInode, inode_at-put, IsInode}
use vros.Vrfs.Bitmaps.{IsVrfs, with_block, alloc_block-IsVrfs}
use vros.Vrfs.File.{
  Inode, first_block, with_first_block, read_first, vrfs_read, write_first, vrfs_write,
}

pub length-take : (n : ℕ) (xs : List ℕ) → n ≤ length xs → length (take n xs) ≡ n
length-take zero xs le = refl
length-take (suc n) [] le = absurd (omega arith)
length-take (suc n) (x ∷ xs) le = ap suc (length-take n xs (omega arith))

-- The block that a write of `size` bytes of the buffer fills.
abbrev block_of : ℕ → List ℕ → List ℕ
block_of size buffer = fs_memcpy (replicate vrfs_block_size 0) 0 (take size buffer)

length-block_of : (size : ℕ) (buffer : List ℕ) → length (block_of size buffer) ≡ 512
length-block_of size buffer =
    length-fs_memcpy (replicate vrfs_block_size 0) 0 (take size buffer)
    ∙ length-replicate {A = ℕ} vrfs_block_size 0

bytes_at-block_of :
    (size : ℕ) (buffer : List ℕ)
    → size ≤ 512
    → size ≤ length buffer
    → bytes_at (block_of size buffer) 0 size ≡ take size buffer
bytes_at-block_of size buffer small enough =
    let long = length-take size buffer enough in
    rw (long) at (
      bytes_at-fs_memcpy (replicate vrfs_block_size 0) 0 (take size buffer)
        (omega (arith, long, length-replicate {A = ℕ} vrfs_block_size 0)))

-- The inode after a write of `size` bytes.
abbrev pub resized : ℕ → Inode → Inode
resized size inode = record inode {
  size = size;
  disk_inode = record inode.disk_inode { size = size };
}

resized-IsInode :
    (size : ℕ) (i : DiskInode) → IsInode i → size < 2 ^ 32 → IsInode (record i { size = size })
resized-IsInode size i k lt = record {
  mode = k.mode;
  links_count = k.links_count;
  size = lt;
  blocks = k.blocks;
  twelve = k.twelve;
  direct = k.direct;
  indirect = k.indirect;
  padding = k.padding;
}

pub with_first_block-IsInode :
    (b : ℕ) (i : DiskInode) → IsInode i → b < 2 ^ 32 → IsInode (with_first_block b i)
with_first_block-IsInode b i k lt = record {
  mode = k.mode;
  links_count = k.links_count;
  size = k.size;
  blocks = omega arith;
  twelve = length-set i.direct 0 b ∙ k.twelve;
  direct = All-set (λ v. v < 2 ^ 32) i.direct 0 b k.direct lt;
  indirect = k.indirect;
  padding = k.padding;
}

module _ {W : Type 0} {dev : BlockDevice W} (ok : Reliable dev) where
  -- The machine after the block and the inode are written.
  abbrev written : SbInfo → Inode → ℕ → List ℕ → Machine W → Machine W
  written sbi inode size buffer m =
      let m1 = put dev (first_block inode.disk_inode) (block_of size buffer) m in
      put dev (inode_block sbi inode.inode_no)
        (table_with ok sbi inode.inode_no (resized size inode).disk_inode m1.disk) m1

  write_first_lem :
      (sbi : SbInfo) (inode : Inode) (buffer : List ℕ) (size : ℕ) (m : Machine W)
      → m.memory ≡ []
      → first_block inode.disk_inode < dev.size
      → inode_block sbi inode.inode_no < dev.size
      → write_first dev inode buffer size sbi m
        ≡ (some size, resized size inode, sbi, written sbi inode size buffer m)
  unfolding write_first release
  write_first_lem sbi inode buffer size m plenty b_in n_in =
      let b = first_block inode.disk_inode in
      let alloc = try_alloc_plenty m plenty in
      let write =
        write_block_lem ok b (block_of size buffer) (record m { live = suc m.live }) b_in
          (length-block_of size buffer) in
      rw
        (
          alloc,
          write,
          write_inode_lem ok sbi inode.inode_no (resized size inode).disk_inode
              (put dev b (block_of size buffer) m) plenty n_in,
        )
        refl

  read_first_lem :
      (inode : Inode) (size : ℕ) (m : Machine W)
      → m.memory ≡ []
      → inode.size ≡ size
      → 0 < first_block inode.disk_inode
      → first_block inode.disk_inode < dev.size
      → read_first dev inode size m
        ≡ (some (bytes_at (ok.content m.disk (first_block inode.disk_inode)) 0 size), m)
  unfolding read_first release
  read_first_lem inode size m plenty same nonzero b_in =
      let alloc = try_alloc_plenty m plenty in
      let read =
        read_block_lem ok (first_block inode.disk_inode) (record m { live = suc m.live }) b_in in
      let nz : (first_block inode.disk_inode == 0) ≡ false = ground (arith, nonzero) in
      let all : ltb size inode.size ≡ false = ground (arith, same) in
      rw (nz, alloc, read, alloc, read, all, same) refl

  read_lem :
      (inode : Inode) (size : ℕ) (m : Machine W)
      → m.memory ≡ []
      → inode.size ≡ size
      → 0 < size
      → size ≤ 512
      → 0 < first_block inode.disk_inode
      → first_block inode.disk_inode < dev.size
      → vrfs_read dev inode size 0 m
        ≡ (some (bytes_at (ok.content m.disk (first_block inode.disk_inode)) 0 size), m)
  unfolding vrfs_read
  read_lem inode size m plenty same pos small nonzero b_in =
      ground (arith, same, pos, small, read_first_lem inode size m plenty same nonzero b_in)

  -- What holds after a write of the inode's block.
  abbrev pub Stored : Inode → List ℕ → ℕ → Option ℕ × Inode × SbInfo × Machine W → Type 0
  Stored inode buffer size out =
      (out.0 ≡ some size)
      × (out.1.size ≡ size)
      × IsVrfs dev out.2
      × (vrfs_read dev out.1 size 0 out.3 ≡ (some (take size buffer), out.3))
      × ((vrfs_read_inode dev out.2 inode.inode_no out.3).0 ≡ some out.1.disk_inode)

  write_first-Stored :
      (sbi : SbInfo) (inode : Inode) (buffer : List ℕ) (size : ℕ) (m : Machine W)
      → IsVrfs dev sbi
      → IsInode inode.disk_inode
      → inode.inode_no < 96
      → m.memory ≡ []
      → 0 < size
      → size ≤ 512
      → size ≤ length buffer
      → 19 ≤ first_block inode.disk_inode
      → first_block inode.disk_inode < sbi.sb.block_count
      → Stored inode buffer size (write_first dev inode buffer size sbi m)
  write_first-Stored sbi inode buffer size m k i low plenty pos small enough above b_lt =
      let b = first_block inode.disk_inode in
      let n = inode.inode_no in
      let lay = k.layout in
      let b_in : b < dev.size = omega (arith, lay.inside) in
      let n_in : inode_block sbi n < dev.size =
        omega (arith, lay.inside, lay.room, lay.inode_table_block) in
      let apart : inode_block sbi n ≢ b = λ e. omega (arith, e, lay.inode_table_block) in
      let inode' = resized size inode in
      let i' = resized-IsInode size inode.disk_inode i (omega arith) in
      let m1 = put dev b (block_of size buffer) m in
      let m' = written sbi inode size buffer m in
      let stored : ok.content m'.disk b ≡ block_of size buffer =
        content-put_ne ok (inode_block sbi n) b (table_with ok sbi n inode'.disk_inode m1.disk) m1
          apart
        ∙ content-put ok b (block_of size buffer) m b_in (length-block_of size buffer) in
      rw (write_first_lem sbi inode buffer size m plenty b_in n_in) (
        refl,
        refl,
        k,
        rw
            (
              read_lem inode' size m' plenty refl pos small (omega arith) b_in,
              stored,
              bytes_at-block_of size buffer small enough,
            )
            refl,
        rw
            (
              read_inode_lem ok sbi n m' plenty n_in,
              inode_at-put ok sbi n n inode'.disk_inode m1 lay i' (omega arith) (omega arith) n_in,
              ==_refl n,
            )
            refl,
      )

  -- On a reliable device, with a well-formed superblock and memory for the buffers, a write of 1 to
  -- 512 bytes at offset 0 to a file whose inode number is below 96 and which has no block or one
  -- among the data blocks: either no block is left and nothing changes, or it returns the size,
  -- reading that many bytes at offset 0 of the resulting inode gives the bytes written, the inode
  -- in the table of the disk is the resulting one, and the superblock stays well formed.
  pub read-write :
      (sbi : SbInfo) (inode : Inode) (buffer : List ℕ) (size : ℕ) (m : Machine W)
      → IsVrfs dev sbi
      → IsInode inode.disk_inode
      → inode.inode_no < 96
      → m.memory ≡ []
      → 0 < size
      → size ≤ 512
      → size ≤ length buffer
      → (first_block inode.disk_inode ≡ 0)
        ⊎ ((sbi.sb.data_block_start ≤ first_block inode.disk_inode)
            × (first_block inode.disk_inode < sbi.sb.block_count))
      → ((vrfs_write dev inode buffer size 0 sbi m ≡ (none, inode, sbi, m))
          × (sbi.sb.free_blocks ≡ 0))
        ⊎ Stored inode buffer size (vrfs_write dev inode buffer size 0 sbi m)
  unfolding vrfs_write
  read-write sbi inode buffer size m k i low plenty pos small enough block =
      let nz : (size == 0) ≡ false = ground (arith, pos) in
      let fits : ltb vrfs_block_size size ≡ false = ground (arith, small) in
      rw (nz, fits)
        (elim block [
          | inr (above, lt) ↦
              let given : (first_block inode.disk_inode == 0) ≡ false =
                ground (arith, above, k.layout.data_block_start) in
              rw given (
                inr (
                  write_first-Stored sbi inode buffer size m k i low plenty pos small enough
                    (omega (arith, k.layout.data_block_start)) lt))
          | inl nil ↦ rw (nil) (elim (alloc_block-IsVrfs dev sbi m k) [
            | inl (full, count) ↦ rw (full, full) (inl (refl, count))
            | inr (b, call, above, lt, clear, lowest, k') ↦
                let there : first_block (with_first_block b inode.disk_inode) ≡ b =
                  get_or-set_self inode.disk_inode.direct 0 b 0 (omega (arith, i.twelve)) in
                rw (call, call)
                  (inr (
                    write_first-Stored (with_block b sbi)
                      (record inode { disk_inode = with_first_block b inode.disk_inode }) buffer
                      size (put dev sbi.sb.block_bitmap_block (bitmap_set sbi.block_bitmap b) m) k'
                      (with_first_block-IsInode b inode.disk_inode i (omega (arith, k.layout.most)))
                      low plenty pos small enough (omega (arith, k.layout.data_block_start, there))
                      (omega (arith, there, k.layout.data_block_start))))
          ])
        ])
