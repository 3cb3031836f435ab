-- ===== src/Vrfs/Mounting.antt =====
-- What vrfs_mkfs of src/fs/vrfs.c writes, vrfs_mount reads.
use vros.Base.{
  ℕ, zero, suc, ◌+◌, ◌-◌, ◌/◌, ◌%◌, ◌^◌, ◌≤◌, ◌<◌, ◌≡◌, refl, sym, ap, ◌∙◌, inr, true, false, ◌||◌,
  ◌&&◌, some, List, [], ◌∷◌, arith, length, ◌==◌, if◌then◌else◌, replicate, length-replicate, All,
  All-replicate, length-append, ltb, leb, get_or-replicate,
}
use vros.Bits.{has_bit_lem, test_bit-zero}
use vros.Blkdev.{BlockDevice}
use vros.Bytes.{
  fs_memcpy, word_bytes, words-word_bytes, length-word_bytes, length-fs_memcpy, bytes_at-fs_memcpy,
}
use vros.Vrfs.{
  Machine, SbInfo, Superblock, bitmap_set, bitmap_test, inode_bytes, inode_of, release, vrfs_magic,
}
use vros.Vrfs.Disk.{
  Reliable, put, try_alloc_plenty, read_block_lem, write_block_lem, content-put, content-put_ne,
  read_inode_lem, inode_at,
}
use vros.Vrfs.Inodes.{IsInode, inode_of-inode_bytes, length-inode_bytes}
use vros.Vrfs.Bitmaps.{IsVrfs, clear_from, bitmap_test-bitmap_set, length-bitmap_set}
use vros.Vrfs.File.{Inode}
use vros.Vrfs.AddEntry.{Holds}
use vros.Vrfs.Dir.{no_entry, vfs_directory}
use vros.Vrfs.Format.{
  superblock_bytes, superblock_of, new_superblock, mark_from, root_inode, zero_block, Mounted,
  write_blocks_and_root, vrfs_mkfs, read_over, mount_root, mount_bitmaps, vrfs_mount, vrfs_unmount,
}

zero_block-clear : (j : ℕ) → j < 4096 → bitmap_test zero_block j ≡ false
unfolding bitmap_test zero_block
zero_block-clear j lt =
    rw (get_or-replicate {A = ℕ} 512 (j / 8) 0 0 (omega arith))
      (has_bit_lem 0 (j % 8) ∙ test_bit-zero (j % 8))

length-zero_block : length zero_block ≡ 512
unfolding zero_block
length-zero_block = length-replicate {A = ℕ} 512 0

-- The loop marks the blocks it passes and no other.
mark_from_lem :
    (n i : ℕ) (bitmap : List ℕ)
    → length bitmap ≡ 512
    → i + n ≤ 4096
    → (length (mark_from n i bitmap) ≡ 512)
      × ((j : ℕ)
          → bitmap_test (mark_from n i bitmap) j
            ≡ ((leb i j && ltb j (i + n)) || bitmap_test bitmap j))
unfolding mark_from
mark_from_lem zero i bitmap sized le = (sized, λ j. ground arith)
mark_from_lem (suc n) i bitmap sized le =
    let (sized', marks) =
      mark_from_lem n (i + 1) (bitmap_set bitmap i) (length-bitmap_set bitmap i ∙ sized)
        (omega arith) in
    (sized', λ j. ground (arith, marks j, bitmap_test-bitmap_set bitmap i j (omega (arith, sized))))

-- With the first `c` bits set and the others clear.
clear_from_first :
    (n i c : ℕ) (bitmap : List ℕ)
    → ((j : ℕ) → j < i + n → bitmap_test bitmap j ≡ ltb j c)
    → clear_from n i bitmap ≡ i + n - (if ltb i c then c else i)
clear_from_first zero i c bitmap h = ground arith
clear_from_first (suc n) i c bitmap h =
    ground
      (arith, h i (omega arith), clear_from_first n (i + 1) c bitmap (λ j lt. h j (omega arith)))

pub root_inode-IsInode : IsInode root_inode
root_inode-IsInode = record {
  mode = omega arith;
  links_count = omega arith;
  size = omega arith;
  blocks = omega arith;
  twelve = refl;
  direct = All-replicate {A = ℕ} (λ v. v < 2 ^ 32) 12 0 (omega arith);
  indirect = omega arith;
  padding = refl;
}

abbrev superblock_words : Superblock → List ℕ
superblock_words sb =
    sb.magic ∷ sb.block_count ∷ sb.inode_count ∷ sb.free_blocks ∷ sb.free_inodes
    ∷ sb.inode_bitmap_block ∷ sb.block_bitmap_block ∷ sb.inode_table_block ∷ sb.data_block_start
    ∷ []

superblock_of-superblock_bytes :
    (sb : Superblock)
    → All (λ v. v < 2 ^ 32) (superblock_words sb)
    → superblock_of (superblock_bytes sb) ≡ sb
unfolding superblock_of superblock_bytes
superblock_of-superblock_bytes sb h =
    rw (words-word_bytes (superblock_words sb) (replicate 476 0) h) refl

new_superblock-fits :
    (size : ℕ) → 19 ≤ size → All (λ v. v < 2 ^ 32) (superblock_words (new_superblock size))
unfolding new_superblock
new_superblock-fits size room = (
  omega arith,
  (
    ground arith,
    (
      omega arith,
      (omega arith, (omega arith, (omega arith, (omega arith, (omega arith, (omega arith, tt)))))),
    ),
  ),
)

new_superblock-magic : (size : ℕ) → ((new_superblock size).magic == vrfs_magic) ≡ true
unfolding new_superblock
new_superblock-magic size = refl

new_superblock-counts :
    (size : ℕ)
    → 19 ≤ size
    → ((new_superblock size).free_inodes ≡ 127)
      × ((new_superblock size).free_blocks + 19 ≡ (new_superblock size).block_count)
unfolding new_superblock
new_superblock-counts size room = (omega arith, ground arith)

length-superblock_bytes : (sb : Superblock) → length (superblock_bytes sb) ≡ 512
unfolding superblock_bytes
length-superblock_bytes sb = omega (
  arith,
  length-append (word_bytes (superblock_words sb)) (replicate 476 0),
  length-word_bytes (superblock_words sb),
  length-replicate {A = ℕ} 476 0,
)

-- The four blocks that `vrfs_mkfs` writes.
abbrev inode_bits : List ℕ
inode_bits = bitmap_set zero_block 0

abbrev block_bits : List ℕ
block_bits = mark_from 19 0 zero_block

abbrev first_inodes : List ℕ
first_inodes = fs_memcpy zero_block 0 (inode_bytes root_inode)

length-first_inodes : length first_inodes ≡ 512
length-first_inodes = length-fs_memcpy zero_block 0 (inode_bytes root_inode) ∙ length-zero_block

-- What `vrfs_mount` keeps of a formatted device.
abbrev pub new_sbi : ℕ → SbInfo
new_sbi size = record {
  sb = new_superblock size;
  inode_bitmap = inode_bits;
  block_bitmap = block_bits;
}

abbrev pub root : Inode
root = record { ino = 0; mode = vfs_directory; size = 0; inode_no = 0; disk_inode = root_inode }

module _ {W : Type 0} {dev : BlockDevice W} (ok : Reliable dev) where
  abbrev formatted : Machine W → Machine W
  formatted m = put dev 3 first_inodes (
      put dev 2 block_bits
        (put dev 1 inode_bits (put dev 0 (superblock_bytes (new_superblock dev.size)) m)))

  mkfs_lem : (m : Machine W) → m.memory ≡ [] → 19 ≤ dev.size → vrfs_mkfs dev m ≡ (true, formatted m)
  unfolding vrfs_mkfs write_blocks_and_root new_superblock release
  mkfs_lem m plenty room =
      let sb = new_superblock dev.size in
      let m1 : Machine W = record m { live = suc m.live } in
      let w0 =
        write_block_lem ok 0 (superblock_bytes sb) m1 (omega arith) (length-superblock_bytes sb) in
      let m2 = put dev 0 (superblock_bytes sb) m1 in
      let w1 =
        write_block_lem ok 1 inode_bits m2 (omega arith)
          (length-bitmap_set zero_block 0 ∙ length-zero_block) in
      let m3 = put dev 1 inode_bits m2 in
      let w2 =
        write_block_lem ok 2 block_bits m3 (omega arith)
          (mark_from_lem 19 0 zero_block length-zero_block (omega arith)).0 in
      let m4 = put dev 2 block_bits m3 in
      let w3 = write_block_lem ok 3 first_inodes m4 (omega arith) length-first_inodes in
      rw (try_alloc_plenty m plenty, w0, w1, w2, w3) refl

  formatted-content :
      (m : Machine W)
      → 19 ≤ dev.size
      → let w = (formatted m).disk in
        (ok.content w 0 ≡ superblock_bytes (new_superblock dev.size))
        × (ok.content w 1 ≡ inode_bits)
        × (ok.content w 2 ≡ block_bits)
        × (ok.content w 3 ≡ first_inodes)
  formatted-content m room =
      let sb = superblock_bytes (new_superblock dev.size) in
      let m0 = put dev 0 sb m in
      let m1 = put dev 1 inode_bits m0 in
      let m2 = put dev 2 block_bits m1 in
      (
        content-put_ne ok 3 0 first_inodes m2 (λ e. omega (arith, e))
            ∙ content-put_ne ok 2 0 block_bits m1 (λ e. omega (arith, e))
            ∙ content-put_ne ok 1 0 inode_bits m0 (λ e. omega (arith, e))
            ∙ content-put ok 0 sb m (omega arith)
                (length-superblock_bytes (new_superblock dev.size)),
        content-put_ne ok 3 1 first_inodes m2 (λ e. omega (arith, e))
            ∙ content-put_ne ok 2 1 block_bits m1 (λ e. omega (arith, e))
            ∙ content-put ok 1 inode_bits m0 (omega arith)
                (length-bitmap_set zero_block 0 ∙ length-zero_block),
        content-put_ne ok 3 2 first_inodes m2 (λ e. omega (arith, e))
            ∙ content-put ok 2 block_bits m1 (omega arith)
                (mark_from_lem 19 0 zero_block length-zero_block (omega arith)).0,
        content-put ok 3 first_inodes m2 (omega arith) length-first_inodes,
      )

  pub new_sbi-IsVrfs : 19 ≤ dev.size → IsVrfs dev (new_sbi dev.size)
  unfolding new_superblock
  new_sbi-IsVrfs room =
      let (sized, marks) = mark_from_lem 19 0 zero_block length-zero_block (omega arith) in
      let count = (new_superblock dev.size).block_count in
      let count_le : count ≤ 1024 = ground arith in
      let count_in : count ≤ dev.size = ground arith in
      let count_room : 19 ≤ count = ground arith in
      let inode_marks : (j : ℕ) → j < 4096 → bitmap_test inode_bits j ≡ ltb j 1 = λ j lt. ground (
        arith,
        bitmap_test-bitmap_set zero_block 0 j (omega (arith, length-zero_block)),
        zero_block-clear j lt,
      ) in
      let block_marks : (j : ℕ) → j < 4096 → bitmap_test block_bits j ≡ ltb j 19 =
        λ j lt. ground (arith, marks j, zero_block-clear j lt) in
      record {
        layout = record {
          inode_bitmap_block = refl;
          block_bitmap_block = refl;
          inode_table_block = refl;
          data_block_start = refl;
          inode_count = refl;
          room = count_room;
          most = count_le;
          inside = count_in;
        };
        inode_bytes = length-bitmap_set zero_block 0 ∙ length-zero_block;
        block_bytes = sized;
        free_inodes =
            sym (clear_from_first 128 0 1 inode_bits (λ j lt. inode_marks j (omega arith)));
        free_blocks = omega (
          arith,
          clear_from_first count 0 19 block_bits (λ j lt. block_marks j (omega (arith, count_le))),
        );
        root_used = inode_marks 0 (omega arith);
        tables_used = λ b lt. block_marks b (omega arith) ∙ ground arith;
      }

  root-read :
      (m : Machine W)
      → ok.content m.disk 3 ≡ first_inodes
      → inode_at ok (new_sbi dev.size) m.disk 0 ≡ root_inode
  unfolding new_superblock
  root-read m table = rw (table) (
      ap inode_of (
        rw (length-inode_bytes root_inode root_inode-IsInode) at (
          bytes_at-fs_memcpy zero_block 0 (inode_bytes root_inode)
            (omega (arith, length-zero_block, length-inode_bytes root_inode root_inode-IsInode))))
      ∙ inode_of-inode_bytes root_inode root_inode-IsInode)

  mount_root_lem :
      (m : Machine W)
      → m.memory ≡ []
      → 19 ≤ dev.size
      → ok.content m.disk 3 ≡ first_inodes
      → mount_root dev (new_sbi dev.size) m ≡ (
        some (record { sbi = (new_sbi dev.size); root = root }),
        record m { live = suc (suc m.live) },
      )
  unfolding mount_root release new_superblock
  mount_root_lem m plenty room table =
      let m1 : Machine W = record m { live = suc m.live } in
      let m2 : Machine W = record m { live = suc (suc m.live) } in
      let m3 : Machine W = record m { live = suc (suc (suc m.live)) } in
      let a0 = try_alloc_plenty m plenty in
      let a1 = try_alloc_plenty m1 plenty in
      let a2 = try_alloc_plenty m2 plenty in
      let read = read_inode_lem ok (new_sbi dev.size) 0 m3 plenty (omega arith) in
      rw (mount_root, a0, a1, a2, read, root-read m3 table, a0, a1, a2, read) refl

  read_over_lem :
      (b : ℕ) (held : List ℕ) (m : Machine W)
      → b < dev.size
      → read_over dev b held m ≡ (ok.content m.disk b, m)
  unfolding read_over
  read_over_lem b held m lt = let read = read_block_lem ok b m lt in rw (read_over, read, read) refl

  mount_bitmaps_lem :
      (held1 held2 : List ℕ) (m : Machine W)
      → m.memory ≡ []
      → 19 ≤ dev.size
      → ok.content m.disk 1 ≡ inode_bits
      → ok.content m.disk 2 ≡ block_bits
      → ok.content m.disk 3 ≡ first_inodes
      → mount_bitmaps dev (new_superblock dev.size) held1 held2 m ≡ (
        some (record { sbi = (new_sbi dev.size); root = root }),
        record m { live = suc (suc (suc (suc (suc m.live)))) },
      )
  unfolding mount_bitmaps new_superblock
  mount_bitmaps_lem held1 held2 m plenty room bits1 bits2 table =
      let m1 : Machine W = record m { live = suc m.live } in
      let m2 : Machine W = record m { live = suc (suc m.live) } in
      let m3 : Machine W = record m { live = suc (suc (suc m.live)) } in
      let a0 = try_alloc_plenty m plenty in
      let a1 = try_alloc_plenty m1 plenty in
      let r1 = read_over_lem 1 held1 m2 (omega arith) in
      let a2 = try_alloc_plenty m2 plenty in
      let r2 = read_over_lem 2 held2 m3 (omega arith) in
      let rest = mount_root_lem m3 plenty room table in
      rw (mount_bitmaps, a0, a1, r1, bits1, a2, r2, bits2, rest) refl

  mount_lem :
      (held1 held2 : List ℕ) (m : Machine W)
      → m.memory ≡ []
      → 19 ≤ dev.size
      → vrfs_mount dev held1 held2 (formatted m) ≡ (
        some (record { sbi = (new_sbi dev.size); root = root }),
        record (formatted m) { live = suc (suc (suc (suc (suc (suc m.live))))) },
      )
  unfolding vrfs_mount
  mount_lem held1 held2 m plenty room =
      let f = formatted m in
      let f1 : Machine W = record f { live = suc f.live } in
      let (c0, c1, c2, c3) = formatted-content m room in
      let alloc = try_alloc_plenty f plenty in
      let read = read_block_lem ok 0 f1 (omega arith) in
      let sb =
        superblock_of-superblock_bytes (new_superblock dev.size)
          (new_superblock-fits dev.size room) in
      rw
        (
          vrfs_mount,
          alloc,
          read,
          c0,
          sb,
          new_superblock-magic dev.size,
          alloc,
          read,
          mount_bitmaps_lem held1 held2 f1 plenty room c1 c2 c3,
        )
        refl

  -- On a reliable device of at least 19 blocks with memory for the buffers: formatting succeeds and
  -- leaves no buffer allocated; mounting then succeeds with a superblock whose counts are those of
  -- its bitmaps, 127 free inodes and every block behind the first 19 free, and an empty root
  -- directory; unmounting leaves exactly one block of the heap allocated.
  pub mount-mkfs :
      (held1 held2 : List ℕ) (m : Machine W)
      → m.memory ≡ []
      → 19 ≤ dev.size
      → let (made, m1) = vrfs_mkfs dev m in
        let (mounted, m2) = vrfs_mount dev held1 held2 m1 in
        (made ≡ true)
        × (m1.live ≡ m.live)
        × ((fs : Mounted) × (mounted ≡ some fs)
            × IsVrfs dev fs.sbi
            × (fs.sbi.sb.free_inodes ≡ 127)
            × (fs.sbi.sb.free_blocks + 19 ≡ fs.sbi.sb.block_count)
            × Holds ok fs.sbi fs.root.disk_inode m2.disk (replicate 16 no_entry))
        × ((vrfs_unmount m2).live ≡ m.live + 1)
  unfolding vrfs_unmount release
  mount-mkfs held1 held2 m plenty room =
      let k = new_sbi-IsVrfs room in
      let counts = new_superblock-counts dev.size room in
      rw (mkfs_lem m plenty room, mount_lem held1 held2 m plenty room)
        (
          refl,
          refl,
          (
            record { sbi = (new_sbi dev.size); root = root },
            refl,
            k,
            counts.0,
            counts.1,
            inr (refl, refl, refl),
          ),
          omega arith,
        )
