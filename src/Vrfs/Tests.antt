-- ===== src/Vrfs/Tests.antt =====
-- VRFS on a device of 64 blocks that are kept in memory.
use vros.Base.{
  ◌*◌, ◌%◌, leb, All-replicate, ℕ, zero, suc, ◌+◌, ◌^◌, ◌≤◌, ◌<◌, ◌≡◌, refl, ap, ◌≢◌, ◌⊎◌, inl, inr,
  true, false, none, some, List, [], ◌∷◌, arith, length, ◌==◌, if◌then◌else◌, Bool-cases, ==_refl,
  ne→==, replicate, All,
}
use vros.Bits.{has_bit, with_bit}
use vros.CString.{strcmp}
use vros.Blkdev.{BlockDevice, blkdev_read, blkdev_write}
use vros.Vrfs.{
  with_bit, has_bit, bitmap_set, vrfs_alloc_block, vrfs_alloc_inode, Machine, SbInfo, inode_block,
  bitmap_test, vrfs_read_inode, vrfs_write_inode,
}
use vros.Vrfs.Disk.{Reliable}
use vros.Vrfs.Overlap.{write_inode-new_superblock}
use vros.Bytes.{bytes_at}
use vros.Vrfs.{inode_bytes}
use vros.Vrfs.Inodes.{IsInode, read_inode-write_inode}
use vros.Vrfs.Bitmaps.{IsVrfs, alloc_inode-IsVrfs, alloc_block-IsVrfs}
use vros.Vrfs.File.{Inode, vrfs_read, vrfs_write}
use vros.Vrfs.Format.{new_superblock, zero_block, vrfs_mkfs, vrfs_mount, vrfs_unmount, Mounted}
use vros.Vrfs.AddEntry.{Holds, Distinct-no_entries}
use vros.Vrfs.Unlink.{no_entry-IsDirent, is_some}
use vros.Vrfs.Memory.{owed}
use vros.Vrfs.Bitmaps.{with_inode, with_block}
use vros.Vrfs.Disk.{put}
use vros.Vrfs.Entries.{IsDirent, length-dirent_bytes}
use vros.Vrfs.Dir.{Dirent, dirent_bytes, no_entry, new_file, vrfs_unlink, vrfs_create, vrfs_lookup}
use vros.Vrfs.ReadWrite.{read-write, Stored}
use vros.Vrfs.Lookup.{ino_result, lookup_ino, IsDir}
use vros.Vrfs.Unlink.{lookup-unlink}
use vros.Vrfs.Create.{lookup-create, new_inode}
use vros.Vrfs.Mounting.{mount-mkfs, new_sbi, root, new_sbi-IsVrfs}
use vros.Vrfs.Memory.{live-owed}

-- The bytes cut or filled with 0 to `n`.
abbrev pub fit : ℕ → List ℕ → List ℕ
fit zero xs = []
fit (suc n) [] = 0 ∷ fit n []
fit (suc n) (x ∷ xs) = x ∷ fit n xs

length-fit : (n : ℕ) (xs : List ℕ) → length (fit n xs) ≡ n
length-fit zero xs = refl
length-fit (suc n) [] = ap suc (length-fit n [])
length-fit (suc n) (x ∷ xs) = ap suc (length-fit n xs)

fit_full : (n : ℕ) (xs : List ℕ) → length xs ≡ n → fit n xs ≡ xs
fit_full zero [] e = refl
fit_full zero (x ∷ xs) e = absurd (omega (arith, e))
fit_full (suc n) [] e = absurd (omega (arith, e))
fit_full (suc n) (x ∷ xs) e = ap (◌∷◌ x) (fit_full n xs (omega (arith, e)))

abbrev pub Blocks : Type 0
Blocks = ℕ → List ℕ

abbrev pub memory_disk : BlockDevice Blocks
memory_disk = record {
  name = [];
  in_use = true;
  size = 64;
  read = some (λ b w. (some (fit 512 (w b)), w));
  write = some (λ b buffer w. (true, λ c. if b == c then buffer else w c));
  private_data = 0;
}

pub memory_disk-Reliable : Reliable memory_disk
unfolding blkdev_read blkdev_write
memory_disk-Reliable = record {
  content = λ w b. fit 512 (w b);
  sized = λ w b. length-fit 512 (w b);
  reads = λ w b lt. ground arith;
  writes = λ w b buffer lt e.
      let inside : leb 64 b ≡ false = ground arith in
      rw (inside, ==_refl b, fit_full 512 buffer e) (refl, refl);
  keeps = λ w b c buffer ne. elim (Bool-cases (leb 64 b)) [
    | inl outside ↦ rw outside refl
    | inr inside ↦ rw (inside, ne→== b c ne) refl
  ];
}

abbrev pub machine : Machine Blocks
machine = record { disk = λ b. []; memory = []; live = 7 }

abbrev pub ok : Reliable memory_disk
ok = memory_disk-Reliable

abbrev pub formatted_sbi : SbInfo
formatted_sbi = new_sbi 64

pub formatted_sbi-IsVrfs : IsVrfs memory_disk formatted_sbi
formatted_sbi-IsVrfs = new_sbi-IsVrfs ok (omega arith)

pub new_file-IsInode : IsInode new_file
new_file-IsInode = record {
  mode = omega arith;
  links_count = omega arith;
  size = omega arith;
  blocks = omega arith;
  twelve = refl;
  direct = All-replicate {A = ℕ} (λ v. v < 2 ^ 32) 12 0 (omega arith);
  indirect = omega arith;
  padding = refl;
}

abbrev pub hi : List ℕ
hi = b'h' ∷ b'i' ∷ []

read_inode-write_inode_example :
    let (written, m') = vrfs_write_inode memory_disk formatted_sbi 5 new_file machine in
    (written ≡ true)
    × ((vrfs_read_inode memory_disk formatted_sbi 6 m').0 ≡ (
        if 5 == 6 then some new_file else (vrfs_read_inode memory_disk formatted_sbi 6 machine).0))
    × (m'.live ≡ 7)
unfolding new_superblock
read_inode-write_inode_example =
    read_inode-write_inode ok formatted_sbi 5 6 new_file machine formatted_sbi-IsVrfs.layout
      new_file-IsInode (omega arith) (omega arith) (omega arith) (omega arith) refl

write_inode-new_superblock_example :
    let m' = (vrfs_write_inode memory_disk formatted_sbi 100 new_file machine).1 in
    ((b : ℕ)
      → b < formatted_sbi.sb.inode_table_block
      → ok.content m'.disk b ≡ ok.content machine.disk b)
    × (((100 < 96)
          × ((b : ℕ)
              → formatted_sbi.sb.data_block_start ≤ b
              → ok.content m'.disk b ≡ ok.content machine.disk b))
        ⊎ ((96 ≤ 100)
            × (b : ℕ) × (formatted_sbi.sb.data_block_start ≤ b)
            × (b < 64)
            × (bytes_at (ok.content m'.disk b) (100 % 6 * 76) 76 ≡ inode_bytes new_file)))
write_inode-new_superblock_example =
    write_inode-new_superblock ok formatted_sbi 100 new_file machine refl (omega arith)
      new_file-IsInode (omega arith) refl

-- Inode 96 is in the first data block.
inode_96 : inode_block formatted_sbi 96 ≡ formatted_sbi.sb.data_block_start
unfolding new_superblock
inode_96 = refl

alloc_inode-IsVrfs_example :
    ((vrfs_alloc_inode memory_disk formatted_sbi machine ≡ (none, formatted_sbi, machine))
      × (formatted_sbi.sb.free_inodes ≡ 0))
    ⊎ ((n : ℕ) × (vrfs_alloc_inode memory_disk formatted_sbi machine ≡ (
      some n,
      with_inode n formatted_sbi,
      put memory_disk formatted_sbi.sb.inode_bitmap_block
          (bitmap_set formatted_sbi.inode_bitmap n)
          machine,
    ))
        × (0 < n)
        × (n < formatted_sbi.sb.inode_count)
        × (bitmap_test formatted_sbi.inode_bitmap n ≡ false)
        × ((j : ℕ) → j < n → bitmap_test formatted_sbi.inode_bitmap j ≡ true)
        × IsVrfs memory_disk (with_inode n formatted_sbi))
alloc_inode-IsVrfs_example =
    alloc_inode-IsVrfs memory_disk formatted_sbi machine formatted_sbi-IsVrfs

alloc_block-IsVrfs_example :
    ((vrfs_alloc_block memory_disk formatted_sbi machine ≡ (none, formatted_sbi, machine))
      × (formatted_sbi.sb.free_blocks ≡ 0))
    ⊎ ((b : ℕ) × (vrfs_alloc_block memory_disk formatted_sbi machine ≡ (
      some b,
      with_block b formatted_sbi,
      put memory_disk formatted_sbi.sb.block_bitmap_block
          (bitmap_set formatted_sbi.block_bitmap b)
          machine,
    ))
        × (formatted_sbi.sb.data_block_start ≤ b)
        × (b < formatted_sbi.sb.block_count)
        × (bitmap_test formatted_sbi.block_bitmap b ≡ false)
        × ((j : ℕ) → j < b → bitmap_test formatted_sbi.block_bitmap j ≡ true)
        × IsVrfs memory_disk (with_block b formatted_sbi))
alloc_block-IsVrfs_example =
    alloc_block-IsVrfs memory_disk formatted_sbi machine formatted_sbi-IsVrfs

read-write_example :
    ((vrfs_write memory_disk (new_inode 5) hi 2 0 formatted_sbi machine
        ≡ (none, new_inode 5, formatted_sbi, machine))
      × (formatted_sbi.sb.free_blocks ≡ 0))
    ⊎ Stored ok
        (new_inode 5)
        hi
        2
        (vrfs_write memory_disk (new_inode 5) hi 2 0 formatted_sbi machine)
read-write_example =
    read-write ok formatted_sbi (new_inode 5) hi 2 machine formatted_sbi-IsVrfs new_file-IsInode
      (omega arith) refl (omega arith) (omega arith) (omega arith) (inl refl)

mount-mkfs_example :
    let (made, m1) = vrfs_mkfs memory_disk machine in
    let (mounted, m2) = vrfs_mount memory_disk [] [] m1 in
    (made ≡ true)
    × (m1.live ≡ 7)
    × ((fs : Mounted) × (mounted ≡ some fs)
        × IsVrfs memory_disk fs.sbi
        × (fs.sbi.sb.free_inodes ≡ 127)
        × (fs.sbi.sb.free_blocks + 19 ≡ fs.sbi.sb.block_count)
        × Holds ok fs.sbi fs.root.disk_inode m2.disk (replicate 16 no_entry))
    × ((vrfs_unmount m2).live ≡ 8)
mount-mkfs_example = mount-mkfs ok [] [] machine refl (omega arith)

second_inode_free : bitmap_test formatted_sbi.inode_bitmap 1 ≡ false
unfolding bitmap_test bitmap_set zero_block has_bit with_bit
second_inode_free = refl

lookup-create_example :
    let (r, dir', sbi', m') = vrfs_create memory_disk formatted_sbi root hi machine in
    ((r ≡ none)
      × (All (λ (e : Dirent). e.inode ≢ 0) (replicate 16 no_entry)
          ⊎ (formatted_sbi.sb.free_blocks ≡ 0)))
    ⊎ ((n : ℕ) × (ino_result r ≡ some n)
        × (bitmap_test formatted_sbi.inode_bitmap n ≡ false)
        × (n ≤ 1)
        × IsVrfs memory_disk sbi'
        × (m'.live ≡ 9)
        × ((q : List ℕ)
            → lookup_ino ok sbi' dir' m' q
              ≡ (if strcmp hi q then some n else lookup_ino ok formatted_sbi root machine q)))
unfolding vrfs_lookup
lookup-create_example =
    lookup-create ok formatted_sbi root hi machine (replicate 16 no_entry) 1 formatted_sbi-IsVrfs
      refl (inr (refl, refl, refl)) (omega arith) (omega arith) (omega arith) second_inode_free refl

-- A directory with a file "hi" in inode 5.
abbrev entries : List Dirent
entries = record { inode = 5; name = b'h' ∷ b'i' ∷ replicate 26 0 } ∷ replicate 15 no_entry

entries-IsDirent : All IsDirent entries
entries-IsDirent = (
  record { inode = omega arith; sized = refl; ended = omega arith },
  All-replicate IsDirent 15 no_entry no_entry-IsDirent,
)

abbrev hi_folder : Inode
hi_folder = record root { disk_inode = record root.disk_inode { direct = 19 ∷ replicate 11 0 } }

abbrev hi_machine : Machine Blocks
hi_machine = record { disk = λ b. dirent_bytes entries; memory = []; live = 7 }

hi_folder-IsDir : IsDir ok formatted_sbi.sb.block_count 19 hi_machine.disk entries
unfolding new_superblock memory_disk-Reliable
hi_folder-IsDir = record {
  block = fit_full 512 (dirent_bytes entries) (length-dirent_bytes entries entries-IsDirent);
  above = omega arith;
  below = omega arith;
  sixteen = refl;
  entries = entries-IsDirent;
  low = (omega arith, All-replicate (λ (e : Dirent). e.inode < 96) 15 no_entry (omega arith));
  distinct = (λ used. refl, Distinct-no_entries 15);
}

lookup-unlink_example :
    let (r, m') = vrfs_unlink memory_disk hi_folder hi hi_machine in
    (r ≡ is_some (lookup_ino ok formatted_sbi hi_folder hi_machine hi))
    × ((q : List ℕ)
        → lookup_ino ok formatted_sbi hi_folder m' q
          ≡ (if strcmp hi q then none else lookup_ino ok formatted_sbi hi_folder hi_machine q))
    × (m'.live ≡ 7)
    × ((es' : List Dirent) × IsDir ok formatted_sbi.sb.block_count 19 m'.disk es')
lookup-unlink_example =
    lookup-unlink ok formatted_sbi hi_folder hi hi_machine entries formatted_sbi-IsVrfs.layout refl
      hi_folder-IsDir

live-owed_example :
    let m : Machine Blocks = record hi_machine { memory = true ∷ false ∷ [] } in
    ((vrfs_read memory_disk hi_folder 2 0 m).1.live ≡ 7)
    × ((vrfs_write memory_disk hi_folder hi 2 0 formatted_sbi m).3.live ≡ 7)
    × ((vrfs_unlink memory_disk hi_folder hi m).1.live ≡ 7)
    × (let (r, m') = vrfs_lookup memory_disk formatted_sbi hi_folder hi m in m'.live ≡ owed r 7)
    × (let out = vrfs_create memory_disk formatted_sbi hi_folder hi m in out.3.live ≡ owed out.0 7)
live-owed_example =
    live-owed memory_disk formatted_sbi hi_folder hi hi 2 0
      (record hi_machine { memory = true ∷ false ∷ [] })
