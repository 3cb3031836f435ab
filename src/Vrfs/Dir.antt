-- ===== src/Vrfs/Dir.antt =====
-- Directories, vrfs_add_dir_entry, vrfs_create, vrfs_lookup and vrfs_unlink of src/fs/vrfs.c: one
-- block of entries for each.
use vros.Base.{
  ℕ, zero, suc, ◌+◌, ◌*◌, ◌/◌, Bool, true, false, not, Option, none, some, List, [], ◌∷◌, ◌++◌,
  get_or, set, replicate, drop, ◌==◌, if◌then◌else◌,
}
use vros.CString.{strncpy}
use vros.Bytes.{bytes_at, word_bytes, words}
use vros.Blkdev.{BlockDevice}
use vros.Vrfs.{
  vrfs_block_size, vrfs_max_name, vrfs_inode_file, vrfs_inode_dir, DiskInode, SbInfo, Machine,
  try_alloc, release, read_block, write_block, vrfs_alloc_inode, vrfs_alloc_block, vrfs_read_inode,
  vrfs_write_inode,
}
use vros.Vrfs.File.{Inode, first_block, with_first_block}

-- struct vrfs_dirent
pub record Dirent : Type 0 where
  pub inode : ℕ
  pub name : List ℕ

abbrev pub dirent_size : ℕ
dirent_size = 32

-- VRFS_BLOCK_SIZE / sizeof(struct vrfs_dirent)
abbrev pub max_entries : ℕ
max_entries = vrfs_block_size / dirent_size

abbrev pub no_entry : Dirent
no_entry = record { inode = 0; name = replicate vrfs_max_name 0 }

abbrev pub vfs_file : ℕ
vfs_file = 1

abbrev pub vfs_directory : ℕ
vfs_directory = 2

-- A block read as `n` directory entries.
unfoldable pub dirents : ℕ → List ℕ → List Dirent
dirents zero bytes = []
dirents (suc n) bytes =
    record { inode = get_or (words 1 bytes) 0 0; name = bytes_at bytes 4 vrfs_max_name }
    ∷ dirents n (drop dirent_size bytes)

unfoldable pub dirent_bytes : List Dirent → List ℕ
dirent_bytes [] = []
dirent_bytes (e ∷ es) = word_bytes (e.inode ∷ []) ++ (e.name ++ dirent_bytes es)

-- The comparison of at most `n` characters of an entry's name with a string.
unfoldable pub names_match : ℕ → List ℕ → List ℕ → Bool
names_match zero entry name = true
names_match (suc n) [] name = true
names_match (suc n) (a ∷ entry) [] = a == 0
names_match (suc n) (a ∷ entry) (b ∷ name) =
    let rest = names_match n entry name in
    if not (a == b) then false else if a == 0 then true else rest

-- The search of `vrfs_lookup` and `vrfs_unlink` for an entry with the name, from `i` on.
unfoldable pub find_entry : List ℕ → ℕ → List Dirent → Option ℕ
find_entry name i [] = none
find_entry name i (e ∷ es) =
    let rest = find_entry name (i + 1) es in
    if e.inode == 0 then rest else if names_match vrfs_max_name e.name name then some i else rest

-- The search of `vrfs_add_dir_entry` for an entry that is not in use, from `i` on.
unfoldable pub empty_entry : ℕ → List Dirent → Option ℕ
empty_entry i [] = none
empty_entry i (e ∷ es) = let rest = empty_entry (i + 1) es in if e.inode == 0 then some i else rest

-- The inode on the disk of a new file.
abbrev pub new_file : DiskInode
new_file = record {
  mode = vrfs_inode_file;
  links_count = 1;
  size = 0;
  blocks = 0;
  direct = replicate 12 0;
  indirect = 0;
  padding = replicate 12 0;
}

module _ {W : Type 0} (dev : BlockDevice W) where
  -- The first part of `vrfs_add_dir_entry`: a directory without a block gets one of zeroes.
  unfoldable pub with_dir_block :
      SbInfo → DiskInode → ℕ → Machine W → Bool × DiskInode × SbInfo × Machine W
  with_dir_block sbi dir_inode dir_inode_no m =
      if not (first_block dir_inode == 0)
      then (true, dir_inode, sbi, m)
      else let (r, sbi', m1) = vrfs_alloc_block dev sbi m in
        elim r [
          | none ↦ (false, dir_inode, sbi', m1)
          | some block_no ↦
              let dir = with_first_block block_no dir_inode in
              let m2 = (vrfs_write_inode dev sbi' dir_inode_no dir m1).1 in
              let (ok, m3) = try_alloc m2 in
              if not ok then (false, dir, sbi', m3) else (
                true,
                dir,
                sbi',
                release (write_block dev block_no (replicate vrfs_block_size 0) m3).1,
              )
        ]

  -- The rest of it: the first entry not in use is filled.
  unfoldable pub fill_entry :
      SbInfo → DiskInode → ℕ → List ℕ → ℕ → Machine W → Bool × DiskInode × Machine W
  fill_entry sbi dir dir_inode_no name inode_no m =
      let (ok, m1) = try_alloc m in
      if not ok
      then (false, dir, m1)
      else let (r, m2) = read_block dev (first_block dir) m1 in
        elim r [
          | none ↦ (false, dir, release m2)
          | some block_buf ↦
              let entries = dirents max_entries block_buf in
              elim (empty_entry 0 entries) [
                | none ↦ (false, dir, release m2)
                | some i ↦
                    let e : Dirent = record {
                      inode = inode_no;
                      name = strncpy vrfs_max_name (get_or entries i no_entry).name name;
                    } in
                    let (written, m3) =
                      write_block dev (first_block dir) (dirent_bytes (set entries i e)) m2 in
                    if not written
                    then (false, dir, release m3)
                    else let dir' : DiskInode = record dir { size = (i + 1) * dirent_size } in
                      (true, dir', release (vrfs_write_inode dev sbi dir_inode_no dir' m3).1)
              ]
        ]

  unfoldable pub vrfs_add_dir_entry :
      SbInfo → DiskInode → ℕ → List ℕ → ℕ → Machine W → Bool × DiskInode × SbInfo × Machine W
  vrfs_add_dir_entry sbi dir_inode dir_inode_no name inode_no m =
      let (ok, dir, sbi', m1) = with_dir_block sbi dir_inode dir_inode_no m in
      if not ok
      then (false, dir, sbi', m1)
      else let (added, dir', m2) = fill_entry sbi' dir dir_inode_no name inode_no m1 in
        (added, dir', sbi', m2)

  -- The part of `vrfs_lookup` that loads the inode of the entry found.
  unfoldable pub load_inode : SbInfo → ℕ → Machine W → Option Inode × Machine W
  load_inode sbi inode_no m =
      let (r, m1) = vrfs_read_inode dev sbi inode_no m in
      elim r [
        | none ↦ (none, m1)
        | some disk_inode ↦
            let (ok, m2) = try_alloc m1 in
            if not ok
            then (none, m2)
            else let (ok', m3) = try_alloc m2 in
              if not ok' then (none, release m3) else (
                some (record {
                  ino = inode_no;
                  mode = if disk_inode.mode == vrfs_inode_dir then vfs_directory else vfs_file;
                  size = disk_inode.size;
                  inode_no = inode_no;
                  disk_inode = disk_inode;
                }),
                m3,
              )
      ]

  unfoldable pub vrfs_lookup : SbInfo → Inode → List ℕ → Machine W → Option Inode × Machine W
  vrfs_lookup sbi dir name m =
      if first_block dir.disk_inode == 0
      then (none, m)
      else let (ok, m1) = try_alloc m in
        if not ok
        then (none, m1)
        else let (r, m2) = read_block dev (first_block dir.disk_inode) m1 in
          elim r [
            | none ↦ (none, release m2)
            | some block_buf ↦
                let entries = dirents max_entries block_buf in
                elim (find_entry name 0 entries) [
                  | none ↦ (none, release m2)
                  | some i ↦ load_inode sbi (get_or entries i no_entry).inode (release m2)
                ]
          ]

  -- The part of `vrfs_create` once the name is known to be new.
  unfoldable pub create_new :
      SbInfo → Inode → List ℕ → Machine W → Option Inode × Inode × SbInfo × Machine W
  create_new sbi dir name m =
      let (r, sbi1, m1) = vrfs_alloc_inode dev sbi m in
      elim r [
        | none ↦ (none, dir, sbi1, m1)
        | some inode_no ↦
            let (ok, m2) = try_alloc m1 in
            if not ok
            then (none, dir, sbi1, m2)
            else let (ok', m3) = try_alloc m2 in
              if not ok'
              then (none, dir, sbi1, release m3)
              else let m4 = (vrfs_write_inode dev sbi1 inode_no new_file m3).1 in
                let (added, dir_inode, sbi2, m5) =
                  vrfs_add_dir_entry sbi1 dir.disk_inode dir.inode_no name inode_no m4 in
                let dir' : Inode = record dir { disk_inode = dir_inode } in
                if not added then (none, dir', sbi2, release (release m5)) else (
                  some (record {
                    ino = inode_no;
                    mode = vfs_file;
                    size = 0;
                    inode_no = inode_no;
                    disk_inode = new_file;
                  }),
                  dir',
                  sbi2,
                  m5,
                )
      ]

  -- The result, the directory with its changed inode, and the superblock.
  unfoldable pub vrfs_create :
      SbInfo → Inode → List ℕ → Machine W → Option Inode × Inode × SbInfo × Machine W
  vrfs_create sbi dir name m =
      let (existing, m1) = vrfs_lookup sbi dir name m in
      elim existing [ some inode ↦ (some inode, dir, sbi, m1) | none ↦ create_new sbi dir name m1 ]

  unfoldable pub vrfs_unlink : Inode → List ℕ → Machine W → Bool × Machine W
  vrfs_unlink dir name m =
      if first_block dir.disk_inode == 0
      then (false, m)
      else let (ok, m1) = try_alloc m in
        if not ok
        then (false, m1)
        else let (r, m2) = read_block dev (first_block dir.disk_inode) m1 in
          elim r [
            | none ↦ (false, release m2)
            | some block_buf ↦
                let entries = dirents max_entries block_buf in
                elim (find_entry name 0 entries) [
                  | none ↦ (false, release m2)
                  | some found ↦
                      let (written, m3) =
                        write_block dev (first_block dir.disk_inode)
                          (dirent_bytes (set entries found no_entry)) m2 in
                      (written, release m3)
                ]
          ]
