-- ===== src/Vrfs/Lookup.antt =====
-- Directories of src/fs/vrfs.c as finite maps from names to inode numbers: what vrfs_lookup gives,
-- what vrfs_unlink removes.
use vros.Base.{
  ℕ, suc, ◌≤◌, ◌<◌, ◌≡◌, refl, sym, ap, ◌∙◌, ◌≢◌, ◌⊎◌, inl, inr, false, Option, none, some, List,
  [], arith, length, get_or, ◌==◌, if◌then◌else◌, All, All-at,
}
use vros.Blkdev.{BlockDevice}
use vros.Vrfs.{Machine, DiskInode, SbInfo, release, inode_block, vrfs_inode_dir}
use vros.Vrfs.Disk.{
  Reliable, put, try_alloc_plenty, read_block_lem, content-put_ne, read_inode_lem, inode_at,
}
use vros.Vrfs.Inodes.{IsLayout}
use vros.Vrfs.File.{Inode, first_block}
use vros.Vrfs.Dir.{
  Dirent, no_entry, max_entries, dirents, dirent_bytes, find_entry, load_inode, vrfs_lookup,
  vfs_directory, vfs_file,
}
use vros.Vrfs.Entries.{IsDirent, dirents-dirent_bytes, ino_of, Distinct, find_entry_lem}

-- The inode that `vrfs_lookup` makes.
abbrev pub loaded : ℕ → DiskInode → Inode
loaded n i = record {
  ino = n;
  mode = if i.mode == vrfs_inode_dir then vfs_directory else vfs_file;
  size = i.size;
  inode_no = n;
  disk_inode = i;
}

abbrev pub ino_result : Option Inode → Option ℕ
ino_result none = none
ino_result (some i) = some i.ino

module _ {W : Type 0} {dev : BlockDevice W} (ok : Reliable dev) where
  -- The block `b` of a file system of `count` blocks holds the entries, of distinct names and of
  -- inodes whose place in the table is before the data.
  pub record IsDir (count b : ℕ) (w : W) (es : List Dirent) : Type 0 where
    pub block : ok.content w b ≡ dirent_bytes es
    pub above : 19 ≤ b
    pub below : b < count
    pub sixteen : length es ≡ 16
    pub entries : All IsDirent es
    pub low : All (λ e. e.inode < 96) es
    pub distinct : Distinct es

  pub IsDir-entries :
      {count b : ℕ} {w : W} {es : List Dirent}
      → IsDir count b w es
      → dirents max_entries (ok.content w b) ≡ es
  IsDir-entries {es = es} d =
      ap (dirents max_entries) d.block
      ∙ ap (λ n. dirents n (dirent_bytes es)) (sym d.sixteen)
      ∙ dirents-dirent_bytes es d.entries

  pub IsDir-put :
      {count b : ℕ} {es : List Dirent} (m : Machine W) (c : ℕ) (buffer : List ℕ)
      → IsDir count b m.disk es
      → c ≢ b
      → IsDir count b (put dev c buffer m).disk es
  IsDir-put {b = b} m c buffer d ne = record {
    block = content-put_ne ok c b buffer m ne ∙ d.block;
    above = d.above;
    below = d.below;
    sixteen = d.sixteen;
    entries = d.entries;
    low = d.low;
    distinct = d.distinct;
  }

  load_inode_lem :
      (sbi : SbInfo) (n : ℕ) (m : Machine W)
      → m.memory ≡ []
      → inode_block sbi n < dev.size
      → load_inode dev sbi n m
        ≡ (some (loaded n (inode_at ok sbi m.disk n)), record m { live = suc (suc m.live) })
  unfolding load_inode
  load_inode_lem sbi n m plenty lt =
      let read = read_inode_lem ok sbi n m plenty lt in
      let one = try_alloc_plenty m plenty in
      let two = try_alloc_plenty (record m { live = suc m.live }) plenty in
      rw (load_inode, read, read, one, two) refl

  pub lookup_lem :
      (sbi : SbInfo) (dir : Inode) (q : List ℕ) (m : Machine W) (es : List Dirent)
      → IsLayout dev sbi
      → m.memory ≡ []
      → IsDir sbi.sb.block_count (first_block dir.disk_inode) m.disk es
      → ((ino_of q es ≡ none) × (vrfs_lookup dev sbi dir q m ≡ (none, m)))
        ⊎ ((n : ℕ) × (ino_of q es ≡ some n)
            × (vrfs_lookup dev sbi dir q m ≡ (
              some (loaded n (inode_at ok sbi m.disk n)),
              record m { live = suc (suc m.live) },
            )))
  unfolding vrfs_lookup release
  lookup_lem sbi dir q m es lay plenty d =
      let b = first_block dir.disk_inode in
      let nz : (b == 0) ≡ false = ground (arith, d.above) in
      let alloc = try_alloc_plenty m plenty in
      let read =
        read_block_lem ok b (record m { live = suc m.live }) (omega (arith, d.below, lay.inside)) in
      elim (find_entry_lem q 0 es d.entries) [
        | inl (missing, nil) ↦
            inl (nil, rw (nz, alloc, read, IsDir-entries d, missing, alloc, read) refl)
        | inr (i, found, lt, used, hit, e) ↦
            let at : find_entry q 0 es ≡ some i = found ∙ ap some (omega arith) in
            let n = (get_or es i no_entry).inode in
            let small : n < 96 = All-at (λ e. e.inode < 96) es i no_entry d.low lt in
            let n_in : inode_block sbi n < dev.size =
              omega (arith, small, lay.inside, lay.room, lay.inode_table_block) in
            inr (
              n,
              e,
              rw
                  (
                    nz,
                    alloc,
                    read,
                    IsDir-entries d,
                    at,
                    alloc,
                    read,
                    IsDir-entries d,
                    load_inode_lem sbi n m plenty n_in,
                  )
                  refl,
            )
      ]

  -- The inode number that a lookup gives.
  abbrev pub lookup_ino : SbInfo → Inode → Machine W → List ℕ → Option ℕ
  lookup_ino sbi dir m q = ino_result (vrfs_lookup dev sbi dir q m).0

  pub lookup_ino_lem :
      (sbi : SbInfo) (dir : Inode) (q : List ℕ) (m : Machine W) (es : List Dirent)
      → IsLayout dev sbi
      → m.memory ≡ []
      → IsDir sbi.sb.block_count (first_block dir.disk_inode) m.disk es
      → lookup_ino sbi dir m q ≡ ino_of q es
  lookup_ino_lem sbi dir q m es lay plenty d = elim (lookup_lem sbi dir q m es lay plenty d) [
    | inl (nil, call) ↦ rw call (sym nil)
    | inr (n, e, call) ↦ rw call (sym e)
  ]
