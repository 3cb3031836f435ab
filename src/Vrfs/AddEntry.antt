-- ===== src/Vrfs/AddEntry.antt =====
-- What vrfs_add_dir_entry of src/fs/vrfs.c adds to a directory.
use vros.Base.{
  get_or-set_self, ℕ, zero, suc, ◌+◌, ◌*◌, ◌^◌, ◌≤◌, ◌<◌, ◌≡◌, refl, sym, ap, ◌∙◌, ◌≢◌, ◌⊎◌, inl,
  inr, true, false, none, some, List, [], ◌∷◌, arith, length, get_or, ◌==◌, if◌then◌else◌, set,
  replicate, length-replicate, All, All-at, All-replicate,
}
use vros.CString.{strcmp_lem, text-strncpy, strcmp, strncpy, text}
use vros.Blkdev.{BlockDevice}
use vros.Bytes.{word_bytes}
use vros.Vrfs.{
  bitmap_set, vrfs_max_name, word_bytes, Machine, DiskInode, SbInfo, release, inode_block,
}
use vros.Vrfs.Disk.{
  table_with, write_inode_lem, Reliable, put, try_alloc_plenty, read_block_lem, write_block_lem,
  content-put,
}
use vros.Vrfs.Inodes.{IsLayout}
use vros.Vrfs.Bitmaps.{with_block, alloc_block-IsVrfs, IsVrfs}
use vros.Vrfs.File.{with_first_block, first_block}
use vros.Vrfs.Dir.{
  dirent_size, Dirent, no_entry, dirent_bytes, empty_entry, fill_entry, with_dir_block,
  vrfs_add_dir_entry,
}
use vros.Vrfs.Entries.{
  IsDirent, length-dirent_bytes, ino_of, ino_of_same, Distinct, empty_entry_lem, ino_of-set,
  Distinct-set,
}
use vros.Vrfs.Lookup.{IsDir, IsDir-put, IsDir-entries}
use vros.Vrfs.Unlink.{IsDir-set, no_entry-IsDirent}

-- The entry for a name, over what the slot held.
abbrev pub entry_for : ℕ → List ℕ → Dirent → Dirent
entry_for n name old = record { inode = n; name = strncpy vrfs_max_name old.name name }

length-strncpy : (n : ℕ) (dest src : List ℕ) → length (strncpy n dest src) ≡ length dest
unfolding strncpy
length-strncpy n [] src = refl
length-strncpy zero (d ∷ dest) src = refl
length-strncpy (suc zero) (d ∷ dest) src = refl
length-strncpy (suc (suc n)) (d ∷ dest) [] = refl
length-strncpy (suc (suc n)) (d ∷ dest) (c ∷ src) = ground (arith, length-strncpy (suc n) dest src)

entry_for-IsDirent :
    (n : ℕ) (name : List ℕ) (old : Dirent)
    → IsDirent old
    → length (text name) < 28
    → n < 2 ^ 32
    → IsDirent (entry_for n name old)
entry_for-IsDirent n name old k short lt = record {
  inode = lt;
  sized = length-strncpy vrfs_max_name old.name name ∙ k.sized;
  ended =
      omega (
        arith,
        ap length (text-strncpy vrfs_max_name old.name name short (omega (arith, k.sized))),
      );
}

-- The empty directory block.
pub no_entries-bytes : dirent_bytes (replicate 16 no_entry) ≡ replicate 512 0
unfolding dirent_bytes word_bytes
no_entries-bytes = refl

pub Distinct-no_entries : (n : ℕ) → Distinct (replicate n no_entry)
Distinct-no_entries zero = tt
Distinct-no_entries (suc n) = (λ used. absurd (used refl), Distinct-no_entries n)

module _ {W : Type 0} {dev : BlockDevice W} (ok : Reliable dev) where
  -- The directory stands for the entries: its block holds them, or it has none yet.
  abbrev pub Holds : SbInfo → DiskInode → W → List Dirent → Type 0
  Holds sbi dir w es =
      IsDir ok sbi.sb.block_count (first_block dir) w es
      ⊎ ((first_block dir ≡ 0) × (length dir.direct ≡ 12) × (es ≡ replicate 16 no_entry))

  pub Holds-put :
      (sbi : SbInfo) (dir : DiskInode) (m : Machine W) (es : List Dirent) (c : ℕ) (buffer : List ℕ)
      → Holds sbi dir m.disk es
      → c < 19
      → Holds sbi dir (put dev c buffer m).disk es
  Holds-put sbi dir m es c buffer (inl d) lt =
      inl (IsDir-put ok m c buffer d (λ e. omega (arith, e, d.above)))
  Holds-put sbi dir m es c buffer (inr h) lt = inr h

  -- A block of zeroes is a directory without entries.
  empty_block-IsDir :
      (count b : ℕ) (m : Machine W)
      → 19 ≤ b
      → b < count
      → b < dev.size
      → IsDir ok count b (put dev b (replicate 512 0) m).disk (replicate 16 no_entry)
  empty_block-IsDir count b m above below b_in = record {
    block =
        content-put ok b (replicate 512 0) m b_in (length-replicate {A = ℕ} 512 0)
        ∙ sym no_entries-bytes;
    above = above;
    below = below;
    sixteen = refl;
    entries = All-replicate IsDirent 16 no_entry no_entry-IsDirent;
    low = All-replicate (λ e. e.inode < 96) 16 no_entry (omega arith);
    distinct = Distinct-no_entries 16;
  }

  -- What a step that adds an entry leaves: the entries with the name, and all else as it was.
  abbrev pub Added : SbInfo → DiskInode → List ℕ → ℕ → Machine W → Machine W → List Dirent → Type 0
  Added sbi dir name n m m' es =
      (es' : List Dirent) × IsDir ok sbi.sb.block_count (first_block dir) m'.disk es'
      × (m'.memory ≡ [])
      × (m'.live ≡ m.live)
      × ((q : List ℕ) → ino_of q es' ≡ (if strcmp name q then some n else ino_of q es))

  fill_entry_lem :
      (sbi : SbInfo) (dir : DiskInode) (dir_no : ℕ) (name : List ℕ) (n : ℕ) (m : Machine W)
      (es : List Dirent)
      → IsLayout dev sbi
      → m.memory ≡ []
      → IsDir ok sbi.sb.block_count (first_block dir) m.disk es
      → length (text name) < 28
      → 0 < n
      → n < 96
      → dir_no < 96
      → ino_of name es ≡ none
      → (All (λ e. e.inode ≢ 0) es × (fill_entry dev sbi dir dir_no name n m ≡ (false, dir, m)))
        ⊎ ((i : ℕ) × (m' : Machine W) × (fill_entry dev sbi dir dir_no name n m
              ≡ (true, record dir { size = (i + 1) * dirent_size }, m'))
            × Added sbi dir name n m m' es)
  unfolding fill_entry release
  fill_entry_lem sbi dir dir_no name n m es lay plenty d short pos low dir_low new =
      let b = first_block dir in
      let b_in : b < dev.size = omega (arith, d.below, lay.inside) in
      let m1 : Machine W = record m { live = suc m.live } in
      let alloc = try_alloc_plenty m plenty in
      let read = read_block_lem ok b m1 b_in in
      elim (empty_entry_lem 0 es) [
        | inl (full, used) ↦
            inl (used, rw (alloc, read, IsDir-entries ok d, full, alloc, read) refl)
        | inr (i, found, lt, unused) ↦
            let at : empty_entry 0 es ≡ some i = found ∙ ap some (omega arith) in
            let old = get_or es i no_entry in
            let e = entry_for n name old in
            let k =
              entry_for-IsDirent n name old (All-at IsDirent es i no_entry d.entries lt) short
                (omega arith) in
            let same : strcmp e.name name ≡ true = (strcmp_lem e.name name).1 (
              text-strncpy vrfs_max_name old.name name short
                (omega (arith, (All-at IsDirent es i no_entry d.entries lt).sized))) in
            let nz : n ≢ 0 = λ z. omega (arith, z) in
            let absent : ino_of e.name es ≡ none = ino_of_same e.name name es same ∙ new in
            let d1 =
              IsDir-set ok m i e d b_in k low
                (Distinct-set es i e d.distinct lt unused nz absent) in
            let write =
              write_block_lem ok b (dirent_bytes (set es i e)) m1 b_in
                (omega (arith, length-dirent_bytes (set es i e) d1.entries, d1.sixteen)) in
            let m2 = put dev b (dirent_bytes (set es i e)) m in
            let dir' : DiskInode = record dir { size = (i + 1) * dirent_size } in
            let inode =
              write_inode_lem ok sbi dir_no dir' (record m2 { live = suc m.live }) plenty
                (omega (arith, lay.inside, lay.room, lay.inode_table_block)) in
            let m' = put dev (inode_block sbi dir_no) (table_with ok sbi dir_no dir' m2.disk) m2 in
            inr (
              i,
              m',
              rw
                  (
                    alloc,
                    read,
                    IsDir-entries ok d,
                    at,
                    alloc,
                    read,
                    IsDir-entries ok d,
                    write,
                    inode,
                  )
                  refl,
              (
                set es i e,
                IsDir-put ok m2 (inode_block sbi dir_no) (table_with ok sbi dir_no dir' m2.disk) d1
                    (λ eq. omega (arith, eq, d.above, lay.inode_table_block)),
                plenty,
                refl,
                λ q. ino_of-set q name es i e lt unused nz same new,
              ),
            )
      ]

  -- `vrfs_add_dir_entry` for a name that is not there: no block or no entry is left, or it is added.
  pub add_entry_lem :
      (sbi : SbInfo) (dir : DiskInode) (dir_no : ℕ) (name : List ℕ) (n : ℕ) (m : Machine W)
      (es : List Dirent)
      → IsVrfs dev sbi
      → m.memory ≡ []
      → Holds sbi dir m.disk es
      → length (text name) < 28
      → 0 < n
      → n < 96
      → dir_no < 96
      → ino_of name es ≡ none
      → (((vrfs_add_dir_entry dev sbi dir dir_no name n m).0 ≡ false)
          × (All (λ e. e.inode ≢ 0) es ⊎ (sbi.sb.free_blocks ≡ 0)))
        ⊎ ((dir' : DiskInode) × (sbi' : SbInfo) × (m' : Machine W) × (vrfs_add_dir_entry dev sbi dir
                dir_no name n m
              ≡ (true, dir', sbi', m'))
            × IsVrfs dev sbi'
            × Added sbi' dir' name n m m' es)
  unfolding vrfs_add_dir_entry with_dir_block release
  add_entry_lem sbi dir dir_no name n m es k plenty (inl d) short pos low dir_low new =
      let nz : (first_block dir == 0) ≡ false = ground (arith, d.above) in
      elim (fill_entry_lem sbi dir dir_no name n m es k.layout plenty d short pos low dir_low new) [
        | inl (full, call) ↦ inl (rw (nz, call) refl, inl full)
        | inr (i, m', call, added) ↦
            inr (record dir { size = (i + 1) * dirent_size }, sbi, m', rw (nz, call) refl, k, added)
      ]
  add_entry_lem sbi dir dir_no name n m es k plenty (inr (nil, twelve, none_yet)) short pos low
        dir_low new =
      elim (alloc_block-IsVrfs dev sbi m k) [
        | inl (call, full) ↦ inl (rw (nil, call) refl, inr full)
        | inr (b, call, above, lt, clear, lowest, k') ↦
            let sbi' = with_block b sbi in
            let dir1 = with_first_block b dir in
            let first : first_block dir1 ≡ b =
              get_or-set_self dir.direct 0 b 0 (omega (arith, twelve)) in
            let m1 = put dev sbi.sb.block_bitmap_block (bitmap_set sbi.block_bitmap b) m in
            let inode =
              write_inode_lem ok sbi' dir_no dir1 m1 plenty
                (omega (arith, k.layout.inside, k.layout.room, k.layout.inode_table_block)) in
            let m2 =
              put dev (inode_block sbi' dir_no) (table_with ok sbi' dir_no dir1 m1.disk) m1 in
            let alloc = try_alloc_plenty m2 plenty in
            let m3 = put dev b (replicate 512 0) m2 in
            let b_in : b < dev.size = omega (arith, k.layout.inside, lt) in
            let write =
              write_block_lem ok b (replicate 512 0) (record m2 { live = suc m2.live }) b_in
                (length-replicate {A = ℕ} 512 0) in
            let d : IsDir ok sbi'.sb.block_count (first_block dir1) m3.disk es =
              rw (first, none_yet)
                (empty_block-IsDir sbi'.sb.block_count b m2
                  (omega (arith, above, k.layout.data_block_start)) lt b_in) in
            let start : with_dir_block dev sbi dir dir_no m ≡ (true, dir1, sbi', m3) =
              rw (nil, call, call, inode, alloc, write) refl in
            elim (fill_entry_lem sbi' dir1 dir_no name n m3 es k'.layout plenty d short pos low
              dir_low new) [
                | inl (full, filled) ↦ inl (rw (start, filled) refl, inl full)
                | inr (i, m', filled, added) ↦ inr (
                  record dir1 { size = (i + 1) * dirent_size },
                  sbi',
                  m',
                  rw (start, filled) refl,
                  k',
                  added,
                )
              ]
      ]
