-- ===== src/Vrfs/Memory.antt =====
-- The heap under the file system of src/fs/vrfs.c: on every path, whatever the device does and
-- whichever calls of kmalloc fail, an operation frees the buffers that it does not return.
use vros.Base.{
  ◌*◌, set, take, ◌-◌, ◌^◌, replicate, ◌%◌, ltb, ℕ, suc, ◌+◌, ◌≡◌, refl, ap, ◌∙◌, ◌⊎◌, inl, inr,
  Bool, true, false, Option, none, some, List, [], ◌∷◌, arith, get_or, ◌==◌, if◌then◌else◌,
  Bool-cases, Option-cases,
}
use vros.Blkdev.{BlockDevice}
use vros.Vrfs.{
  vrfs_block_size, fs_memcpy, bitmap_find_free, inode_block, Machine, DiskInode, SbInfo, try_alloc,
  release, read_block, write_block, vrfs_read_inode, vrfs_write_inode, vrfs_alloc_inode,
  vrfs_alloc_block,
}
use vros.Vrfs.File.{
  with_first_block, Inode, first_block, read_first, vrfs_read, write_first, vrfs_write,
}
use vros.Vrfs.AddEntry.{entry_for}
use vros.Vrfs.Dir.{
  dirent_bytes, empty_entry, with_dir_block, fill_entry, vrfs_add_dir_entry, vrfs_create,
  create_new, new_file, dirent_size, no_entry, max_entries, find_entry, dirents, vrfs_unlink,
  vrfs_lookup, load_inode,
}

outcomes-cases :
    (later : List Bool) → (later ≡ []) ⊎ ((b : Bool) × (rest : List Bool) × (later ≡ b ∷ rest))
outcomes-cases [] = inl refl
outcomes-cases (b ∷ rest) = inr (b, rest, refl)

-- A call of kmalloc gives memory, one block more, or none.
try_alloc-live :
    {W : Type 0} (m : Machine W)
    → (((try_alloc m).0 ≡ true) × ((try_alloc m).1.live ≡ suc m.live))
      ⊎ (((try_alloc m).0 ≡ false) × ((try_alloc m).1.live ≡ m.live))
unfolding try_alloc
try_alloc-live m = elim (outcomes-cases m.memory) [
  | inl e ↦ inl (rw e (refl, refl))
  | inr (true, rest, e) ↦ inl (rw e (refl, refl))
  | inr (false, rest, e) ↦ inr (rw e (refl, refl))
]

-- What an operation leaves allocated: the two structures of the inode that it returns.
abbrev pub owed : Option Inode → ℕ → ℕ
owed none n = n
owed (some i) n = suc (suc n)

module _ {W : Type 0} (dev : BlockDevice W) where
  write_block-live :
      (b : ℕ) (buffer : List ℕ) (m : Machine W) → (write_block dev b buffer m).1.live ≡ m.live
  unfolding write_block
  write_block-live b buffer m = refl

  write_inode-live :
      (sbi : SbInfo) (n : ℕ) (i : DiskInode) (m : Machine W)
      → (vrfs_write_inode dev sbi n i m).1.live ≡ m.live
  unfolding vrfs_write_inode read_block write_block release
  write_inode-live sbi n i m = elim (try_alloc-live m) [
    | inr (no_memory, live) ↦ rw (no_memory) live
    | inl (given, live) ↦
        elim (Option-cases (read_block dev (inode_block sbi n) (try_alloc m).1).0) [
          | inl failed ↦ rw (given, failed, live) refl
          | inr (buffer, read) ↦ rw (given, read, live) refl
        ]
  ]

  read_inode-live :
      (sbi : SbInfo) (n : ℕ) (m : Machine W) → (vrfs_read_inode dev sbi n m).1.live ≡ m.live
  unfolding vrfs_read_inode read_block release
  read_inode-live sbi n m = elim (try_alloc-live m) [
    | inr (no_memory, live) ↦ rw (no_memory) live
    | inl (given, live) ↦
        elim (Option-cases (read_block dev (inode_block sbi n) (try_alloc m).1).0) [
          | inl failed ↦ rw (given, failed, live) refl
          | inr (buffer, read) ↦ rw (given, read, live) refl
        ]
  ]

  alloc_block-live : (sbi : SbInfo) (m : Machine W) → (vrfs_alloc_block dev sbi m).2.live ≡ m.live
  unfolding vrfs_alloc_block write_block
  alloc_block-live sbi m = elim (Bool-cases (sbi.sb.free_blocks == 0)) [
    | inl full ↦ rw full refl
    | inr left ↦ elim (Option-cases (bitmap_find_free sbi.block_bitmap sbi.sb.block_count)) [
      | inl nil ↦ rw (left, nil) refl
      | inr (b, found) ↦ rw (left, found) refl
    ]
  ]

  alloc_inode-live : (sbi : SbInfo) (m : Machine W) → (vrfs_alloc_inode dev sbi m).2.live ≡ m.live
  unfolding vrfs_alloc_inode write_block
  alloc_inode-live sbi m = elim (Bool-cases (sbi.sb.free_inodes == 0)) [
    | inl full ↦ rw full refl
    | inr left ↦ elim (Option-cases (bitmap_find_free sbi.inode_bitmap sbi.sb.inode_count)) [
      | inl nil ↦ rw (left, nil) refl
      | inr (b, found) ↦ rw (left, found) refl
    ]
  ]

  read_first-live :
      (inode : Inode) (size : ℕ) (m : Machine W) → (read_first dev inode size m).1.live ≡ m.live
  unfolding read_first read_block release
  read_first-live inode size m = elim (Bool-cases (first_block inode.disk_inode == 0)) [
    | inl nil ↦ rw nil refl
    | inr block ↦ elim (try_alloc-live m) [
      | inr (no_memory, live) ↦ rw (block, no_memory) live
      | inl (given, live) ↦
          elim (Option-cases (read_block dev (first_block inode.disk_inode) (try_alloc m).1).0) [
            | inl failed ↦ rw (block, given, failed, live) refl
            | inr (buffer, read) ↦ rw (block, given, read, live) refl
          ]
    ]
  ]

  read-live :
      (inode : Inode) (size offset : ℕ) (m : Machine W)
      → (vrfs_read dev inode size offset m).1.live ≡ m.live
  unfolding vrfs_read
  read-live inode size offset m = ground (
    arith,
    read_first-live inode
        (if ltb inode.size ((offset + size) % 2 ^ 32) then inode.size - offset else size) m,
  )

  write_first-live :
      (inode : Inode) (buffer : List ℕ) (size : ℕ) (sbi : SbInfo) (m : Machine W)
      → (write_first dev inode buffer size sbi m).3.live ≡ m.live
  unfolding write_first write_block release
  write_first-live inode buffer size sbi m = elim (try_alloc-live m) [
    | inr (no_memory, live) ↦ rw (no_memory) live
    | inl (given, live) ↦
        let bytes = fs_memcpy (replicate vrfs_block_size 0) 0 (take size buffer) in
        let out = write_block dev (first_block inode.disk_inode) bytes (try_alloc m).1 in
        elim (Bool-cases out.0) [
          | inr failed ↦ rw (given, failed, live) refl
          | inl written ↦
              rw
                (
                  given,
                  written,
                  write_inode-live sbi inode.inode_no (record inode.disk_inode { size = size })
                      (release out.1),
                  live,
                )
                refl
        ]
  ]

  write-live :
      (inode : Inode) (buffer : List ℕ) (size offset : ℕ) (sbi : SbInfo) (m : Machine W)
      → (vrfs_write dev inode buffer size offset sbi m).3.live ≡ m.live
  unfolding vrfs_write
  write-live inode buffer size offset sbi m =
      let (r, sbi', m') = vrfs_alloc_block dev sbi m in
      elim (Option-cases r) [
        | inl nil ↦
            ground (arith, nil, alloc_block-live sbi m, write_first-live inode buffer size sbi m)
        | inr (b, found) ↦ ground (
          arith,
          found,
          alloc_block-live sbi m,
          write_first-live inode buffer size sbi m,
          write_first-live (record inode { disk_inode = with_first_block b inode.disk_inode })
              buffer size sbi' m',
        )
      ]

  load_inode-live :
      (sbi : SbInfo) (n : ℕ) (m : Machine W)
      → let (r, m') = load_inode dev sbi n m in m'.live ≡ owed r m.live
  unfolding load_inode release
  load_inode-live sbi n m =
      let (r, m1) = vrfs_read_inode dev sbi n m in
      let read = read_inode-live sbi n m in
      elim (Option-cases r) [
        | inl failed ↦ rw (load_inode, failed, read) refl
        | inr (i, loaded) ↦ elim (try_alloc-live m1) [
          | inr (no_memory, live) ↦ rw (load_inode, loaded, no_memory, live, read) refl
          | inl (given, live) ↦ elim (try_alloc-live (try_alloc m1).1) [
            | inr (no_memory, live') ↦
                rw (load_inode, loaded, given, no_memory, live', live, read) refl
            | inl (given', live') ↦ rw (load_inode, loaded, given, given', live', live, read) refl
          ]
        ]
      ]

  lookup-live :
      (sbi : SbInfo) (dir : Inode) (name : List ℕ) (m : Machine W)
      → let (r, m') = vrfs_lookup dev sbi dir name m in m'.live ≡ owed r m.live
  unfolding vrfs_lookup release read_block
  lookup-live sbi dir name m = elim (Bool-cases (first_block dir.disk_inode == 0)) [
    | inl nil ↦ rw nil refl
    | inr block ↦ elim (try_alloc-live m) [
      | inr (no_memory, live) ↦ rw (block, no_memory, live) refl
      | inl (given, live) ↦
          let out = read_block dev (first_block dir.disk_inode) (try_alloc m).1 in
          elim (Option-cases out.0) [
            | inl failed ↦ rw (block, given, failed, live) refl
            | inr (bytes, read) ↦
                let entries = dirents max_entries bytes in
                elim (Option-cases (find_entry name 0 entries)) [
                  | inl missing ↦ rw (block, given, read, missing, live) refl
                  | inr (i, found) ↦
                      let back : (release out.1).live ≡ m.live = rw live refl in
                      let n = (get_or entries i no_entry).inode in
                      rw (block, given, read, found)
                        (load_inode-live sbi n (release out.1)
                          ∙ ap (owed (load_inode dev sbi n (release out.1)).0) back)
                ]
          ]
    ]
  ]

  unlink-live :
      (dir : Inode) (name : List ℕ) (m : Machine W) → (vrfs_unlink dev dir name m).1.live ≡ m.live
  unfolding vrfs_unlink release read_block write_block
  unlink-live dir name m = elim (Bool-cases (first_block dir.disk_inode == 0)) [
    | inl nil ↦ rw nil refl
    | inr block ↦ elim (try_alloc-live m) [
      | inr (no_memory, live) ↦ rw (block, no_memory) live
      | inl (given, live) ↦
          elim (Option-cases (read_block dev (first_block dir.disk_inode) (try_alloc m).1).0) [
            | inl failed ↦ rw (block, given, failed, live) refl
            | inr (bytes, read) ↦
                elim (Option-cases (find_entry name 0 (dirents max_entries bytes))) [
                  | inl missing ↦ rw (block, given, read, missing, live) refl
                  | inr (i, found) ↦ rw (block, given, read, found, live) refl
                ]
          ]
    ]
  ]

  with_dir_block-live :
      (sbi : SbInfo) (dir : DiskInode) (dir_no : ℕ) (m : Machine W)
      → (with_dir_block dev sbi dir dir_no m).3.live ≡ m.live
  unfolding with_dir_block release write_block
  with_dir_block-live sbi dir dir_no m = elim (Bool-cases (first_block dir == 0)) [
    | inr block ↦ rw block refl
    | inl nil ↦
        let (r, sbi', m1) = vrfs_alloc_block dev sbi m in
        let alloc = alloc_block-live sbi m in
        elim (Option-cases r) [
          | inl full ↦ rw (nil, full) alloc
          | inr (b, found) ↦
              let inode = write_inode-live sbi' dir_no (with_first_block b dir) m1 in
              let m2 = (vrfs_write_inode dev sbi' dir_no (with_first_block b dir) m1).1 in
              elim (try_alloc-live m2) [
                | inr (no_memory, live) ↦ rw (nil, found, no_memory) (live ∙ inode ∙ alloc)
                | inl (given, live) ↦ rw (nil, found, given, live) (inode ∙ alloc)
              ]
        ]
  ]

  fill_entry-live :
      (sbi : SbInfo) (dir : DiskInode) (dir_no : ℕ) (name : List ℕ) (n : ℕ) (m : Machine W)
      → (fill_entry dev sbi dir dir_no name n m).2.live ≡ m.live
  unfolding fill_entry release read_block
  fill_entry-live sbi dir dir_no name n m = elim (try_alloc-live m) [
    | inr (no_memory, live) ↦ rw (no_memory) live
    | inl (given, live) ↦
        let (r, m2) = read_block dev (first_block dir) (try_alloc m).1 in
        elim (Option-cases r) [
          | inl failed ↦ rw (given, failed, live) refl
          | inr (bytes, read) ↦
              let entries = dirents max_entries bytes in
              elim (Option-cases (empty_entry 0 entries)) [
                | inl full ↦ rw (given, read, full, live) refl
                | inr (i, found) ↦
                    let out =
                      write_block dev (first_block dir)
                        (dirent_bytes
                          (set entries i (entry_for n name (get_or entries i no_entry))))
                        m2 in
                    let kept : out.1.live ≡ suc m.live =
                      write_block-live (first_block dir) _ m2 ∙ live in
                    elim (Bool-cases out.0) [
                      | inr failed ↦ rw (given, read, found, failed, kept) refl
                      | inl written ↦
                          rw
                            (
                              given,
                              read,
                              found,
                              written,
                              write_inode-live sbi dir_no
                                  (record dir { size = (i + 1) * dirent_size }) out.1,
                              kept,
                            )
                            refl
                    ]
              ]
        ]
  ]

  add_entry-live :
      (sbi : SbInfo) (dir : DiskInode) (dir_no : ℕ) (name : List ℕ) (n : ℕ) (m : Machine W)
      → (vrfs_add_dir_entry dev sbi dir dir_no name n m).3.live ≡ m.live
  unfolding vrfs_add_dir_entry
  add_entry-live sbi dir dir_no name n m =
      let (done, dir1, sbi', m1) = with_dir_block dev sbi dir dir_no m in
      let first = with_dir_block-live sbi dir dir_no m in
      elim (Bool-cases done) [
        | inr failed ↦ rw (failed) first
        | inl right ↦ rw (right) (fill_entry-live sbi' dir1 dir_no name n m1 ∙ first)
      ]

  create_new-live :
      (sbi : SbInfo) (dir : Inode) (name : List ℕ) (m : Machine W)
      → let out = create_new dev sbi dir name m in out.3.live ≡ owed out.0 m.live
  unfolding create_new release
  create_new-live sbi dir name m =
      let (r, sbi1, m1) = vrfs_alloc_inode dev sbi m in
      let alloc = alloc_inode-live sbi m in
      elim (Option-cases r) [
        | inl full ↦ rw (create_new, full) alloc
        | inr (n, found) ↦ elim (try_alloc-live m1) [
          | inr (no_memory, live) ↦ rw (create_new, found, no_memory) (live ∙ alloc)
          | inl (given, live) ↦ elim (try_alloc-live (try_alloc m1).1) [
            | inr (no_memory, live') ↦ rw (create_new, found, given, no_memory, live', live) alloc
            | inl (given', live') ↦
                let m3 = (try_alloc (try_alloc m1).1).1 in
                let m4 = (vrfs_write_inode dev sbi1 n new_file m3).1 in
                let out = vrfs_add_dir_entry dev sbi1 dir.disk_inode dir.inode_no name n m4 in
                let kept : out.3.live ≡ suc (suc m.live) =
                  add_entry-live sbi1 dir.disk_inode dir.inode_no name n m4
                  ∙ write_inode-live sbi1 n new_file m3
                  ∙ live'
                  ∙ ap suc (live ∙ ap suc alloc) in
                elim (Bool-cases out.0) [
                  | inr failed ↦ rw (create_new, found, given, given', failed, kept) refl
                  | inl added ↦ rw (create_new, found, given, given', added) kept
                ]
          ]
        ]
      ]

  create-live :
      (sbi : SbInfo) (dir : Inode) (name : List ℕ) (m : Machine W)
      → let out = vrfs_create dev sbi dir name m in out.3.live ≡ owed out.0 m.live
  unfolding vrfs_create
  create-live sbi dir name m =
      let (r, m1) = vrfs_lookup dev sbi dir name m in
      let look = lookup-live sbi dir name m in
      elim (Option-cases r) [
        | inr (i, found) ↦ rw (vrfs_create, found) (look ∙ rw found refl)
        | inl missing ↦
            let same : m1.live ≡ m.live = look ∙ rw missing refl in
            rw (vrfs_create, missing)
              (create_new-live sbi dir name m1 ∙ ap (owed (create_new dev sbi dir name m1).0) same)
      ]

  -- Whatever the device does and whichever calls of kmalloc fail: reading, writing and unlinking
  -- leave as many blocks of the heap allocated as before, looking up and creating leave two more
  -- exactly if they return an inode.
  pub live-owed :
      (sbi : SbInfo) (inode : Inode) (name buffer : List ℕ) (size offset : ℕ) (m : Machine W)
      → ((vrfs_read dev inode size offset m).1.live ≡ m.live)
        × ((vrfs_write dev inode buffer size offset sbi m).3.live ≡ m.live)
        × ((vrfs_unlink dev inode name m).1.live ≡ m.live)
        × (let (r, m') = vrfs_lookup dev sbi inode name m in m'.live ≡ owed r m.live)
        × (let out = vrfs_create dev sbi inode name m in out.3.live ≡ owed out.0 m.live)
  live-owed sbi inode name buffer size offset m = (
    read-live inode size offset m,
    write-live inode buffer size offset sbi m,
    unlink-live inode name m,
    lookup-live sbi inode name m,
    create-live sbi inode name m,
  )
