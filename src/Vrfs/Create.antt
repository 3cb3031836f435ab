-- ===== src/Vrfs/Create.antt =====
-- What vrfs_create of src/fs/vrfs.c adds to a directory.
use vros.Base.{
  ltb→lt, ltb, ℕ, suc, ◌+◌, ◌≤◌, ◌<◌, ◌≡◌, refl, sym, ◌∙◌, ◌≢◌, ◌⊎◌, inl, inr, true, false, none,
  some, List, [], arith, length, if◌then◌else◌, Bool-cases, All,
}
use vros.CString.{strcmp, text}
use vros.Blkdev.{BlockDevice}
use vros.Vrfs.{bitmap_test, bitmap_set, Machine, DiskInode, SbInfo, release, inode_block}
use vros.Vrfs.Disk.{table_with, write_inode_lem, Reliable, put, try_alloc_plenty}
use vros.Vrfs.Inodes.{IsLayout}
use vros.Vrfs.Bitmaps.{clear_from-bitmap_set, with_inode, alloc_inode-IsVrfs, IsVrfs}
use vros.Vrfs.File.{Inode, first_block}
use vros.Vrfs.Dir.{vfs_file, new_file, Dirent, create_new, vrfs_lookup, vrfs_create}
use vros.Vrfs.Entries.{ino_of}
use vros.Vrfs.Lookup.{ino_result, lookup_lem, IsDir, lookup_ino, lookup_ino_lem}
use vros.Vrfs.AddEntry.{Holds, Holds-put, add_entry_lem}

-- The inode that `vrfs_create` returns.
abbrev pub new_inode : ℕ → Inode
new_inode n = record { ino = n; mode = vfs_file; size = 0; inode_no = n; disk_inode = new_file }

lowest-le :
    (bitmap : List ℕ) (free n : ℕ)
    → bitmap_test bitmap free ≡ false
    → ((j : ℕ) → j < n → bitmap_test bitmap j ≡ true)
    → n ≤ free
lowest-le bitmap free n clear lowest = elim (Bool-cases (ltb free n)) [
  | inr f ↦ ground (arith, f)
  | inl t ↦ absurd (ground (arith, clear, lowest free (ltb→lt free n t)))
]

module _ {W : Type 0} {dev : BlockDevice W} (ok : Reliable dev) where
  -- The entries are those that lookups find.
  Holds-lookup :
      (sbi : SbInfo) (dir : Inode) (q : List ℕ) (m : Machine W) (es : List Dirent)
      → IsLayout dev sbi
      → m.memory ≡ []
      → Holds ok sbi dir.disk_inode m.disk es
      → (lookup_ino ok sbi dir m q ≡ ino_of q es)
        × (ino_of q es ≡ none → vrfs_lookup dev sbi dir q m ≡ (none, m))
  unfolding vrfs_lookup
  Holds-lookup sbi dir q m es lay plenty (inr (nil, twelve, none_yet)) =
      rw (nil, none_yet) (refl, λ e. refl)
  Holds-lookup sbi dir q m es lay plenty (inl d) = (
    lookup_ino_lem ok sbi dir q m es lay plenty d,
    λ e. elim (lookup_lem ok sbi dir q m es lay plenty d) [
      | inl (nil, call) ↦ call
      | inr (n, hit, call) ↦ absurd (ground (arith, e, hit))
    ],
  )

  create_new_lem :
      (sbi : SbInfo) (dir : Inode) (name : List ℕ) (m : Machine W) (es : List Dirent) (free : ℕ)
      → IsVrfs dev sbi
      → m.memory ≡ []
      → Holds ok sbi dir.disk_inode m.disk es
      → length (text name) < 28
      → dir.inode_no < 96
      → free < 96
      → bitmap_test sbi.inode_bitmap free ≡ false
      → ino_of name es ≡ none
      → (((create_new dev sbi dir name m).0 ≡ none)
          × (All (λ e. e.inode ≢ 0) es ⊎ (sbi.sb.free_blocks ≡ 0)))
        ⊎ ((n : ℕ) × (dir' : DiskInode) × (sbi' : SbInfo) × (m' : Machine W) × (create_new dev sbi
                dir name m
              ≡ (some (new_inode n), record dir { disk_inode = dir' }, sbi', m'))
            × (bitmap_test sbi.inode_bitmap n ≡ false)
            × (n ≤ free)
            × IsVrfs dev sbi'
            × (es' : List Dirent) × IsDir ok sbi'.sb.block_count (first_block dir') m'.disk es'
            × (m'.memory ≡ [])
            × (m'.live ≡ suc (suc m.live))
            × ((q : List ℕ) → ino_of q es' ≡ (if strcmp name q then some n else ino_of q es)))
  unfolding create_new release
  create_new_lem sbi dir name m es free k plenty h short dir_low free_low clear new =
      elim (alloc_inode-IsVrfs dev sbi m k) [
        | inl (call, full) ↦ absurd (
            omega (
              arith,
              full,
              k.free_inodes,
              clear_from-bitmap_set sbi.sb.inode_count 0 sbi.inode_bitmap free
                  (omega (arith, k.inode_bytes)) (omega arith) (omega (arith, k.layout.inode_count))
                  clear,
            ))
        | inr (n, call, pos, lt, n_clear, lowest, k1) ↦
            let n_le = lowest-le sbi.inode_bitmap free n clear lowest in
            let sbi1 = with_inode n sbi in
            let m1 = put dev sbi.sb.inode_bitmap_block (bitmap_set sbi.inode_bitmap n) m in
            let one = try_alloc_plenty m1 plenty in
            let two = try_alloc_plenty (record m1 { live = suc m1.live }) plenty in
            let m3 : Machine W = record m1 { live = suc (suc m1.live) } in
            let inode =
              write_inode_lem ok sbi1 n new_file m3 plenty
                (omega (arith, n_le, k.layout.inside, k.layout.room, k.layout.inode_table_block)) in
            let m4 = put dev (inode_block sbi1 n) (table_with ok sbi1 n new_file m3.disk) m3 in
            let h1 =
              Holds-put ok sbi dir.disk_inode m es sbi.sb.inode_bitmap_block
                (bitmap_set sbi.inode_bitmap n) h (omega (arith, k.layout.inode_bitmap_block)) in
            let h4 : Holds ok sbi1 dir.disk_inode m4.disk es =
              Holds-put ok sbi1 dir.disk_inode m3 es (inode_block sbi1 n)
                (table_with ok sbi1 n new_file m3.disk) h1
                (omega (arith, n_le, k.layout.inode_table_block)) in
            elim (add_entry_lem ok sbi1 dir.disk_inode dir.inode_no name n m4 es k1 plenty h4 short
              pos (omega (arith, n_le)) dir_low new) [
                | inl (failed, why) ↦
                    inl (rw (create_new, call, call, one, two, inode, failed) refl, why)
                | inr (dir', sbi2, m5, added, k2, (es', d, plenty', live, map)) ↦ inr (
                  n,
                  dir',
                  sbi2,
                  m5,
                  rw (create_new, call, call, one, two, inode, added) refl,
                  n_clear,
                  n_le,
                  k2,
                  es',
                  d,
                  plenty',
                  live,
                  map,
                )
              ]
      ]

  -- On a reliable device, with a well-formed superblock and memory for the buffers, in a directory
  -- that stands for a list of entries with distinct names or has no block yet, if an inode below 96
  -- is free: creating a name of fewer than 28 characters that is not there gives no inode only if
  -- every entry of the block is in use or no data block is left; otherwise it gives an inode whose
  -- number was free and is at most the free one assumed, later lookups of that name find it and
  -- lookups of every other name find what they found before, the superblock stays well formed, and
  -- two blocks of the heap more are in use.
  pub lookup-create :
      (sbi : SbInfo) (dir : Inode) (name : List ℕ) (m : Machine W) (es : List Dirent) (free : ℕ)
      → IsVrfs dev sbi
      → m.memory ≡ []
      → Holds ok sbi dir.disk_inode m.disk es
      → length (text name) < 28
      → dir.inode_no < 96
      → free < 96
      → bitmap_test sbi.inode_bitmap free ≡ false
      → lookup_ino ok sbi dir m name ≡ none
      → let (r, dir', sbi', m') = vrfs_create dev sbi dir name m in
        ((r ≡ none) × (All (λ e. e.inode ≢ 0) es ⊎ (sbi.sb.free_blocks ≡ 0)))
        ⊎ ((n : ℕ) × (ino_result r ≡ some n)
            × (bitmap_test sbi.inode_bitmap n ≡ false)
            × (n ≤ free)
            × IsVrfs dev sbi'
            × (m'.live ≡ m.live + 2)
            × ((q : List ℕ)
                → lookup_ino ok sbi' dir' m' q
                  ≡ (if strcmp name q then some n else lookup_ino ok sbi dir m q)))
  unfolding vrfs_create
  lookup-create sbi dir name m es free k plenty h short dir_low free_low clear absent =
      let (view, missing) = Holds-lookup sbi dir name m es k.layout plenty h in
      let new : ino_of name es ≡ none = sym view ∙ absent in
      let call : vrfs_create dev sbi dir name m ≡ create_new dev sbi dir name m =
        rw (vrfs_create, missing new, missing new) refl in
      let views : (q : List ℕ) → lookup_ino ok sbi dir m q ≡ ino_of q es =
        λ q. (Holds-lookup sbi dir q m es k.layout plenty h).0 in
      elim (create_new_lem sbi dir name m es free k plenty h short dir_low free_low clear new) [
        | inl (failed, why) ↦ inl (rw (call) failed, why)
        | inr (n, dir', sbi', m', made, n_clear, n_le, k', es', d, plenty', live, added) ↦
            let whole = call ∙ made in
            rw whole (
              inr (
                n,
                refl,
                n_clear,
                n_le,
                k',
                omega (arith, live),
                λ q.
                    rw
                      (
                        lookup_ino_lem ok sbi' (record dir { disk_inode = dir' }) q m' es' k'.layout
                            plenty' d,
                        views q,
                      )
                      (added q),
              ))
      ]
