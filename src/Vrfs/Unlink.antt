-- ===== src/Vrfs/Unlink.antt =====
-- What vrfs_unlink of src/fs/vrfs.c takes out of a directory.
use vros.Base.{
  ℕ, suc, ◌<◌, ◌≡◌, refl, sym, ap, ◌∙◌, ◌⊎◌, inl, inr, Bool, true, false, Option, none, some, List,
  [], arith, ◌==◌, if◌then◌else◌, Bool-cases, length-set, set, All-set,
}
use vros.CString.{strcmp}
use vros.Blkdev.{BlockDevice}
use vros.Vrfs.{Machine, SbInfo, release}
use vros.Vrfs.Disk.{Reliable, put, try_alloc_plenty, read_block_lem, write_block_lem, content-put}
use vros.Vrfs.Inodes.{IsLayout}
use vros.Vrfs.File.{Inode, first_block}
use vros.Vrfs.Dir.{Dirent, no_entry, dirent_bytes, find_entry, vrfs_unlink}
use vros.Vrfs.Entries.{
  IsDirent, length-dirent_bytes, ino_of, ino_of_same, Distinct, find_entry_lem, ino_of-clear,
  Distinct-clear,
}
use vros.Vrfs.Lookup.{IsDir, IsDir-entries, lookup_ino, lookup_ino_lem}

pub no_entry-IsDirent : IsDirent no_entry
no_entry-IsDirent = record { inode = omega arith; sized = refl; ended = omega arith }

abbrev pub is_some : Option ℕ → Bool
is_some none = false
is_some (some n) = true

module _ {W : Type 0} {dev : BlockDevice W} (ok : Reliable dev) where
  -- A block of entries that replaces that of the directory.
  pub IsDir-set :
      {count b : ℕ} {es : List Dirent} (m : Machine W) (i : ℕ) (e : Dirent)
      → IsDir ok count b m.disk es
      → b < dev.size
      → IsDirent e
      → e.inode < 96
      → Distinct (set es i e)
      → IsDir ok count b (put dev b (dirent_bytes (set es i e)) m).disk (set es i e)
  IsDir-set {b = b} {es = es} m i e d b_in k small distinct =
      let entries = All-set IsDirent es i e d.entries k in
      let sixteen = length-set es i e ∙ d.sixteen in
      record {
        block =
            content-put ok b (dirent_bytes (set es i e)) m b_in
              (omega (arith, length-dirent_bytes (set es i e) entries, sixteen));
        above = d.above;
        below = d.below;
        sixteen = sixteen;
        entries = entries;
        low = All-set (λ e. e.inode < 96) es i e d.low small;
        distinct = distinct;
      }

  unlink_lem :
      (sbi : SbInfo) (dir : Inode) (name : List ℕ) (m : Machine W) (es : List Dirent)
      → IsLayout dev sbi
      → m.memory ≡ []
      → IsDir ok sbi.sb.block_count (first_block dir.disk_inode) m.disk es
      → let b = first_block dir.disk_inode in
        ((ino_of name es ≡ none) × (vrfs_unlink dev dir name m ≡ (false, m)))
        ⊎ ((i : ℕ) × (is_some (ino_of name es) ≡ true)
            × (vrfs_unlink dev dir name m ≡ (true, put dev b (dirent_bytes (set es i no_entry)) m))
            × IsDir ok sbi.sb.block_count b
                (put dev b (dirent_bytes (set es i no_entry)) m).disk
                (set es i no_entry)
            × ((q : List ℕ)
                → ino_of q (set es i no_entry) ≡ (if strcmp name q then none else ino_of q es)))
  unfolding vrfs_unlink release
  unlink_lem sbi dir name m es lay plenty d =
      let b = first_block dir.disk_inode in
      let b_in : b < dev.size = omega (arith, d.below, lay.inside) in
      let nz : (b == 0) ≡ false = ground (arith, d.above) in
      let m1 : Machine W = record m { live = suc m.live } in
      let alloc = try_alloc_plenty m plenty in
      let read = read_block_lem ok b m1 b_in in
      elim (find_entry_lem name 0 es d.entries) [
        | inl (missing, nil) ↦
            inl (nil, rw (nz, alloc, read, IsDir-entries ok d, missing, alloc, read) refl)
        | inr (i, found, lt, used, hit, e) ↦
            let at : find_entry name 0 es ≡ some i = found ∙ ap some (omega arith) in
            let k =
              IsDir-set m i no_entry d b_in no_entry-IsDirent (omega arith)
                (Distinct-clear es i d.distinct) in
            let write =
              write_block_lem ok b (dirent_bytes (set es i no_entry)) m1 b_in
                (omega (arith, length-dirent_bytes (set es i no_entry) k.entries, k.sixteen)) in
            inr (
              i,
              ap is_some e,
              rw (nz, alloc, read, IsDir-entries ok d, at, alloc, read, IsDir-entries ok d, write)
                  refl,
              k,
              λ q. ino_of-clear q name es i d.distinct lt used hit,
            )
      ]

  -- On a reliable device with memory for the buffers, in a directory whose block holds entries with
  -- distinct names: unlinking a name succeeds exactly if a lookup finds it; afterwards lookups of
  -- that name find nothing and lookups of every other name find what they found before, the block
  -- again holds entries with distinct names, and no block of the heap more is in use.
  pub lookup-unlink :
      (sbi : SbInfo) (dir : Inode) (name : List ℕ) (m : Machine W) (es : List Dirent)
      → IsLayout dev sbi
      → m.memory ≡ []
      → IsDir ok sbi.sb.block_count (first_block dir.disk_inode) m.disk es
      → let (r, m') = vrfs_unlink dev dir name m in
        (r ≡ is_some (lookup_ino ok sbi dir m name))
        × ((q : List ℕ)
            → lookup_ino ok sbi dir m' q
              ≡ (if strcmp name q then none else lookup_ino ok sbi dir m q))
        × (m'.live ≡ m.live)
        × ((es' : List Dirent) × IsDir ok sbi.sb.block_count
              (first_block dir.disk_inode)
              m'.disk
              es')
  lookup-unlink sbi dir name m es lay plenty d =
      let view : (q : List ℕ) → lookup_ino ok sbi dir m q ≡ ino_of q es =
        λ q. lookup_ino_lem ok sbi dir q m es lay plenty d in
      elim (unlink_lem sbi dir name m es lay plenty d) [
        | inl (nil, call) ↦ rw call (
          rw (view name, nil) refl,
          λ q. elim (Bool-cases (strcmp name q)) [
            | inr f ↦ rw f refl
            | inl t ↦ rw t (view q ∙ sym (ino_of_same name q es t) ∙ nil)
          ],
          refl,
          (es, d),
        )
        | inr (i, there, call, d', gone) ↦
            let m' = put dev (first_block dir.disk_inode) (dirent_bytes (set es i no_entry)) m in
            rw call (
              rw (view name) (sym there),
              λ q.
                  rw (lookup_ino_lem ok sbi dir q m' (set es i no_entry) lay plenty d', view q)
                    (gone q),
              refl,
              (set es i no_entry, d'),
            )
      ]
