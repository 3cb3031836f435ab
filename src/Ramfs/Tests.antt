-- ===== src/Ramfs/Tests.antt =====
-- Runs of src/fs/ramfs.c: a root directory with a file and an empty directory.
use vros.Base.{
  ℕ, ◌+◌, ◌≤◌, ◌<◌, ◌≡◌, refl, subst, ◌≢◌, ◌⊎◌, true, false, Option, none, some, List, [], ◌∷◌,
  length, take, replicate, length-replicate, ◌==◌, if◌then◌else◌, arith, max,
}
use vros.CString.{strcmp}
use vros.Bytes.{bytes_at}
use vros.Ramfs.{
  RamData, RamDirent, Nodes, no_data, ramfs_lookup, find_name, ramfs_create, ramfs_mkdir,
  ramfs_write, ramfs_read, ramfs_readdir, entry_at, ramfs_unlink, ramfs_rmdir, remove_name,
}
use vros.Vfs.{slash}
use vros.Ramfs.Contents.{read-create_file}
use vros.Ramfs.Paths.{
  IsName, path_of, walk, parent_of, ramfs_find_parent, ramfs_create_file, find_parent-walk,
}
use vros.Ramfs.RamNode.{file, directory}
use vros.Ramfs.Data.{IsData, Gives, bytes_of, read-write_ram}
use vros.Ramfs.Names.{IsFolder, lookup-remove_file}
use vros.Ramfs.Changes.{Adds, lookup-create_ram, rmdir-IsFolder}

abbrev zeros : ℕ → Option (List ℕ)
zeros n = some (replicate n 0)

zeros-Gives : Gives zeros
zeros-Gives n bytes e = subst (λ o. length (bytes_of o) ≡ n) e (length-replicate {A = ℕ} n 0)

-- The file 97 and the directory 98 in the inode 0.
abbrev entries : List RamDirent
entries = record { name = 97 ∷ []; inode = 1 } ∷ record { name = 98 ∷ []; inode = 2 } ∷ []

abbrev nodes : Nodes
nodes = λ i. if i == 0 then directory entries 2 else if i == 1 then file no_data else directory [] 0

entries-IsFolder : IsFolder nodes 0 entries
unfolding find_name strcmp
entries-IsFolder = record { count = 2; counted = refl; node = refl; distinct = (refl, (refl, tt)) }

inside-IsFolder : IsFolder nodes 2 []
inside-IsFolder = record { count = 0; counted = refl; node = refl; distinct = tt }

finds_2 : ramfs_lookup nodes 0 (98 ∷ []) ≡ some 2
unfolding ramfs_lookup find_name strcmp
finds_2 = refl

no_data-IsData : IsData no_data
no_data-IsData = record { capacity = refl; room = omega arith; same_size = refl }

read-write_ram_example :
    let (r, node') = ramfs_write zeros no_data (104 ∷ 105 ∷ []) 2 3 in
    ((r ≡ none) × (node' ≡ no_data) × (no_data.capacity < 3 + 2))
    ⊎ ((r ≡ some 2)
        × IsData node'
        × (node'.size ≡ max no_data.size (3 + 2))
        × (ramfs_read node' 2 3 ≡ take 2 (104 ∷ 105 ∷ []))
        × ((at n : ℕ)
            → at + n ≤ no_data.size
            → (at + n ≤ 3) ⊎ (3 + 2 ≤ at)
            → bytes_at (bytes_of node'.data_bytes) at n
              ≡ bytes_at (bytes_of no_data.data_bytes) at n))
read-write_ram_example =
    read-write_ram zeros no_data (104 ∷ 105 ∷ []) 2 3 zeros-Gives no_data-IsData (omega arith)
      (omega arith) (omega arith)

lookup-create_ram_example :
    Adds
      (file no_data)
      (some 7)
      (true, true)
      nodes
      0
      entries
      (99 ∷ [])
      (ramfs_create (some 7) (true, true) nodes 0 (99 ∷ []))
    × Adds
        (directory [] 0)
        (some 7)
        (true, true)
        nodes
        0
        entries
        (99 ∷ [])
        (ramfs_mkdir (some 7) (true, true) nodes 0 (99 ∷ []))
lookup-create_ram_example =
    lookup-create_ram (some 7) (true, true) nodes 0 entries (99 ∷ []) entries-IsFolder (omega arith)
      (λ e. ground (arith, e))

lookup-remove_file_example :
    ((ramfs_unlink nodes 0 (97 ∷ []) ≡ (false, nodes))
      × ((ramfs_lookup nodes 0 (97 ∷ []) ≡ none)
          ⊎ ((i : ℕ) × (es : List RamDirent) × (n : ℕ) × (ramfs_lookup nodes 0 (97 ∷ []) ≡ some i)
              × (nodes i ≡ directory es n))))
    ⊎ (((ramfs_unlink nodes 0 (97 ∷ [])).0 ≡ true)
        × IsFolder (ramfs_unlink nodes 0 (97 ∷ [])).1 0 (remove_name (97 ∷ []) entries)
        × ((q : List ℕ)
            → ramfs_lookup (ramfs_unlink nodes 0 (97 ∷ [])).1 0 q
              ≡ (if strcmp (97 ∷ []) q then none else ramfs_lookup nodes 0 q)))
lookup-remove_file_example = lookup-remove_file nodes 0 entries (97 ∷ []) entries-IsFolder

abbrev nothing : List RamDirent
nothing = []

rmdir-IsFolder_example :
    ((ramfs_rmdir nodes 0 (98 ∷ []) ≡ (false, nodes)) × (nothing ≢ []))
    ⊎ (((ramfs_rmdir nodes 0 (98 ∷ [])).0 ≡ true)
        × (nothing ≡ [])
        × IsFolder (ramfs_rmdir nodes 0 (98 ∷ [])).1 0 (remove_name (98 ∷ []) entries)
        × ((q : List ℕ)
            → ramfs_lookup (ramfs_rmdir nodes 0 (98 ∷ [])).1 0 q
              ≡ (if strcmp (98 ∷ []) q then none else ramfs_lookup nodes 0 q)))
rmdir-IsFolder_example =
    rmdir-IsFolder nodes 0 2 entries [] (98 ∷ []) entries-IsFolder finds_2 inside-IsFolder
      (omega arith)

-- What a listing of the root gives.
second_entry : ramfs_readdir nodes 0 1 ≡ some (record { name = 98 ∷ []; inode = 2 })
unfolding ramfs_readdir entry_at
second_entry = refl

abbrev name_c : List ℕ
name_c = 99 ∷ []

abbrev name_b : List ℕ
name_b = 98 ∷ []

name_b-IsName : IsName name_b
name_b-IsName = record {
  some_char = omega arith;
  fits = omega arith;
  plain = (λ e. absurd (ground (arith, e)), tt);
}

name_c-IsName : IsName name_c
name_c-IsName = record {
  some_char = omega arith;
  fits = omega arith;
  plain = (λ e. absurd (ground (arith, e)), tt);
}

find_parent-walk_example :
    ramfs_find_parent nodes 0 (slash ∷ path_of (name_b ∷ []) name_c)
    ≡ parent_of (walk nodes 0 (name_b ∷ [])) name_c
find_parent-walk_example =
    find_parent-walk nodes 0 (name_b ∷ []) name_c (name_b-IsName, tt) name_c-IsName

walks_b : walk nodes 0 (name_b ∷ []) ≡ some 2
unfolding ramfs_lookup find_name strcmp
walks_b = refl

no_c : ramfs_lookup nodes 2 name_c ≡ none
unfolding ramfs_lookup find_name
no_c = refl

read-create_file_example :
    let path = slash ∷ path_of (name_b ∷ []) name_c in
    let (r, nodes') =
      ramfs_create_file (some 7) (true, true) true nodes 0 path (some (104 ∷ 105 ∷ [])) in
    (r ≡ some 7)
    × ((q : List ℕ)
        → ramfs_lookup nodes' 2 q ≡ (if strcmp name_c q then some 7 else ramfs_lookup nodes 2 q))
    × ((d : RamData) × (nodes' 7 ≡ file d) × (ramfs_read d 2 0 ≡ 104 ∷ 105 ∷ []))
read-create_file_example =
    read-create_file nodes 0 2 7 (name_b ∷ []) name_c (104 ∷ 105 ∷ []) [] (name_b-IsName, tt)
      name_c-IsName walks_b inside-IsFolder (λ e. absurd (ground (arith, e))) no_c (omega arith)
      (omega arith)
