-- ===== src/Ramfs.antt =====
-- The file system in memory, src/fs/ramfs.c with include/ramfs.h. An inode pointer is a number, and
-- the nodes behind the inodes are a function of it. What `kmalloc` gives is an argument: for the data
-- of a file the bytes that the memory holds, for an inode its pointer, else whether it gives memory.
pub mod Data
pub mod Names
pub mod Paths
pub mod Changes
pub mod Contents
pub mod Tests
use vros.Base.{
  ℕ, zero, suc, ◌+◌, ◌-◌, ◌*◌, ◌/◌, ◌%◌, ◌^◌, ◌≤◌, ◌<◌, Bool, true, false, not, ◌&&◌, ◌||◌, Option,
  none, some, List, [], ◌∷◌, ◌++◌, length, get_or, set, take, drop, ltb, leb, ◌==◌, if◌then◌else◌,
}
use vros.CString.{strcmp}
use vros.Bytes.{fs_memcpy, bytes_at}

-- The members of struct ramfs_node for a file, with the size that its inode has.
pub record RamData : Type 0 where
  pub data_bytes : Option (List ℕ)
  pub capacity : ℕ
  pub size : ℕ
  pub inode_size : ℕ

-- struct ramfs_dirent
pub record RamDirent : Type 0 where
  pub name : List ℕ
  pub inode : ℕ

-- The union of struct ramfs_node, by the type of the inode.
pub data RamNode : Type 0 where
  file : RamData → RamNode
  directory : List RamDirent → ℕ → RamNode

abbrev pub Nodes : Type 0
Nodes = ℕ → RamNode

abbrev pub set_node : ℕ → RamNode → Nodes → Nodes
set_node inode node nodes = λ i. if inode == i then node else nodes i

-- The bytes that are copied; their number is the result.
unfoldable pub ramfs_read : RamData → ℕ → ℕ → List ℕ
ramfs_read node size offset = elim node.data_bytes [
  | none ↦ []
  | some bytes ↦
      if leb node.size offset
      then []
      else bytes_at bytes offset
          (if ltb node.size ((offset + size) % 2 ^ 32) then node.size - offset else size)
]

-- New memory with the first `size` old bytes copied.
abbrev pub copied : Option (List ℕ) → List ℕ → ℕ → List ℕ
copied none memory size = memory
copied (some old) memory size = fs_memcpy memory 0 (bytes_at old 0 size)

-- A node whose data has room for `required` bytes, or `none` without memory.
unfoldable pub expanded : (ℕ → Option (List ℕ)) → ℕ → RamData → Option RamData
expanded kmalloc required node =
    if not (ltb node.capacity required) then some node else elim (kmalloc (required * 2 % 2 ^ 32)) [
      | none ↦ none
      | some new_data ↦ some (record node {
        data_bytes = some (copied node.data_bytes new_data node.size);
        capacity = required * 2 % 2 ^ 32;
      })
    ]

-- The bytes of a node with some written at an offset.
unfoldable pub written : List ℕ → ℕ → Option (List ℕ) → Option (List ℕ)
written buffer offset none = none
written buffer offset (some bytes) = some (fs_memcpy bytes offset buffer)

unfoldable pub ramfs_write : (ℕ → Option (List ℕ)) → RamData → List ℕ → ℕ → ℕ → Option ℕ × RamData
ramfs_write kmalloc node buffer size offset =
    let required = (offset + size) % 2 ^ 32 in
    elim (expanded kmalloc required node) [
      | none ↦ (none, node)
      | some room ↦
          let grown = ltb room.size required in
          (
            some size,
            record room {
              data_bytes = written (take size buffer) offset room.data_bytes;
              size = if grown then required else room.size;
              inode_size = if grown then required else room.inode_size;
            },
          )
    ]

-- The search of a directory's entries for a name.
unfoldable pub find_name : List ℕ → List RamDirent → Option ℕ
find_name name [] = none
find_name name (e ∷ es) =
    let rest = find_name name es in if strcmp e.name name then some e.inode else rest

-- The entries without the first of the name.
unfoldable pub remove_name : List ℕ → List RamDirent → List RamDirent
remove_name name [] = []
remove_name name (e ∷ es) =
    let rest = remove_name name es in if strcmp e.name name then es else e ∷ rest

unfoldable pub ramfs_lookup : Nodes → ℕ → List ℕ → Option ℕ
ramfs_lookup nodes dir name = elim (nodes dir) [
  | file d ↦ none
  | directory entries n ↦ find_name name entries
]

abbrev pub name_size : ℕ
name_size = 256

-- The node of a directory with a new entry. `strcpy` does not look at the size of the name array: of a
-- longer name the array holds the first part, without a terminating 0, and the rest goes behind it.
abbrev pub ramfs_add_entry : List ℕ → ℕ → List RamDirent → ℕ → RamNode
ramfs_add_entry name i entries n =
    directory (record { name = take name_size name; inode = i } ∷ entries) ((n + 1) % 2 ^ 32)

-- The common text of `ramfs_create` and `ramfs_mkdir`: `node` is the node of the new inode, `inode`
-- its pointer, `given` whether there is memory for the node and for the entry.
unfoldable pub add_new : RamNode → Option ℕ → Bool × Bool → Nodes → ℕ → List ℕ → Option ℕ × Nodes
add_new node inode given nodes dir name = elim (nodes dir) [
  | file d ↦ (none, nodes)
  | directory entries n ↦ elim (find_name name entries) [
    | some old ↦ (none, nodes)
    | none ↦ elim inode [
      | none ↦ (none, nodes)
      | some i ↦
          if not given.0
          then (none, nodes)
          else let nodes' = set_node i node nodes in
            if not given.1
            then (none, nodes')
            else (some i, set_node dir (ramfs_add_entry name i entries n) nodes')
    ]
  ]
]

abbrev pub no_data : RamData
no_data = record { data_bytes = none; capacity = 0; size = 0; inode_size = 0 }

pub ramfs_create : Option ℕ → Bool × Bool → Nodes → ℕ → List ℕ → Option ℕ × Nodes
ramfs_create inode given nodes dir name = add_new (file no_data) inode given nodes dir name

pub ramfs_mkdir : Option ℕ → Bool × Bool → Nodes → ℕ → List ℕ → Option ℕ × Nodes
ramfs_mkdir inode given nodes dir name = add_new (directory [] 0) inode given nodes dir name

-- The directory without the first entry of the name.
unfoldable pub without_name : List ℕ → List RamDirent → ℕ → RamNode
without_name name entries n = directory (remove_name name entries) ((n + 2 ^ 32 - 1) % 2 ^ 32)

unfoldable pub ramfs_remove_entry : List ℕ → List RamDirent → ℕ → Bool × RamNode
ramfs_remove_entry name entries n = elim (find_name name entries) [
  | none ↦ (false, directory entries n)
  | some i ↦ (true, without_name name entries n)
]

unfoldable pub ramfs_unlink : Nodes → ℕ → List ℕ → Bool × Nodes
ramfs_unlink nodes dir name = elim (nodes dir) [
  | file d ↦ (false, nodes)
  | directory entries n ↦ elim (find_name name entries) [
    | none ↦ (false, nodes)
    | some i ↦ elim (nodes i) [
      | directory es k ↦ (false, nodes)
      | file d ↦ (true, set_node dir (without_name name entries n) nodes)
    ]
  ]
]

unfoldable pub ramfs_rmdir : Nodes → ℕ → List ℕ → Bool × Nodes
ramfs_rmdir nodes dir name = elim (nodes dir) [
  | file d ↦ (false, nodes)
  | directory entries n ↦ elim (find_name name entries) [
    | none ↦ (false, nodes)
    | some i ↦ elim (nodes i) [
      | file d ↦ (false, nodes)
      | directory es k ↦
          if ltb 0 k
          then (false, nodes)
          else (true, set_node dir (without_name name entries n) nodes)
    ]
  ]
]

-- The entry at an index, whose name and inode `ramfs_readdir` gives.
unfoldable pub entry_at : ℕ → List RamDirent → Option RamDirent
entry_at index [] = none
entry_at zero (e ∷ es) = some e
entry_at (suc index) (e ∷ es) = entry_at index es

unfoldable pub ramfs_readdir : Nodes → ℕ → ℕ → Option RamDirent
ramfs_readdir nodes dir index = elim (nodes dir) [
  | file d ↦ none
  | directory entries n ↦ entry_at index entries
]

-- `root_sb` tells whether there is a superblock of the root; the result is its root inode, or `none`
-- where the call fails and leaves it.
unfoldable pub ramfs_mount_root : Bool → Option ℕ → Bool → Nodes → Option ℕ × Nodes
ramfs_mount_root root_sb inode given nodes = elim inode [
  | none ↦ (none, nodes)
  | some i ↦
      if not root_sb || not given
      then (none, nodes)
      else (some i, set_node i (directory [] 0) nodes)
]
