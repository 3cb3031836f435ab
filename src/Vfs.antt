-- ===== src/Vfs.antt =====
-- The virtual file system, src/fs/vfs.c with include/vfs.h: paths are resolved to inodes over the
-- mount table of src/fs/mount.c. What the file systems keep is a state `S`, an inode pointer is an
-- element of `I`; the operations that an inode has, NULL or not, are the fields of `InodeOps`. A path
-- is the list of its characters before the 0.
pub mod Dentries
pub mod Files
pub mod OnVrfs
pub mod Parent
pub mod Paths
pub mod Resolve
pub mod Tree
pub mod Tests
use vros.Base.{
  ℕ, zero, suc, ◌+◌, ◌-◌, ◌*◌, ◌/◌, ◌%◌, ◌^◌, ◌≤◌, ◌<◌, Bool, true, false, not, ◌&&◌, ◌||◌, Option,
  none, some, List, [], ◌∷◌, ◌++◌, length, get_or, set, take, drop, ltb, leb, ◌==◌, if◌then◌else◌,
}
use vros.Mount.{MountPoint, mount_get_sb}

abbrev pub vfs_name_max : ℕ
vfs_name_max = 256

-- '/'
abbrev pub slash : ℕ
slash = 47

-- struct inode_operations, and what vfs.c reads of an inode: whether its type is VFS_DIRECTORY.
pub record InodeOps (I S : Type 0) : Type 0 where
  pub lookup : I → Option (List ℕ → S → Option I × S)
  pub unlink : I → Option (List ℕ → S → Bool × S)
  pub rmdir : I → Option (List ℕ → S → Bool × S)
  pub is_directory : I → Bool

-- `root_sb` with its root inode, the mount table, and the root inodes of the superblocks in it.
pub record Mounts (I : Type 0) : Type 0 where
  pub root_inode : Option I
  pub table : List MountPoint
  pub root_of : ℕ → Option I

-- The root inode of the file system mounted at a path.
unfoldable pub mounted_root : {I : Type 0} → Mounts I → List ℕ → Option I
mounted_root v path = let sb = mount_get_sb path v.table in if sb == 0 then none else v.root_of sb

-- `path_end - path` once trailing slashes are skipped.
unfoldable pub trimmed : List ℕ → ℕ
trimmed [] = 0
trimmed (c ∷ path) =
    let rest = trimmed path in if rest == 0 then (if c == slash then 0 else 1) else suc rest

-- The loop that extracts a component of at most `n` more characters from a path of which `left`
-- characters count: the component, what follows, and how many characters of that count.
unfoldable pub take_component : ℕ → ℕ → List ℕ → List ℕ × List ℕ × ℕ
take_component zero left path = ([], path, left)
take_component (suc n) zero path = ([], path, 0)
take_component (suc n) (suc left) [] = ([], [], suc left)
take_component (suc n) (suc left) (c ∷ path) =
    let (component, rest, left') = take_component n left path in
    if c == slash then ([], c ∷ path, suc left) else (c ∷ component, rest, left')

-- Characters are put behind `current_path` while its length is below 255.
unfoldable pub append_path : List ℕ → List ℕ → List ℕ
append_path current_path chars = current_path ++ take (255 - length current_path) chars

-- `*path == '/'`
abbrev pub starts_with_slash : List ℕ → Bool
starts_with_slash [] = false
starts_with_slash (c ∷ path) = c == slash

abbrev pub is_empty : List ℕ → Bool
is_empty [] = true
is_empty (c ∷ path) = false

-- A path without the slash at its end.
unfoldable pub drop_last_slash : List ℕ → List ℕ
drop_last_slash [] = []
drop_last_slash (c ∷ path) =
    let rest = drop_last_slash path in if is_empty path && c == slash then [] else c ∷ rest

-- The path for the check of the mount table: a slash at its end is left out, unless it is all of it.
unfoldable pub without_slash : List ℕ → List ℕ
without_slash [] = []
without_slash (c ∷ path) = c ∷ drop_last_slash path

-- A component looked up in an inode.
unfoldable pub lookup_in : {I S : Type 0} → InodeOps I S → I → List ℕ → S → Option I × S
lookup_in ops current component s = elim (ops.lookup current) [
  | none ↦ (none, s)
  | some lookup ↦ lookup component s
]

module _ {I S : Type 0} (ops : InodeOps I S) (v : Mounts I) where
  -- What a round of the loop of `vfs_lookup_inode` does with a component, before `next`, the rounds
  -- that follow: the slash behind it is skipped, and the path so far may be a mount point.
  unfoldable pub enter_component :
      (List ℕ → ℕ → List ℕ → I → S → Option I × S)
      → List ℕ
      → List ℕ
      → ℕ
      → List ℕ
      → I
      → S
      → Option I × S
  enter_component next component path left current_path current s =
      let slashed = starts_with_slash path in
      let path' = if slashed then drop 1 path else path in
      let left' = if slashed then left - 1 else left in
      let named = append_path current_path component in
      let current_path' = if slashed then append_path named (slash ∷ []) else named in
      elim (mounted_root v (without_slash current_path')) [
        | some root ↦
            if is_empty path' then (some root, s) else next path' left' current_path' root s
        | none ↦
            let (found, s') = lookup_in ops current component s in
            elim found [ none ↦ (none, s') | some inode ↦ next path' left' current_path' inode s' ]
      ]

  -- The loop of `vfs_lookup_inode`; the fuel bounds its rounds.
  unfoldable pub lookup_loop : ℕ → List ℕ → ℕ → List ℕ → I → S → Option I × S
  lookup_loop zero path left current_path current s = (none, s)
  lookup_loop (suc fuel) path left current_path current s =
      if left == 0
      then (some current, s)
      else let (component, path1, left1) = take_component (vfs_name_max - 1) left path in
        if not (is_empty component)
        then enter_component (lookup_loop fuel) component path1 left1 current_path current s
        else if starts_with_slash path1
        then lookup_loop fuel (drop 1 path1) (left1 - 1) current_path current s
        else lookup_loop fuel path1 left1 current_path current s

  -- `vfs_lookup_inode` once there is a root.
  unfoldable pub lookup_from : I → List ℕ → S → Option I × S
  lookup_from root path s =
      let path' = if starts_with_slash path then drop 1 path else path in
      if trimmed path' == 0
      then (some root, s)
      else lookup_loop (suc (length path')) path' (trimmed path') (slash ∷ []) root s

  unfoldable pub with_root : List ℕ → S → Option I → Option I × S
  with_root path s none = (none, s)
  with_root path s (some root) = lookup_from root path s

  unfoldable pub vfs_lookup_inode : List ℕ → S → Option I × S
  vfs_lookup_inode path s = with_root path s v.root_inode
