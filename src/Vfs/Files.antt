-- ===== src/Vfs/Files.antt =====
-- Open files, vfs_open to vfs_lseek of src/fs/vfs.c, and vfs_unlink.
use vros.Base.{
  ℕ, ◌+◌, ◌-◌, ◌%◌, ◌^◌, Bool, true, false, not, Option, none, some, List, [], ◌∷◌, length, take,
  drop, ltb, ◌==◌, if◌then◌else◌,
}
use vros.Vfs.{vfs_name_max, is_empty, starts_with_slash, slash, InodeOps, Mounts, vfs_lookup_inode}

-- struct file; its operations are those of the file system, `private_data` is never used.
pub record File (I : Type 0) : Type 0 where
  pub inode : I
  pub flags : ℕ
  pub pos : ℕ
  pub ref_count : ℕ

-- struct file_operations: an operation gives the result, -1 as `none` or `false`. What a read copies
-- to the buffer is a list, whose length is the result.
pub record FileOps (I S : Type 0) : Type 0 where
  pub open_file : Option (I → S → Bool × S)
  pub close : Option (I → S → S)
  pub read : Option (I → ℕ → ℕ → S → Option (List ℕ) × S)
  pub write : Option (I → List ℕ → ℕ → ℕ → S → Option ℕ × S)
  pub lseek : Option (I → ℕ → ℕ → S → Option ℕ × S)
  pub size_of : I → S → ℕ

-- The default seek; `size` is that of the inode.
unfoldable pub seek_default : {I : Type 0} → File I → ℕ → ℕ → ℕ → Option ℕ × File I
seek_default file size offset whence =
    let pos =
      if whence == 0
      then offset
      else if whence == 1
      then (file.pos + offset) % 2 ^ 32
      else (size + offset) % 2 ^ 32 in
    if ltb 2 whence then (none, file) else (some pos, record file { pos = pos })

module _ {I S : Type 0} where
  -- `given` tells whether `kmalloc` gives memory for the file, `fops` is the inode's `f_op`.
  unfoldable pub open_inode : (I → Option (FileOps I S)) → Bool → ℕ → I → S → Option (File I) × S
  open_inode fops given flags inode s =
      let file : File I = record { inode = inode; flags = flags; pos = 0; ref_count = 1 } in
      if not given then (none, s) else elim (fops inode) [
        | none ↦ (some file, s)
        | some f_op ↦ elim f_op.open_file [
          | none ↦ (some file, s)
          | some open_file ↦
              let (opened, s') = open_file inode s in
              if not opened then (none, s') else (some file, s')
        ]
      ]

  unfoldable pub vfs_open :
      InodeOps I S
      → Mounts I
      → (I → Option (FileOps I S))
      → Bool
      → List ℕ
      → ℕ
      → S
      → Option (File I) × S
  vfs_open ops v fops given path flags s =
      let (found, s') = vfs_lookup_inode ops v path s in
      elim found [ none ↦ (none, s') | some inode ↦ open_inode fops given flags inode s' ]

  -- The file with its count of references; at 0 it is freed.
  unfoldable pub vfs_close : Option (FileOps I S) → File I → S → File I × S
  vfs_close f_op file s =
      let closed : File I = record file { ref_count = (file.ref_count + 2 ^ 32 - 1) % 2 ^ 32 } in
      elim f_op [
        | none ↦ (closed, s)
        | some f ↦ elim f.close [ none ↦ (closed, s) | some close ↦ (closed, close file.inode s) ]
      ]

  unfoldable pub vfs_read : Option (FileOps I S) → File I → ℕ → S → Option (List ℕ) × File I × S
  vfs_read f_op file size s = elim f_op [
    | none ↦ (none, file, s)
    | some f ↦ elim f.read [
      | none ↦ (none, file, s)
      | some read ↦
          let (ret, s') = read file.inode size file.pos s in
          elim ret [
            | none ↦ (none, file, s')
            | some bytes ↦
                (some bytes, record file { pos = (file.pos + length bytes) % 2 ^ 32 }, s')
          ]
    ]
  ]

  unfoldable pub vfs_write : Option (FileOps I S) → File I → List ℕ → ℕ → S → Option ℕ × File I × S
  vfs_write f_op file buffer size s = elim f_op [
    | none ↦ (none, file, s)
    | some f ↦ elim f.write [
      | none ↦ (none, file, s)
      | some write ↦
          let (ret, s') = write file.inode buffer size file.pos s in
          elim ret [
            | none ↦ (none, file, s')
            | some n ↦ (some n, record file { pos = (file.pos + n) % 2 ^ 32 }, s')
          ]
    ]
  ]

  unfoldable pub vfs_lseek : Option (FileOps I S) → File I → ℕ → ℕ → ℕ → S → Option ℕ × File I × S
  vfs_lseek f_op file size offset whence s =
      let (r, file') = seek_default file size offset whence in
      elim f_op [
        | none ↦ (r, file', s)
        | some f ↦ elim f.lseek [
          | none ↦ (r, file', s)
          | some lseek ↦ let (ret, s') = lseek file.inode offset whence s in (ret, file, s')
        ]
      ]

-- The index of the last slash, counted from `i` on, or what was found before.
unfoldable pub last_slash_from : Option ℕ → ℕ → List ℕ → Option ℕ
last_slash_from found i [] = found
last_slash_from found i (c ∷ path) =
    last_slash_from (if c == slash then some i else found) (i + 1) path

-- The path of the parent directory and the name behind the last slash, of which 63 characters are
-- kept; `none` without a slash.
unfoldable pub split_parent : List ℕ → Option (List ℕ × List ℕ)
split_parent path = elim (last_slash_from none 0 path) [
  | none ↦ none
  | some last_slash ↦ some (
    if last_slash == 0 then slash ∷ [] else take last_slash path,
    take 63 (drop (last_slash + 1) path),
  )
]

-- What `vfs_unlink` does with the result of looking the parent up.
unfoldable pub unlink_in : {I S : Type 0} → InodeOps I S → List ℕ → Option I × S → Bool × S
unlink_in ops filename (none, s) = (false, s)
unlink_in ops filename (some parent, s) = elim (ops.unlink parent) [
  | none ↦ (false, s)
  | some unlink ↦ unlink filename s
]

unfoldable pub unlink_from : {I S : Type 0} → InodeOps I S → Mounts I → List ℕ → S → Bool × S
unlink_from ops v path s = elim (split_parent path) [
  | none ↦ (false, s)
  | some (parent_path, filename) ↦ unlink_in ops filename (vfs_lookup_inode ops v parent_path s)
]

unfoldable pub vfs_unlink : {I S : Type 0} → InodeOps I S → Mounts I → List ℕ → S → Bool × S
vfs_unlink ops v path s = elim v.root_inode [
  | none ↦ (false, s)
  | some root ↦ unlink_from ops v path s
]

-- `ramfs_create_dir` of fs/ramfs.c is an argument.
pub vfs_mkdir :
    {I S : Type 0} → Mounts I → (List ℕ → ℕ → S → Option I × S) → List ℕ → ℕ → S → Bool × S
vfs_mkdir v ramfs_create_dir path mode s = elim v.root_inode [
  | none ↦ (false, s)
  | some root ↦
      let (made, s') = ramfs_create_dir path mode s in
      elim made [ none ↦ (false, s') | some inode ↦ (true, s') ]
]

-- What `vfs_rmdir` does with the result of looking the parent up.
unfoldable pub rmdir_in : {I S : Type 0} → InodeOps I S → List ℕ → Option I × S → Bool × S
rmdir_in ops dirname (none, s) = (false, s)
rmdir_in ops dirname (some parent, s) =
    if not (ops.is_directory parent)
    then (false, s)
    else elim (ops.rmdir parent) [ none ↦ (false, s) | some rmdir ↦ rmdir dirname s ]

-- `vfs_rmdir` from the root inode on: 255 characters of the path are kept.
unfoldable pub rmdir_from : {I S : Type 0} → InodeOps I S → Mounts I → I → List ℕ → S → Bool × S
rmdir_from ops v root path s =
    let full_path = take (vfs_name_max - 1) path in
    if is_empty path then (false, s) else elim (last_slash_from none 0 full_path) [
      | none ↦ rmdir_in ops full_path (some root, s)
      | some last_slash ↦ rmdir_in ops (drop (last_slash + 1) full_path) (
          vfs_lookup_inode ops v (if last_slash == 0 then slash ∷ [] else take last_slash full_path)
            s)
    ]

unfoldable pub vfs_rmdir : {I S : Type 0} → InodeOps I S → Mounts I → List ℕ → S → Bool × S
vfs_rmdir ops v path s = elim v.root_inode [
  | none ↦ (false, s)
  | some root ↦ rmdir_from ops v root (if starts_with_slash path then drop 1 path else path) s
]
