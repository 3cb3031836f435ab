-- ===== src/Vfs/Tests.antt =====
-- Paths over a root file system with a directory "a" and a file system mounted at "/mnt", and a file
-- of VRFS read and written through the virtual file system.
use vros.Base.{
  Bool, false, not, ◌==◌, ℕ, ◌+◌, ◌≡◌, refl, ◌≢◌, ◌⊎◌, inl, true, not, none, some, List, [], ◌∷◌,
  ◌++◌, take, ◌==◌, if◌then◌else◌, arith, All,
}
use vros.CString.{strcmp}
use vros.Vrfs.{Machine}
use vros.Blkdev.{blkdev_read}
use vros.Bytes.{bytes_at}
use vros.Vrfs.Dir.{new_file}
use vros.Vrfs.{try_alloc, read_block}
use vros.Vrfs.File.{Inode, with_first_block, read_first, vrfs_read}
use vros.Vrfs.Create.{new_inode}
use vros.Vrfs.Tests.{
  memory_disk, ok, formatted_sbi, formatted_sbi-IsVrfs, new_file-IsInode, machine, hi, Blocks,
}
use vros.Vfs.{slash, InodeOps, Mounts, vfs_lookup_inode}
use vros.Vfs.Dentries.Dentry.{dentry}
use vros.Vfs.Dentries.Dentries.{no_dentry, and_next}
use vros.Vfs.Tree.{Leads, vfs_lookup-Leads}
use vros.Base.{◌↔◌}
use vros.Vfs.Dentries.{Dentry, IsComponent, joined, vfs_lookup, find_child, lookup_components}
use vros.Vfs.Paths.{components}
use vros.Vfs.Resolve.{resolve, lookup_inode-resolve}
use vros.Vfs.Files.{vfs_read, vfs_write, vfs_lseek, vfs_unlink, vfs_rmdir, rmdir_in}
use vros.Vfs.OnVrfs.{vrfs_fops, at_pos, read-seek-write, read_again}
use vros.Vfs.Parent.{unlink-resolve, rmdir-resolve}

abbrev a : List ℕ
a = b'a' ∷ []

abbrev mnt : List ℕ
mnt = b'm' ∷ b'n' ∷ b't' ∷ []

-- Inode 1 is the root, 2 the directory "a" in it, 9 the root of what is mounted, 10 a file "a" there;
-- the state counts the lookups.
abbrev ops : InodeOps ℕ ℕ
ops = record {
  lookup = λ i. some (λ name s. (
    if strcmp name a then (if i == 1 then some 2 else if i == 9 then some 10 else none) else none,
    s + 1,
  ));
  unlink = λ i. some (λ name s. (strcmp name a, s + 100));
  rmdir = λ i. none;
  is_directory = λ i. not (i == 10);
}

abbrev mounts : Mounts ℕ
mounts = record {
  root_inode = some 1;
  table = record { path = slash ∷ mnt; sb = 5; bdev = some 0; in_use = true } ∷ [];
  root_of = λ sb. some 9;
}

-- "/mnt//a/"
abbrev path : List ℕ
path = slash ∷ (mnt ++ (slash ∷ slash ∷ b'a' ∷ slash ∷ []))

lookup_inode-resolve_example :
    vfs_lookup_inode ops mounts path 0 ≡ resolve ops mounts [] 1 (components path) 0
lookup_inode-resolve_example = lookup_inode-resolve ops mounts path 1 0 (omega arith) refl

a-plain : All (λ (c : ℕ). c ≢ slash) a
a-plain = (λ e. absurd (omega (arith, e)), tt)

unlink-resolve_example :
    let (found, s') = resolve ops mounts [] 1 (components (slash ∷ mnt)) 0 in
    let out = vfs_unlink ops mounts ((slash ∷ mnt) ++ (slash ∷ a)) 0 in
    ((found ≡ none) × (out ≡ (false, s')))
    ⊎ ((dir : ℕ) × (found ≡ some dir) × (ops.unlink dir ≡ none) × (out ≡ (false, s')))
    ⊎ ((dir : ℕ) × (unlink : List ℕ → ℕ → Bool × ℕ) × (found ≡ some dir)
        × (ops.unlink dir ≡ some unlink)
        × (out ≡ unlink a s'))
unlink-resolve_example =
    unlink-resolve ops mounts (slash ∷ mnt) a 1 0 a-plain (omega arith) (omega arith) refl

rmdir-resolve_example :
    (vfs_rmdir ops mounts (slash ∷ (mnt ++ (slash ∷ a))) 0
      ≡ rmdir_in ops a (resolve ops mounts [] 1 (components mnt) 0))
    × (vfs_rmdir ops mounts (slash ∷ a) 0 ≡ rmdir_in ops a (some 1, 0))
rmdir-resolve_example = rmdir-resolve ops mounts mnt a 1 0 a-plain (omega arith) (omega arith) refl

read-seek-write_example :
    let fops = some (vrfs_fops memory_disk) in
    let (written, file1, s1) =
      vfs_write fops (at_pos 0 0) hi 2 (new_inode 5, formatted_sbi, machine) in
    let (at, file2, s2) = vfs_lseek fops file1 s1.0.size 0 0 s1 in
    let (bytes, file3, s3) = vfs_read fops file2 2 s2 in
    ((written ≡ none) × (formatted_sbi.sb.free_blocks ≡ 0))
    ⊎ ((written ≡ some 2)
        × (file1.pos ≡ 2)
        × (at ≡ some 0)
        × (bytes ≡ some (take 2 hi))
        × (file3.pos ≡ 2))
read-seek-write_example =
    read-seek-write ok 0 formatted_sbi (new_inode 5) hi 2 machine formatted_sbi-IsVrfs
      new_file-IsInode (omega arith) refl (omega arith) (omega arith) (omega arith) (inl refl)

-- A file of the characters "hi" in block 19.
abbrev hi_file : Inode
hi_file = record (new_inode 5) { size = 2; disk_inode = with_first_block 19 new_file }

abbrev hi_disk : Machine Blocks
hi_disk = record { disk = λ b. hi; memory = []; live = 0 }

first_byte : (vrfs_read memory_disk hi_file 1 0 hi_disk).0 ≡ some (b'h' ∷ [])
unfolding vrfs_read read_first try_alloc read_block blkdev_read bytes_at
first_byte = refl

read_again_example :
    let fops = some (vrfs_fops memory_disk) in
    let (first, file1, s1) = vfs_read fops (at_pos 0 0) 1 (hi_file, formatted_sbi, hi_disk) in
    (first ≡ some (b'h' ∷ [])) × (file1.pos ≡ 1) × ((vfs_read fops file1 1 s1).0 ≡ none)
read_again_example =
    read_again memory_disk 0 1 1 (b'h' ∷ []) hi_file formatted_sbi hi_disk first_byte (omega arith)
      (omega arith) (omega arith)

-- The tree of /b/c, where the inode 1 is a file and all others are directories.
abbrev tree : Dentry
tree = dentry (slash ∷ []) (some 4) (
    and_next
      (dentry (b'b' ∷ []) (some 5) (and_next (dentry (b'c' ∷ []) (some 1) no_dentry) no_dentry))
      no_dentry)

b-IsComponent : IsComponent (b'b' ∷ [])
b-IsComponent = record {
  some_char = omega arith;
  fits = omega arith;
  plain = (λ e. absurd (ground (arith, e)), tt);
  no_end = (λ e. absurd (ground (arith, e)), tt);
}

c-IsComponent : IsComponent (b'c' ∷ [])
c-IsComponent = record {
  some_char = omega arith;
  fits = omega arith;
  plain = (λ e. absurd (ground (arith, e)), tt);
  no_end = (λ e. absurd (ground (arith, e)), tt);
}

abbrev found_c : Dentry
found_c = dentry (b'c' ∷ []) (some 1) no_dentry

vfs_lookup-Leads_example :
    (vfs_lookup (λ i. not (i == 1)) (some tree) (slash ∷ joined (b'b' ∷ []) ((b'c' ∷ []) ∷ []))
      ≡ some found_c)
    ↔ Leads (λ i. not (i == 1)) ((b'b' ∷ []) ∷ (b'c' ∷ []) ∷ []) tree found_c
vfs_lookup-Leads_example =
    vfs_lookup-Leads (λ i. not (i == 1)) tree found_c (b'b' ∷ []) ((b'c' ∷ []) ∷ []) b-IsComponent
      (c-IsComponent, tt) (omega arith)

-- The entry that is found.
finds_c : lookup_components (λ i. not (i == 1)) ((b'b' ∷ []) ∷ (b'c' ∷ []) ∷ []) tree ≡ some found_c
unfolding lookup_components find_child strcmp
finds_c = refl
