-- ===== src/Mount.antt =====
-- The mount table, src/fs/mount.c with include/mount.h. A superblock is a pointer, 0 for NULL; what
-- `vrfs_mount` gives for a device of the table is an argument, and `unmount_fs` also gives the
-- superblock that it hands to `vrfs_unmount`.
pub mod Table
pub mod Tests
use vros.Base.{
  ℕ, zero, suc, ◌+◌, Bool, true, false, not, ◌&&◌, Option, none, some, List, [], ◌∷◌, get_or, set,
  ◌==◌, if◌then◌else◌,
}
use vros.CString.{strcmp, strncpy}
use vros.Blkdev.{BlockDevice, blkdev_get}

-- struct mount_point; `bdev` is an index into the table of block devices, `none` for NULL.
pub record MountPoint : Type 0 where
  pub path : List ℕ
  pub sb : ℕ
  pub bdev : Option ℕ
  pub in_use : Bool

abbrev pub no_mount : MountPoint
no_mount = record { path = []; sb = 0; bdev = none; in_use = false }

pub mount_init : List MountPoint → List MountPoint
mount_init [] = []
mount_init (m ∷ ms) = record m { in_use = false; sb = 0; bdev = none } ∷ mount_init ms

-- The results 0, -1 and -2 of `mount_fs`.
pub data MountResult : Type 0 where
  mounted mount_failed already_mounted : MountResult

-- The first mount point in use at the path, counted from `i` on.
pub find_mount : List ℕ → ℕ → List MountPoint → Option ℕ
find_mount path i [] = none
find_mount path i (m ∷ ms) =
    if m.in_use && strcmp m.path path then some i else find_mount path (i + 1) ms

pub free_mount : ℕ → List MountPoint → Option ℕ
free_mount i [] = none
free_mount i (m ∷ ms) = if not m.in_use then some i else free_mount (i + 1) ms

-- "vrfs"
abbrev pub vrfs_type : List ℕ
vrfs_type = b'v' ∷ b'r' ∷ b'f' ∷ b's' ∷ []

module _ {W : Type 0} where
  pub mount_fs :
      (ℕ → ℕ)
      → List ℕ
      → List ℕ
      → List ℕ
      → List (BlockDevice W)
      → List MountPoint
      → MountResult × List MountPoint
  mount_fs vrfs_mount device path fstype devices table = elim (find_mount path 0 table) [
    | some i ↦ (MountResult.already_mounted, table)
    | none ↦ elim (free_mount 0 table) [
      | none ↦ (MountResult.mount_failed, table)
      | some slot ↦ elim (blkdev_get device devices) [
        | none ↦ (MountResult.mount_failed, table)
        | some bdev ↦
            if not (strcmp fstype vrfs_type)
            then (MountResult.mount_failed, table)
            else if vrfs_mount bdev == 0
            then (MountResult.mount_failed, table)
            else (
              MountResult.mounted,
              set table slot (record {
                path = strncpy 256 (get_or table slot no_mount).path path;
                sb = vrfs_mount bdev;
                bdev = some bdev;
                in_use = true;
              }),
            )
      ]
    ]
  ]

-- Whether a mount point was found, the superblock for `vrfs_unmount`, and the table.
pub unmount_fs : List ℕ → List MountPoint → Bool × Option ℕ × List MountPoint
unmount_fs path table = elim (find_mount path 0 table) [
  | none ↦ (false, none, table)
  | some i ↦
      let m = get_or table i no_mount in
      (
        true,
        if m.sb == 0 then none else some m.sb,
        set table i (record m { in_use = false; sb = 0; bdev = none }),
      )
]

pub mount_get_sb : List ℕ → List MountPoint → ℕ
mount_get_sb path table = elim (find_mount path 0 table) [
  | none ↦ 0
  | some i ↦ (get_or table i no_mount).sb
]
