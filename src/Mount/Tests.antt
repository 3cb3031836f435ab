-- ===== src/Mount/Tests.antt =====
-- Mounting the device "hda" at "/mnt".
use vros.Base.{
  All-replicate, ℕ, ◌≡◌, refl, ◌≢◌, true, some, List, [], ◌∷◌, ◌++◌, arith, length, replicate,
}
use vros.CString.{strcmp, strncpy}
use vros.Blkdev.{find_device, BlockDevice, no_device, blkdev_get}
use vros.Mount.{
  MountPoint, MountResult, no_mount, find_mount, free_mount, vrfs_type, mount_fs, mount_get_sb,
}
use vros.Mount.Table.{get_sb-mount}

abbrev hda : List ℕ
hda = b'h' ∷ b'd' ∷ b'a' ∷ []

abbrev mnt : List ℕ
mnt = b'/' ∷ b'm' ∷ b'n' ∷ b't' ∷ []

abbrev disk : BlockDevice ℕ
disk = record no_device { name = hda ++ replicate 13 0; in_use = true; size = 10 }

abbrev disks : List (BlockDevice ℕ)
disks = disk ∷ []

abbrev free_point : MountPoint
free_point = record no_mount { path = replicate 256 0 }

abbrev points : List MountPoint
points = free_point ∷ free_point ∷ []

abbrev superblock : ℕ → ℕ
superblock bdev = 4096

disk_found : blkdev_get hda disks ≡ some 0
unfolding blkdev_get find_device strcmp
disk_found = refl

mounts : (mount_fs superblock hda mnt vrfs_type disks points).0 ≡ MountResult.mounted
unfolding mount_fs find_mount free_mount blkdev_get find_device strcmp strncpy
mounts = refl

get_sb-mount_example :
    let out = mount_fs superblock hda mnt vrfs_type disks points in
    (bdev : ℕ) × (blkdev_get hda disks ≡ some bdev)
    × (superblock bdev ≢ 0)
    × (mount_get_sb mnt out.1 ≡ superblock bdev)
    × (mount_fs superblock hda mnt vrfs_type disks out.1 ≡ (MountResult.already_mounted, out.1))
get_sb-mount_example =
    get_sb-mount superblock hda mnt vrfs_type disks points mounts (omega arith)
      (All-replicate (λ (m : MountPoint). length m.path ≡ 256) 2 free_point refl)
