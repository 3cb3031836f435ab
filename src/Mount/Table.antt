-- ===== src/Mount/Table.antt =====
-- Mounting and search in the table of mount.c.
use vros.Base.{
  Bool-cases, ℕ, zero, suc, ◌+◌, ◌≤◌, ◌<◌, ◌≡◌, refl, ap, ◌∙◌, ◌≢◌, inl, inr, true, ◌&&◌, none,
  some, List, [], ◌∷◌, arith, length, get_or, set, All,
}
use vros.Base.{All-at, Option-cases, get_or-set_self}
use vros.CString.{strcmp, strncpy, text, strcmp-strncpy}
use vros.Blkdev.{BlockDevice, blkdev_get}
use vros.Mount.{MountPoint, MountResult, no_mount, find_mount, free_mount, mount_fs, mount_get_sb}

free_mount-lt :
    (ms : List MountPoint) (k i : ℕ) → free_mount k ms ≡ some i → (k ≤ i) × (i < k + length ms)
unfolding free_mount
free_mount-lt [] k i e = cc
free_mount-lt (m ∷ ms) k i e = elim (Bool-cases m.in_use) [
  | inl used ↦
      let (lo, hi) = free_mount-lt ms (k + 1) i (ground (arith, e, used)) in
      (omega arith, omega arith)
  | inr unused ↦ let at : k ≡ i = ground (arith, e, unused) in (omega arith, omega arith)
]

find_mount-set :
    (path : List ℕ) (m : MountPoint) (ms : List MountPoint) (k i : ℕ)
    → find_mount path k ms ≡ none
    → i < length ms
    → (m.in_use && strcmp m.path path) ≡ true
    → find_mount path k (set ms i m) ≡ some (k + i)
unfolding find_mount
find_mount-set path m [] k i e lt hit = absurd (omega arith)
find_mount-set path m (x ∷ ms) k zero e lt hit = rw hit (ap some (omega arith))
find_mount-set path m (x ∷ ms) k (suc i) e lt hit =
    elim (Bool-cases (x.in_use && strcmp x.path path)) [
      | inl found ↦ absurd (ground (arith, e, found))
      | inr other ↦ rw other (
          find_mount-set path m ms (k + 1) i (ground (arith, e, other)) (omega arith) hit
          ∙ ap some (omega arith))
    ]

module _ {W : Type 0} (vrfs_mount : ℕ → ℕ) (device path fstype : List ℕ)
    (devices : List (BlockDevice W)) (table : List MountPoint) where
  abbrev outcome : MountResult × List MountPoint
  outcome = mount_fs vrfs_mount device path fstype devices table

  -- What a mount point becomes.
  abbrev mount_point : ℕ → ℕ → MountPoint
  mount_point slot bdev = record {
    path = strncpy 256 (get_or table slot no_mount).path path;
    sb = vrfs_mount bdev;
    bdev = some bdev;
    in_use = true;
  }

  mounted_slot :
      outcome.0 ≡ MountResult.mounted
      → (slot : ℕ) × (bdev : ℕ) × (find_mount path 0 table ≡ none)
        × (free_mount 0 table ≡ some slot)
        × (blkdev_get device devices ≡ some bdev)
        × (vrfs_mount bdev ≢ 0)
        × (outcome.1 ≡ set table slot (mount_point slot bdev))
  unfolding mount_fs
  mounted_slot ok = elim (Option-cases (find_mount path 0 table)) [
    | inr (i, there) ↦ absurd (ground (arith, ok, there))
    | inl absent ↦ elim (Option-cases (free_mount 0 table)) [
      | inl full ↦ absurd (ground (arith, ok, absent, full))
      | inr (slot, found) ↦ elim (Option-cases (blkdev_get device devices)) [
        | inl missing ↦ absurd (ground (arith, ok, absent, found, missing))
        | inr (bdev, device_found) ↦
            let ne : vrfs_mount bdev ≢ 0 = ground (arith, ok, absent, found, device_found) in
            (
              slot,
              bdev,
              absent,
              found,
              device_found,
              ne,
              ground (arith, ok, absent, found, device_found),
            )
      ]
    ]
  ]

  -- After a mount that succeeds, at a path of fewer than 256 characters and with path arrays of 256
  -- places: the device of the name exists, the path leads to the superblock that vrfs_mount gives
  -- for it, and mounting at the path again reports that it is mounted and changes nothing.
  pub get_sb-mount :
      outcome.0 ≡ MountResult.mounted
      → length (text path) < 256
      → All (λ m. length m.path ≡ 256) table
      → (bdev : ℕ) × (blkdev_get device devices ≡ some bdev)
        × (vrfs_mount bdev ≢ 0)
        × (mount_get_sb path outcome.1 ≡ vrfs_mount bdev)
        × (mount_fs vrfs_mount device path fstype devices outcome.1
            ≡ (MountResult.already_mounted, outcome.1))
  unfolding mount_get_sb mount_fs
  get_sb-mount ok short arrays =
      let (slot, bdev, absent, found, device_found, ne, stored) = mounted_slot ok in
      let within : slot < length table = (omega (arith, free_mount-lt table 0 slot found)) in
      let dest = (get_or table slot no_mount).path in
      let sized : length dest ≡ 256 =
        All-at (λ (m : MountPoint). length m.path ≡ 256) table slot no_mount arrays within in
      let hit : strcmp (strncpy 256 dest path) path ≡ true =
        strcmp-strncpy 256 dest path short (omega (arith, sized)) in
      let there : find_mount path 0 outcome.1 ≡ some slot =
        ap (find_mount path 0) stored
        ∙ find_mount-set path (mount_point slot bdev) table 0 slot absent within hit
        ∙ ap some (omega arith) in
      let sb : (get_or outcome.1 slot no_mount).sb ≡ vrfs_mount bdev =
        ap (λ t. (get_or t slot no_mount).sb) stored
        ∙ ap (λ (m : MountPoint). m.sb)
            (get_or-set_self table slot (mount_point slot bdev) no_mount within) in
      (bdev, device_found, ne, rw (mount_get_sb, there) sb, rw (mount_fs, there) refl)
