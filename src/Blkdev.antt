-- ===== src/Blkdev.antt =====
-- The block devices, src/drivers/blkdev.c with include/blkdev.h. A driver's functions, which the
-- table holds as pointers, are functions on the state `W` of the hardware: a read gives the bytes of
-- the block, or `none` for a negative result; a write tells whether its result is 0.
pub mod Table
pub mod Tests
use vros.Base.{
  ℕ, zero, suc, ◌+◌, Bool, true, false, not, ◌&&◌, Option, none, some, List, [], ◌∷◌, get_or, set,
  leb, if◌then◌else◌,
}
use vros.CString.{strcmp, strncpy}

-- struct block_device
pub record BlockDevice (W : Type 0) : Type 0 where
  pub name : List ℕ
  pub in_use : Bool
  pub size : ℕ
  pub read : Option (ℕ → W → Option (List ℕ) × W)
  pub write : Option (ℕ → List ℕ → W → Bool × W)
  pub private_data : ℕ

abbrev pub max_block_devices : ℕ
max_block_devices = 8

abbrev pub no_device : {W : Type 0} → BlockDevice W
no_device = record {
  name = [];
  in_use = false;
  size = 0;
  read = none;
  write = none;
  private_data = 0;
}

module _ {W : Type 0} where
  pub blkdev_init : List (BlockDevice W) → List (BlockDevice W)
  blkdev_init [] = []
  blkdev_init (d ∷ ds) = record d { in_use = false; name = set d.name 0 0 } ∷ blkdev_init ds

  -- The first slot that is not in use, counted from `i` on.
  pub free_slot : ℕ → List (BlockDevice W) → Option ℕ
  free_slot i [] = none
  free_slot i (d ∷ ds) = if not d.in_use then some i else free_slot (i + 1) ds

  -- `none` is the result -1.
  pub blkdev_register :
      List ℕ
      → ℕ
      → Option (ℕ → W → Option (List ℕ) × W)
      → Option (ℕ → List ℕ → W → Bool × W)
      → ℕ
      → List (BlockDevice W)
      → Option ℕ × List (BlockDevice W)
  blkdev_register name size read write private_data table = elim (free_slot 0 table) [
    | none ↦ (none, table)
    | some i ↦ (
      some i,
      set table i (record {
        name = strncpy 16 (get_or table i no_device).name name;
        in_use = true;
        size = size;
        read = read;
        write = write;
        private_data = private_data;
      }),
    )
  ]

  -- The loop of `blkdev_get`, counted from `i` on; a pointer into the table is its index.
  unfoldable pub find_device : List ℕ → ℕ → List (BlockDevice W) → Option ℕ
  find_device name i [] = none
  find_device name i (d ∷ ds) =
      if d.in_use && strcmp d.name name then some i else find_device name (i + 1) ds

  unfoldable pub blkdev_get : List ℕ → List (BlockDevice W) → Option ℕ
  blkdev_get name table = find_device name 0 table

  -- A NULL device is `none`.
  unfoldable pub blkdev_read : Option (BlockDevice W) → ℕ → W → Option (List ℕ) × W
  blkdev_read none block w = (none, w)
  blkdev_read (some dev) block w = if not dev.in_use then (none, w) else elim dev.read [
    | none ↦ (none, w)
    | some read ↦ if leb dev.size block then (none, w) else read block w
  ]

  unfoldable pub blkdev_write : Option (BlockDevice W) → ℕ → List ℕ → W → Bool × W
  blkdev_write none block buffer w = (false, w)
  blkdev_write (some dev) block buffer w = if not dev.in_use then (false, w) else elim dev.write [
    | none ↦ (false, w)
    | some write ↦ if leb dev.size block then (false, w) else write block buffer w
  ]
