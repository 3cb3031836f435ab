-- ===== src/Blkdev/Table.antt =====
-- Registration and search in the table of blkdev.c.
use vros.Base.{
  ℕ, zero, suc, ◌+◌, ◌-◌, ◌≤◌, ◌<◌, ◌≡◌, refl, ap, ◌∙◌, ◌≢◌, ◌⊎◌, inl, inr, Bool, true, false, ◌&&◌,
  Option, none, some, List, [], ◌∷◌, arith, length, get_or, set, All,
}
use vros.Base.{All-at, get_or-set_self, get_or-set_ne, Bool-cases, Option-cases}
use vros.CString.{strcmp-strncpy, strcmp, strncpy, text}
use vros.Blkdev.{BlockDevice, no_device, free_slot, find_device, blkdev_register, blkdev_get}

module _ {W : Type 0} where
  pub free_slot_lem :
      (ds : List (BlockDevice W)) (k i : ℕ)
      → free_slot k ds ≡ some i
      → (k ≤ i) × (i < k + length ds) × ((get_or ds (i - k) no_device).in_use ≡ false)
  unfolding free_slot
  free_slot_lem [] k i e = cc
  free_slot_lem (d ∷ ds) k i e = elim (Bool-cases d.in_use) [
    | inl used ↦
        let (lo, hi, f) = free_slot_lem ds (k + 1) i (ground (arith, e, used)) in
        let back : i - k ≡ suc (i - (k + 1)) = omega arith in (omega arith, omega arith, rw back f)
    | inr unused ↦
        let at : k ≡ i = ground (arith, e, unused) in
        let zero_off : i - k ≡ 0 = omega arith in (omega arith, omega arith, rw zero_off unused)
  ]

  -- No device in use has the name.
  abbrev pub Unnamed : List ℕ → List (BlockDevice W) → Type 0
  Unnamed name ds = All (λ d. (d.in_use && strcmp d.name name) ≡ false) ds

  find_device-set :
      (name : List ℕ) (d : BlockDevice W) (ds : List (BlockDevice W)) (k i : ℕ)
      → Unnamed name ds
      → i < length ds
      → (d.in_use && strcmp d.name name) ≡ true
      → find_device name k (set ds i d) ≡ some (k + i)
  unfolding find_device
  find_device-set name d [] k i fresh lt hit = absurd (omega arith)
  find_device-set name d (x ∷ ds) k zero fresh lt hit = rw hit (ap some (omega arith))
  find_device-set name d (x ∷ ds) k (suc i) fresh lt hit =
      rw (fresh.0)
        (find_device-set name d ds (k + 1) i fresh.1 (omega arith) hit ∙ ap some (omega arith))

  -- Where every name array has 16 places and no device in use has the name: registering a device
  -- under a name of fewer than 16 characters either finds every slot in use and changes nothing, or
  -- blkdev_get then leads from the name to that device, with the size and the functions given, and
  -- the other slots stay.
  pub get_device-register :
      (name : List ℕ) (size : ℕ) (read : Option (ℕ → W → Option (List ℕ) × W))
      (write : Option (ℕ → List ℕ → W → Bool × W)) (private_data : ℕ) (table : List (BlockDevice W))
      → length (text name) < 16
      → All (λ d. length d.name ≡ 16) table
      → Unnamed name table
      → let (r, table') = blkdev_register name size read write private_data table in
        ((r ≡ none) × (table' ≡ table))
        ⊎ ((i : ℕ) × (r ≡ some i)
            × (blkdev_get name table' ≡ some i)
            × ((get_or table' i no_device).size ≡ size)
            × ((get_or table' i no_device).read ≡ read)
            × ((get_or table' i no_device).write ≡ write)
            × ((j : ℕ) → i ≢ j → get_or table' j no_device ≡ get_or table j no_device))
  unfolding blkdev_register blkdev_get
  get_device-register name size read write private_data table short arrays fresh =
      elim (Option-cases (free_slot 0 table)) [
        | inl full ↦
            let call : blkdev_register name size read write private_data table ≡ (none, table) =
              rw (blkdev_register, full) refl in
            rw call (inl (refl, refl))
        | inr (i, found) ↦
            let (low, lt, off) = free_slot_lem table 0 i found in
            let within : i < length table = omega (arith, lt) in
            let dest = (get_or table i no_device).name in
            let sized : length dest ≡ 16 =
              All-at (λ d. length d.name ≡ 16) table i no_device arrays within in
            let dev : BlockDevice W = record {
              name = strncpy 16 dest name;
              in_use = true;
              size = size;
              read = read;
              write = write;
              private_data = private_data;
            } in
            let hit : strcmp dev.name name ≡ true =
              strcmp-strncpy 16 dest name short (omega (arith, sized)) in
            let there : get_or (set table i dev) i no_device ≡ dev =
              get_or-set_self table i dev no_device within in
            let call : blkdev_register name size read write private_data table
                ≡ (some i, set table i dev) =
              rw (blkdev_register, found) refl in
            rw call (
              inr (
                i,
                refl,
                find_device-set name dev table 0 i fresh within hit ∙ ap some (omega arith),
                ap (λ (d : BlockDevice W). d.size) there,
                ap (λ (d : BlockDevice W). d.read) there,
                ap (λ (d : BlockDevice W). d.write) there,
                λ j ne. get_or-set_ne table i j dev no_device ne,
              ))
      ]
