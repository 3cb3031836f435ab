-- ===== src/Blkdev/Tests.antt =====
-- Registering a device "hda" of 10 blocks of zeroes.
use vros.Base.{
  All-replicate, ℕ, ◌+◌, ◌≡◌, refl, ◌≢◌, ◌⊎◌, true, Option, none, some, List, [], ◌∷◌, arith,
  length, get_or, replicate,
}
use vros.Blkdev.{BlockDevice, no_device, blkdev_register, blkdev_get, blkdev_read}
use vros.Blkdev.Table.{get_device-register}

abbrev slot : BlockDevice ℕ
slot = record no_device { name = replicate 16 0 }

abbrev table : List (BlockDevice ℕ)
table = replicate 8 slot

abbrev hda : List ℕ
hda = b'h' ∷ b'd' ∷ b'a' ∷ []

abbrev zeroes : Option (ℕ → ℕ → Option (List ℕ) × ℕ)
zeroes = some (λ block w. (some (replicate 512 0), w + 1))

get_device-register_example :
    let out = blkdev_register hda 10 zeroes none 0 table in
    ((out.0 ≡ none) × (out.1 ≡ table))
    ⊎ ((i : ℕ) × (out.0 ≡ some i)
        × (blkdev_get hda out.1 ≡ some i)
        × ((get_or out.1 i no_device).size ≡ 10)
        × ((get_or out.1 i no_device).read ≡ zeroes)
        × ((get_or out.1 i no_device).write ≡ none)
        × ((j : ℕ) → i ≢ j → get_or out.1 j no_device ≡ get_or table j no_device))
get_device-register_example =
    get_device-register hda 10 zeroes none 0 table (omega arith)
      (All-replicate (λ (d : BlockDevice ℕ). length d.name ≡ 16) 8 slot refl)
      (refl, (refl, (refl, (refl, (refl, (refl, (refl, (refl, tt))))))))

-- A block behind the end does not reach the driver.
beyond :
    blkdev_read (some (record no_device { in_use = true; size = 10; read = zeroes })) 10 7
    ≡ (none, 7)
unfolding blkdev_read
beyond = refl
