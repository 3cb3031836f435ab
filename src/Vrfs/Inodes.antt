-- ===== src/Vrfs/Inodes.antt =====
-- The inode table of src/fs/vrfs.c: its coding, and reading and writing inodes on a reliable device.
use vros.Base.{
  if◌then◌else◌, ℕ, ◌+◌, ◌*◌, ◌/◌, ◌%◌, ◌^◌, ◌≤◌, ◌<◌, ◌≡◌, refl, sym, ap, ◌∙◌, ◌≢◌, ◌⊎◌, inl, inr,
  Bool, true, false, some, List, [], ◌∷◌, ◌++◌, arith, length, length-append, All, take, drop,
  get_or, ◌==◌, if◌then◌else◌, Bool-cases, ==→ne,
}
use vros.Bytes.{
  length-fs_memcpy, bytes_at-fs_memcpy, bytes_at-fs_memcpy_apart, word_bytes, words,
  words-word_bytes, length-word_bytes, drop-append, take-append,
}
use vros.Blkdev.{BlockDevice}
use vros.Vrfs.{
  Machine, DiskInode, SbInfo, inode_of, inode_bytes, inode_block, inode_offset, inode_size,
  vrfs_read_inode, vrfs_write_inode,
}
use vros.Vrfs.Disk.{
  Reliable, put, inode_at, table_with, read_inode_lem, write_inode_lem, content-put, content-put_ne,
}

-- The fields fit their types.
pub record IsInode (i : DiskInode) : Type 0 where
  pub mode : i.mode < 2 ^ 16
  pub links_count : i.links_count < 2 ^ 16
  pub size : i.size < 2 ^ 32
  pub blocks : i.blocks < 2 ^ 32
  pub twelve : length i.direct ≡ 12
  pub direct : All (λ v. v < 2 ^ 32) i.direct
  pub indirect : i.indirect < 2 ^ 32
  pub padding : length i.padding ≡ 12

-- The places of the tables that `vrfs_mkfs` lays out on a device with room for them.
pub record IsLayout {W : Type 0} (dev : BlockDevice W) (sbi : SbInfo) : Type 0 where
  pub inode_bitmap_block : sbi.sb.inode_bitmap_block ≡ 1
  pub block_bitmap_block : sbi.sb.block_bitmap_block ≡ 2
  pub inode_table_block : sbi.sb.inode_table_block ≡ 3
  pub data_block_start : sbi.sb.data_block_start ≡ 19
  pub inode_count : sbi.sb.inode_count ≡ 128
  pub room : 19 ≤ sbi.sb.block_count
  pub most : sbi.sb.block_count ≤ 1024
  pub inside : sbi.sb.block_count ≤ dev.size

abbrev inode_words : DiskInode → List ℕ
inode_words i = i.size ∷ i.blocks ∷ (i.direct ++ (i.indirect ∷ []))

length-inode_words : (i : DiskInode) → IsInode i → length (inode_words i) ≡ 15
length-inode_words i k = omega (arith, length-append i.direct (i.indirect ∷ []), k.twelve)

All-snoc :
    (xs : List ℕ) (v : ℕ)
    → All (λ v. v < 2 ^ 32) xs
    → v < 2 ^ 32
    → All (λ v. v < 2 ^ 32) (xs ++ (v ∷ []))
All-snoc [] v h lt = (lt, tt)
All-snoc (x ∷ xs) v h lt = (h.0, All-snoc xs v h.1 lt)

get_or-snoc : (xs : List ℕ) (v : ℕ) → get_or (xs ++ (v ∷ [])) (length xs) 0 ≡ v
get_or-snoc [] v = refl
get_or-snoc (x ∷ xs) v = get_or-snoc xs v

pub length-inode_bytes : (i : DiskInode) → IsInode i → length (inode_bytes i) ≡ inode_size
unfolding inode_bytes
length-inode_bytes i k = omega (
  arith,
  length-append (word_bytes (inode_words i)) i.padding,
  length-word_bytes (inode_words i),
  length-inode_words i k,
  k.padding,
)

low-high : (v : ℕ) → v < 2 ^ 16 → v % 256 + 256 * (v / 256 % 256) ≡ v
low-high v lt = omega arith

inode_of-words :
    (i : DiskInode) → IsInode i → words 15 (word_bytes (inode_words i) ++ i.padding) ≡ inode_words i
inode_of-words i k = rw (length-inode_words i k) at (
    words-word_bytes (inode_words i) i.padding
      (k.size, (k.blocks, All-snoc i.direct i.indirect k.direct k.indirect)))

-- An inode is read back from its bytes.
pub inode_of-inode_bytes : (i : DiskInode) → IsInode i → inode_of (inode_bytes i) ≡ i
unfolding inode_of inode_bytes
inode_of-inode_bytes i k =
    let twelve : take 12 (i.direct ++ (i.indirect ∷ [])) ≡ i.direct =
      rw (k.twelve) at (take-append i.direct (i.indirect ∷ [])) in
    let last : get_or (i.direct ++ (i.indirect ∷ [])) 12 0 ≡ i.indirect =
      rw (k.twelve) at (get_or-snoc i.direct i.indirect) in
    let rest : drop 60 (word_bytes (inode_words i) ++ i.padding) ≡ i.padding =
      rw (length-word_bytes (inode_words i), length-inode_words i k) at
        (drop-append (word_bytes (inode_words i)) i.padding) in
    rw
      (
        low-high i.mode k.mode,
        low-high i.links_count k.links_count,
        inode_of-words i k,
        twelve,
        last,
        rest,
      )
      refl

if-some :
    (b : Bool) {A : Type 0} (x y : A) → some (if b then x else y) ≡ (if b then some x else some y)
if-some true x y = refl
if-some false x y = refl

module _ {W : Type 0} {dev : BlockDevice W} (ok : Reliable dev) where
  -- The table block of an inode that is written holds it, and the other inodes as before.
  pub inode_at-put :
      (sbi : SbInfo) (n j : ℕ) (i : DiskInode) (m : Machine W)
      → IsLayout dev sbi
      → IsInode i
      → n < 128
      → j < 128
      → inode_block sbi n < dev.size
      → inode_at ok sbi (put dev (inode_block sbi n) (table_with ok sbi n i m.disk) m).disk j
        ≡ (if n == j then i else inode_at ok sbi m.disk j)
  inode_at-put sbi n j i m lay k ln lj lt =
      let b = inode_block sbi n in
      let old = ok.content m.disk b in
      let long = length-inode_bytes i k in
      let sized : length (table_with ok sbi n i m.disk) ≡ 512 =
        length-fs_memcpy old (inode_offset n) (inode_bytes i) ∙ ok.sized m.disk b in
      let there = content-put ok b (table_with ok sbi n i m.disk) m lt sized in
      elim (Bool-cases (n == j)) [
        | inl same ↦
            let eq : n ≡ j = ground (arith, same) in
            let fits : inode_offset n + length (inode_bytes i) ≤ length old =
              omega (arith, long, ok.sized m.disk b) in
            rw (same, sym eq, there)
              (ap inode_of
                  (rw (long) at (bytes_at-fs_memcpy old (inode_offset n) (inode_bytes i) fits))
                ∙ inode_of-inode_bytes i k)
        | inr other ↦
            let ne : n ≢ j = ==→ne n j other in
            rw other (elim (Bool-cases (b == inode_block sbi j)) [
              | inl same ↦
                  let eq : b ≡ inode_block sbi j = ground (arith, same) in
                  let apart : (inode_offset j + inode_size ≤ inode_offset n)
                      ⊎ (inode_offset n + length (inode_bytes i) ≤ inode_offset j) =
                    ground (arith, eq, ne, long, lay.inode_table_block) in
                  rw (sym eq, there)
                    (ap inode_of (
                      bytes_at-fs_memcpy_apart old (inode_offset n) (inode_bytes i) (inode_offset j)
                        inode_size apart))
              | inr apart ↦
                  rw
                    (content-put_ne ok b (inode_block sbi j) (table_with ok sbi n i m.disk) m
                      (==→ne b (inode_block sbi j) apart))
                    refl
            ])
      ]

  -- On a reliable device laid out by vrfs_mkfs, with memory for the buffer, for inode numbers below
  -- 128 whose table blocks are on the device: writing an inode whose fields fit their types
  -- succeeds, reading that number gives it back, reading any other number gives what it gave
  -- before, and no buffer stays allocated.
  pub read_inode-write_inode :
      (sbi : SbInfo) (n j : ℕ) (i : DiskInode) (m : Machine W)
      → IsLayout dev sbi
      → IsInode i
      → n < 128
      → j < 128
      → inode_block sbi n < dev.size
      → inode_block sbi j < dev.size
      → m.memory ≡ []
      → let (written, m') = vrfs_write_inode dev sbi n i m in
        (written ≡ true)
        × ((vrfs_read_inode dev sbi j m').0
            ≡ (if n == j then some i else (vrfs_read_inode dev sbi j m).0))
        × (m'.live ≡ m.live)
  read_inode-write_inode sbi n j i m lay k ln lj bn bj plenty =
      let m' = put dev (inode_block sbi n) (table_with ok sbi n i m.disk) m in
      rw
        (
          write_inode_lem ok sbi n i m plenty bn,
          read_inode_lem ok sbi j m plenty bj,
          read_inode_lem ok sbi j m' plenty bj,
          inode_at-put sbi n j i m lay k ln lj bn,
        )
        (refl, if-some (n == j) _ _, refl)
