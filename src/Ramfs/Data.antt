-- ===== src/Ramfs/Data.antt =====
-- The data of files in src/fs/ramfs.c: what is written is read, and nothing else changes.
use vros.Base.{
  ℕ, zero, suc, ◌+◌, ◌*◌, ◌%◌, ◌^◌, ◌≤◌, ◌<◌, ◌≡◌, refl, ap, ◌∙◌, ◌⊎◌, inl, inr, false, Option,
  none, some, List, [], ◌∷◌, length, take, ltb, leb, if◌then◌else◌, arith, Bool-cases, Option-cases,
  max,
}
use vros.Bytes.{fs_memcpy, bytes_at, length-fs_memcpy, bytes_at-fs_memcpy, bytes_at-fs_memcpy_apart}
use vros.Vrfs.ReadWrite.{length-take}
use vros.Ramfs.{copied, RamData, ramfs_read, expanded, written, ramfs_write}

-- The bytes of a node, none for NULL.
abbrev pub bytes_of : Option (List ℕ) → List ℕ
bytes_of none = []
bytes_of (some bytes) = bytes

pub record IsData (node : RamData) : Type 0 where
  pub capacity : length (bytes_of node.data_bytes) ≡ node.capacity
  pub room : node.size ≤ node.capacity
  pub same_size : node.inode_size ≡ node.size

-- What memory a call of kmalloc gives has the size asked for.
abbrev pub Gives : (ℕ → Option (List ℕ)) → Type 0
Gives kmalloc = (n : ℕ) (bytes : List ℕ) → kmalloc n ≡ some bytes → length bytes ≡ n

bytes_at-bytes_at :
    (bytes : List ℕ) (size at n : ℕ)
    → at + n ≤ size
    → bytes_at (bytes_at bytes 0 size) at n ≡ bytes_at bytes at n
unfolding bytes_at
bytes_at-bytes_at [] size at n le = refl
bytes_at-bytes_at (b ∷ bytes) zero zero zero le = refl
bytes_at-bytes_at (b ∷ bytes) zero zero (suc n) le = absurd (omega arith)
bytes_at-bytes_at (b ∷ bytes) zero (suc at) n le = absurd (omega arith)
bytes_at-bytes_at (b ∷ bytes) (suc size) zero zero le = refl
bytes_at-bytes_at (b ∷ bytes) (suc size) zero (suc n) le =
    ap (◌∷◌ b) (bytes_at-bytes_at bytes size zero n (omega arith))
bytes_at-bytes_at (b ∷ bytes) (suc size) (suc at) n le =
    bytes_at-bytes_at bytes size at n (omega arith)

-- A part of what is copied to the start.
bytes_at-copied :
    (buffer src : List ℕ) (at n : ℕ)
    → length src ≤ length buffer
    → at + n ≤ length src
    → bytes_at (fs_memcpy buffer 0 src) at n ≡ bytes_at src at n
unfolding bytes_at fs_memcpy
bytes_at-copied [] [] at n le part = refl
bytes_at-copied [] (c ∷ src) at n le part = absurd (omega arith)
bytes_at-copied (b ∷ buffer) [] zero zero le part = refl
bytes_at-copied (b ∷ buffer) [] zero (suc n) le part = absurd (omega arith)
bytes_at-copied (b ∷ buffer) [] (suc at) n le part = absurd (omega arith)
bytes_at-copied (b ∷ buffer) (c ∷ src) zero zero le part = refl
bytes_at-copied (b ∷ buffer) (c ∷ src) zero (suc n) le part =
    ap (◌∷◌ c) (bytes_at-copied buffer src zero n (omega arith) (omega arith))
bytes_at-copied (b ∷ buffer) (c ∷ src) (suc at) n le part =
    bytes_at-copied buffer src at n (omega arith) (omega arith)

length-bytes_at : (bytes : List ℕ) (n : ℕ) → n ≤ length bytes → length (bytes_at bytes 0 n) ≡ n
unfolding bytes_at
length-bytes_at [] zero le = refl
length-bytes_at [] (suc n) le = absurd (omega arith)
length-bytes_at (b ∷ bytes) zero le = refl
length-bytes_at (b ∷ bytes) (suc n) le = ap suc (length-bytes_at bytes n (omega arith))

nothing : (memory : List ℕ) (at n : ℕ) → at + n ≤ 0 → bytes_at memory at n ≡ bytes_at [] at n
unfolding bytes_at
nothing [] at n le = refl
nothing (b ∷ memory) zero zero le = refl
nothing (b ∷ memory) zero (suc n) le = absurd (omega arith)
nothing (b ∷ memory) (suc at) n le = absurd (omega arith)

copied_lem :
    (old : Option (List ℕ)) (memory : List ℕ) (size : ℕ)
    → size ≤ length (bytes_of old)
    → size ≤ length memory
    → (length (copied old memory size) ≡ length memory)
      × ((at n : ℕ)
          → at + n ≤ size
          → bytes_at (copied old memory size) at n ≡ bytes_at (bytes_of old) at n)
copied_lem none memory size le fits = (refl, λ at n part. nothing memory at n (omega arith))
copied_lem (some old) memory size le fits =
    let long = length-bytes_at old size le in
    (
      length-fs_memcpy memory 0 (bytes_at old 0 size),
      λ at n part.
          bytes_at-copied memory (bytes_at old 0 size) at n (omega (arith, long))
            (omega (arith, long))
          ∙ bytes_at-bytes_at old size at n part,
    )

-- Expanding keeps the bytes within the size.
expanded_lem :
    (kmalloc : ℕ → Option (List ℕ)) (required : ℕ) (node : RamData)
    → Gives kmalloc
    → IsData node
    → required < 2 ^ 31
    → ((expanded kmalloc required node ≡ none) × (node.capacity < required))
      ⊎ ((room : RamData) × (expanded kmalloc required node ≡ some room)
          × IsData room
          × (required ≤ room.capacity)
          × (room.size ≡ node.size)
          × ((at n : ℕ)
              → at + n ≤ node.size
              → bytes_at (bytes_of room.data_bytes) at n
                ≡ bytes_at (bytes_of node.data_bytes) at n))
unfolding expanded
expanded_lem kmalloc required node gives k small = elim (Bool-cases (ltb node.capacity required)) [
  | inr fits ↦ inr (node, rw fits refl, k, ground (arith, fits), refl, λ at n le. refl)
  | inl more ↦
      let new = required * 2 % 2 ^ 32 in
      elim (Option-cases (kmalloc new)) [
        | inl no_memory ↦ inl (rw (more, no_memory) refl, ground (arith, more))
        | inr (memory, e) ↦
            let bytes = copied node.data_bytes memory node.size in
            let room : RamData = record node { data_bytes = some bytes; capacity = new } in
            let length_new : length memory ≡ new = gives new memory e in
            let double : new ≡ required * 2 = omega arith in
            let larger : node.capacity < required = ground (arith, more) in
            let (sized, kept) =
              copied_lem node.data_bytes memory node.size (omega (arith, k.capacity, k.room))
                (omega (arith, length_new, double, larger, k.room)) in
            inr (
              room,
              rw (more, e) refl,
              record {
                capacity = sized ∙ length_new;
                room = omega (arith, double, larger, k.room);
                same_size = k.same_size;
              },
              omega (arith, double),
              refl,
              kept,
            )
      ]
]

kept_apart :
    (room : RamData) (bytes src : List ℕ) (at n offset : ℕ)
    → room.data_bytes ≡ some bytes
    → (at + n ≤ offset) ⊎ (offset + length src ≤ at)
    → bytes_at (bytes_of (written src offset room.data_bytes)) at n
      ≡ bytes_at (bytes_of room.data_bytes) at n
unfolding written
kept_apart room bytes src at n offset e apart =
    rw (e) (bytes_at-fs_memcpy_apart bytes offset src at n apart)

-- The node after a write into one with room.
abbrev stored : RamData → List ℕ → ℕ → ℕ → RamData
stored room buffer offset required = record room {
  data_bytes = written buffer offset room.data_bytes;
  size = if ltb room.size required then required else room.size;
  inode_size = if ltb room.size required then required else room.inode_size;
}

read-stored :
    (room : RamData) (bytes buffer : List ℕ) (size offset required : ℕ)
    → room.data_bytes ≡ some bytes
    → offset + size ≤ length bytes
    → length buffer ≡ size
    → required ≡ offset + size
    → 0 < size
    → offset + size < 2 ^ 31
    → ramfs_read (stored room buffer offset required) size offset ≡ buffer
unfolding ramfs_read written
read-stored room bytes buffer size offset required e fits long exact pos small =
    let found : bytes_at (fs_memcpy bytes offset buffer) offset size ≡ buffer =
      rw (long) at (bytes_at-fs_memcpy bytes offset buffer (omega (arith, fits, long))) in
    let size' = if ltb room.size required then required else room.size in
    let large : offset + size ≤ size' = ground (arith, exact) in
    let inside : leb size' offset ≡ false = ground (arith, large, pos) in
    let whole : ltb size' ((offset + size) % 2 ^ 32) ≡ false = ground (arith, large, small) in
    rw (e, inside, whole) found

stored-IsData :
    (room : RamData) (bytes buffer : List ℕ) (offset required : ℕ)
    → IsData room
    → room.data_bytes ≡ some bytes
    → required ≤ room.capacity
    → IsData (stored room buffer offset required)
unfolding written
stored-IsData room bytes buffer offset required k e fits = record {
  capacity = rw (e) (length-fs_memcpy bytes offset buffer ∙ (rw (e) at k.capacity));
  room = ground (arith, fits, k.room);
  same_size = ground (arith, k.same_size);
}

-- Where kmalloc gives memory of the size asked for or none, and the capacity and sizes of a file
-- are those of its data: writing 1 or more bytes that end below 2 ^ 31 either finds no memory,
-- which happens only beyond the capacity, and changes nothing, or returns the size; then the
-- capacity and sizes are again right, the size is the larger of the old one and the end of what is
-- written, reading there gives the bytes written, and every part of the old data before or behind
-- it is kept.
pub read-write_ram :
    (kmalloc : ℕ → Option (List ℕ)) (node : RamData) (buffer : List ℕ) (size offset : ℕ)
    → Gives kmalloc
    → IsData node
    → 0 < size
    → size ≤ length buffer
    → offset + size < 2 ^ 31
    → let (r, node') = ramfs_write kmalloc node buffer size offset in
      ((r ≡ none) × (node' ≡ node) × (node.capacity < offset + size))
      ⊎ ((r ≡ some size)
          × IsData node'
          × (node'.size ≡ max node.size (offset + size))
          × (ramfs_read node' size offset ≡ take size buffer)
          × ((at n : ℕ)
              → at + n ≤ node.size
              → (at + n ≤ offset) ⊎ (offset + size ≤ at)
              → bytes_at (bytes_of node'.data_bytes) at n
                ≡ bytes_at (bytes_of node.data_bytes) at n))
unfolding ramfs_write
read-write_ram kmalloc node buffer size offset gives k pos enough small =
    let required = (offset + size) % 2 ^ 32 in
    let exact : required ≡ offset + size = omega arith in
    let long : length (take size buffer) ≡ size = length-take size buffer enough in
    let src = take size buffer in
    elim (expanded_lem kmalloc required node gives k (omega (arith, exact))) [
      | inl (no_memory, full) ↦
          inl (rw (ramfs_write, no_memory) (refl, refl, omega (arith, full, exact)))
      | inr (room, e, k', fits, same, kept) ↦ elim (Option-cases room.data_bytes) [
        | inl null ↦
            let empty : 0 ≡ room.capacity = rw (null) at k'.capacity in
            absurd (omega (arith, empty, fits, exact))
        | inr (bytes, b) ↦
            let sized : length bytes ≡ room.capacity = rw (b) at k'.capacity in
            let call : ramfs_write kmalloc node buffer size offset
                ≡ (some size, stored room src offset required) =
              rw (ramfs_write, e) refl in
            rw call (
              inr (
                refl,
                stored-IsData room bytes src offset required k' b fits,
                ground (arith, same, exact),
                read-stored room bytes src size offset required b
                    (omega (arith, sized, fits, exact)) long exact pos small,
                λ at n part apart.
                    kept_apart room bytes src at n offset b (ground (arith, long, apart))
                    ∙ kept at n part,
              ))
      ]
    ]
