-- ===== src/Bytes.antt =====
-- Byte buffers: the copy of src/fs/vrfs.c, and structures of little-endian words as their bytes.
use vros.Base.{
  ℕ, zero, suc, ◌+◌, ◌*◌, ◌/◌, ◌%◌, ◌^◌, ◌≤◌, ◌<◌, ◌≡◌, refl, ap, ◌⊎◌, List, [], ◌∷◌, ◌++◌, arith,
  length, take, drop, All,
}

-- `fs_memcpy(buffer + off, src, n)` for the `n` bytes of `src`; bytes behind the end of the buffer
-- are not part of the model.
unfoldable pub fs_memcpy : List ℕ → ℕ → List ℕ → List ℕ
fs_memcpy [] off src = []
fs_memcpy (b ∷ buffer) (suc off) src = b ∷ fs_memcpy buffer off src
fs_memcpy (b ∷ buffer) zero [] = b ∷ buffer
fs_memcpy (b ∷ buffer) zero (c ∷ src) = c ∷ fs_memcpy buffer zero src

-- The `n` bytes from `buffer + off` on, or those of them that are in the buffer.
unfoldable pub bytes_at : List ℕ → ℕ → ℕ → List ℕ
bytes_at [] off n = []
bytes_at (b ∷ buffer) (suc off) n = bytes_at buffer off n
bytes_at (b ∷ buffer) zero zero = []
bytes_at (b ∷ buffer) zero (suc n) = b ∷ bytes_at buffer zero n

-- An array of `uint32_t`.
unfoldable pub word_bytes : List ℕ → List ℕ
word_bytes [] = []
word_bytes (v ∷ vs) = v % 256 ∷ v / 256 % 256 ∷ v / 65536 % 256 ∷ v / 16777216 % 256 ∷ word_bytes vs

unfoldable pub words : ℕ → List ℕ → List ℕ
words (suc n) (a ∷ b ∷ c ∷ d ∷ bytes) = (a + 256 * b + 65536 * c + 16777216 * d) ∷ words n bytes
words n bytes = []

pub length-fs_memcpy :
    (buffer : List ℕ) (off : ℕ) (src : List ℕ) → length (fs_memcpy buffer off src) ≡ length buffer
unfolding fs_memcpy
length-fs_memcpy [] off src = refl
length-fs_memcpy (b ∷ buffer) (suc off) src = ap suc (length-fs_memcpy buffer off src)
length-fs_memcpy (b ∷ buffer) zero [] = refl
length-fs_memcpy (b ∷ buffer) zero (c ∷ src) = ap suc (length-fs_memcpy buffer zero src)

-- What is copied is found there.
pub bytes_at-fs_memcpy :
    (buffer : List ℕ) (off : ℕ) (src : List ℕ)
    → off + length src ≤ length buffer
    → bytes_at (fs_memcpy buffer off src) off (length src) ≡ src
unfolding fs_memcpy bytes_at
bytes_at-fs_memcpy [] off [] le = refl
bytes_at-fs_memcpy [] off (c ∷ src) le = absurd (omega arith)
bytes_at-fs_memcpy (b ∷ buffer) (suc off) src le = bytes_at-fs_memcpy buffer off src (omega arith)
bytes_at-fs_memcpy (b ∷ buffer) zero [] le = refl
bytes_at-fs_memcpy (b ∷ buffer) zero (c ∷ src) le =
    ap (◌∷◌ c) (bytes_at-fs_memcpy buffer zero src (omega arith))

-- What does not overlap the copy stays.
pub bytes_at-fs_memcpy_apart :
    (buffer : List ℕ) (off : ℕ) (src : List ℕ) (at n : ℕ)
    → (at + n ≤ off) ⊎ (off + length src ≤ at)
    → bytes_at (fs_memcpy buffer off src) at n ≡ bytes_at buffer at n
unfolding fs_memcpy bytes_at
bytes_at-fs_memcpy_apart [] off src at n h = refl
bytes_at-fs_memcpy_apart (b ∷ buffer) (suc off) src (suc at) n h =
    bytes_at-fs_memcpy_apart buffer off src at n (ground (arith, h))
bytes_at-fs_memcpy_apart (b ∷ buffer) (suc off) src zero zero h = refl
bytes_at-fs_memcpy_apart (b ∷ buffer) (suc off) src zero (suc n) h =
    ap (◌∷◌ b) (bytes_at-fs_memcpy_apart buffer off src zero n (ground (arith, h)))
bytes_at-fs_memcpy_apart (b ∷ buffer) zero [] at n h = refl
bytes_at-fs_memcpy_apart (b ∷ buffer) zero (c ∷ src) (suc at) n h =
    bytes_at-fs_memcpy_apart buffer zero src at n (ground (arith, h))
bytes_at-fs_memcpy_apart (b ∷ buffer) zero (c ∷ src) zero zero h = refl
bytes_at-fs_memcpy_apart (b ∷ buffer) zero (c ∷ src) zero (suc n) h = absurd (ground (arith, h))

pub length-word_bytes : (vs : List ℕ) → length (word_bytes vs) ≡ 4 * length vs
unfolding word_bytes
length-word_bytes [] = refl
length-word_bytes (v ∷ vs) = omega (arith, length-word_bytes vs)

bytes-word :
    (v : ℕ)
    → v < 2 ^ 32
    → v % 256 + 256 * (v / 256 % 256) + 65536 * (v / 65536 % 256) + 16777216 * (v / 16777216 % 256)
      ≡ v
bytes-word v lt = omega arith

-- Words are read back from their bytes, whatever follows.
pub words-word_bytes :
    (vs rest : List ℕ) → All (λ v. v < 2 ^ 32) vs → words (length vs) (word_bytes vs ++ rest) ≡ vs
unfolding word_bytes words
words-word_bytes [] rest h = refl
words-word_bytes (v ∷ vs) rest h = rw (bytes-word v h.0, words-word_bytes vs rest h.1) refl

pub drop-append {ℓ} : {A : Type ℓ} (xs ys : List A) → drop (length xs) (xs ++ ys) ≡ ys
drop-append [] ys = refl
drop-append (x ∷ xs) ys = drop-append xs ys

pub take-append {ℓ} : {A : Type ℓ} (xs ys : List A) → take (length xs) (xs ++ ys) ≡ xs
take-append [] ys = refl
take-append (x ∷ xs) ys = ap (◌∷◌ x) (take-append xs ys)

pub bytes_at-append : (xs ys : List ℕ) → bytes_at (xs ++ ys) 0 (length xs) ≡ xs
unfolding bytes_at
bytes_at-append [] [] = refl
bytes_at-append [] (y ∷ ys) = refl
bytes_at-append (x ∷ xs) ys = ap (◌∷◌ x) (bytes_at-append xs ys)
