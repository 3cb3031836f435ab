-- ===== src/Kmalloc/Tiles.antt =====
-- The heap of kmalloc.c as a list of blocks that lie one behind the other.
use vros.Base.{
  ℕ, ◌+◌, ◌^◌, ◌≤◌, ◌<◌, ◌≡◌, refl, ap, subst, ◌∙◌, Bool, List, [], ◌∷◌, ◌++◌, arith, length,
}
use vros.Kmalloc.{Block, Heap, header_size, min_block_size}

-- A block without its pointer.
pub record Piece : Type 0 where
  pub size : ℕ
  pub is_free : Bool

-- The bytes that the pieces take, headers included.
abbrev pub extent : List Piece → ℕ
extent [] = 0
extent (p ∷ ps) = header_size + p.size + extent ps

-- The pointer to the rest of the list, which lies at `a`.
abbrev pub link : List Piece → ℕ → ℕ
link [] a = 0
link (p ∷ ps) a = a

abbrev pub block_of : Piece → ℕ → Block
block_of p n = record { size = p.size; is_free = p.is_free; next = n }

-- The blocks from the address `a` up to `e` are `ps`, without gaps.
abbrev pub Tiles : (ℕ → Block) → ℕ → List Piece → ℕ → Type 0
Tiles m a [] e = a ≡ e
Tiles m a (p ∷ ps) e =
    (m a ≡ block_of p (link ps (a + (header_size + p.size))))
    × Tiles m (a + (header_size + p.size)) ps e

pub record IsHeap (h : Heap) (ps : List Piece) : Type 0 where
  pub tiles : Tiles h.mem h.heap_start ps (h.heap_start + h.heap_size)
  pub some_bytes : 0 < h.heap_size
  pub not_low : min_block_size ≤ h.heap_start
  pub in_memory : h.heap_start + h.heap_size < 2 ^ 32

-- Changes below `a` do not matter to what lies from `a` on.
pub Tiles-frame :
    (m m' : ℕ → Block) (a : ℕ) (ps : List Piece) (e : ℕ)
    → ((q : ℕ) → a ≤ q → m' q ≡ m q)
    → Tiles m a ps e
    → Tiles m' a ps e
Tiles-frame m m' a [] e same t = t
Tiles-frame m m' a (p ∷ ps) e same t = (
  same a (omega arith) ∙ t.0,
  Tiles-frame m m' (a + (header_size + p.size)) ps e (λ q le. same q (omega arith)) t.1,
)

pub Tiles-end :
    (m : ℕ → Block) (a : ℕ) (ps : List Piece) (e : ℕ) → Tiles m a ps e → a + extent ps ≡ e
Tiles-end m a [] e t = omega (arith, t)
Tiles-end m a (p ∷ ps) e t = omega (arith, Tiles-end m (a + (header_size + p.size)) ps e t.1)

pub length_le_extent : (ps : List Piece) → length ps ≤ extent ps
length_le_extent [] = omega arith
length_le_extent (p ∷ ps) = omega (arith, length_le_extent ps)

pub extent-append : (ps qs : List Piece) → extent (ps ++ qs) ≡ extent ps + extent qs
extent-append [] qs = omega arith
extent-append (p ∷ ps) qs = omega (arith, extent-append ps qs)

-- The tail of the list lies behind the head.
pub Tiles-drop :
    (m : ℕ → Block) (a : ℕ) (xs ys : List Piece) (e : ℕ)
    → Tiles m a (xs ++ ys) e
    → Tiles m (a + extent xs) ys e
Tiles-drop m a [] ys e t = subst (λ b. Tiles m b ys e) (omega arith) t
Tiles-drop m a (x ∷ xs) ys e t =
    subst (λ b. Tiles m b ys e) (omega arith)
      (Tiles-drop m (a + (header_size + x.size)) xs ys e t.1)

link-append :
    (xs ys zs : List Piece) (y z : Piece) (a : ℕ) → link (xs ++ y ∷ ys) a ≡ link (xs ++ z ∷ zs) a
link-append [] ys zs y z a = refl
link-append (x ∷ xs) ys zs y z a = refl

-- Another tail, written without a change to the head.
pub Tiles-replace :
    (m m' : ℕ → Block) (a : ℕ) (xs ys zs : List Piece) (y z : Piece) (e : ℕ)
    → ((q : ℕ) → q < a + extent xs → m' q ≡ m q)
    → Tiles m a (xs ++ y ∷ ys) e
    → Tiles m' (a + extent xs) (z ∷ zs) e
    → Tiles m' a (xs ++ z ∷ zs) e
Tiles-replace m m' a [] ys zs y z e same t t' = subst (λ b. Tiles m' b (z ∷ zs) e) (omega arith) t'
Tiles-replace m m' a (x ∷ xs) ys zs y z e same t t' = (
  same a (omega arith) ∙ t.0 ∙ ap (block_of x) (link-append xs ys zs y z _),
  Tiles-replace m m' (a + (header_size + x.size)) xs ys zs y z e (λ q lt. same q (omega arith)) t.1
      (subst (λ b. Tiles m' b (z ∷ zs) e) (omega arith) t'),
)

-- The loops' rounds are enough for all blocks.
pub rounds_enough : (h : Heap) (ps : List Piece) → IsHeap h ps → length ps ≤ h.heap_size
rounds_enough h ps k = omega (arith, length_le_extent ps, Tiles-end h.mem h.heap_start ps _ k.tiles)
