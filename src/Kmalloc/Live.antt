-- ===== src/Kmalloc/Live.antt =====
-- The heap of kmalloc.c as its callers see it: the blocks in use, each with its address and size.
use vros.Base.{
  drop, Bool-cases, ℕ, ◌+◌, ◌≡◌, refl, sym, ap, subst, ◌∙◌, inl, inr, true, false, ◌&&◌, List, [],
  ◌∷◌, ◌++◌, arith, get_or, if◌then◌else◌,
}
use vros.Kmalloc.{Heap, header_size}
use vros.Kmalloc.Tiles.{Piece, extent, IsHeap}
use vros.Kmalloc.Merge.{join, coalesce, merged, Apart, ApartFrom, join-both, join-apart}

-- The addresses and sizes of the blocks in use among `ps`, which lie from `a` on.
abbrev pub live : ℕ → List Piece → List (ℕ × ℕ)
live a [] = []
live a (p ∷ ps) =
    let rest = live (a + (header_size + p.size)) ps in
    if p.is_free then rest else (a + header_size, p.size) ∷ rest

pub live-append :
    (a : ℕ) (xs ys : List Piece) → live a (xs ++ ys) ≡ live a xs ++ live (a + extent xs) ys
live-append a [] ys = ap (λ b. live b ys) (omega arith)
live-append a (x ∷ xs) ys =
    let b = a + (header_size + x.size) in
    let place : b + extent xs ≡ a + (header_size + x.size + extent xs) = omega arith in
    let tail = live-append b xs ys ∙ ap (λ c. live b xs ++ live c ys) place in
    elim (Bool-cases x.is_free) [
      | inl free ↦ rw free tail
      | inr used ↦ rw used (ap (◌∷◌ (a + header_size, x.size)) tail)
    ]

pub live-join : (a : ℕ) (p : Piece) (ps : List Piece) → live a (join p ps) ≡ live a (p ∷ ps)
live-join a p [] = refl
live-join a p (q ∷ qs) = elim (Bool-cases (p.is_free && q.is_free)) [
  | inl both ↦
      let free : p.is_free ≡ true = ground (arith, both) in
      let free' : q.is_free ≡ true = ground (arith, both) in
      ap (live a) (join-both p q qs both)
      ∙ live-join a (merged p q) qs
      ∙ rw (free, free') (ap (λ b. live b qs) (omega arith))
  | inr apart ↦
      ap (live a) (join-apart p q qs apart)
      ∙ ap (λ l. if p.is_free then l else (a + header_size, p.size) ∷ l)
          (live-join (a + (header_size + p.size)) q qs)
]

pub live-coalesce : (a : ℕ) (ps : List Piece) → live a (coalesce ps) ≡ live a ps
live-coalesce a [] = refl
live-coalesce a (p ∷ ps) = live-join a p ps

ApartFrom-join :
    (p q : Piece) (qs : List Piece)
    → (p.is_free && q.is_free) ≡ false
    → Apart (join q qs)
    → ApartFrom p (join q qs)
ApartFrom-join p q [] apart h = (apart, tt)
ApartFrom-join p q (x ∷ qs) apart h = elim (Bool-cases (q.is_free && x.is_free)) [
  | inl both ↦
      let eq = join-both q x qs both in
      subst (ApartFrom p) (sym eq)
        (ApartFrom-join p (merged q x) qs (ground (arith, both, apart)) (subst Apart eq h))
  | inr apart' ↦
      let eq = join-apart q x qs apart' in subst (ApartFrom p) (sym eq) (apart, subst Apart eq h)
]

-- After a pass no two neighbours are free.
pub join-Apart : (p : Piece) (ps : List Piece) → Apart (join p ps)
join-Apart p [] = tt
join-Apart p (q ∷ qs) = elim (Bool-cases (p.is_free && q.is_free)) [
  | inl both ↦ subst Apart (sym (join-both p q qs both)) (join-Apart (merged p q) qs)
  | inr apart ↦
      subst Apart (sym (join-apart p q qs apart)) (ApartFrom-join p q qs apart (join-Apart q qs))
]

pub coalesce-Apart : (ps : List Piece) → Apart (coalesce ps)
coalesce-Apart [] = tt
coalesce-Apart (p ∷ ps) = join-Apart p ps

-- A list without free neighbours stays as it is.
pub join_same : (p : Piece) (ps : List Piece) → ApartFrom p ps → join p ps ≡ p ∷ ps
join_same p [] h = refl
join_same p (q ∷ qs) h = join-apart p q qs h.0 ∙ ap (◌∷◌ p) (join_same q qs h.1)

-- Two free neighbours join to one.
pub join_pair :
    (p : Piece) (xs : List Piece) (q r : Piece) (ys : List Piece)
    → q.is_free ≡ true
    → r.is_free ≡ true
    → join p (xs ++ q ∷ r ∷ ys) ≡ join p (xs ++ merged q r ∷ ys)
join_pair p [] q r ys f g = elim (Bool-cases p.is_free) [
  | inl free ↦
      rw (free, f, g) (ap (λ n. join (record { size = n; is_free = true }) ys) (omega arith))
  | inr used ↦ rw (used, f, g) refl
]
join_pair p (x ∷ xs) q r ys f g = elim (Bool-cases (p.is_free && x.is_free)) [
  | inl both ↦
      join-both p x _ both ∙ join_pair (merged p x) xs q r ys f g ∙ sym (join-both p x _ both)
  | inr apart ↦
      join-apart p x _ apart ∙ ap (◌∷◌ p) (join_pair x xs q r ys f g) ∙ sym (join-apart p x _ apart)
]

pub live-free :
    (a : ℕ) (p : Piece) (ps : List Piece)
    → p.is_free ≡ true
    → live a (p ∷ ps) ≡ live (a + (header_size + p.size)) ps
live-free a p ps f = rw f refl

pub live-used :
    (a : ℕ) (p : Piece) (ps : List Piece)
    → p.is_free ≡ false
    → live a (p ∷ ps) ≡ (a + header_size, p.size) ∷ live (a + (header_size + p.size)) ps
live-used a p ps f = rw f refl

-- The piece of the block in use at `r`, of size `n`, that stands between the blocks `us` and `vs`.
pub record InUse (a : ℕ) (ps : List Piece) (us : List (ℕ × ℕ)) (r n : ℕ) (vs : List (ℕ × ℕ))
    : Type 0 where
  pub before : List Piece
  pub piece : Piece
  pub behind : List Piece
  pub split : ps ≡ before ++ piece ∷ behind
  pub used : piece.is_free ≡ false
  pub size : piece.size ≡ n
  pub address : r ≡ a + extent before + header_size
  pub live_before : live a before ≡ us
  pub live_behind : live (a + extent before + (header_size + piece.size)) behind ≡ vs

-- A block in use behind one more piece.
one_more :
    {a : ℕ} {ps : List Piece} {us : List (ℕ × ℕ)} {r n : ℕ} {vs : List (ℕ × ℕ)} (p : Piece)
    → (us' : List (ℕ × ℕ))
    → ((xs : List Piece) → live (a + (header_size + p.size)) xs ≡ us → live a (p ∷ xs) ≡ us')
    → InUse (a + (header_size + p.size)) ps us r n vs
    → InUse a (p ∷ ps) us' r n vs
one_more {a} {ps} {us} {r} {n} {vs} p us' grow i = record {
  before = p ∷ i.before;
  piece = i.piece;
  behind = i.behind;
  split = ap (◌∷◌ p) i.split;
  used = i.used;
  size = i.size;
  address = i.address ∙ omega arith;
  live_before = grow i.before i.live_before;
  live_behind = ap (λ b. live b i.behind) (omega arith) ∙ i.live_behind;
}

pub live_split :
    (a : ℕ) (ps : List Piece) (us : List (ℕ × ℕ)) (r n : ℕ) (vs : List (ℕ × ℕ))
    → live a ps ≡ us ++ (r, n) ∷ vs
    → InUse a ps us r n vs
live_split a [] [] r n vs e = absurd (ground (arith, e))
live_split a [] (u ∷ us) r n vs e = absurd (ground (arith, e))
live_split a (p ∷ ps) [] r n vs e = elim (Bool-cases p.is_free) [
  | inl free ↦
      one_more p [] (λ xs h. live-free a p xs free ∙ h)
        (live_split (a + (header_size + p.size)) ps [] r n vs (sym (live-free a p ps free) ∙ e))
  | inr used ↦
      let same = sym (live-used a p ps used) ∙ e in
      let head : ◌≡◌ {A = ℕ × ℕ} (a + header_size, p.size) (r, n) =
        ap (λ l. get_or l 0 (0, 0)) same in
      record {
        before = [];
        piece = p;
        behind = ps;
        split = refl;
        used = used;
        size = ap (λ x. x.1) head;
        address = sym (ap (λ (x : ℕ × ℕ). x.0) head) ∙ omega arith;
        live_before = refl;
        live_behind = ap (λ b. live b ps) (omega arith) ∙ ap (drop 1) same;
      }
]
live_split a (p ∷ ps) (u ∷ us) r n vs e = elim (Bool-cases p.is_free) [
  | inl free ↦
      one_more p (u ∷ us) (λ xs h. live-free a p xs free ∙ h)
        (live_split (a + (header_size + p.size)) ps (u ∷ us) r n vs
          (sym (live-free a p ps free) ∙ e))
  | inr used ↦
      let same = sym (live-used a p ps used) ∙ e in
      let head : (a + header_size, p.size) ≡ u = ap (λ l. get_or l 0 u) same in
      one_more p (u ∷ us)
        (λ xs h.
          live-used a p xs used ∙ ap (◌∷◌ (a + header_size, p.size)) h ∙ ap (λ x. x ∷ us) head)
        (live_split (a + (header_size + p.size)) ps us r n vs (ap (drop 1) same))
]

-- The heap `h` keeps the blocks `us` for its callers: their addresses and sizes.
pub record Holds (h : Heap) (us : List (ℕ × ℕ)) : Type 0 where
  pub pieces : List Piece
  pub heap : IsHeap h pieces
  pub in_use : live h.heap_start pieces ≡ us
