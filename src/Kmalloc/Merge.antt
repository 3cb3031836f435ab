-- ===== src/Kmalloc/Merge.antt =====
-- `merge_free_blocks` of kmalloc.c: the list of blocks after it.
use vros.Base.{
  ne→==, Bool-cases, ℕ, zero, suc, ◌+◌, ◌%◌, ◌^◌, ◌≤◌, ◌<◌, ◌≡◌, refl, sym, ap, subst, ◌∙◌, ◌≢◌,
  inl, inr, true, false, ◌&&◌, List, [], ◌∷◌, arith, length, if◌then◌else◌,
}
use vros.Kmalloc.{Block, header_size, store, merge_step, merge_from}
use vros.Kmalloc.Tiles.{Tiles-end, Piece, link, block_of, Tiles, Tiles-frame}

abbrev pub merged : Piece → Piece → Piece
merged p q = record { size = p.size + (header_size + q.size); is_free = true }

-- The blocks after a pass that starts at `p` with `ps` behind it.
abbrev pub join : Piece → List Piece → List Piece
join p [] = p ∷ []
join p (q ∷ qs) =
    let both = p.is_free && q.is_free in
    let rest = join (if both then merged p q else q) qs in if both then rest else p ∷ rest

abbrev pub coalesce : List Piece → List Piece
coalesce [] = []
coalesce (p ∷ ps) = join p ps

-- The pieces behind `p` and `p` itself have no two free neighbours.
abbrev pub ApartFrom : Piece → List Piece → Type 0
ApartFrom p [] = Unit {0}
ApartFrom p (q ∷ qs) = ((p.is_free && q.is_free) ≡ false) × ApartFrom q qs

abbrev pub Apart : List Piece → Type 0
Apart [] = Unit {0}
Apart (p ∷ ps) = ApartFrom p ps

merge-last : (n a : ℕ) (m : ℕ → Block) (p : Piece) → m a ≡ block_of p 0 → merge_from n a m ≡ m
unfolding merge_from
merge-last zero a m p e = refl
merge-last (suc n) a m p e = rw e (ground arith)

merge-join :
    (n a c l : ℕ) (m : ℕ → Block) (p q : Piece)
    → m a ≡ block_of p c
    → m c ≡ block_of q l
    → a ≢ 0
    → c ≢ 0
    → p.size + (header_size + q.size) < 2 ^ 32
    → (p.is_free && q.is_free) ≡ true
    → merge_from (suc n) a m ≡ merge_from n a (store m a (block_of (merged p q) l))
unfolding merge_from merge_step
merge-join n a c l m p q e e' ne ne' lt both =
    let sum : (p.size + (header_size + q.size)) % 2 ^ 32 ≡ p.size + (header_size + q.size) =
      omega arith in
    let free : p.is_free ≡ true = ground (arith, both) in
    let step : merge_step a m ≡ (a, store m a (block_of (merged p q) l)) =
      rw (e, e', both, sum, free) refl in
    rw (step, e, ne→== a 0 ne, ne→== c 0 ne') refl

merge-skip :
    (n a c l : ℕ) (m : ℕ → Block) (p q : Piece)
    → m a ≡ block_of p c
    → m c ≡ block_of q l
    → a ≢ 0
    → c ≢ 0
    → (p.is_free && q.is_free) ≡ false
    → merge_from (suc n) a m ≡ merge_from n c m
unfolding merge_from merge_step
merge-skip n a c l m p q e e' ne ne' both =
    let step : merge_step a m ≡ (c, m) = rw (e, e', both) refl in
    rw (step, e, ne→== a 0 ne, ne→== c 0 ne') refl

pub join-both :
    (p q : Piece) (qs : List Piece)
    → (p.is_free && q.is_free) ≡ true
    → join p (q ∷ qs) ≡ join (merged p q) qs
join-both p q qs both = rw both refl

pub join-apart :
    (p q : Piece) (qs : List Piece)
    → (p.is_free && q.is_free) ≡ false
    → join p (q ∷ qs) ≡ p ∷ join q qs
join-apart p q qs apart = rw apart refl

link-join : (p : Piece) (ps : List Piece) (a : ℕ) → link (join p ps) a ≡ a
link-join p [] a = refl
link-join p (q ∷ qs) a = elim (Bool-cases (p.is_free && q.is_free)) [
  | inl both ↦ ap (λ l. link l a) (join-both p q qs both) ∙ link-join (merged p q) qs a
  | inr apart ↦ ap (λ l. link l a) (join-apart p q qs apart)
]

-- The memory `m'` holds the blocks `ps` from `a` up to `e` and is `m` below `a`.
abbrev pub Rewritten : (ℕ → Block) → (ℕ → Block) → ℕ → List Piece → ℕ → Type 0
Rewritten m m' a ps e = Tiles m' a ps e × ((x : ℕ) → x < a → m' x ≡ m x)

-- A pass turns the list `p ∷ ps` at `a` into the joined one and writes nothing below.
pub merge_lem :
    (n a : ℕ) (m : ℕ → Block) (p : Piece) (ps : List Piece) (e : ℕ)
    → Tiles m a (p ∷ ps) e
    → a ≢ 0
    → e < 2 ^ 32
    → length ps ≤ n
    → Rewritten m (merge_from n a m) a (join p ps) e
merge_lem n a m p [] e t ne lt le = rw (merge-last n a m p t.0) (t, λ x lt'. refl)
merge_lem zero a m p (q ∷ qs) e t ne lt le = absurd (omega arith)
merge_lem (suc n) a m p (q ∷ qs) e t ne lt le = elim (Bool-cases (p.is_free && q.is_free)) [
  | inl both ↦
      let m1 = store m a (block_of (merged p q) (link qs (c + (header_size + q.size)))) in
      let eq = merge-join n a c _ m p q t.0 t.1.0 ne (omega arith) small both in
      let reach : c + (header_size + q.size) ≡ a + (header_size + (merged p q).size) =
        omega arith in
      let tail : Tiles m1 (c + (header_size + q.size)) qs e =
        Tiles-frame m m1 _ qs e (λ x le'. ground arith) t.1.1 in
      let here : m1 a ≡ block_of (merged p q) (link qs (a + (header_size + (merged p q).size))) =
        ground arith in
      let (tiles, below) =
        merge_lem n a m1 (merged p q) qs e (here, subst (λ b. Tiles m1 b qs e) reach tail) ne lt
          (omega arith) in
      subst (λ m'. Rewritten m m' a (join p (q ∷ qs)) e) (sym eq)
        (
          subst (λ l. Tiles (merge_from n a m1) a l e) (sym (join-both p q qs both)) tiles,
          λ x lt'. below x lt' ∙ ground arith,
        )
  | inr apart ↦
      let eq = merge-skip n a c _ m p q t.0 t.1.0 ne (omega arith) apart in
      let (tiles, below) = merge_lem n c m q qs e t.1 (omega arith) lt (omega arith) in
      let here = below a (omega arith) ∙ t.0 ∙ ap (block_of p) (sym (link-join q qs c)) in
      subst (λ m'. Rewritten m m' a (join p (q ∷ qs)) e) (sym eq)
        (
          subst (λ l. Tiles (merge_from n c m) a l e) (sym (join-apart p q qs apart)) (here, tiles),
          λ x lt'. below x (omega arith),
        )
]
  where
    c : ℕ
    c = a + (header_size + p.size)

    small : p.size + (header_size + q.size) < 2 ^ 32
    small = omega (arith, Tiles-end m _ qs e t.1.1)
