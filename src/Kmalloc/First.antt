-- ===== src/Kmalloc/First.antt =====
-- The search and the split of kmalloc.c: first fit, and what becomes of the block that is found.
use vros.Base.{
  Bool-cases, ne→==, ℕ, zero, suc, ◌+◌, ◌-◌, ◌^◌, ◌≤◌, ◌<◌, ◌≡◌, refl, ap, subst, ◌∙◌, ◌≢◌, ◌⊎◌,
  inl, inr, Bool, true, false, ◌&&◌, List, [], ◌∷◌, ◌++◌, arith, length, All, leb, if◌then◌else◌,
}
use vros.Kmalloc.{Block, header_size, min_block_size, find_from, split_block, store}
use vros.Kmalloc.Tiles.{Tiles-end, Piece, extent, link, block_of, Tiles, Tiles-frame}

abbrev pub fits : ℕ → Piece → Bool
fits n p = p.is_free && leb n p.size

-- `p` is the first piece of `ps` that fits; `xs` are before it and `ys` behind it.
pub record First (n : ℕ) (ps xs : List Piece) (p : Piece) (ys : List Piece) : Type 0 where
  pub split : ps ≡ xs ++ p ∷ ys
  pub before : All (λ q. fits n q ≡ false) xs
  pub fit : fits n p ≡ true

find_hit :
    (n size : ℕ) (m : ℕ → Block) (a : ℕ) (p : Piece) (l : ℕ)
    → m a ≡ block_of p l
    → a ≢ 0
    → fits size p ≡ true
    → find_from (suc n) size m a ≡ a
unfolding find_from
find_hit n size m a p l e ne hit = rw (e, ne→== a 0 ne, hit) refl

find_miss :
    (n size : ℕ) (m : ℕ → Block) (a : ℕ) (p : Piece) (l : ℕ)
    → m a ≡ block_of p l
    → a ≢ 0
    → fits size p ≡ false
    → find_from (suc n) size m a ≡ find_from n size m l
unfolding find_from
find_miss n size m a p l e ne miss = rw (e, ne→== a 0 ne, miss) refl

-- The search finds the first piece that fits, or 0.
pub find_cases :
    (n size : ℕ) (m : ℕ → Block) (a : ℕ) (ps : List Piece) (e : ℕ)
    → Tiles m a ps e
    → a ≢ 0
    → length ps ≤ n
    → (All (λ q. fits size q ≡ false) ps × (find_from n size m (link ps a) ≡ 0))
      ⊎ ((xs : List Piece) × (p : Piece) × (ys : List Piece) × First size ps xs p ys
          × (find_from n size m (link ps a) ≡ a + extent xs))
unfolding find_from
find_cases zero size m a [] e t ne le = inl (tt, refl)
find_cases (suc n) size m a [] e t ne le = inl (tt, refl)
find_cases zero size m a (p ∷ ps) e t ne le = absurd (omega arith)
find_cases (suc n) size m a (p ∷ ps) e t ne le = elim (Bool-cases (fits size p)) [
  | inl hit ↦ inr (
    [],
    p,
    ps,
    record { split = refl; before = tt; fit = hit },
    find_hit n size m a p _ t.0 ne hit ∙ omega arith,
  )
  | inr miss ↦
      let same = find_miss n size m a p _ t.0 ne miss in
      elim (find_cases n size m (a + (header_size + p.size)) ps e t.1 (omega arith) (omega arith)) [
        | inl (none_fit, found) ↦ inl ((miss, none_fit), same ∙ found)
        | inr (xs, q, ys, first, found) ↦ inr (
          p ∷ xs,
          q,
          ys,
          record { split = ap (◌∷◌ p) first.split; before = (miss, first.before); fit = first.fit },
          same ∙ found ∙ omega arith,
        )
      ]
]

-- The block that is handed out of the piece `p`, and what is split off.
abbrev pub taken : ℕ → Piece → Piece
taken n p =
    if leb (n + (header_size + min_block_size)) p.size
    then record { size = n; is_free = false }
    else record { size = p.size; is_free = false }

abbrev pub remnant : ℕ → Piece → List Piece
remnant n p =
    if leb (n + (header_size + min_block_size)) p.size
    then record { size = p.size - n - header_size; is_free = true } ∷ []
    else []

abbrev pub take_block : ℕ → ℕ → (ℕ → Block) → ℕ → Block
take_block b n m = let m1 = split_block b n m in store m1 b (record (m1 b) { is_free = false })

-- The block found is split, and its memory is written from its header on only.
pub take_block_below :
    (b n q : ℕ) (m : ℕ → Block) → b + n < 2 ^ 32 - header_size → q < b → take_block b n m q ≡ m q
unfolding split_block
take_block_below b n q m lt below = ground arith

take_split :
    (m : ℕ → Block) (b n : ℕ) (p : Piece) (l : ℕ)
    → m b ≡ block_of p l
    → leb (n + (header_size + min_block_size)) p.size ≡ true
    → b + (header_size + p.size) < 2 ^ 32
    → (take_block b n m b ≡ record { size = n; is_free = false; next = b + (header_size + n) })
      × (take_block b n m (b + (header_size + n))
          ≡ record { size = p.size - n - header_size; is_free = true; next = l })
      × ((q : ℕ) → b + (header_size + n) < q → take_block b n m q ≡ m q)
unfolding split_block
take_split m b n p l e big lt = (ground (arith, e), ground (arith, e), λ q le. ground (arith, e))

take_whole :
    (m : ℕ → Block) (b n : ℕ) (p : Piece) (l : ℕ)
    → m b ≡ block_of p l
    → leb (n + (header_size + min_block_size)) p.size ≡ false
    → n ≤ p.size
    → b + (header_size + p.size) < 2 ^ 32
    → min_block_size ≤ b
    → (take_block b n m b ≡ record { size = p.size; is_free = false; next = l })
      × ((q : ℕ) → b < q → take_block b n m q ≡ m q)
unfolding split_block
take_whole m b n p l e small le lt low = (ground (arith, e), λ q lt'. ground (arith, e))

pub take_block-Tiles :
    (m : ℕ → Block) (b n : ℕ) (p : Piece) (ps : List Piece) (e : ℕ)
    → Tiles m b (p ∷ ps) e
    → e < 2 ^ 32
    → n ≤ p.size
    → min_block_size ≤ b
    → Tiles (take_block b n m) b (taken n p ∷ (remnant n p ++ ps)) e
take_block-Tiles m b n p ps e t lt le low =
    elim (Bool-cases (leb (n + (header_size + min_block_size)) p.size)) [
      | inl big ↦
          let (at, rest, behind) = take_split m b n p _ t.0 big bound in
          let cut : Piece = record { size = p.size - n - header_size; is_free = true } in
          let place : b + (header_size + p.size)
              ≡ b + (header_size + n) + (header_size + (p.size - n - header_size)) =
            ground arith in
          let tail : Tiles (take_block b n m) (b + (header_size + p.size)) ps e =
            Tiles-frame m _ _ ps e (λ q le'. behind q (ground arith)) t.1 in
          let linked = rest ∙ ap (λ a. block_of cut (link ps a)) place in
          rw big (at, (linked, subst (λ a. Tiles (take_block b n m) a ps e) place tail))
      | inr small ↦
          let (at, behind) = take_whole m b n p _ t.0 small le bound low in
          rw small (at, Tiles-frame m _ _ ps e (λ q le'. behind q (omega arith)) t.1)
    ]
  where
    bound : b + (header_size + p.size) < 2 ^ 32
    bound = omega (arith, Tiles-end m (b + (header_size + p.size)) ps e t.1)
