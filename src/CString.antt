-- ===== src/CString.antt =====
-- C strings: arrays of characters of which those before the first 0 count, or lists of characters
-- whose end stands for the 0. src/drivers/blkdev.c, src/fs/mount.c and src/drivers/netif.c have them.
use vros.Base.{
  Bool-cases, ◌↔◌, ℕ, zero, suc, ◌≤◌, ◌<◌, ◌≡◌, refl, ap, inl, inr, Bool, true, false, List, [],
  ◌∷◌, arith, length, ◌==◌, if◌then◌else◌,
}

-- `strcmp(s1, s2) == 0`
unfoldable pub strcmp : List ℕ → List ℕ → Bool
strcmp [] [] = true
strcmp [] (b ∷ s2) = b == 0
strcmp (a ∷ s1) [] = a == 0
strcmp (a ∷ s1) (b ∷ s2) =
    let rest = strcmp s1 s2 in if a == 0 then b == 0 else if a == b then rest else false

-- At most `n - 1` characters of `src`, then the 0.
unfoldable pub strncpy : ℕ → List ℕ → List ℕ → List ℕ
strncpy n [] src = []
strncpy zero (d ∷ dest) src = 0 ∷ dest
strncpy (suc zero) (d ∷ dest) src = 0 ∷ dest
strncpy (suc (suc n)) (d ∷ dest) [] = 0 ∷ dest
strncpy (suc (suc n)) (d ∷ dest) (c ∷ src) =
    let rest = strncpy (suc n) dest src in if c == 0 then 0 ∷ dest else c ∷ rest

-- `strcpy`, which does not look at the size of `dest`: what it would write behind the array is not
-- part of the model.
unfoldable pub strcpy : List ℕ → List ℕ → List ℕ
strcpy [] src = []
strcpy (d ∷ dest) [] = 0 ∷ dest
strcpy (d ∷ dest) (c ∷ src) = let rest = strcpy dest src in if c == 0 then 0 ∷ dest else c ∷ rest

-- The characters before the first 0.
abbrev pub text : List ℕ → List ℕ
text [] = []
text (c ∷ s) = let rest = text s in if c == 0 then [] else c ∷ rest

pub strcmp_lem : (s1 s2 : List ℕ) → (strcmp s1 s2 ≡ true) ↔ (text s1 ≡ text s2)
unfolding strcmp
strcmp_lem [] [] = (λ e. refl, λ e. refl)
strcmp_lem [] (b ∷ s2) = (λ e. ground (arith, e), λ e. ground (arith, e))
strcmp_lem (a ∷ s1) [] = (λ e. ground (arith, e), λ e. ground (arith, e))
strcmp_lem (a ∷ s1) (b ∷ s2) =
    let (to, from) = strcmp_lem s1 s2 in (λ e. ground (arith, e, to), λ e. ground (arith, e, from))

-- A text that has room is copied whole.
pub text-strncpy :
    (n : ℕ) (dest src : List ℕ)
    → length (text src) < n
    → n ≤ length dest
    → text (strncpy n dest src) ≡ text src
unfolding strncpy
text-strncpy zero dest src h k = absurd (omega arith)
text-strncpy (suc n) [] src h k = absurd (omega arith)
text-strncpy (suc zero) (d ∷ dest) [] h k = refl
text-strncpy (suc zero) (d ∷ dest) (c ∷ src) h k = ground arith
text-strncpy (suc (suc n)) (d ∷ dest) [] h k = refl
text-strncpy (suc (suc n)) (d ∷ dest) (c ∷ src) h k = elim (Bool-cases (c == 0)) [
  | inl nul ↦ rw nul refl
  | inr char ↦
      let ih = text-strncpy (suc n) dest src (ground (arith, char)) (omega arith) in
      rw (char, char) (ap (◌∷◌ c) ih)
]

pub strcmp-strncpy :
    (n : ℕ) (dest src : List ℕ)
    → length (text src) < n
    → n ≤ length dest
    → strcmp (strncpy n dest src) src ≡ true
strcmp-strncpy n dest src h k =
    (strcmp_lem (strncpy n dest src) src).1 (text-strncpy n dest src h k)

pub text-strcpy :
    (dest src : List ℕ) → length (text src) < length dest → text (strcpy dest src) ≡ text src
unfolding strcpy
text-strcpy [] src h = absurd (omega arith)
text-strcpy (d ∷ dest) [] h = refl
text-strcpy (d ∷ dest) (c ∷ src) h = elim (Bool-cases (c == 0)) [
  | inl nul ↦ rw nul refl
  | inr char ↦ rw (char, char) (ap (◌∷◌ c) (text-strcpy dest src (ground (arith, char))))
]
