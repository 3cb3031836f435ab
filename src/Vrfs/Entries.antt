-- ===== src/Vrfs/Entries.antt =====
-- The directory entries of src/fs/vrfs.c: their coding, and a block of entries as a finite map from
-- names to inode numbers.
use vros.Base.{
  ℕ, zero, suc, ◌+◌, ◌*◌, ◌^◌, ◌≤◌, ◌<◌, ◌≡◌, refl, sym, ap, ◌∙◌, ◌≢◌, ◌⊎◌, inl, inr, true, false,
  Option, none, some, List, [], ◌∷◌, ◌++◌, arith, length, get_or, ◌==◌, if◌then◌else◌, Bool-cases,
  ==→ne, set, drop, All, length-append,
}
use vros.CString.{strcmp, strcmp_lem, text}
use vros.Bytes.{
  bytes_at, word_bytes, bytes_at-append, words-word_bytes, length-word_bytes, drop-append,
}
use vros.Vrfs.{vrfs_max_name}
use vros.Vrfs.Dir.{Dirent, no_entry, dirents, dirent_bytes, names_match, find_entry, empty_entry}

-- The fields fit their types and the name ends within its array.
pub record IsDirent (e : Dirent) : Type 0 where
  pub inode : e.inode < 2 ^ 32
  pub sized : length e.name ≡ 28
  pub ended : length (text e.name) < 28

pub length-dirent_bytes :
    (es : List Dirent) → All IsDirent es → length (dirent_bytes es) ≡ 32 * length es
unfolding dirent_bytes
length-dirent_bytes [] h = refl
length-dirent_bytes (e ∷ es) h = omega (
  arith,
  length-word_bytes (e.inode ∷ []),
  length-append (word_bytes (e.inode ∷ [])) (e.name ++ dirent_bytes es),
  length-append e.name (dirent_bytes es),
  h.0.sized,
  length-dirent_bytes es h.1,
)

word_entry :
    (v : ℕ) (name rest : List ℕ)
    → length name ≡ 28
    → (bytes_at (word_bytes (v ∷ []) ++ (name ++ rest)) 4 vrfs_max_name ≡ name)
      × (drop 32 (word_bytes (v ∷ []) ++ (name ++ rest)) ≡ rest)
unfolding bytes_at word_bytes
word_entry v name rest sized =
    (rw (sized) at (bytes_at-append name rest), rw (sized) at (drop-append name rest))

-- Entries are read back from their bytes.
pub dirents-dirent_bytes :
    (es : List Dirent) → All IsDirent es → dirents (length es) (dirent_bytes es) ≡ es
unfolding dirents dirent_bytes
dirents-dirent_bytes [] h = refl
dirents-dirent_bytes (e ∷ es) h =
    let (name, rest) = word_entry e.inode e.name (dirent_bytes es) h.0.sized in
    rw
      (
        words-word_bytes (e.inode ∷ []) (e.name ++ dirent_bytes es) (h.0.inode, tt),
        name,
        rest,
        dirents-dirent_bytes es h.1,
      )
      refl

-- On a name that ends within its array, the bounded comparison is that of the strings.
pub names_match_lem :
    (n : ℕ) (entry name : List ℕ)
    → length (text entry) < n
    → n ≤ length entry
    → names_match n entry name ≡ strcmp entry name
unfolding names_match strcmp
names_match_lem zero entry name h le = absurd (omega arith)
names_match_lem (suc n) [] name h le = absurd (omega arith)
names_match_lem (suc n) (a ∷ entry) [] h le = refl
names_match_lem (suc n) (a ∷ entry) (b ∷ name) h le = ground (arith, names_match_lem n entry name)

pub strcmp_same : (a b q : List ℕ) → strcmp a b ≡ true → strcmp a q ≡ strcmp b q
strcmp_same a b q e = elim (Bool-cases (strcmp a q)) [
  | inl t ↦ t ∙ sym ((strcmp_lem b q).1 (sym ((strcmp_lem a b).0 e) ∙ (strcmp_lem a q).0 t))
  | inr f ↦ elim (Bool-cases (strcmp b q)) [
    | inr g ↦ f ∙ sym g
    | inl t ↦
        absurd (ground (arith, f, (strcmp_lem a q).1 ((strcmp_lem a b).0 e ∙ (strcmp_lem b q).0 t)))
  ]
]

pub strcmp_comm : (a b : List ℕ) → strcmp a b ≡ strcmp b a
strcmp_comm a b = elim (Bool-cases (strcmp a b)) [
  | inl t ↦ t ∙ sym ((strcmp_lem b a).1 (sym ((strcmp_lem a b).0 t)))
  | inr f ↦ elim (Bool-cases (strcmp b a)) [
    | inr g ↦ f ∙ sym g
    | inl t ↦ absurd (ground (arith, f, (strcmp_lem a b).1 (sym ((strcmp_lem b a).0 t))))
  ]
]

pub strcmp_same_right : (q a b : List ℕ) → strcmp a b ≡ true → strcmp q a ≡ strcmp q b
strcmp_same_right q a b e = strcmp_comm q a ∙ strcmp_same a b q e ∙ strcmp_comm b q

-- The finite map that a list of entries stands for.
abbrev pub ino_of : List ℕ → List Dirent → Option ℕ
ino_of q [] = none
ino_of q (e ∷ es) =
    let rest = ino_of q es in
    if e.inode == 0 then rest else if strcmp e.name q then some e.inode else rest

-- No two entries in use have the same name.
abbrev pub Distinct : List Dirent → Type 0
Distinct [] = Unit
Distinct (e ∷ es) = (e.inode ≢ 0 → ino_of e.name es ≡ none) × Distinct es

pub find_entry_lem :
    (q : List ℕ) (k : ℕ) (es : List Dirent)
    → All IsDirent es
    → ((find_entry q k es ≡ none) × (ino_of q es ≡ none))
      ⊎ ((i : ℕ) × (find_entry q k es ≡ some (k + i))
          × (i < length es)
          × ((get_or es i no_entry).inode ≢ 0)
          × (strcmp (get_or es i no_entry).name q ≡ true)
          × (ino_of q es ≡ some (get_or es i no_entry).inode))
unfolding find_entry
find_entry_lem q k [] h = inl (refl, refl)
find_entry_lem q k (e ∷ es) h =
    let same : names_match vrfs_max_name e.name q ≡ strcmp e.name q =
      names_match_lem vrfs_max_name e.name q h.0.ended (omega (arith, h.0.sized)) in
    let later : (e.inode == 0) ≡ true ⊎ (strcmp e.name q ≡ false)
        → ((find_entry q k (e ∷ es) ≡ none) × (ino_of q (e ∷ es) ≡ none))
          ⊎ ((i : ℕ) × (find_entry q k (e ∷ es) ≡ some (k + i))
              × (i < length (e ∷ es))
              × ((get_or (e ∷ es) i no_entry).inode ≢ 0)
              × (strcmp (get_or (e ∷ es) i no_entry).name q ≡ true)
              × (ino_of q (e ∷ es) ≡ some (get_or (e ∷ es) i no_entry).inode)) =
      λ skip. elim (find_entry_lem q (k + 1) es h.1) [
        | inl (f, g) ↦ inl (ground (arith, same, skip, f), ground (arith, skip, g))
        | inr (i, f, lt, nz, hit, g) ↦
            let at : k + 1 + i ≡ k + suc i = omega arith in
            inr (
              suc i,
              ground (arith, same, skip, f, at),
              omega arith,
              nz,
              hit,
              ground (arith, skip, g),
            )
      ] in
    elim (Bool-cases (e.inode == 0)) [
      | inl z ↦ later (inl z)
      | inr nz ↦ elim (Bool-cases (strcmp e.name q)) [
        | inr other ↦ later (inr other)
        | inl hit ↦ inr (
          0,
          ground (arith, same, hit, nz),
          omega arith,
          ==→ne e.inode 0 nz,
          hit,
          ground (arith, hit, nz),
        )
      ]
    ]

pub empty_entry_lem :
    (k : ℕ) (es : List Dirent)
    → ((empty_entry k es ≡ none) × All (λ e. e.inode ≢ 0) es)
      ⊎ ((i : ℕ) × (empty_entry k es ≡ some (k + i))
          × (i < length es)
          × ((get_or es i no_entry).inode ≡ 0))
unfolding empty_entry
empty_entry_lem k [] = inl (refl, tt)
empty_entry_lem k (e ∷ es) = elim (Bool-cases (e.inode == 0)) [
  | inl z ↦ rw z (inr (0, ap some (omega arith), omega arith, ground (arith, z)))
  | inr nz ↦ rw nz (elim (empty_entry_lem (k + 1) es) [
    | inl (f, all) ↦ inl (f, (==→ne e.inode 0 nz, all))
    | inr (i, f, lt, z) ↦ inr (suc i, f ∙ ap some (omega arith), omega arith, z)
  ])
]

pub ino_of_same : (a b : List ℕ) (es : List Dirent) → strcmp a b ≡ true → ino_of a es ≡ ino_of b es
ino_of_same a b [] e = refl
ino_of_same a b (d ∷ es) e = rw (strcmp_same_right d.name a b e, ino_of_same a b es e) refl

-- An entry in use is found under its name.
ino_of-get_or :
    (q : List ℕ) (es : List Dirent) (i : ℕ)
    → i < length es
    → (get_or es i no_entry).inode ≢ 0
    → strcmp (get_or es i no_entry).name q ≡ true
    → ino_of q es ≢ none
ino_of-get_or q [] i lt nz hit = absurd (omega arith)
ino_of-get_or q (e ∷ es) zero lt nz hit = λ nil. ground (arith, nz, hit, nil)
ino_of-get_or q (e ∷ es) (suc i) lt nz hit =
    let ih = ino_of-get_or q es i (omega arith) nz hit in λ nil. ground (arith, nil, ih)

-- A name that is not there is entered in an entry not in use.
pub ino_of-set :
    (q name : List ℕ) (es : List Dirent) (i : ℕ) (e : Dirent)
    → i < length es
    → (get_or es i no_entry).inode ≡ 0
    → e.inode ≢ 0
    → strcmp e.name name ≡ true
    → ino_of name es ≡ none
    → ino_of q (set es i e) ≡ (if strcmp name q then some e.inode else ino_of q es)
ino_of-set q name [] i e lt z nz same new = absurd (omega arith)
ino_of-set q name (d ∷ es) zero e lt z nz same new =
    ground (arith, z, nz, strcmp_same e.name name q same)
ino_of-set q name (d ∷ es) (suc i) e lt z nz same new = elim (Bool-cases (d.inode == 0)) [
  | inl unused ↦
      rw (unused) (ino_of-set q name es i e (omega arith) z nz same (ground (arith, unused, new)))
  | inr used ↦
      let others : strcmp d.name name ≡ false = ground (arith, used, new) in
      let rest =
        ino_of-set q name es i e (omega arith) z nz same (ground (arith, used, others, new)) in
      elim (Bool-cases (strcmp d.name q)) [
        | inr no_hit ↦ rw (used, no_hit) rest
        | inl hit ↦
            let apart : strcmp name q ≡ false = elim (Bool-cases (strcmp name q)) [
              | inr f ↦ f
              | inl t ↦
                  absurd
                    (ground (arith, others, strcmp_same d.name q name hit, strcmp_comm q name, t))
            ] in
            rw (used, hit, apart) refl
      ]
]

pub strcmp_refl : (a : List ℕ) → strcmp a a ≡ true
strcmp_refl a = (strcmp_lem a a).1 refl

pub Distinct-set :
    (es : List Dirent) (i : ℕ) (e : Dirent)
    → Distinct es
    → i < length es
    → (get_or es i no_entry).inode ≡ 0
    → e.inode ≢ 0
    → ino_of e.name es ≡ none
    → Distinct (set es i e)
Distinct-set [] i e h lt z nz new = tt
Distinct-set (d ∷ es) zero e h lt z nz new = (λ used. ground (arith, z, new), h.1)
Distinct-set (d ∷ es) (suc i) e h lt z nz new =
    let rest : ino_of e.name es ≡ none = ground (arith, new) in
    let head = ino_of-set d.name e.name es i e (omega arith) z nz (strcmp_refl e.name) rest in
    (
      λ used. ground (arith, head, used, new, h.0, strcmp_comm d.name e.name),
      Distinct-set es i e h.1 (omega arith) z nz rest,
    )

clear-none :
    (q : List ℕ) (es : List Dirent) (i : ℕ)
    → ino_of q es ≡ none
    → ino_of q (set es i no_entry) ≡ none
clear-none q [] i nil = refl
clear-none q (d ∷ es) zero nil = ground (arith, nil)
clear-none q (d ∷ es) (suc i) nil = ground (arith, nil, clear-none q es i)

pub Distinct-clear : (es : List Dirent) (i : ℕ) → Distinct es → Distinct (set es i no_entry)
Distinct-clear [] i h = tt
Distinct-clear (d ∷ es) zero h = (λ used. absurd (used refl), h.1)
Distinct-clear (d ∷ es) (suc i) h =
    (λ used. clear-none d.name es i (h.0 used), Distinct-clear es i h.1)

-- Clearing the entry of a name removes that name.
pub ino_of-clear :
    (q name : List ℕ) (es : List Dirent) (i : ℕ)
    → Distinct es
    → i < length es
    → (get_or es i no_entry).inode ≢ 0
    → strcmp (get_or es i no_entry).name name ≡ true
    → ino_of q (set es i no_entry) ≡ (if strcmp name q then none else ino_of q es)
ino_of-clear q name [] i h lt nz hit = absurd (omega arith)
ino_of-clear q name (d ∷ es) zero h lt nz hit =
    ground (arith, nz, strcmp_same d.name name q hit, h.0, ino_of_same d.name q es)
ino_of-clear q name (d ∷ es) (suc i) h lt nz hit =
    let rest = ino_of-clear q name es i h.1 (omega arith) nz hit in
    elim (Bool-cases (d.inode == 0)) [
      | inl unused ↦ rw (unused) rest
      | inr used ↦ elim (Bool-cases (strcmp d.name q)) [
        | inr no_hit ↦ rw (used, no_hit) rest
        | inl here ↦
            let apart : strcmp name q ≡ false = elim (Bool-cases (strcmp name q)) [
              | inr f ↦ f
              | inl t ↦
                  let both : strcmp d.name name ≡ true = strcmp_same_right d.name name q t ∙ here in
                  absurd (
                    ino_of-get_or name es i (omega arith) nz hit
                      (sym (ino_of_same d.name name es both) ∙ h.0 (==→ne d.inode 0 used)))
            ] in
            rw (used, here, apart) refl
      ]
    ]
