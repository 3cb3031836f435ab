-- ===== src/Vfs/Dentries.antt =====
-- The tree of directory entries of src/fs/vfs.c: paths are split into components, and these are looked
-- up from the root entry. An inode pointer is a number, NULL is `none`.
use vros.Base.{
  ℕ, zero, suc, ◌+◌, ◌≤◌, ◌<◌, ◌≡◌, refl, sym, ap, ◌∙◌, ◌≢◌, Bool, false, not, ◌||◌, Option, none,
  some, List, [], ◌∷◌, ◌++◌, length, leb, ◌==◌, if◌then◌else◌, arith, All, ne→==, length-append,
}
use vros.Vfs.{slash}
use mathlib.Core.List.{append-nil, append_assoc}
use vros.CString.{strcmp}

-- struct dentry with its children, and the list of children by `next`.
mutual
  pub data Dentry : Type 0 where
    dentry : List ℕ → Option ℕ → Dentries → Dentry

  pub data Dentries : Type 0 where
    no_dentry : Dentries
    and_next : Dentry → Dentries → Dentries

-- `while (*path == '/') path++`
unfoldable pub skip_slashes : List ℕ → List ℕ
skip_slashes [] = []
skip_slashes (c ∷ path) = let rest = skip_slashes path in if c == slash then rest else c ∷ path

-- The component that is left at the end, if it has a character.
abbrev last_component : List ℕ → List (List ℕ)
last_component [] = []
last_component (c ∷ component) = (c ∷ component) ∷ []

abbrev and_component : List ℕ → Option (List (List ℕ)) → Option (List (List ℕ))
and_component component none = none
and_component component (some rest) = some (component ∷ rest)

-- The loop, with room for `room` components, where `component` is read so far.
unfoldable pub split_from : ℕ → List ℕ → List ℕ → Option (List (List ℕ))
split_from room component [] = some (last_component component)
split_from zero component (c ∷ path) = some (last_component component)
split_from (suc room) component (c ∷ path) =
    let next_one = split_from room [] path in
    let same_one = split_from (suc room) (component ++ (c ∷ [])) path in
    if c == slash
    then and_component component next_one
    else if leb 255 (length component + 1)
    then none
    else same_one

unfoldable pub split_path : List ℕ → ℕ → Option (List (List ℕ))
split_path path max_components = split_from max_components [] (skip_slashes path)

-- The loop over the children.
unfoldable pub find_child : List ℕ → Dentries → Option Dentry
find_child name no_dentry = none
find_child name (and_next (dentry n i children) es) =
    let rest = find_child name es in if strcmp n name then some (dentry n i children) else rest

-- The loop over the components.
unfoldable pub lookup_components : (ℕ → Bool) → List (List ℕ) → Dentry → Option Dentry
lookup_components is_directory [] current = some current
lookup_components is_directory (c ∷ cs) (dentry n none children) = none
lookup_components is_directory (c ∷ cs) (dentry n (some i) children) =
    if not (is_directory i) then none else elim (find_child c children) [
      | none ↦ none
      | some child ↦ lookup_components is_directory cs child
    ]

-- `root` is the entry of the root superblock.
unfoldable pub vfs_lookup : (ℕ → Bool) → Option Dentry → List ℕ → Option Dentry
vfs_lookup is_directory root path = elim root [
  | none ↦ none
  | some entry ↦
      if strcmp path (slash ∷ []) || (length path == 0)
      then some entry
      else elim (split_path path 16) [
        | none ↦ none
        | some components ↦ lookup_components is_directory components entry
      ]
]

-- A component of 1 to 254 characters, no slash and no 0.
pub record IsComponent (name : List ℕ) : Type 0 where
  pub some_char : 0 < length name
  pub fits : length name ≤ 254
  pub plain : All (λ (c : ℕ). c ≢ slash) name
  pub no_end : All (λ (c : ℕ). c ≢ 0) name

-- Components joined by slashes.
abbrev pub joined : List ℕ → List (List ℕ) → List ℕ
joined c [] = c
joined c (d ∷ cs) = c ++ (slash ∷ joined d cs)

split-last :
    (room : ℕ) (read name : List ℕ)
    → All (λ (c : ℕ). c ≢ slash) name
    → length read + length name ≤ 254
    → 0 < length read + length name
    → split_from (suc room) read name ≡ some ((read ++ name) ∷ [])
unfolding split_from
split-last room [] [] k le pos = absurd (omega (arith, pos))
split-last room (r ∷ read) [] k le pos = ap (λ xs. some (xs ∷ [])) (sym (append-nil (r ∷ read)))
split-last room read (c ∷ name) k le pos =
    let fit : leb 255 (length read + 1) ≡ false = ground (arith, le) in
    let longer = length-append read (c ∷ []) in
    rw (ne→== c slash k.0, fit)
      (split-last room (read ++ (c ∷ [])) name k.1 (omega (arith, le, longer))
          (omega (arith, longer))
        ∙ ap (λ xs. some (xs ∷ [])) (append_assoc read (c ∷ []) name))

split-slash :
    (room : ℕ) (read name rest : List ℕ)
    → All (λ (c : ℕ). c ≢ slash) name
    → length read + length name ≤ 254
    → split_from (suc room) read (name ++ (slash ∷ rest))
      ≡ and_component (read ++ name) (split_from room [] rest)
unfolding split_from
split-slash room read [] rest k le =
    ap (λ xs. and_component xs (split_from room [] rest)) (sym (append-nil read))
split-slash room read (c ∷ name) rest k le =
    let fit : leb 255 (length read + 1) ≡ false = ground (arith, le) in
    let longer = length-append read (c ∷ []) in
    rw (ne→== c slash k.0, fit)
      (split-slash room (read ++ (c ∷ [])) name rest k.1 (omega (arith, le, longer))
        ∙ ap (λ xs. and_component xs (split_from room [] rest)) (append_assoc read (c ∷ []) name))

split-joined :
    (room : ℕ) (c : List ℕ) (cs : List (List ℕ))
    → IsComponent c
    → All IsComponent cs
    → length cs ≤ room
    → split_from (suc room) [] (joined c cs) ≡ some (c ∷ cs)
split-joined room c [] k ks le =
    split-last room [] c k.plain (omega (arith, k.fits)) (omega (arith, k.some_char))
split-joined zero c (d ∷ cs) k ks le = absurd (omega (arith, le))
split-joined (suc room) c (d ∷ cs) k ks le =
    split-slash (suc room) [] c (joined d cs) k.plain (omega (arith, k.fits))
    ∙ ap (and_component c) (split-joined room d cs ks.0 ks.1 (omega (arith, le)))

skip-joined :
    (c : List ℕ) (cs : List (List ℕ)) → IsComponent c → skip_slashes (joined c cs) ≡ joined c cs
unfolding skip_slashes
skip-joined [] cs k = absurd (omega (arith, k.some_char))
skip-joined (x ∷ c) [] k = rw (ne→== x slash k.plain.0) refl
skip-joined (x ∷ c) (d ∷ cs) k = rw (ne→== x slash k.plain.0) refl

not_root :
    (c : List ℕ) (cs : List (List ℕ))
    → IsComponent c
    → (strcmp (slash ∷ joined c cs) (slash ∷ []) || (length (slash ∷ joined c cs) == 0)) ≡ false
unfolding strcmp
not_root [] cs k = absurd (omega (arith, k.some_char))
not_root (x ∷ c) [] k = rw (ne→== x 0 k.no_end.0) (ground arith)
not_root (x ∷ c) (d ∷ cs) k = rw (ne→== x 0 k.no_end.0) (ground arith)

-- With a root entry, for a slash and at most 16 components of 1 to 254 characters, none of them a
-- slash or a 0, joined by slashes: vfs_lookup looks those components up one after the other in the
-- tree of entries.
pub lookup-components :
    (is_directory : ℕ → Bool) (root : Dentry) (c : List ℕ) (cs : List (List ℕ))
    → IsComponent c
    → All IsComponent cs
    → length cs ≤ 15
    → vfs_lookup is_directory (some root) (slash ∷ joined c cs)
      ≡ lookup_components is_directory (c ∷ cs) root
unfolding vfs_lookup split_path skip_slashes
lookup-components is_directory root c cs k ks le =
    rw (not_root c cs k, skip-joined c cs k, split-joined 15 c cs k ks le) refl
