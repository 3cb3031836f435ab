-- ===== src/Vfs/Parent.antt =====
-- Unlinking and removing directories by path, vfs_unlink and vfs_rmdir of src/fs/vfs.c: the name
-- behind the last slash in the directory that the rest of the path leads to.
use vros.Base.{
  inr, Option-cases, inl, ◌⊎◌, ℕ, suc, ◌+◌, ◌≤◌, ◌<◌, ◌≡◌, refl, ap, ◌∙◌, ◌≢◌, Bool, false, Option,
  none, some, List, [], ◌∷◌, ◌++◌, length, take, drop, ◌==◌, if◌then◌else◌, arith, All,
  length-append, ne→==,
}
use vros.Bytes.{take-append}
use vros.Vfs.{slash, InodeOps, Mounts, vfs_lookup_inode, is_empty}
use vros.Vfs.Paths.{components, components_from, take-all}
use vros.Vfs.Resolve.{resolve, lookup_inode-resolve}
use vros.Vfs.Files.{
  last_slash_from, split_parent, unlink_in, unlink_from, vfs_unlink, rmdir_in, rmdir_from,
  vfs_rmdir,
}

last_slash-name :
    (found : Option ℕ) (i : ℕ) (name : List ℕ)
    → All (λ c. c ≢ slash) name
    → last_slash_from found i name ≡ found
unfolding last_slash_from
last_slash-name found i [] k = refl
last_slash-name found i (c ∷ name) k =
    let plain = ne→== c slash k.0 in rw (plain) (last_slash-name found (i + 1) name k.1)

last_slash_lem :
    (found : Option ℕ) (i : ℕ) (parent name : List ℕ)
    → All (λ c. c ≢ slash) name
    → last_slash_from found i (parent ++ (slash ∷ name)) ≡ some (i + length parent)
unfolding last_slash_from
last_slash_lem found i [] name k = last_slash-name (some i) (i + 1) name k ∙ ap some (omega arith)
last_slash_lem found i (c ∷ parent) name k =
    last_slash_lem (if c == slash then some i else found) (i + 1) parent name k
    ∙ ap some (omega arith)

-- The path of the parent, "/" for the root.
abbrev pub parent_path : List ℕ → List ℕ
parent_path parent = if length parent == 0 then slash ∷ [] else parent

components-parent : (parent : List ℕ) → components (parent_path parent) ≡ components parent
unfolding components components_from
components-parent [] = refl
components-parent (c ∷ parent) =
    let more : (length (c ∷ parent) == 0) ≡ false = ground arith in rw (more) refl

parent_path-length : (parent : List ℕ) → length parent < 253 → length (parent_path parent) < 253
parent_path-length parent lt = ground arith

behind : (parent name : List ℕ) → drop (length parent + 1) (parent ++ (slash ∷ name)) ≡ name
behind [] name = refl
behind (c ∷ parent) name =
    let more : length (c ∷ parent) + 1 ≡ suc (length parent + 1) = omega arith in
    rw (more) (behind parent name)

not_empty : (parent name : List ℕ) → is_empty (parent ++ (slash ∷ name)) ≡ false
not_empty [] name = refl
not_empty (c ∷ parent) name = refl

split_parent_lem :
    (parent name : List ℕ)
    → All (λ c. c ≢ slash) name
    → length name ≤ 63
    → split_parent (parent ++ (slash ∷ name)) ≡ some (parent_path parent, name)
unfolding split_parent
split_parent_lem parent name k short =
    let at : last_slash_from none 0 (parent ++ (slash ∷ name)) ≡ some (length parent) =
      last_slash_lem none 0 parent name k ∙ ap some (omega arith) in
    rw
      (
        split_parent,
        at,
        take-append parent (slash ∷ name),
        behind parent name,
        take-all 63 name short,
      )
      refl

module _ {I S : Type 0} (ops : InodeOps I S) (v : Mounts I) where
  parent-resolve :
      (parent : List ℕ) (root : I) (s : S)
      → length parent < 253
      → v.root_inode ≡ some root
      → vfs_lookup_inode ops v (parent_path parent) s ≡ resolve ops v [] root (components parent) s
  parent-resolve parent root s short mounted =
      lookup_inode-resolve ops v (parent_path parent) root s (parent_path-length parent short)
        mounted
      ∙ ap (λ cs. resolve ops v [] root cs s) (components-parent parent)

  unlink_from_lem :
      (parent name : List ℕ) (root : I) (s : S)
      → All (λ c. c ≢ slash) name
      → length name ≤ 63
      → length parent < 253
      → v.root_inode ≡ some root
      → unlink_from ops v (parent ++ (slash ∷ name)) s
        ≡ unlink_in ops name (resolve ops v [] root (components parent) s)
  unfolding unlink_from
  unlink_from_lem parent name root s k short long mounted =
      rw (unlink_from, split_parent_lem parent name k short)
        (ap (unlink_in ops name) (parent-resolve parent root s long mounted))

  unlink_call :
      (parent name : List ℕ) (root : I) (s : S)
      → All (λ c. c ≢ slash) name
      → length name ≤ 63
      → length parent < 253
      → v.root_inode ≡ some root
      → vfs_unlink ops v (parent ++ (slash ∷ name)) s
        ≡ unlink_in ops name (resolve ops v [] root (components parent) s)
  unfolding vfs_unlink
  unlink_call parent name root s k short long mounted =
      ap
        (λ o. elim o as (λ x. Bool × S) [
          | none ↦ (false, s)
          | some root ↦ unlink_from ops v (parent ++ (slash ∷ name)) s
        ])
        mounted
      ∙ unlink_from_lem parent name root s k short long mounted

  unlink_in_cases :
      (name : List ℕ) (r : Option I × S)
      → ((r.0 ≡ none) × (unlink_in ops name r ≡ (false, r.1)))
        ⊎ ((dir : I) × (r.0 ≡ some dir)
            × (ops.unlink dir ≡ none)
            × (unlink_in ops name r ≡ (false, r.1)))
        ⊎ ((dir : I) × (unlink : List ℕ → S → Bool × S) × (r.0 ≡ some dir)
            × (ops.unlink dir ≡ some unlink)
            × (unlink_in ops name r ≡ unlink name r.1))
  unfolding unlink_in
  unlink_in_cases name (none, s) = inl (refl, refl)
  unlink_in_cases name (some dir, s) = elim (Option-cases (ops.unlink dir)) [
    | inl e ↦ inr (inl (dir, refl, e, rw (unlink_in, e) refl))
    | inr (unlink, e) ↦ inr (inr (dir, unlink, refl, e, rw (unlink_in, e) refl))
  ]

  -- With a root inode, for vfs_unlink on a path of a parent of fewer than 253 characters, a slash
  -- and a name of at most 63 characters without a slash, one of three holds: the components of the
  -- parent lead nowhere and it fails; they lead to a directory without an unlink operation and it
  -- fails; or they lead to a directory with one, and the result is that of calling it with the
  -- name.
  pub unlink-resolve :
      (parent name : List ℕ) (root : I) (s : S)
      → All (λ c. c ≢ slash) name
      → length name ≤ 63
      → length parent < 253
      → v.root_inode ≡ some root
      → let (found, s') = resolve ops v [] root (components parent) s in
        let out = vfs_unlink ops v (parent ++ (slash ∷ name)) s in
        ((found ≡ none) × (out ≡ (false, s')))
        ⊎ ((dir : I) × (found ≡ some dir) × (ops.unlink dir ≡ none) × (out ≡ (false, s')))
        ⊎ ((dir : I) × (unlink : List ℕ → S → Bool × S) × (found ≡ some dir)
            × (ops.unlink dir ≡ some unlink)
            × (out ≡ unlink name s'))
  unfolding vfs_unlink
  unlink-resolve parent name root s k short long mounted =
      rw (unlink_call parent name root s k short long mounted)
        (unlink_in_cases name (resolve ops v [] root (components parent) s))

  rmdir_from_lem :
      (parent name : List ℕ) (root : I) (s : S)
      → All (λ c. c ≢ slash) name
      → length parent + length name < 253
      → v.root_inode ≡ some root
      → rmdir_from ops v root (parent ++ (slash ∷ name)) s
        ≡ rmdir_in ops name (resolve ops v [] root (components parent) s)
  unfolding rmdir_from
  rmdir_from_lem parent name root s k short mounted =
      let path = parent ++ (slash ∷ name) in
      let whole : take 255 path ≡ path =
        take-all 255 path (omega (arith, length-append parent (slash ∷ name))) in
      let at : last_slash_from none 0 path ≡ some (length parent) =
        last_slash_lem none 0 parent name k ∙ ap some (omega arith) in
      rw
        (
          rmdir_from,
          not_empty parent name,
          whole,
          at,
          whole,
          behind parent name,
          take-append parent (slash ∷ name),
        )
        (ap (rmdir_in ops name) (parent-resolve parent root s (omega arith) mounted))

  rmdir_name :
      (name : List ℕ) (root : I) (s : S)
      → All (λ c. c ≢ slash) name
      → 0 < length name
      → length name ≤ 255
      → rmdir_from ops v root name s ≡ rmdir_in ops name (some root, s)
  unfolding rmdir_from
  rmdir_name [] root s k pos short = absurd (omega arith)
  rmdir_name (c ∷ name) root s k pos short =
      let whole = take-all 255 (c ∷ name) short in
      rw (rmdir_from, whole, last_slash-name none 0 (c ∷ name) k, whole) refl

  -- With a root inode, vfs_rmdir on a slash, a parent, a slash and a name without a slash, not
  -- empty, together short of 253 characters, calls the rmdir operation of the directory that the
  -- components of the parent lead to with that name, and without a parent that of the root; it
  -- fails if that is no directory, is not found or has no such operation.
  pub rmdir-resolve :
      (parent name : List ℕ) (root : I) (s : S)
      → All (λ c. c ≢ slash) name
      → 0 < length name
      → length parent + length name < 253
      → v.root_inode ≡ some root
      → (vfs_rmdir ops v (slash ∷ (parent ++ (slash ∷ name))) s
          ≡ rmdir_in ops name (resolve ops v [] root (components parent) s))
        × (vfs_rmdir ops v (slash ∷ name) s ≡ rmdir_in ops name (some root, s))
  unfolding vfs_rmdir
  rmdir-resolve parent name root s k some_name short mounted = (
    ap
          (λ o. elim o as (λ x. Bool × S) [
            | none ↦ (false, s)
            | some root ↦ rmdir_from ops v root (parent ++ (slash ∷ name)) s
          ])
          mounted
        ∙ rmdir_from_lem parent name root s k short mounted,
    ap
          (λ o. elim o as (λ x. Bool × S) [
            | none ↦ (false, s)
            | some root ↦ rmdir_from ops v root name s
          ])
          mounted
        ∙ rmdir_name name root s k some_name (omega arith),
  )
