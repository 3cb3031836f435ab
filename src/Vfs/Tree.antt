-- ===== src/Vfs/Tree.antt =====
-- What vfs_lookup of src/fs/vfs.c finds in the tree of directory entries, against a description of it
-- as a relation.
use vros.Base.{
  subst, ℕ, ◌≤◌, ◌≡◌, refl, sym, ap, ◌∙◌, ◌≢◌, ◌⊎◌, ◌↔◌, inl, inr, Bool, true, false, none, some,
  List, [], ◌∷◌, length, arith, Bool-cases, Option-cases, All,
}
use vros.CString.{strcmp, text, strcmp_lem}
use vros.Vfs.{slash}
use vros.Vfs.Dentries.{
  Dentry, Dentries, IsComponent, joined, find_child, lookup_components, vfs_lookup,
  lookup-components,
}
use vros.Vfs.Dentries.Dentry.{dentry}
use vros.Vfs.Dentries.Dentries.{no_dentry, and_next}

-- The entry is the first of the children that has the name.
abbrev pub FirstChild : List ℕ → Dentries → Dentry → Type 0
FirstChild name no_dentry d = ⊥
FirstChild name (and_next (dentry n i children) es) d =
    ((text n ≡ text name) × (d ≡ dentry n i children))
    ⊎ ((text n ≢ text name) × FirstChild name es d)

-- Names lead from an entry to another: each time the entry is that of a directory, and the first
-- child of the name is the next.
abbrev pub Leads : (ℕ → Bool) → List (List ℕ) → Dentry → Dentry → Type 0
Leads is_directory [] e d = d ≡ e
Leads is_directory (c ∷ cs) (dentry n i children) d =
    (inode : ℕ) × (i ≡ some inode)
    × (is_directory inode ≡ true)
    × (child : Dentry) × FirstChild c children child
    × Leads is_directory cs child d

find_child-FirstChild :
    (name : List ℕ) (es : Dentries) (d : Dentry)
    → (find_child name es ≡ some d) ↔ FirstChild name es d
unfolding find_child
find_child-FirstChild name no_dentry d = (λ e. ground (arith, e), λ k. absurd k)
find_child-FirstChild name (and_next (dentry n i children) es) d =
    let (to, from) = find_child-FirstChild name es d in
    let (equal, same) = strcmp_lem n name in
    elim (Bool-cases (strcmp n name)) [
      | inl hit ↦ (
        λ e. inl (equal hit, ground (arith, (rw (hit) at e))),
        λ k. elim k [ inl (_, e) ↦ rw (hit, e) refl | inr (apart, _) ↦ absurd (apart (equal hit)) ],
      )
      | inr miss ↦ (
        λ e. inr (λ t. ground (arith, same t, miss), to (rw (miss) at e)),
        λ k. elim k [
          | inl (t, _) ↦ absurd (ground (arith, same t, miss))
          | inr (_, later) ↦ rw (miss) (from later)
        ],
      )
    ]

same_inode : {i j : ℕ} → some i ≡ some j → j ≡ i
same_inode e = ground (arith, e)

true≢false : true ≢ false
true≢false e = ground (arith, e)

components-Leads :
    (is_directory : ℕ → Bool) (cs : List (List ℕ)) (e d : Dentry)
    → (lookup_components is_directory cs e ≡ some d) ↔ Leads is_directory cs e d
unfolding lookup_components
components-Leads is_directory [] e d = (λ h. ground (arith, h), λ h. ap some (sym h))
components-Leads is_directory (c ∷ cs) (dentry n none children) d =
    (λ h. absurd (ground (arith, h)), λ k. absurd (ground (arith, k.1)))
components-Leads is_directory (c ∷ cs) (dentry n (some i) children) d =
    elim (Bool-cases (is_directory i)) [
      | inr plain ↦ (
        λ h. absurd (ground (arith, (rw (plain) at h))),
        λ k. absurd (true≢false (sym k.2 ∙ ap is_directory (same_inode k.1) ∙ plain)),
      )
      | inl folder ↦ elim (Option-cases (find_child c children)) [
        | inl lost ↦ (
          λ h. absurd (ground (arith, (rw (folder, lost) at h))),
          λ k. absurd (ground (arith, lost, (find_child-FirstChild c children k.3).1 k.4)),
        )
        | inr (child, found) ↦
            let (to, from) = components-Leads is_directory cs child d in
            (
              λ h. (
                i,
                refl,
                folder,
                child,
                (find_child-FirstChild c children child).0 found,
                to (rw (folder, found) at h),
              ),
              λ k.
                  let other = (find_child-FirstChild c children k.3).1 k.4 in
                  let same : k.3 ≡ child = ground (arith, found, other) in
                  rw (folder, found) (from (subst (λ e. Leads is_directory cs e d) same k.5)),
            )
      ]
    ]

-- With a root entry, for a slash and at most 16 components of 1 to 254 characters, none of them a
-- slash or a 0, joined by slashes: vfs_lookup finds exactly the entry that the components lead to
-- from the root, where each entry on the way has the inode of a directory and the next is its first
-- child of the component's name.
pub vfs_lookup-Leads :
    (is_directory : ℕ → Bool) (root d : Dentry) (c : List ℕ) (cs : List (List ℕ))
    → IsComponent c
    → All IsComponent cs
    → length cs ≤ 15
    → (vfs_lookup is_directory (some root) (slash ∷ joined c cs) ≡ some d)
      ↔ Leads is_directory (c ∷ cs) root d
vfs_lookup-Leads is_directory root d c cs k ks le =
    rw (lookup-components is_directory root c cs k ks le)
      (components-Leads is_directory (c ∷ cs) root d)
