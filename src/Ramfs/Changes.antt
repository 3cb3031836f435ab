-- ===== src/Ramfs/Changes.antt =====
-- The operations of src/fs/ramfs.c that make entries and take directories away.
use vros.Base.{
  ℕ, ◌+◌, ◌%◌, ◌^◌, ◌<◌, ◌≡◌, refl, sym, ap, ◌∙◌, ◌≢◌, ◌⊎◌, inl, inr, Bool, true, false, ◌&&◌,
  Option, none, some, List, [], ◌∷◌, ltb, if◌then◌else◌, arith, Bool-cases, Option-cases, ==_refl,
  ne→==, length,
}
use vros.CString.{strcmp}
use vros.Vfs.Paths.{take-all}
use vros.Ramfs.{
  name_size, RamDirent, RamNode, Nodes, set_node, find_name, remove_name, ramfs_lookup, add_new,
  no_data, ramfs_create, ramfs_mkdir, without_name, ramfs_rmdir,
}
use vros.Ramfs.RamNode.{file, directory}
use vros.Ramfs.Names.{IsFolder, lookup_folder, removed}

-- The node of a directory with an entry of the whole name in front.
abbrev with_entry : List ℕ → ℕ → List RamDirent → ℕ → RamNode
with_entry name i entries n =
    directory (record { name = name; inode = i } ∷ entries) ((n + 1) % 2 ^ 32)

-- What a directory gives after an entry is put in front.
added :
    (node : RamNode) (nodes : Nodes) (dir i : ℕ) (entries : List RamDirent) (name : List ℕ)
    (k : IsFolder nodes dir entries)
    → find_name name entries ≡ none
    → let nodes' = set_node dir (with_entry name i entries k.count) (set_node i node nodes) in
      IsFolder nodes' dir (record { name = name; inode = i } ∷ entries)
      × ((q : List ℕ)
          → ramfs_lookup nodes' dir q
            ≡ (if strcmp name q then some i else ramfs_lookup nodes dir q))
unfolding find_name
added node nodes dir i entries name k fresh =
    let nodes' = set_node dir (with_entry name i entries k.count) (set_node i node nodes) in
    let entries' = record { name = name; inode = i } ∷ entries in
    let k' : IsFolder nodes' dir entries' = record {
      count = (k.count + 1) % 2 ^ 32;
      counted = omega (arith, k.counted);
      node = rw (==_refl dir) refl;
      distinct = (fresh, k.distinct);
    } in
    (k', λ q. rw (lookup_folder nodes' dir entries' q k', lookup_folder nodes dir entries q k) refl)

-- A call that makes an entry with the node: it fails as the name is there or memory is short, and
-- no node but that of the new inode is changed, or the entry is in front.
unfoldable pub Adds :
    RamNode
    → Option ℕ
    → Bool × Bool
    → Nodes
    → ℕ
    → List RamDirent
    → List ℕ
    → Option ℕ × Nodes
    → Type 0
Adds node inode given nodes dir entries name (r, nodes') =
    ((r ≡ none)
      × ((j : ℕ) → inode ≢ some j → nodes' j ≡ nodes j)
      × (((found : ℕ) × (ramfs_lookup nodes dir name ≡ some found))
          ⊎ ((inode ≡ none) ⊎ ((given.0 && given.1) ≡ false))))
    ⊎ ((i : ℕ) × (inode ≡ some i)
        × (r ≡ some i)
        × IsFolder nodes' dir (record { name = name; inode = i } ∷ entries)
        × (nodes' i ≡ node)
        × ((j : ℕ) → j ≢ i → j ≢ dir → nodes' j ≡ nodes j)
        × ((q : List ℕ)
            → ramfs_lookup nodes' dir q
              ≡ (if strcmp name q then some i else ramfs_lookup nodes dir q)))

-- The call with all the memory it asks for, on a name that is not there.
add_new-fresh :
    (node : RamNode) (nodes : Nodes) (dir i : ℕ) (entries : List RamDirent) (name : List ℕ)
    → IsFolder nodes dir entries
    → length name < name_size
    → dir ≢ i
    → find_name name entries ≡ none
    → Adds node
        (some i)
        (true, true)
        nodes
        dir
        entries
        name
        (add_new node (some i) (true, true) nodes dir name)
unfolding add_new Adds
add_new-fresh node nodes dir i entries name k short ne fresh =
    let call : add_new node (some i) (true, true) nodes dir name
        ≡ (some i, set_node dir (with_entry name i entries k.count) (set_node i node nodes)) =
      rw (add_new, k.node, fresh, take-all name_size name (omega arith)) refl in
    let (k', views) = added node nodes dir i entries name k fresh in
    rw call (
      inr (
        i,
        refl,
        refl,
        k',
        rw (ne→== dir i ne, ==_refl i) refl,
        λ j other1 other2.
            rw (ne→== dir j (λ e. other2 (sym e)), ne→== i j (λ e. other1 (sym e))) refl,
        views,
      ))

add_new_lem :
    (node : RamNode) (inode : Option ℕ) (given : Bool × Bool) (nodes : Nodes) (dir : ℕ)
    (entries : List RamDirent) (name : List ℕ)
    → IsFolder nodes dir entries
    → length name < name_size
    → inode ≢ some dir
    → Adds node inode given nodes dir entries name (add_new node inode given nodes dir name)
unfolding add_new Adds
add_new_lem node inode (a, b) nodes dir entries name k short ne =
    let look = lookup_folder nodes dir entries name k in
    elim (Option-cases (find_name name entries)) [
      | inr (old, found) ↦
          rw (add_new, k.node, found) (inl (refl, λ j other. refl, inl (old, look ∙ found)))
      | inl fresh ↦ elim (Option-cases inode) [
        | inl null ↦ rw (add_new, k.node, fresh, null) (inl (refl, λ j other. refl, inr (inl refl)))
        | inr (i, e) ↦ elim (Bool-cases a) [
          | inr f ↦ rw (add_new, k.node, fresh, e, f) (inl (refl, λ j other. refl, inr (inr refl)))
          | inl t ↦ elim (Bool-cases b) [
            | inr f ↦
                rw (add_new, k.node, fresh, e, t, f)
                  (inl (
                    refl,
                    λ j other. rw (ne→== i j (λ same. other (ap some same))) refl,
                    inr (inr refl),
                  ))
            | inl t' ↦
                rw (e, t, t')
                  (add_new-fresh node nodes dir i entries name k short
                    (λ s. ne (e ∙ ap some (sym s))) fresh)
          ]
        ]
      ]
    ]

-- In a directory whose entries have distinct names and are counted in 32 bits, with a pointer for
-- the new inode that is not the directory's, for a name of fewer than 256 characters: ramfs_create
-- and ramfs_mkdir fail only if the name is found or memory is short, and then change no node but
-- the new inode's; otherwise the result is the new inode, with an empty file or directory, the
-- directory has one entry more in front, again with distinct names and the right count, lookups of
-- the name find the new inode and of every other name what they found before, and the nodes of all
-- other inodes are kept.
pub lookup-create_ram :
    (inode : Option ℕ) (given : Bool × Bool) (nodes : Nodes) (dir : ℕ) (entries : List RamDirent)
    (name : List ℕ)
    → IsFolder nodes dir entries
    → length name < name_size
    → inode ≢ some dir
    → Adds
        (file no_data)
        inode
        given
        nodes
        dir
        entries
        name
        (ramfs_create inode given nodes dir name)
      × Adds
          (directory [] 0)
          inode
          given
          nodes
          dir
          entries
          name
          (ramfs_mkdir inode given nodes dir name)
unfolding ramfs_create ramfs_mkdir
lookup-create_ram inode given nodes dir entries name k short ne = (
  add_new_lem (file no_data) inode given nodes dir entries name k short ne,
  add_new_lem (directory [] 0) inode given nodes dir entries name k short ne,
)

no_entries :
    (es : List RamDirent) (count : ℕ)
    → length es < 2 ^ 32
    → count ≡ length es % 2 ^ 32
    → ltb 0 count ≡ false
    → es ≡ []
no_entries [] count short e void = refl
no_entries (d ∷ es) count short e void = absurd (ground (arith, void, e, short))

-- In a directory whose entries have distinct names and are counted in 32 bits, for a name that
-- leads to another such directory with fewer than 2 ^ 32 entries: ramfs_rmdir fails and changes
-- nothing exactly if that has an entry; otherwise it is empty, the name's entry is taken out,
-- lookups of the name find nothing and of every other name what they found before.
pub rmdir-IsFolder :
    (nodes : Nodes) (dir target : ℕ) (entries inside : List RamDirent) (name : List ℕ)
    → IsFolder nodes dir entries
    → ramfs_lookup nodes dir name ≡ some target
    → IsFolder nodes target inside
    → length inside < 2 ^ 32
    → ((ramfs_rmdir nodes dir name ≡ (false, nodes)) × (inside ≢ []))
      ⊎ (((ramfs_rmdir nodes dir name).0 ≡ true)
          × (inside ≡ [])
          × IsFolder (ramfs_rmdir nodes dir name).1 dir (remove_name name entries)
          × ((q : List ℕ)
              → ramfs_lookup (ramfs_rmdir nodes dir name).1 dir q
                ≡ (if strcmp name q then none else ramfs_lookup nodes dir q)))
unfolding ramfs_rmdir
rmdir-IsFolder nodes dir target entries inside name k looked k2 short =
    let found : find_name name entries ≡ some target =
      sym (lookup_folder nodes dir entries name k) ∙ looked in
    elim (Bool-cases (ltb 0 k2.count)) [
      | inl full ↦ inl (
        rw (ramfs_rmdir, k.node, found, k2.node, full) refl,
        λ e. ground (arith, full, k2.counted, ap length e),
      )
      | inr void ↦
          let call : ramfs_rmdir nodes dir name
              ≡ (true, set_node dir (without_name name entries k.count) nodes) =
            rw (ramfs_rmdir, k.node, found, k2.node, void) refl in
          let (k', views) = removed nodes dir entries name target k found in
          rw call (inr (refl, no_entries inside k2.count short k2.counted void, k', views))
    ]
