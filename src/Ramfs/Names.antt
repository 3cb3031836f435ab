-- ===== src/Ramfs/Names.antt =====
-- The directories of src/fs/ramfs.c as finite maps from names to inodes.
use vros.Base.{
  length, ℕ, suc, ◌+◌, ◌-◌, ◌%◌, ◌^◌, ◌≡◌, refl, ap, ◌∙◌, ◌⊎◌, inl, inr, true, false, none, some,
  List, [], ◌∷◌, if◌then◌else◌, arith, Bool-cases, Option-cases, ==_refl,
}
use vros.CString.{strcmp}
use vros.Vrfs.Entries.{strcmp_same, strcmp_same_right}
use vros.Ramfs.{
  RamData, RamDirent, RamNode, Nodes, set_node, find_name, remove_name, ramfs_lookup, without_name,
  ramfs_unlink, ramfs_mount_root, ramfs_remove_entry,
}
use vros.Ramfs.RamNode.{file, directory}

-- No name stands twice.
abbrev pub DistinctNames : List RamDirent → Type 0
DistinctNames [] = Unit
DistinctNames (e ∷ es) = (find_name e.name es ≡ none) × DistinctNames es

pub find_name_same :
    (a b : List ℕ) (es : List RamDirent) → strcmp a b ≡ true → find_name a es ≡ find_name b es
unfolding find_name
find_name_same a b [] e = refl
find_name_same a b (d ∷ es) e = rw (strcmp_same_right d.name a b e, find_name_same a b es e) refl

find_name-remove :
    (q name : List ℕ) (es : List RamDirent)
    → DistinctNames es
    → find_name q (remove_name name es) ≡ (if strcmp name q then none else find_name q es)
unfolding find_name remove_name
find_name-remove q name [] k = ground arith
find_name-remove q name (e ∷ es) k = elim (Bool-cases (strcmp e.name name)) [
  | inl hit ↦ ground (arith, hit, k.0, strcmp_same e.name name q hit, find_name_same e.name q es)
  | inr other ↦ elim (Bool-cases (strcmp e.name q)) [
    | inr miss ↦ rw (other, miss) (find_name-remove q name es k.1)
    | inl here ↦
        let apart : strcmp name q ≡ false = elim (Bool-cases (strcmp name q)) [
          | inr f ↦ f
          | inl t ↦ absurd (ground (arith, other, strcmp_same_right e.name name q t, here))
        ] in
        rw (other, here, apart) refl
  ]
]

remove-none :
    (q name : List ℕ) (es : List RamDirent)
    → find_name q es ≡ none
    → find_name q (remove_name name es) ≡ none
unfolding find_name remove_name
remove-none q name [] e = refl
remove-none q name (d ∷ es) e = ground (arith, e, remove-none q name es)

remove-DistinctNames :
    (name : List ℕ) (es : List RamDirent) → DistinctNames es → DistinctNames (remove_name name es)
unfolding remove_name
remove-DistinctNames name [] k = tt
remove-DistinctNames name (e ∷ es) k = elim (Bool-cases (strcmp e.name name)) [
  | inl hit ↦ rw hit k.1
  | inr other ↦ rw other (remove-none e.name name es k.0, remove-DistinctNames name es k.1)
]

length-remove_name :
    (name : List ℕ) (es : List RamDirent) (i : ℕ)
    → find_name name es ≡ some i
    → suc (length (remove_name name es)) ≡ length es
unfolding find_name remove_name
length-remove_name name [] i e = absurd (ground (arith, e))
length-remove_name name (d ∷ es) i e = elim (Bool-cases (strcmp d.name name)) [
  | inl hit ↦ rw hit refl
  | inr other ↦ rw other (ap suc (length-remove_name name es i (rw (other) at e)))
]

-- The directory `dir` has the entries, each name once, and counts them in 32 bits.
pub record IsFolder (nodes : Nodes) (dir : ℕ) (entries : List RamDirent) : Type 0 where
  pub count : ℕ
  pub counted : count ≡ length entries % 2 ^ 32
  pub node : nodes dir ≡ directory entries count
  pub distinct : DistinctNames entries

pub lookup_folder :
    (nodes : Nodes) (dir : ℕ) (entries : List RamDirent) (q : List ℕ)
    → IsFolder nodes dir entries
    → ramfs_lookup nodes dir q ≡ find_name q entries
unfolding ramfs_lookup
lookup_folder nodes dir entries q k = rw (ramfs_lookup, k.node) refl

-- What a directory gives after an entry is taken out.
pub removed :
    (nodes : Nodes) (dir : ℕ) (entries : List RamDirent) (name : List ℕ) (i : ℕ)
    (k : IsFolder nodes dir entries)
    → find_name name entries ≡ some i
    → let nodes' = set_node dir (without_name name entries k.count) nodes in
      IsFolder nodes' dir (remove_name name entries)
      × ((q : List ℕ)
          → ramfs_lookup nodes' dir q ≡ (if strcmp name q then none else ramfs_lookup nodes dir q))
unfolding without_name
removed nodes dir entries name i k found =
    let nodes' = set_node dir (without_name name entries k.count) nodes in
    let k' : IsFolder nodes' dir (remove_name name entries) = record {
      count = (k.count + 2 ^ 32 - 1) % 2 ^ 32;
      counted = omega (arith, k.counted, length-remove_name name entries i found);
      node = rw (==_refl dir) refl;
      distinct = remove-DistinctNames name entries k.distinct;
    } in
    (
      k',
      λ q.
          rw
            (
              lookup_folder nodes' dir (remove_name name entries) q k',
              lookup_folder nodes dir entries q k,
            )
            (find_name-remove q name entries k.distinct),
    )

-- The new root is an empty directory.
mount_root-IsFolder :
    (nodes : Nodes) (i : ℕ)
    → let (r, nodes') = ramfs_mount_root true (some i) true nodes in
      (r ≡ some i) × IsFolder nodes' i []
unfolding ramfs_mount_root
mount_root-IsFolder nodes i =
    (refl, record { count = 0; counted = refl; node = rw (==_refl i) refl; distinct = tt })

-- ramfs_unlink takes out a file as ramfs_remove_entry takes out any entry.
unlink-remove_entry :
    (nodes : Nodes) (dir i n : ℕ) (d : RamData) (entries : List RamDirent) (name : List ℕ)
    → nodes dir ≡ directory entries n
    → find_name name entries ≡ some i
    → nodes i ≡ file d
    → ramfs_unlink nodes dir name ≡ (true, set_node dir (ramfs_remove_entry name entries n).1 nodes)
unfolding ramfs_unlink ramfs_remove_entry
unlink-remove_entry nodes dir i n d entries name e found plain =
    rw (ramfs_unlink, ramfs_remove_entry, e, found, plain) refl

pub node-cases :
    (node : RamNode)
    → ((d : RamData) × (node ≡ file d))
      ⊎ ((es : List RamDirent) × (n : ℕ) × (node ≡ directory es n))
node-cases (file d) = inl (d, refl)
node-cases (directory es n) = inr (es, n, refl)

-- In a directory whose entries have distinct names and are counted in 32 bits: ramfs_unlink fails
-- and changes nothing only if the name is not found or is that of a directory; otherwise the
-- directory has the entries without the first of that name, again with the right count, lookups of
-- the name find nothing and of every other name what they found before.
pub lookup-remove_file :
    (nodes : Nodes) (dir : ℕ) (entries : List RamDirent) (name : List ℕ)
    → IsFolder nodes dir entries
    → ((ramfs_unlink nodes dir name ≡ (false, nodes))
        × ((ramfs_lookup nodes dir name ≡ none)
            ⊎ ((i : ℕ) × (es : List RamDirent) × (n : ℕ) × (ramfs_lookup nodes dir name ≡ some i)
                × (nodes i ≡ directory es n))))
      ⊎ (((ramfs_unlink nodes dir name).0 ≡ true)
          × IsFolder (ramfs_unlink nodes dir name).1 dir (remove_name name entries)
          × ((q : List ℕ)
              → ramfs_lookup (ramfs_unlink nodes dir name).1 dir q
                ≡ (if strcmp name q then none else ramfs_lookup nodes dir q)))
unfolding ramfs_unlink
lookup-remove_file nodes dir entries name k =
    let look = lookup_folder nodes dir entries name k in
    elim (Option-cases (find_name name entries)) [
      | inl missing ↦ inl (rw (ramfs_unlink, k.node, missing) refl, inl (look ∙ missing))
      | inr (i, found) ↦ elim (node-cases (nodes i)) [
        | inr (es, n, folder) ↦
            inl
              (rw (ramfs_unlink, k.node, found, folder) refl, inr (i, es, n, look ∙ found, folder))
        | inl (d, plain) ↦
            let call : ramfs_unlink nodes dir name
                ≡ (true, set_node dir (without_name name entries k.count) nodes) =
              rw (ramfs_unlink, k.node, found, plain) refl in
            let (k', views) = removed nodes dir entries name i k found in
            rw call (inr (refl, k', views))
      ]
    ]
