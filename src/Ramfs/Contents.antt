-- ===== src/Ramfs/Contents.antt =====
-- Files that ramfs_create_file of src/fs/ramfs.c makes: their content is read back.
use vros.Base.{
  ℕ, ◌+◌, ◌%◌, ◌^◌, ◌<◌, ◌≡◌, refl, sym, ap, ◌∙◌, ◌≢◌, inl, inr, true, false, none, some, List, [],
  ◌∷◌, ◌++◌, length, ltb, leb, if◌then◌else◌, arith, All, ==_refl, ne→==,
}
use vros.Vfs.{slash}
use vros.Ramfs.{
  RamData, RamDirent, RamNode, Nodes, set_node, ramfs_read, ramfs_lookup, ramfs_create,
}
use vros.Ramfs.Names.{IsFolder}
use vros.Ramfs.Changes.{lookup-create_ram, Adds}
use vros.CString.{strcmp}
use vros.Bytes.{bytes_at}
use vros.Ramfs.RamNode.{file}
use vros.Ramfs.Paths.{
  IsName, path_of, path_of-starts, walk, parent_of, content_data, put_content, ramfs_find_parent,
  ramfs_create_file, find_parent-walk,
}

bytes_at-content : (content : List ℕ) → bytes_at (content ++ (0 ∷ [])) 0 (length content) ≡ content
unfolding bytes_at
bytes_at-content [] = refl
bytes_at-content (c ∷ content) = ap (◌∷◌ c) (bytes_at-content content)

-- The bytes of a content before its 0.
read_content :
    (content : List ℕ)
    → 0 < length content
    → length content < 2 ^ 32
    → (d : RamData) → d.data_bytes ≡ some (content ++ (0 ∷ []))
    → d.size ≡ length content
    → ramfs_read d (length content) 0 ≡ content
unfolding ramfs_read
read_content content pos lt d e size =
    let inside : leb (length content) 0 ≡ false = ground (arith, pos) in
    let whole : ltb (length content) ((0 + length content) % 2 ^ 32) ≡ false = ground (arith, lt) in
    rw (ramfs_read, e, size, inside, whole) (bytes_at-content content)

-- The new inode of a name that is not there.
created :
    (nodes : Nodes) (dir i : ℕ) (name : List ℕ) (entries : List RamDirent)
    → IsFolder nodes dir entries
    → length name < 256
    → dir ≢ i
    → ramfs_lookup nodes dir name ≡ none
    → let (r, nodes') = ramfs_create (some i) (true, true) nodes dir name in
      (r ≡ some i)
      × ((q : List ℕ)
          → ramfs_lookup nodes' dir q
            ≡ (if strcmp name q then some i else ramfs_lookup nodes dir q))
unfolding Adds
created nodes dir i name entries k short ne fresh =
    elim (lookup-create_ram (some i) (true, true) nodes dir entries name k short
      (λ e. ne (ground (arith, e)))).0 [
        | inl (failed, kept, reason) ↦ absurd (elim reason [
          | inl (old, found) ↦ ground (arith, fresh, found)
          | inr (inl null) ↦ ground (arith, null)
          | inr (inr refused) ↦ ground (arith, refused)
        ])
        | inr (i', e, r, k', at, others, views) ↦
            let same : i' ≡ i = ground (arith, e) in
            (
              r ∙ sym e,
              λ q.
                  views q
                  ∙ ap (λ x. if strcmp name q then some x else ramfs_lookup nodes dir q) same,
            )
      ]

lookup-put_content :
    (nodes : Nodes) (dir i : ℕ) (node : RamNode) (q : List ℕ)
    → dir ≢ i
    → ramfs_lookup (set_node i node nodes) dir q ≡ ramfs_lookup nodes dir q
unfolding ramfs_lookup
lookup-put_content nodes dir i node q ne = rw (ramfs_lookup, ne→== i dir (λ e. ne (sym e))) refl

-- With memory, for a path of names of 1 to 255 characters without a slash that leads to a directory
-- whose entries have distinct names and are counted in 32 bits, a last name that is not there, a
-- pointer for the new inode that is not the directory's, and a content of 1 to 2 ^ 31 - 1
-- characters: ramfs_create_file gives the new inode, lookups of the name then find it and of every
-- other name in the directory what they found before, and reading the file gives the content.
pub read-create_file :
    (nodes : Nodes) (root dir i : ℕ) (cs : List (List ℕ)) (name content : List ℕ)
    (entries : List RamDirent)
    → All IsName cs
    → IsName name
    → walk nodes root cs ≡ some dir
    → IsFolder nodes dir entries
    → dir ≢ i
    → ramfs_lookup nodes dir name ≡ none
    → 0 < length content
    → length content < 2 ^ 31
    → let path = slash ∷ path_of cs name in
      let (r, nodes') =
        ramfs_create_file (some i) (true, true) true nodes root path (some content) in
      (r ≡ some i)
      × ((q : List ℕ)
          → ramfs_lookup nodes' dir q
            ≡ (if strcmp name q then some i else ramfs_lookup nodes dir q))
      × ((d : RamData) × (nodes' i ≡ file d) × (ramfs_read d (length content) 0 ≡ content))
unfolding ramfs_create_file put_content
read-create_file nodes root dir i cs name content entries k j walked folder ne fresh pos lt =
    let (nodes', r, views) : (nodes' : Nodes) × (ramfs_create (some i) (true, true) nodes dir name
          ≡ (some i, nodes'))
        × ((q : List ℕ)
            → ramfs_lookup nodes' dir q
              ≡ (if strcmp name q then some i else ramfs_lookup nodes dir q)) =
      let (r, views) = created nodes dir i name entries folder (omega (arith, j.fits)) ne fresh in
      (
        (ramfs_create (some i) (true, true) nodes dir name).1,
        ap (λ x. (x, (ramfs_create (some i) (true, true) nodes dir name).1)) r,
        views,
      ) in
    let parent : ramfs_find_parent nodes root (slash ∷ path_of cs name) ≡ some (dir, name) =
      find_parent-walk nodes root cs name k j ∙ ap (λ o. parent_of o name) walked in
    let call : ramfs_create_file (some i) (true, true) true nodes root (slash ∷ path_of cs name)
          (some content)
        ≡ (some i, put_content true (some content) i nodes') =
      rw (ramfs_create_file, parent, (path_of-starts [] name tt j).0, r) refl in
    rw call (
      refl,
      λ q. lookup-put_content nodes' dir i (file (content_data content)) q ne ∙ views q,
      (
        content_data content,
        rw (==_refl i) refl,
        read_content content pos (omega (arith, lt)) (content_data content) refl refl,
      ),
    )
