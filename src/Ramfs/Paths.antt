-- ===== src/Ramfs/Paths.antt =====
-- The calls by path of src/fs/ramfs.c: the search for the parent directory, and making a file or a
-- directory there. A path is the list of its characters before the 0.
use vros.Base.{
  length-append, ℕ, zero, suc, ◌+◌, ◌≤◌, ◌<◌, ◌≡◌, refl, ap, ◌∙◌, ◌≢◌, inl, inr, Bool, false, not,
  Option, none, some, List, [], ◌∷◌, ◌++◌, length, drop, ◌==◌, if◌then◌else◌, arith, Option-cases,
  All, ne→==,
}
use vros.Vfs.{slash, starts_with_slash, is_empty}
use vros.Ramfs.{RamData, Nodes, set_node, ramfs_lookup, ramfs_create, ramfs_mkdir}
use vros.Ramfs.Names.{node-cases}
use vros.Ramfs.RamNode.{file, directory}

-- The loop that extracts a component of at most `n` characters: the component and what follows.
unfoldable pub take_name : ℕ → List ℕ → List ℕ × List ℕ
take_name zero path = ([], path)
take_name (suc n) [] = ([], [])
take_name (suc n) (c ∷ path) =
    let (component, rest) = take_name n path in
    if c == slash then ([], c ∷ path) else (c ∷ component, rest)

-- `if (*path == '/') path++`
abbrev pub past_slash : List ℕ → List ℕ
past_slash path = if starts_with_slash path then drop 1 path else path

-- What the loop does with a component; `path` follows, and `loop` goes on in a directory.
unfoldable pub enter_name :
    (ℕ → List ℕ → Option (ℕ × List ℕ)) → Nodes → ℕ → List ℕ → List ℕ → Option (ℕ × List ℕ)
enter_name loop nodes current component path =
    if is_empty path
    then some (current, component)
    else elim (ramfs_lookup nodes current component) [
      | none ↦ none
      | some next ↦ elim (nodes next) [ file d ↦ none | directory entries n ↦ loop next path ]
    ]

-- The loop over the components, by rounds: the parent and the last component.
unfoldable pub find_parent_loop : ℕ → Nodes → ℕ → List ℕ → Option (ℕ × List ℕ)
find_parent_loop zero nodes current path = none
find_parent_loop (suc fuel) nodes current path =
    let (component, rest) = take_name 255 path in
    enter_name (find_parent_loop fuel nodes) nodes current component (past_slash rest)

unfoldable pub ramfs_find_parent : Nodes → ℕ → List ℕ → Option (ℕ × List ℕ)
ramfs_find_parent nodes root path =
    let path' = past_slash path in
    if is_empty path' then some (root, []) else find_parent_loop (length path') nodes root path'

abbrev pub content_data : List ℕ → RamData
content_data content = record {
  data_bytes = some (content ++ (0 ∷ []));
  capacity = length content + 1;
  size = length content;
  inode_size = length content;
}

-- The new file with its content, if there is memory for it.
unfoldable pub put_content : Bool → Option (List ℕ) → ℕ → Nodes → Nodes
put_content memory none inode nodes = nodes
put_content memory (some content) inode nodes =
    if not memory then nodes else set_node inode (file (content_data content)) nodes

-- `inode` and `given` as for `ramfs_create`, `memory` for the content.
unfoldable pub ramfs_create_file :
    Option ℕ → Bool × Bool → Bool → Nodes → ℕ → List ℕ → Option (List ℕ) → Option ℕ × Nodes
ramfs_create_file inode given memory nodes root path content =
    elim (ramfs_find_parent nodes root path) [
      | none ↦ (none, nodes)
      | some (dir, name) ↦
          let (result, nodes') = ramfs_create inode given nodes dir name in
          if is_empty name then (none, nodes) else elim result [
            | none ↦ (none, nodes')
            | some i ↦ (some i, put_content memory content i nodes')
          ]
    ]

unfoldable pub ramfs_create_dir : Option ℕ → Bool × Bool → Nodes → ℕ → List ℕ → Option ℕ × Nodes
ramfs_create_dir inode given nodes root path = elim (ramfs_find_parent nodes root path) [
  | none ↦ (none, nodes)
  | some (dir, name) ↦
      if is_empty name then (none, nodes) else ramfs_mkdir inode given nodes dir name
]

-- A name of 1 to 255 characters without a slash.
pub record IsName (name : List ℕ) : Type 0 where
  pub some_char : 0 < length name
  pub fits : length name ≤ 255
  pub plain : All (λ (c : ℕ). c ≢ slash) name

-- The path of a name behind directories.
abbrev pub path_of : List (List ℕ) → List ℕ → List ℕ
path_of [] name = name
path_of (c ∷ cs) name = c ++ (slash ∷ path_of cs name)

-- The directory that names lead to.
abbrev pub walk : Nodes → ℕ → List (List ℕ) → Option ℕ
walk nodes dir [] = some dir
walk nodes dir (c ∷ cs) = elim (ramfs_lookup nodes dir c) [
  | none ↦ none
  | some next ↦ elim (nodes next) [ file d ↦ none | directory entries n ↦ walk nodes next cs ]
]

take_name-last :
    (n : ℕ) (name : List ℕ)
    → All (λ (c : ℕ). c ≢ slash) name
    → length name ≤ n
    → take_name n name ≡ (name, [])
unfolding take_name
take_name-last zero [] k le = refl
take_name-last zero (c ∷ name) k le = absurd (omega (arith, le))
take_name-last (suc n) [] k le = refl
take_name-last (suc n) (c ∷ name) k le =
    rw (ne→== c slash k.0, take_name-last n name k.1 (omega (arith, le))) refl

take_name-slash :
    (n : ℕ) (name rest : List ℕ)
    → All (λ (c : ℕ). c ≢ slash) name
    → length name ≤ n
    → take_name n (name ++ (slash ∷ rest)) ≡ (name, slash ∷ rest)
unfolding take_name
take_name-slash zero [] rest k le = refl
take_name-slash zero (c ∷ name) rest k le = absurd (omega (arith, le))
take_name-slash (suc n) [] rest k le = refl
take_name-slash (suc n) (c ∷ name) rest k le =
    rw (ne→== c slash k.0, take_name-slash n name rest k.1 (omega (arith, le))) refl

pub path_of-starts :
    (cs : List (List ℕ)) (name : List ℕ)
    → All IsName cs
    → IsName name
    → (is_empty (path_of cs name) ≡ false) × (starts_with_slash (path_of cs name) ≡ false)
path_of-starts [] [] k j = absurd (omega (arith, j.some_char))
path_of-starts [] (c ∷ name) k j = (refl, ne→== c slash j.plain.0)
path_of-starts ([] ∷ cs) name k j = absurd (omega (arith, k.0.some_char))
path_of-starts ((c ∷ d) ∷ cs) name k j = (refl, ne→== c slash k.0.plain.0)

-- What a walk gives as a parent.
abbrev pub parent_of : Option ℕ → List ℕ → Option (ℕ × List ℕ)
parent_of none name = none
parent_of (some dir) name = some (dir, name)

-- A component that is not the last one.
enter-walk :
    (loop : ℕ → List ℕ → Option (ℕ × List ℕ)) (nodes : Nodes) (dir : ℕ) (c rest : List ℕ)
    (cs : List (List ℕ)) (name : List ℕ)
    → is_empty rest ≡ false
    → ((next : ℕ) → loop next rest ≡ parent_of (walk nodes next cs) name)
    → enter_name loop nodes dir c rest ≡ parent_of (walk nodes dir (c ∷ cs)) name
unfolding enter_name
enter-walk loop nodes dir c rest cs name more h = elim (Option-cases (ramfs_lookup nodes dir c)) [
  | inl e ↦ rw (enter_name, walk, more, e) refl
  | inr (next, e) ↦ elim (node-cases (nodes next)) [
    | inl (d, e') ↦ rw (enter_name, walk, more, e, e') refl
    | inr (es, n, e') ↦ rw (enter_name, walk, more, e, e') (h next)
  ]
]

loop-walk :
    (fuel : ℕ) (nodes : Nodes) (dir : ℕ) (cs : List (List ℕ)) (name : List ℕ)
    → All IsName cs
    → IsName name
    → length (path_of cs name) ≤ fuel
    → find_parent_loop fuel nodes dir (path_of cs name) ≡ parent_of (walk nodes dir cs) name
unfolding find_parent_loop enter_name
loop-walk zero nodes dir [] name k j le = absurd (omega (arith, j.some_char, le))
loop-walk zero nodes dir ([] ∷ cs) name k j le = absurd (omega (arith, k.0.some_char))
loop-walk zero nodes dir ((c ∷ d) ∷ cs) name k j le = absurd (omega (arith, le))
loop-walk (suc fuel) nodes dir [] name k j le =
    ap (λ r. enter_name (find_parent_loop fuel nodes) nodes dir r.0 (past_slash r.1))
      (take_name-last 255 name j.plain j.fits)
loop-walk (suc fuel) nodes dir (c ∷ cs) name k j le =
    let shorter : length (path_of cs name) ≤ fuel =
      omega (arith, le, length-append c (slash ∷ path_of cs name)) in
    ap (λ r. enter_name (find_parent_loop fuel nodes) nodes dir r.0 (past_slash r.1))
      (take_name-slash 255 c (path_of cs name) k.0.plain k.0.fits)
    ∙ enter-walk (find_parent_loop fuel nodes) nodes dir c (path_of cs name) cs name
        (path_of-starts cs name k.1 j).0 (λ next. loop-walk fuel nodes next cs name k.1 j shorter)

-- For a slash and names of 1 to 255 characters without a slash, joined by slashes:
-- ramfs_find_parent gives the directory that all but the last lead to from the root, one after the
-- other, and the last name, or nothing if one of them is not found or is a file.
pub find_parent-walk :
    (nodes : Nodes) (root : ℕ) (cs : List (List ℕ)) (name : List ℕ)
    → All IsName cs
    → IsName name
    → ramfs_find_parent nodes root (slash ∷ path_of cs name) ≡ parent_of (walk nodes root cs) name
unfolding ramfs_find_parent
find_parent-walk nodes root cs name k j =
    let starts = path_of-starts cs name k j in
    rw (starts.0) (loop-walk (length (path_of cs name)) nodes root cs name k j (omega arith))
