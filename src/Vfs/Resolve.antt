-- ===== src/Vfs/Resolve.antt =====
-- Path resolution of src/fs/vfs.c against a description of it: the components of a path are looked
-- up one after the other, and a path that is mounted leads to the root of what is mounted there.
use vros.Base.{
  ℕ, zero, suc, ◌+◌, ◌-◌, ◌≤◌, ◌<◌, ◌≡◌, refl, sym, ap, ◌∙◌, ◌≢◌, ◌⊎◌, inl, inr, true, false,
  Option, none, some, List, [], ◌∷◌, ◌++◌, length, take, drop, ◌==◌, if◌then◌else◌, arith,
  Bool-cases, Option-cases, All, length-append,
}
use vros.Vfs.{
  with_root, lookup_from, slash, InodeOps, Mounts, mounted_root, trimmed, take_component,
  starts_with_slash, is_empty, lookup_in, enter_component, lookup_loop, vfs_lookup_inode,
}
use vros.Vfs.Paths.{
  take_component_lem, trimmed-le, components, components_from, components-trimmed,
  without_slash-path, components-after, components-slash, no-components, components-word,
  length-drop_one, append-slash, leading_slash, room_left,
}

module _ {I S : Type 0} (ops : InodeOps I S) (v : Mounts I) where
  -- The components from the inode `current` at the path `at` on.
  unfoldable pub resolve : List ℕ → I → List (List ℕ) → S → Option I × S
  resolve at current [] s = (some current, s)
  resolve at current (c ∷ cs) s =
      let here = at ++ (slash ∷ c) in
      elim (mounted_root v here) [
        | some root ↦ resolve here root cs s
        | none ↦
            let (found, s') = lookup_in ops current c s in
            elim found [ none ↦ (none, s') | some inode ↦ resolve here inode cs s' ]
      ]

module _ {I S : Type 0} (ops : InodeOps I S) (v : Mounts I) where
  -- Nothing is left.
  loop_done :
      (fuel : ℕ) (path current_path : List ℕ) (current : I) (s : S)
      → 0 < fuel
      → lookup_loop ops v fuel path 0 current_path current s ≡ (some current, s)
  unfolding lookup_loop
  loop_done zero path current_path current s lt = absurd (omega arith)
  loop_done (suc fuel) path current_path current s lt = refl

  enter_component_lem :
      (next : List ℕ → ℕ → List ℕ → I → S → Option I × S) (c : ℕ) (word path : List ℕ) (left : ℕ)
      (at : List ℕ) (current : I) (s : S)
      → All (λ c. c ≢ slash) (c ∷ word)
      → left ≤ length path
      → (left ≡ 0) ⊎ (starts_with_slash path ≡ true)
      → length at + length (c ∷ word) + 2 ≤ 255
      → (starts_with_slash path ≡ true
          → (i : I) (s' : S)
          → next (drop 1 path) (left - 1) ((at ++ (slash ∷ c ∷ word)) ++ (slash ∷ [])) i s'
            ≡ resolve ops v
                (at ++ (slash ∷ c ∷ word))
                i
                (components_from [] (take (left - 1) (drop 1 path)))
                s')
      → ((path' current_path : List ℕ) (i : I) (s' : S)
          → next path' 0 current_path i s' ≡ (some i, s'))
      → enter_component ops v next (c ∷ word) path left (at ++ (slash ∷ [])) current s
        ≡ resolve ops v at current (components_from (c ∷ word) (take left path)) s
  unfolding enter_component resolve
  enter_component_lem next c word path left at current s k le ends short follow done =
      let here = at ++ (slash ∷ c ∷ word) in
      let (after, fits) = components-after c word path left le ends in
      let (named, slashed) = append-slash at (c ∷ word) short in
      let (plain, cut) = without_slash-path at c word k in
      let out = lookup_in ops current (c ∷ word) s in
      elim (Bool-cases (starts_with_slash path)) [
        | inl e ↦
            let rest = drop 1 path in
            let cs = components_from [] (take (left - 1) rest) in
            let split : components_from (c ∷ word) (take left path) ≡ (c ∷ word) ∷ cs =
              rw (e) at after in
            let fits' : left - 1 ≤ length rest = rw (e) at fits in
            elim (Option-cases (mounted_root v here)) [
              | inr (root, m) ↦ elim (Bool-cases (is_empty rest)) [
                | inl nil ↦
                    rw (enter_component, e, slashed, cut, m, e, nil, split, resolve, m)
                      (sym (
                        ap (λ cs. resolve ops v here root cs s)
                          (no-components rest (left - 1) nil)))
                | inr more ↦
                    rw (enter_component, e, slashed, cut, m, e, more, slashed, split, resolve, m)
                      (follow e root s)
              ]
              | inl m ↦ elim (Option-cases out.0) [
                | inl missing ↦
                    rw (enter_component, e, slashed, cut, m, missing, split, resolve, m, missing)
                      refl
                | inr (i, found) ↦
                    rw
                      (
                        enter_component, e, slashed, cut, m, found, e, slashed, split, resolve, m,
                        found,
                      )
                      (follow e i out.1)
              ]
            ]
        | inr e ↦
            let nil : left ≡ 0 = elim ends [ inl z ↦ z | inr t ↦ absurd (ground (arith, t, e)) ] in
            let single = components-word c word path in
            elim (Option-cases (mounted_root v here)) [
              | inr (root, m) ↦ elim (Bool-cases (is_empty path)) [
                | inl none_left ↦
                    rw (nil, enter_component, e, named, plain, m, e, none_left, single, resolve, m)
                      refl
                | inr more ↦
                    rw
                      (
                        nil, enter_component, e, named, plain, m, e, more, named, nil, single,
                        resolve, m,
                      )
                      (done path here root s)
              ]
              | inl m ↦ elim (Option-cases out.0) [
                | inl missing ↦
                    rw
                      (
                        nil, enter_component, e, named, plain, m, missing, single, resolve, m,
                        missing,
                      )
                      refl
                | inr (i, found) ↦
                    rw
                      (
                        nil, enter_component, e, named, plain, m, found, e, named, nil, single,
                        resolve, m, found,
                      )
                      (done path here i out.1)
              ]
            ]
      ]

  resolve-end :
      (at : List ℕ) (current : I) (path : List ℕ) (s : S)
      → resolve ops v at current (components_from [] (take 0 path)) s ≡ (some current, s)
  unfolding resolve components_from
  resolve-end at current path s = refl

  -- Behind the slash after a component.
  behind_slash :
      (fuel : ℕ) (rest : List ℕ) (left : ℕ) (here : List ℕ) (i : I) (s : S)
      → 0 < fuel
      → left ≤ fuel
      → left ≤ length rest
      → (left ≡ 0) ⊎ (length here + left + 1 ≤ 255)
      → ((path' : List ℕ) (left'' : ℕ) (at' : List ℕ) (i : I) (s' : S)
          → left'' ≤ length path'
          → left'' < fuel
          → length at' + left'' + 2 ≤ 255
          → lookup_loop ops v fuel path' left'' (at' ++ (slash ∷ [])) i s'
            ≡ resolve ops v at' i (components_from [] (take left'' path')) s')
      → lookup_loop ops v fuel (drop 1 rest) (left - 1) (here ++ (slash ∷ [])) i s
        ≡ resolve ops v here i (components_from [] (take (left - 1) (drop 1 rest))) s
  behind_slash fuel rest zero here i s pos lt le room later =
      let nothing : 0 - 1 ≡ 0 = omega arith in
      rw (nothing) (
        loop_done fuel (drop 1 rest) (here ++ (slash ∷ [])) i s pos
        ∙ sym (resolve-end here i (drop 1 rest) s))
  behind_slash fuel rest (suc left) here i s pos lt le (inl z) later = absurd (omega (arith, z))
  behind_slash fuel rest (suc left) here i s pos lt le (inr room) later =
      later (drop 1 rest) (suc left - 1) here i s (omega (arith, le, length-drop_one rest))
        (omega arith) (omega arith)

  -- A round of the loop, from what the later rounds give.
  round_lem :
      (fuel : ℕ) (path : List ℕ) (left : ℕ) (at : List ℕ) (current : I) (s : S)
      (component rest : List ℕ) (left' : ℕ)
      → left < fuel
      → length at + suc left + 2 ≤ 255
      → take_component 255 (suc left) path ≡ (component, rest, left')
      → (components_from [] (take (suc left) path) ≡ components_from component (take left' rest))
        × (length component + left' ≡ suc left)
        × (left' ≤ length rest)
        × ((left' ≡ 0) ⊎ (starts_with_slash rest ≡ true))
        × All (λ c. c ≢ slash) component
      → ((path' : List ℕ) (left'' : ℕ) (at' : List ℕ) (i : I) (s' : S)
          → left'' ≤ length path'
          → left'' < fuel
          → length at' + left'' + 2 ≤ 255
          → lookup_loop ops v fuel path' left'' (at' ++ (slash ∷ [])) i s'
            ≡ resolve ops v at' i (components_from [] (take left'' path')) s')
      → lookup_loop ops v (suc fuel) path (suc left) (at ++ (slash ∷ [])) current s
        ≡ resolve ops v at current (components_from [] (take (suc left) path)) s
  unfolding lookup_loop
  round_lem fuel path left at current s [] rest left' lt short taken (same, counts, le, ends, plain)
        later =
      let some_left : (suc left == 0) ≡ false = ground arith in
      let next : starts_with_slash rest ≡ true = elim ends [
        | inl z ↦ absurd (omega (arith, z, counts))
        | inr t ↦ t
      ] in
      rw
        (
          lookup_loop,
          some_left,
          taken,
          next,
          same,
          components-slash rest left' (omega (arith, counts)) next,
        )
        (later (drop 1 rest) (left' - 1) at current s (omega (arith, le, length-drop_one rest))
          (omega (arith, counts)) (omega (arith, counts)))
  round_lem fuel path left at current s (c ∷ word) rest left' lt short taken
        (same, counts, le, ends, plain) later =
      let some_left : (suc left == 0) ≡ false = ground arith in
      rw (lookup_loop, some_left, taken, same)
        (enter_component_lem (lookup_loop ops v fuel) c word rest left' at current s plain le ends
          (omega (arith, counts))
          (λ e i s'.
            behind_slash fuel rest left' (at ++ (slash ∷ c ∷ word)) i s' (omega arith)
              (omega (arith, counts)) le
              (room_left (length at) (length word) left left' (length (at ++ (slash ∷ c ∷ word)))
                counts (length-append at (slash ∷ c ∷ word)) short)
              later)
          (λ path' current_path i s'. loop_done fuel path' current_path i s' (omega arith)))

  lookup_loop_lem :
      (fuel : ℕ) (path : List ℕ) (left : ℕ) (at : List ℕ) (current : I) (s : S)
      → left ≤ length path
      → left < fuel
      → length at + left + 2 ≤ 255
      → lookup_loop ops v fuel path left (at ++ (slash ∷ [])) current s
        ≡ resolve ops v at current (components_from [] (take left path)) s
  lookup_loop_lem zero path left at current s le lt short = absurd (omega arith)
  lookup_loop_lem (suc fuel) path zero at current s le lt short =
      loop_done (suc fuel) path (at ++ (slash ∷ [])) current s lt
      ∙ sym (resolve-end at current path s)
  lookup_loop_lem (suc fuel) path (suc left) at current s le lt short =
      let (component, rest, left') = take_component 255 (suc left) path in
      let (same, counts, lengths, ends, plain) =
        take_component_lem 255 (suc left) path [] (omega arith) le in
      round_lem fuel path left at current s component rest left' (omega arith) short refl
        (same, counts, omega (arith, counts, lengths), ends, plain)
        (λ path' left'' at' i s' le' lt' short'.
          lookup_loop_lem fuel path' left'' at' i s' le' lt' short')

  lookup_from_lem :
      (path : List ℕ) (root : I) (s : S)
      → length path < 253
      → lookup_from ops v root path s ≡ resolve ops v [] root (components path) s
  unfolding lookup_from components
  lookup_from_lem path root s short =
      let path' = if starts_with_slash path then drop 1 path else path in
      let (same, le) = leading_slash path in
      let whole = components-trimmed path' [] in
      elim (Bool-cases (trimmed path' == 0)) [
        | inl z ↦
            let nil : trimmed path' ≡ 0 = ground (arith, z) in
            rw (lookup_from, z, same, sym whole, nil) (sym (resolve-end [] root path' s))
        | inr nz ↦
            rw (lookup_from, nz, same, sym whole)
              (lookup_loop_lem (suc (length path')) path' (trimmed path') [] root s
                (trimmed-le path') (omega (arith, trimmed-le path'))
                (omega (arith, trimmed-le path', le)))
      ]

  -- If there is a root inode, vfs_lookup_inode on a path of fewer than 253 characters gives what a
  -- description of it gives: the components between slashes, empty ones left out, are looked up one
  -- after the other, where the path of the components so far is that of a mounted file system its
  -- root takes the place of the lookup, and the first component that is not found ends the search.
  pub lookup_inode-resolve :
      (path : List ℕ) (root : I) (s : S)
      → length path < 253
      → v.root_inode ≡ some root
      → vfs_lookup_inode ops v path s ≡ resolve ops v [] root (components path) s
  unfolding vfs_lookup_inode with_root
  lookup_inode-resolve path root s short mounted =
      ap (with_root ops v path s) mounted ∙ lookup_from_lem path root s short
