-- ===== src/Vfs/Paths.antt =====
-- Paths of src/fs/vfs.c: their components, and what the loops over characters do with them.
use vros.Base.{
  ==→ne, ℕ, zero, suc, ◌+◌, ◌-◌, ◌≤◌, ◌<◌, ◌≡◌, refl, sym, ap, ◌∙◌, ◌≢◌, ◌⊎◌, inl, inr, true, List,
  [], ◌∷◌, ◌++◌, length, take, drop, ◌==◌, if◌then◌else◌, arith, Bool-cases, All, length-append,
}
use mathlib.Core.List.{append-nil, append_assoc}
use vros.Vfs.{
  drop_last_slash, slash, trimmed, take_component, append_path, without_slash, starts_with_slash,
  is_empty,
}

-- The components of a path, split at slashes, without the empty ones; `word` is what is read of the
-- current one.
abbrev pub word_if : List ℕ → List (List ℕ)
word_if [] = []
word_if (c ∷ word) = (c ∷ word) ∷ []

unfoldable pub components_from : List ℕ → List ℕ → List (List ℕ)
components_from word [] = word_if word
components_from word (c ∷ path) =
    let next = components_from [] path in
    let longer = components_from (word ++ (c ∷ [])) path in
    if c == slash then word_if word ++ next else longer

unfoldable pub components : List ℕ → List (List ℕ)
components path = components_from [] path

-- What is extracted, and where the rest starts.
pub take_component_lem :
    (n left : ℕ) (path word : List ℕ)
    → left < n
    → left ≤ length path
    → let (component, rest, left') = take_component n left path in
      (components_from word (take left path)
        ≡ components_from (word ++ component) (take left' rest))
      × (length component + left' ≡ left)
      × (length component + length rest ≡ length path)
      × ((left' ≡ 0) ⊎ (starts_with_slash rest ≡ true))
      × All (λ c. c ≢ slash) component
unfolding take_component components_from
take_component_lem zero left path word lt le = absurd (omega arith)
take_component_lem (suc n) zero path word lt le =
    let same = append-nil word in (rw (same) refl, omega arith, omega arith, inl refl, tt)
take_component_lem (suc n) (suc left) [] word lt le = absurd (omega arith)
take_component_lem (suc n) (suc left) (c ∷ path) word lt le = elim (Bool-cases (c == slash)) [
  | inl e ↦ rw (e, append-nil word, e) (refl, omega arith, omega arith, inr refl, tt)
  | inr e ↦
      let (same, counts, lengths, ends, plain) =
        take_component_lem n left path (word ++ (c ∷ [])) (omega arith) (omega arith) in
      rw e (
        same
            ∙ ap
                (λ w.
                  components_from w
                    (take (take_component n left path).2 (take_component n left path).1))
                (append_assoc word (c ∷ []) (take_component n left path).0),
        omega (arith, counts),
        omega (arith, lengths),
        ends,
        (==→ne c slash e, plain),
      )
]

-- The path trimmed has no slash at its end.
pub trimmed-le : (path : List ℕ) → trimmed path ≤ length path
unfolding trimmed
trimmed-le [] = omega arith
trimmed-le (c ∷ path) = ground (arith, trimmed-le path)

pub components-trimmed :
    (path word : List ℕ)
    → components_from word (take (trimmed path) path) ≡ components_from word path
unfolding trimmed components_from
components-trimmed [] word = refl
components-trimmed (c ∷ path) word = elim (Bool-cases (trimmed path == 0)) [
  | inl z ↦
      let nil : trimmed path ≡ 0 = ground (arith, z) in
      let ih : (w : List ℕ) → word_if w ≡ components_from w path =
        λ w. rw (nil) at (components-trimmed path w) in
      elim (Bool-cases (c == slash)) [
        | inl e ↦ rw (z, e, sym (ih [])) (sym (append-nil (word_if word)))
        | inr e ↦ rw (z, e, e) (ih (word ++ (c ∷ [])))
      ]
  | inr nz ↦ elim (Bool-cases (c == slash)) [
    | inl e ↦ rw (nz, e) (ap (◌++◌ (word_if word)) (components-trimmed path []))
    | inr e ↦ rw (nz, e) (components-trimmed path (word ++ (c ∷ [])))
  ]
]

drop_last_slash-word :
    (c : ℕ) (word : List ℕ)
    → All (λ c. c ≢ slash) (c ∷ word)
    → drop_last_slash (c ∷ word) ≡ c ∷ word
unfolding drop_last_slash
drop_last_slash-word c [] k = ground (arith, k.0)
drop_last_slash-word c (d ∷ word) k = ap (◌∷◌ c) (drop_last_slash-word d word k.1)

drop_last_slash-path :
    (at : List ℕ) (c : ℕ) (word : List ℕ)
    → All (λ c. c ≢ slash) (c ∷ word)
    → drop_last_slash (at ++ (slash ∷ c ∷ word)) ≡ at ++ (slash ∷ c ∷ word)
unfolding drop_last_slash
drop_last_slash-path [] c word k = ap (◌∷◌ slash) (drop_last_slash-word c word k)
drop_last_slash-path (a ∷ []) c word k = ap (◌∷◌ a) (drop_last_slash-path [] c word k)
drop_last_slash-path (a ∷ b ∷ at) c word k = ap (◌∷◌ a) (drop_last_slash-path (b ∷ at) c word k)

drop_last_slash-slash : (at : List ℕ) → drop_last_slash (at ++ (slash ∷ [])) ≡ at
unfolding drop_last_slash
drop_last_slash-slash [] = refl
drop_last_slash-slash (a ∷ []) = refl
drop_last_slash-slash (a ∷ b ∷ at) = ap (◌∷◌ a) (drop_last_slash-slash (b ∷ at))

-- The check of the mount table sees a path of components, with or without a slash behind it.
pub without_slash-path :
    (at : List ℕ) (c : ℕ) (word : List ℕ)
    → All (λ c. c ≢ slash) (c ∷ word)
    → (without_slash (at ++ (slash ∷ c ∷ word)) ≡ at ++ (slash ∷ c ∷ word))
      × (without_slash ((at ++ (slash ∷ c ∷ word)) ++ (slash ∷ [])) ≡ at ++ (slash ∷ c ∷ word))
unfolding without_slash
without_slash-path [] c word k = (
  ap (◌∷◌ slash) (drop_last_slash-word c word k),
  ap (◌∷◌ slash) (drop_last_slash-slash (c ∷ word)),
)
without_slash-path (a ∷ at) c word k = (
  ap (◌∷◌ a) (drop_last_slash-path at c word k),
  ap (◌∷◌ a) (drop_last_slash-slash (at ++ (slash ∷ c ∷ word))),
)

pub components-after :
    (c : ℕ) (word rest : List ℕ) (left : ℕ)
    → left ≤ length rest
    → (left ≡ 0) ⊎ (starts_with_slash rest ≡ true)
    → let b = starts_with_slash rest in
      (components_from (c ∷ word) (take left rest)
        ≡ (c ∷ word)
          ∷ components_from []
              (take (if b then left - 1 else left) (if b then drop 1 rest else rest)))
      × ((if b then left - 1 else left) ≤ length (if b then drop 1 rest else rest))
unfolding components_from
components-after c word [] zero le ends = (refl, omega arith)
components-after c word [] (suc left) le ends = absurd (omega arith)
components-after c word (d ∷ rest) zero le ends = elim (Bool-cases (d == slash)) [
  | inl e ↦ rw e (refl, omega arith)
  | inr e ↦ rw e (refl, omega arith)
]
components-after c word (d ∷ rest) (suc left) le (inl z) = absurd (omega (arith, z))
components-after c word (d ∷ rest) (suc left) le (inr e) =
    let less : suc left - 1 ≡ left = omega arith in rw (e, less) (refl, omega arith)

pub components-slash :
    (rest : List ℕ) (left : ℕ)
    → 0 < left
    → starts_with_slash rest ≡ true
    → components_from [] (take left rest) ≡ components_from [] (take (left - 1) (drop 1 rest))
unfolding components_from
components-slash [] left pos e = absurd (ground (arith, e))
components-slash (d ∷ rest) zero pos e = absurd (omega arith)
components-slash (d ∷ rest) (suc left) pos e =
    let less : suc left - 1 ≡ left = omega arith in rw (e, less) refl

pub no-components :
    (path : List ℕ) (left : ℕ) → is_empty path ≡ true → components_from [] (take left path) ≡ []
unfolding components_from
no-components [] zero e = refl
no-components [] (suc left) e = refl
no-components (c ∷ path) left e = absurd (ground (arith, e))

pub components-word :
    (c : ℕ) (word path : List ℕ) → components_from (c ∷ word) (take 0 path) ≡ (c ∷ word) ∷ []
unfolding components_from
components-word c word path = refl

pub length-drop_one : (xs : List ℕ) → length (drop 1 xs) ≡ length xs - 1
length-drop_one [] = refl
length-drop_one (x ∷ xs) = omega arith

-- A slash in front of a path does not count.
pub leading_slash :
    (path : List ℕ)
    → let path' = if starts_with_slash path then drop 1 path else path in
      (components_from [] path ≡ components_from [] path') × (length path' ≤ length path)
unfolding components_from
leading_slash [] = (refl, omega arith)
leading_slash (c ∷ path) = elim (Bool-cases (c == slash)) [
  | inl e ↦ rw e (refl, omega arith)
  | inr e ↦ rw (e, e) (refl, omega arith)
]

pub room_left :
    (at word left left' here : ℕ)
    → suc word + left' ≡ suc left
    → here ≡ at + suc (suc word)
    → at + suc left + 2 ≤ 255
    → (left' ≡ 0) ⊎ (here + left' + 1 ≤ 255)
room_left at word left left' here e f le = inr (omega arith)

pub take-all : (n : ℕ) (xs : List ℕ) → length xs ≤ n → take n xs ≡ xs
take-all zero [] le = refl
take-all zero (x ∷ xs) le = absurd (omega arith)
take-all (suc n) [] le = refl
take-all (suc n) (x ∷ xs) le = ap (◌∷◌ x) (take-all n xs (omega arith))

-- Where there is room the characters are put behind the path.
append_path_lem :
    (current_path chars : List ℕ)
    → length current_path + length chars ≤ 255
    → append_path current_path chars ≡ current_path ++ chars
unfolding append_path
append_path_lem current_path chars le =
    ap (◌++◌ current_path) (take-all (255 - length current_path) chars (omega arith))

pub append-slash :
    (at word : List ℕ)
    → length at + length word + 2 ≤ 255
    → (append_path (at ++ (slash ∷ [])) word ≡ at ++ (slash ∷ word))
      × (append_path (append_path (at ++ (slash ∷ [])) word) (slash ∷ [])
          ≡ (at ++ (slash ∷ word)) ++ (slash ∷ []))
append-slash at word le =
    let first : append_path (at ++ (slash ∷ [])) word ≡ at ++ (slash ∷ word) =
      append_path_lem (at ++ (slash ∷ [])) word (omega (arith, length-append at (slash ∷ [])))
      ∙ append_assoc at (slash ∷ []) word in
    (
      first,
      rw (first) (
          append_path_lem (at ++ (slash ∷ word)) (slash ∷ [])
            (omega (arith, length-append at (slash ∷ word)))),
    )
