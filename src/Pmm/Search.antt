-- ===== src/Pmm/Search.antt =====
-- `bitmap_first_free`: the lowest clear bit, word by word.
use vros.Base.{
  ℕ, zero, suc, ◌+◌, ◌-◌, ◌*◌, ◌/◌, ◌%◌, ◌≤◌, ◌<◌, ◌≡◌, ◌∙◌, inl, inr, Bool, true, false, ◌==◌,
  arith, Bool-cases, List, get_or, Option, none, some, ==_iff,
}
use native.Mathlib.Decide.{dec_lt}
use vros.Bits.{has_bit, has_bit_lem, test_bit-zero, test_bit-complement}
use vros.Pmm.{Pmm, bitmap_test, free_bit, first_free_from, bitmap_first_free}

-- What a search for the first clear bit of `lo .. hi` reports.
abbrev pub FirstClear : (ℕ → Bool) → ℕ → ℕ → Option ℕ → Type 0
FirstClear test lo hi none = (c : ℕ) → lo ≤ c → c < hi → test c ≡ true
FirstClear test lo hi (some b) =
    (lo ≤ b) × (b < hi) × (test b ≡ false) × ((c : ℕ) → lo ≤ c → c < b → test c ≡ true)

-- A search of the rest serves the whole range if the first part is all set.
extend_down :
    (test : ℕ → Bool) (lo mid hi : ℕ) (r : Option ℕ)
    → lo ≤ mid
    → ((c : ℕ) → lo ≤ c → c < mid → test c ≡ true)
    → FirstClear test mid hi r
    → FirstClear test lo hi r
extend_down test lo mid hi none le low h =
    λ c p q. elim (dec_lt c mid) [ yes k ↦ low c p k | no k ↦ h c (omega arith) q ]
extend_down test lo mid hi (some b) le low h = (
  omega arith,
  h.1,
  h.2,
  λ c p q. elim (dec_lt c mid) [ yes k ↦ low c p k | no k ↦ h.3 c (omega arith) q ],
)

free_bit-FirstClear :
    (n j word hi : ℕ) → hi ≡ j + n → FirstClear (has_bit word) j hi (free_bit n j word)
unfolding free_bit
free_bit-FirstClear zero j word hi e = λ c p q. absurd (omega arith)
free_bit-FirstClear (suc n) j word hi e = elim (Bool-cases (has_bit word j)) [
  | inl set_here ↦ rw set_here (
      extend_down (has_bit word) j (j + 1) hi (free_bit n (j + 1) word) (omega arith)
        (λ c p q. rw (let at : c ≡ j = omega arith in at) set_here)
        (free_bit-FirstClear n (j + 1) word hi (omega arith)))
  | inr clear ↦ rw clear (omega arith, omega arith, clear, λ c p q. absurd (omega arith))
]

full_word : (j : ℕ) → j < 32 → has_bit 0xFFFF_FFFF j ≡ true
full_word j h =
    ground (
      arith,
      has_bit_lem 0xFFFF_FFFF j,
      test_bit-complement 32 0 j (omega arith) h,
      test_bit-zero j,
    )

module _ (m : List ℕ) (i : ℕ) where
  -- Bit `c` of the map, for `c` in word `i`.
  in_word :
      (c : ℕ)
      → i * 32 ≤ c
      → c < (i + 1) * 32
      → bitmap_test m c ≡ has_bit (get_or m i 0) (c - i * 32)
  unfolding bitmap_test
  in_word c p q =
      let word : c / 32 ≡ i = omega arith in
      let bit : c % 32 ≡ c - i * 32 = omega arith in rw (word, bit)

  all_ones :
      get_or m i 0 ≡ 0xFFFF_FFFF → (c : ℕ) → i * 32 ≤ c → c < (i + 1) * 32 → bitmap_test m c ≡ true
  all_ones e c p q = in_word c p q ∙ rw e (full_word (c - i * 32) (omega arith))

  found_in_word :
      (hi : ℕ) (r rest : Option ℕ)
      → (i + 1) * 32 ≤ hi
      → FirstClear (has_bit (get_or m i 0)) 0 32 r
      → FirstClear (bitmap_test m) ((i + 1) * 32) hi rest
      → FirstClear
          (bitmap_test m)
          (i * 32)
          hi
          (let out : Option ℕ = elim r [ none ↦ rest | some j ↦ some (i * 32 + j) ] in out)
  found_in_word hi none rest le w h =
      extend_down (bitmap_test m) (i * 32) ((i + 1) * 32) hi rest (omega arith)
        (λ c p q. in_word c p q ∙ w (c - i * 32) (omega arith) (omega arith)) h
  found_in_word hi (some j) rest le w h = (
    omega arith,
    omega arith,
    in_word (i * 32 + j) (omega arith) (omega arith)
        ∙ rw (let e : i * 32 + j - i * 32 ≡ j = omega arith in e) w.2,
    λ c p q. in_word c p (omega arith) ∙ w.3 (c - i * 32) (omega arith) (omega arith),
  )

first_free_from-FirstClear :
    (n i : ℕ) (m : List ℕ) (hi : ℕ)
    → hi ≡ (i + n) * 32
    → FirstClear (bitmap_test m) (i * 32) hi (first_free_from n i m)
unfolding first_free_from
first_free_from-FirstClear zero i m hi e = λ c p q. absurd (omega arith)
first_free_from-FirstClear (suc n) i m hi e =
    let later = first_free_from-FirstClear n (i + 1) m hi (omega arith) in
    elim (Bool-cases (get_or m i 0 == 0xFFFF_FFFF)) [
      | inl full ↦ rw full (
          extend_down (bitmap_test m) (i * 32) ((i + 1) * 32) hi (first_free_from n (i + 1) m)
            (omega arith) (all_ones m i ((==_iff _ _).0 full)) later)
      | inr partial ↦ rw partial (
          found_in_word m i hi (free_bit 32 0 (get_or m i 0)) (first_free_from n (i + 1) m)
            (omega arith) (free_bit-FirstClear 32 0 (get_or m i 0) 32 (omega arith)) later)
    ]

-- The search covers the blocks of the whole words of the map, 32 * (max_blocks / 32) of them.
pub bitmap_first_free-FirstClear :
    (p : Pmm)
    → FirstClear (bitmap_test p.memory_map) 0 (p.max_blocks / 32 * 32) (bitmap_first_free p)
unfolding bitmap_first_free
bitmap_first_free-FirstClear p =
    first_free_from-FirstClear (p.max_blocks / 32) 0 p.memory_map _ (omega arith)
