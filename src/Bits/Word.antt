-- ===== src/Bits/Word.antt =====
-- Words of `n` bits: complement, and setting, clearing and testing one bit.
use native.Mathlib.Nat.{pow-suc, one-le-pow}
use native.Mathlib.Decide.{dec_lt}
use vros.Bits.Step.{test_bit, test_bit-or, test_bit-and, test_bit-pow, bit_ext, test_bit-zero}
use vros.Base.{
  ℕ, zero, suc, ◌-◌, ◌/◌, ◌%◌, ◌^◌, ◌≤◌, ◌<◌, ◌≡◌, ap, ◌∙◌, sym, inl, inr, bit_and, bit_or, Bool,
  true, false, ◌&&◌, ◌||◌, not, ◌==◌, arith, Bool-cases, if◌then◌else◌,
}

-- `~w` at width `n`, for a word below `2 ^ n`.
abbrev pub complement : ℕ → ℕ → ℕ
complement n w = 2 ^ n - 1 - w

-- `w | (1 << k)`
unfoldable pub with_bit : ℕ → ℕ → ℕ
with_bit w k = bit_or w (2 ^ k)

-- `w & ~(1 << k)` at width `n`
unfoldable pub without_bit : ℕ → ℕ → ℕ → ℕ
without_bit n w k = bit_and w (complement n (2 ^ k))

-- `(w & (1 << k)) != 0`
unfoldable pub has_bit : ℕ → ℕ → Bool
has_bit w k = not (bit_and w (2 ^ k) == 0)

complement_half :
    (n w : ℕ)
    → w < 2 ^ suc n
    → (complement (suc n) w / 2 ≡ complement n (w / 2))
      × (complement (suc n) w % 2 ≡ 1 - w % 2)
      × (w / 2 < 2 ^ n)
complement_half n w h = omega (arith, pow-suc 2 n)

pub test_bit-complement :
    (n w j : ℕ) → w < 2 ^ n → j < n → test_bit (complement n w) j ≡ not (test_bit w j)
unfolding test_bit
test_bit-complement zero w j h p = absurd (omega arith)
test_bit-complement (suc n) w zero h p = ground (arith, complement_half n w h)
test_bit-complement (suc n) w (suc j) h p =
    rw ((complement_half n w h).0)
      (test_bit-complement n (w / 2) j (complement_half n w h).2 (omega arith))

-- A word below `2 ^ n` has no bit from `n` on.
pub test_bit_above : (n w j : ℕ) → w < 2 ^ n → n ≤ j → test_bit w j ≡ false
unfolding test_bit
test_bit_above zero w j h p = rw (let e : w ≡ 0 = omega arith in e) (test_bit-zero j)
test_bit_above (suc n) w zero h p = absurd (omega arith)
test_bit_above (suc n) w (suc j) h p =
    test_bit_above n (w / 2) j (omega (arith, pow-suc 2 n)) (omega arith)

-- A number whose bits all lie below `n` is a word of `n` bits.
pub lt-pow_of_test_bit : (n w : ℕ) → ((j : ℕ) → n ≤ j → test_bit w j ≡ false) → w < 2 ^ n
unfolding test_bit
lt-pow_of_test_bit zero w h =
    let e : w ≡ 0 = bit_ext w 0 (λ k. h k (omega arith) ∙ sym (test_bit-zero k)) in omega arith
lt-pow_of_test_bit (suc n) w h =
    omega (arith, pow-suc 2 n, lt-pow_of_test_bit n (w / 2) (λ j p. h (suc j) (omega arith)))

pow-lt-pow : (k n : ℕ) → k < n → 2 ^ k < 2 ^ n
pow-lt-pow k n h = lt-pow_of_test_bit n (2 ^ k) (λ j p. test_bit-pow k j ∙ ground arith)

-- The C test reads the bit.
pub has_bit_lem : (w k : ℕ) → has_bit w k ≡ test_bit w k
unfolding has_bit
has_bit_lem w k = elim (Bool-cases (test_bit w k)) [
  | inl e ↦ rw (masked true e) (ground (arith, one-le-pow k 2))
  | inr e ↦ rw (masked false e) (ground arith)
]
  where
    masked : (b : Bool) → test_bit w k ≡ b → bit_and w (2 ^ k) ≡ (if b then 2 ^ k else 0)
    masked true e = bit_ext _ _ λ j.
        ground
          (arith, test_bit-and w (2 ^ k) j, test_bit-pow k j, e, ap (test_bit w) {x = k} {y = j})
    masked false e =
        bit_ext _ _
          λ j. ground (arith, test_bit-and w (2 ^ k) j, test_bit-pow k j, test_bit-zero j, e)

pub test_bit-with_bit : (w k j : ℕ) → test_bit (with_bit w k) j ≡ ((k == j) || test_bit w j)
unfolding with_bit
test_bit-with_bit w k j = ground (arith, test_bit-or w (2 ^ k) j, test_bit-pow k j)

pub test_bit-without_bit :
    (n w k j : ℕ)
    → w < 2 ^ n
    → k < n
    → test_bit (without_bit n w k) j ≡ (not (k == j) && test_bit w j)
unfolding without_bit
test_bit-without_bit n w k j hw hk = elim (dec_lt j n) [
  | yes p ↦ ground (
    arith,
    test_bit-and w (complement n (2 ^ k)) j,
    test_bit-complement n (2 ^ k) j (pow-lt-pow k n hk) p,
    test_bit-pow k j,
  )
  | no p ↦
      ground (arith, test_bit-and w (complement n (2 ^ k)) j, test_bit_above n w j hw (omega arith))
]

pub with_bit-lt : (n w k : ℕ) → w < 2 ^ n → k < n → with_bit w k < 2 ^ n
with_bit-lt n w k hw hk =
    lt-pow_of_test_bit n _ λ j p. ground (arith, test_bit-with_bit w k j, test_bit_above n w j hw p)

pub without_bit-lt : (n w k : ℕ) → w < 2 ^ n → k < n → without_bit n w k < 2 ^ n
without_bit-lt n w k hw hk =
    lt-pow_of_test_bit n _
      λ j p. ground (arith, test_bit-without_bit n w k j hw hk, test_bit_above n w j hw p)

-- Clearing a bit that was clear before it was set restores the word.
pub without_bit-with_bit :
    (n w k : ℕ) → w < 2 ^ n → k < n → test_bit w k ≡ false → without_bit n (with_bit w k) k ≡ w
without_bit-with_bit n w k hw hk e = bit_ext _ _ λ j. ground (
  arith,
  test_bit-without_bit n (with_bit w k) k j (with_bit-lt n w k hw hk) hk,
  test_bit-with_bit w k j,
  e,
  ap (test_bit w) {x = k} {y = j},
)
