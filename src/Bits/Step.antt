-- ===== src/Bits/Step.antt =====
-- The k-th binary digit, and what `|` and `&` do to it.
use Prim.Native.Nat.{digits, bit_and-bitwise, bit_or-bitwise}
use native.Mathlib.Nat.{pow-suc}
use vros.Base.{
  ℕ, zero, suc, ◌+◌, ◌*◌, ◌/◌, ◌%◌, ◌^◌, ◌≤◌, min, max, bit_and, bit_or, ◌≡◌, refl, ap, Bool, false,
  ◌&&◌, ◌||◌, ◌==◌, arith,
}

-- The k-th bit of a number, lowest first.
unfoldable pub test_bit : ℕ → ℕ → Bool
test_bit w zero = w % 2 == 1
test_bit w (suc k) = test_bit (w / 2) k

-- The digit recursion behind the native operations does not depend on spare fuel.
spare_fuel :
    (z : ℕ → ℕ) (f : ℕ → ℕ → ℕ) (n m a b : ℕ) → a ≤ n → a ≤ m → digits z f n a b ≡ digits z f m a b
spare_fuel z f zero zero zero b p q = refl
spare_fuel z f (suc n) zero zero b p q = refl
spare_fuel z f zero (suc m) zero b p q = refl
spare_fuel z f (suc n) (suc m) zero b p q = refl
spare_fuel z f zero m (suc a) b p q = absurd (omega arith)
spare_fuel z f (suc n) zero (suc a) b p q = absurd (omega arith)
spare_fuel z f (suc n) (suc m) (suc a) b p q =
    ap (λ (t : ℕ). t * 2 + f (suc a % 2) (b % 2))
      (spare_fuel z f n m (suc a / 2) (b / 2) (omega arith) (omega arith))

or_step : (a b : ℕ) → bit_or a b ≡ bit_or (a / 2) (b / 2) * 2 + max (a % 2) (b % 2)
or_step zero b = omega (arith, bit_or-bitwise 0 b, bit_or-bitwise 0 (b / 2))
or_step (suc a) b = omega (
  arith,
  bit_or-bitwise (suc a) b,
  bit_or-bitwise (suc a / 2) (b / 2),
  spare_fuel (λ y. y) max a (suc a / 2) (suc a / 2) (b / 2) (omega arith) (omega arith),
)

and_step : (a b : ℕ) → bit_and a b ≡ bit_and (a / 2) (b / 2) * 2 + min (a % 2) (b % 2)
and_step zero b = omega (arith, bit_and-bitwise 0 b, bit_and-bitwise 0 (b / 2))
and_step (suc a) b = omega (
  arith,
  bit_and-bitwise (suc a) b,
  bit_and-bitwise (suc a / 2) (b / 2),
  spare_fuel (λ y. 0) min a (suc a / 2) (suc a / 2) (b / 2) (omega arith) (omega arith),
)

or_half : (a b : ℕ) → bit_or a b / 2 ≡ bit_or (a / 2) (b / 2)
or_half a b = omega (arith, or_step a b)

and_half : (a b : ℕ) → bit_and a b / 2 ≡ bit_and (a / 2) (b / 2)
and_half a b = omega (arith, and_step a b)

-- A bit of `a | b` is set exactly when it is set in `a` or in `b`.
pub test_bit-or : (a b k : ℕ) → test_bit (bit_or a b) k ≡ (test_bit a k || test_bit b k)
unfolding test_bit
test_bit-or a b zero = ground (arith, or_step a b)
test_bit-or a b (suc k) = rw (or_half a b) (test_bit-or (a / 2) (b / 2) k)

-- A bit of `a & b` is set exactly when it is set in both.
pub test_bit-and : (a b k : ℕ) → test_bit (bit_and a b) k ≡ (test_bit a k && test_bit b k)
unfolding test_bit
test_bit-and a b zero = ground (arith, and_step a b)
test_bit-and a b (suc k) = rw (and_half a b) (test_bit-and (a / 2) (b / 2) k)

pub test_bit-zero : (k : ℕ) → test_bit 0 k ≡ false
unfolding test_bit
test_bit-zero zero = refl
test_bit-zero (suc k) = test_bit-zero k

pow_half : (k : ℕ) → (2 ^ suc k / 2 ≡ 2 ^ k) × (2 ^ suc k % 2 ≡ 0)
pow_half k = omega (arith, pow-suc 2 k)

-- `1 << k` has the k-th bit alone.
pub test_bit-pow : (k j : ℕ) → test_bit (2 ^ k) j ≡ (k == j)
unfolding test_bit
test_bit-pow zero zero = refl
test_bit-pow zero (suc j) = ground (arith, test_bit-zero j)
test_bit-pow (suc k) zero = ground (arith, pow_half k)
test_bit-pow (suc k) (suc j) = rw ((pow_half k).0) (ground (arith, test_bit-pow k j))

-- Numbers with the same bits are equal.
ext_below : (n a b : ℕ) → a ≤ n → b ≤ n → ((k : ℕ) → test_bit a k ≡ test_bit b k) → a ≡ b
unfolding test_bit
ext_below zero a b p q h = omega arith
ext_below (suc n) a b p q h =
    ground (arith, h 0, ext_below n (a / 2) (b / 2) (omega arith) (omega arith) (λ k. h (suc k)))

pub bit_ext : (a b : ℕ) → ((k : ℕ) → test_bit a k ≡ test_bit b k) → a ≡ b
bit_ext a b h = ext_below (max a b) a b (omega arith) (omega arith) h
