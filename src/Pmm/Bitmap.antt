-- ===== src/Pmm/Bitmap.antt =====
-- The bitmap of pmm.c read bit by bit.
use vros.Base.{
  ℕ, zero, suc, ◌+◌, ◌/◌, ◌%◌, ◌^◌, ◌≤◌, ◌<◌, ◌≡◌, ◌∙◌, sym, true, false, ◌&&◌, ◌||◌, not, ltb,
  ◌==◌, arith, if◌then◌else◌, List, length, All, get_or, length-set, get_or-set_self, get_or-set_ne,
  All-get_or, All-set, set-set, set-get_or,
}
use vros.Bits.{
  with_bit, without_bit, has_bit_lem, test_bit-with_bit, test_bit-without_bit, with_bit-lt,
  without_bit-lt, without_bit-with_bit,
}
use vros.Pmm.{bitmap_set, bitmap_clear, bitmap_test, count_used}

abbrev pub Words : List ℕ → Type 0
Words m = All (λ w. w < 2 ^ 32) m

word-lt : (m : List ℕ) (i : ℕ) → Words m → get_or m i 0 < 2 ^ 32
word-lt m i h = All-get_or (λ w. w < 2 ^ 32) m i 0 h (omega arith)

pub length-bitmap_set : (m : List ℕ) (b : ℕ) → length (bitmap_set m b) ≡ length m
unfolding bitmap_set
length-bitmap_set m b = length-set m _ _

pub length-bitmap_clear : (m : List ℕ) (b : ℕ) → length (bitmap_clear m b) ≡ length m
unfolding bitmap_clear
length-bitmap_clear m b = length-set m _ _

pub bitmap_set-Words : (m : List ℕ) (b : ℕ) → Words m → Words (bitmap_set m b)
unfolding bitmap_set
bitmap_set-Words m b h =
    All-set (λ w. w < 2 ^ 32) m _ _ h (with_bit-lt 32 _ _ (word-lt m _ h) (omega arith))

pub bitmap_clear-Words : (m : List ℕ) (b : ℕ) → Words m → Words (bitmap_clear m b)
unfolding bitmap_clear
bitmap_clear-Words m b h =
    All-set (λ w. w < 2 ^ 32) m _ _ h (without_bit-lt 32 _ _ (word-lt m _ h) (omega arith))

-- Setting one bit changes that bit alone.
pub test-bitmap_set :
    (m : List ℕ) (b c : ℕ)
    → b / 32 < length m
    → bitmap_test (bitmap_set m b) c ≡ ((b == c) || bitmap_test m c)
unfolding bitmap_test bitmap_set
test-bitmap_set m b c h = ground (
  arith,
  has_bit_lem (get_or (bitmap_set m b) (c / 32) 0) (c % 32),
  has_bit_lem (get_or m (c / 32) 0) (c % 32),
  get_or-set_self m (b / 32) (with_bit (get_or m (b / 32) 0) (b % 32)) 0 h,
  get_or-set_ne m (b / 32) (c / 32) (with_bit (get_or m (b / 32) 0) (b % 32)) 0,
  test_bit-with_bit (get_or m (b / 32) 0) (b % 32) (c % 32),
)

-- Clearing one bit changes that bit alone.
pub test-bitmap_clear :
    (m : List ℕ) (b c : ℕ)
    → b / 32 < length m
    → Words m
    → bitmap_test (bitmap_clear m b) c ≡ (not (b == c) && bitmap_test m c)
unfolding bitmap_test bitmap_clear
test-bitmap_clear m b c h k = ground (
  arith,
  has_bit_lem (get_or (bitmap_clear m b) (c / 32) 0) (c % 32),
  has_bit_lem (get_or m (c / 32) 0) (c % 32),
  get_or-set_self m (b / 32) (without_bit 32 (get_or m (b / 32) 0) (b % 32)) 0 h,
  get_or-set_ne m (b / 32) (c / 32) (without_bit 32 (get_or m (b / 32) 0) (b % 32)) 0,
  test_bit-without_bit 32 (get_or m (b / 32) 0) (b % 32) (c % 32) (word-lt m (b / 32) k),
)

-- Clearing a bit that was clear before it was set restores the map.
pub bitmap_clear-set :
    (m : List ℕ) (b : ℕ)
    → b / 32 < length m
    → Words m
    → bitmap_test m b ≡ false
    → bitmap_clear (bitmap_set m b) b ≡ m
unfolding bitmap_test bitmap_set bitmap_clear
bitmap_clear-set m b h k e =
    rw
      (
        set-set m (b / 32),
        get_or-set_self m (b / 32) (with_bit (get_or m (b / 32) 0) (b % 32)) 0 h,
        without_bit-with_bit 32 (get_or m (b / 32) 0) (b % 32) (word-lt m (b / 32) k) (omega arith)
            (sym (has_bit_lem (get_or m (b / 32) 0) (b % 32)) ∙ e),
      )
      (set-get_or m (b / 32) 0)

pub count-bitmap_set :
    (n : ℕ) (m : List ℕ) (b : ℕ)
    → b / 32 < length m
    → bitmap_test m b ≡ false
    → count_used n (bitmap_set m b) ≡ count_used n m + (if ltb b n then 1 else 0)
unfolding count_used
count-bitmap_set zero m b h e = ground arith
count-bitmap_set (suc n) m b h e =
    ground (arith, test-bitmap_set m b n h, count-bitmap_set n m b h e)

pub count-bitmap_clear :
    (n : ℕ) (m : List ℕ) (b : ℕ)
    → b / 32 < length m
    → Words m
    → bitmap_test m b ≡ true
    → count_used n (bitmap_clear m b) + (if ltb b n then 1 else 0) ≡ count_used n m
unfolding count_used
count-bitmap_clear zero m b h k e = ground arith
count-bitmap_clear (suc n) m b h k e =
    ground (arith, test-bitmap_clear m b n h k, count-bitmap_clear n m b h k e)

pub count-le : (n : ℕ) (m : List ℕ) → count_used n m ≤ n
unfolding count_used
count-le zero m = omega arith
count-le (suc n) m = ground (arith, count-le n m)

pub count-lt : (n : ℕ) (m : List ℕ) (b : ℕ) → b < n → bitmap_test m b ≡ false → count_used n m < n
unfolding count_used
count-lt zero m b h e = absurd (omega arith)
count-lt (suc n) m b h e = ground (arith, count-lt n m b, count-le n m)
