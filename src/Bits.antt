-- ===== src/Bits.antt =====
-- Single bits of machine words: the C tests `w & (1 << k)`, `w | (1 << k)` and `w & ~(1 << k)` read as
-- operations on the k-th bit, at every width.
mod Step
mod Word
unfoldable pub use Step.{test_bit}
pub use Step.{test_bit-or, test_bit-and, test_bit-pow, test_bit-zero, bit_ext}
unfoldable pub use Word.{with_bit, without_bit, has_bit}
pub use Word.*
