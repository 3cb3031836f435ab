-- ===== src/Netstack/Checksum.antt =====
-- The checksum of the ICMP answers of src/lib/netstack_driver.c.
use vros.Base.{
  ℕ, zero, suc, ◌+◌, ◌-◌, ◌*◌, ◌/◌, ◌%◌, ◌^◌, ◌≤◌, ◌<◌, ◌≡◌, refl, subst, ◌∙◌, ◌⊎◌, inl, inr, List,
  [], ◌∷◌, length, ltb, arith, Bool-cases, All,
}
use vros.Netstack.{sum_words, fold_carries, icmp_checksum, icmp_reply}

abbrev pub IsByte : ℕ → Type 0
IsByte b = b < 256

-- One round, when it is done and when it is not.
fold_carries-small : (rounds sum : ℕ) → sum < 65536 → fold_carries rounds sum ≡ sum
unfolding fold_carries
fold_carries-small zero sum lt = refl
fold_carries-small (suc rounds) sum lt = ground (arith, lt)

fold_carries-large :
    (rounds sum : ℕ)
    → 65536 ≤ sum
    → fold_carries (suc rounds) sum ≡ fold_carries rounds (sum % 65536 + sum / 65536)
unfolding fold_carries
fold_carries-large rounds sum le = ground (arith, le)

below_or_from : (a b : ℕ) → (b < a) ⊎ (a ≤ b)
below_or_from a b = elim (Bool-cases (ltb b a)) [
  | inl t ↦ inl (ground (arith, t))
  | inr f ↦ inr (ground (arith, f))
]

-- The sum with the carry brought round, from 1 to 65535.
abbrev pub end_around : ℕ → ℕ
end_around sum = (sum - 1) % 65535 + 1

end_around-small : (sum : ℕ) → 0 < sum → sum < 65536 → sum ≡ end_around sum
end_around-small sum pos lt = omega arith

end_around-round : (sum : ℕ) → 65536 ≤ sum → end_around (sum % 65536 + sum / 65536) ≡ end_around sum
end_around-round sum le = omega arith

fold_two :
    (rounds sum : ℕ)
    → 0 < sum
    → sum < 65536 + 65535
    → fold_carries (suc rounds) sum ≡ end_around sum
fold_two rounds sum pos lt = elim (below_or_from 65536 sum) [
  | inl small ↦ fold_carries-small (suc rounds) sum small ∙ end_around-small sum pos small
  | inr large ↦
      let next = sum % 65536 + sum / 65536 in
      fold_carries-large rounds sum large
      ∙ fold_carries-small rounds next (omega arith)
      ∙ end_around-small next (omega arith) (omega arith)
      ∙ end_around-round sum large
]

-- On a positive sum of at most 32 bits the loop over the carries needs two rounds at most: with any
-- number of rounds from two it gives the same, the sum less one modulo 65535, plus one.
pub fold_carries-end_around :
    (rounds sum : ℕ) → 0 < sum → sum < 2 ^ 32 → fold_carries (suc (suc rounds)) sum ≡ end_around sum
fold_carries-end_around rounds sum pos lt = elim (below_or_from 65536 sum) [
  | inl small ↦ fold_carries-small (suc (suc rounds)) sum small ∙ end_around-small sum pos small
  | inr large ↦
      let next = sum % 65536 + sum / 65536 in
      fold_carries-large (suc rounds) sum large
      ∙ fold_two rounds next (omega arith) (omega arith)
      ∙ end_around-round sum large
]

-- A message of bytes has a sum below 65536 for each byte.
sum_words-bound : (bytes : List ℕ) → All IsByte bytes → sum_words bytes ≤ 65535 * length bytes
unfolding sum_words
sum_words-bound [] k = omega arith
sum_words-bound (a ∷ []) k = omega (arith, k.0)
sum_words-bound (a ∷ b ∷ bytes) k = omega (arith, k.0, k.1.0, sum_words-bound bytes k.1.1)

end_around-checksum : (t : ℕ) → 0 < t → end_around ((65535 - end_around t) + t) ≡ 65535
end_around-checksum t pos = omega arith

-- The sum of a message by its checksum.
sum_words-icmp_reply :
    (c i0 i1 i2 i3 : ℕ) (bytes : List ℕ)
    → c ≤ 65535
    → sum_words (icmp_reply c (i0 ∷ i1 ∷ i2 ∷ i3 ∷ []) bytes)
      ≡ c + (i0 * 256 + i1 + (i2 * 256 + i3 + sum_words bytes))
unfolding sum_words
sum_words-icmp_reply c i0 i1 i2 i3 bytes le = omega arith

-- What the check of a receiver gives, where `t` is the sum of the rest of the message.
verified : (t : ℕ) → t < 2 ^ 31 → fold_carries 3 ((65535 - fold_carries 3 (t % 2 ^ 32)) + t) ≡ 65535
verified t lt =
    let exact : t % 2 ^ 32 ≡ t = omega arith in
    elim (below_or_from 1 t) [
      | inl void ↦
          let zero_sum : t ≡ 0 = omega arith in
          rw (zero_sum, fold_carries-small 3 0 (omega arith))
            (fold_carries-small 3 65535 (omega arith))
      | inr pos ↦
          let e = fold_carries-end_around 1 t pos (omega arith) in
          rw (exact, e)
            (fold_carries-end_around 1 ((65535 - end_around t) + t) (omega arith) (omega arith)
              ∙ end_around-checksum t pos)
    ]

-- A receiver that adds up the answer finds the sum that stands for no error.
pub icmp_reply-sums :
    (i0 i1 i2 i3 : ℕ) (bytes : List ℕ)
    → All IsByte (i0 ∷ i1 ∷ i2 ∷ i3 ∷ bytes)
    → length bytes ≤ 1458
    → let ids = i0 ∷ i1 ∷ i2 ∷ i3 ∷ [] in
      fold_carries 3 (sum_words (icmp_reply (icmp_checksum (icmp_reply 0 ids bytes)) ids bytes))
      ≡ 65535
icmp_reply-sums i0 i1 i2 i3 bytes k short =
    let t = i0 * 256 + i1 + (i2 * 256 + i3 + sum_words bytes) in
    let bound : t < 2 ^ 31 =
      omega (arith, k.0, k.1.0, k.1.1.0, k.1.1.1.0, sum_words-bound bytes k.1.1.1.1, short) in
    let same : t ≡ 0 + t = omega arith in
    rw
      (
        sum_words-icmp_reply 0 i0 i1 i2 i3 bytes (omega arith),
        sum_words-icmp_reply (65535 - fold_carries 3 ((0 + t) % 2 ^ 32)) i0 i1 i2 i3 bytes
            (omega arith),
      )
      (subst (λ x. fold_carries 3 ((65535 - fold_carries 3 (x % 2 ^ 32)) + t) ≡ 65535) same
        (verified t bound))
