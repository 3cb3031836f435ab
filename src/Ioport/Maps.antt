-- ===== src/Ioport/Maps.antt =====
-- The bitmap of a task in ioport.c: what setting and clearing ranges of bits permits.
use vros.Base.{
  get_or-replicate, ==→ne, All-replicate, length-replicate, ℕ, zero, suc, ◌+◌, ◌/◌, ◌%◌, ◌^◌, ◌≤◌,
  ◌<◌, ◌≡◌, sym, ap, ◌∙◌, ◌≢◌, inl, inr, Bool, true, false, ◌&&◌, ◌||◌, not, List, arith, length,
  get_or, set, replicate, All, ltb, leb, ◌==◌,
}
use vros.Base.{length-set, get_or-set_self, get_or-set_ne, All-get_or, All-set, Bool-cases}
use vros.Bits.{
  test_bit-zero, test_bit-complement, has_bit, with_bit, without_bit, has_bit_lem,
  test_bit-with_bit, test_bit-without_bit, with_bit-lt, without_bit-lt,
}
use vros.Ioport.{iopb_size, no_ports, allow, forbid, allow_from, forbid_from}

pub record IsMap (map : List ℕ) : Type 0 where
  pub sized : length map ≡ iopb_size
  pub bytes : All (λ b. b < 2 ^ 8) map

-- The port's bit is clear.
abbrev pub permits : List ℕ → ℕ → Bool
permits map port = not (has_bit (get_or map (port / 8) 0) (port % 8))

byte-lt : (map : List ℕ) (i : ℕ) → IsMap map → get_or map i 0 < 2 ^ 8
byte-lt map i k = All-get_or (λ b. b < 2 ^ 8) map i 0 k.bytes (omega arith)

pub allow-IsMap : (port : ℕ) (map : List ℕ) → IsMap map → IsMap (allow port map)
unfolding allow
allow-IsMap port map k = record {
  sized = length-set map _ _ ∙ k.sized;
  bytes = All-set _ map _ _ k.bytes (without_bit-lt 8 _ (port % 8) (byte-lt map _ k) (omega arith));
}

pub forbid-IsMap : (port : ℕ) (map : List ℕ) → IsMap map → IsMap (forbid port map)
unfolding forbid
forbid-IsMap port map k = record {
  sized = length-set map _ _ ∙ k.sized;
  bytes = All-set _ map _ _ k.bytes (with_bit-lt 8 _ (port % 8) (byte-lt map _ k) (omega arith));
}

allow-permits :
    (port q : ℕ) (map : List ℕ)
    → IsMap map
    → port < 65536
    → permits (allow port map) q ≡ ((port == q) || permits map q)
unfolding allow
allow-permits port q map k lt =
    let w = get_or map (port / 8) 0 in
    let w' = without_bit 8 w (port % 8) in
    elim (Bool-cases (port / 8 == q / 8)) [
      | inl e ↦
          let same : port / 8 ≡ q / 8 = ground (arith, e) in
          let byte : get_or (set map (port / 8) w') (port / 8) 0 ≡ w' =
            get_or-set_self map (port / 8) w' 0 (omega (arith, k.sized)) in
          rw (sym same, byte)
            (ground (
              arith,
              same,
              has_bit_lem w' (q % 8),
              has_bit_lem w (q % 8),
              test_bit-without_bit 8 w (port % 8) (q % 8) (byte-lt map (port / 8) k) (omega arith),
            ))
      | inr e ↦
          let other : port / 8 ≢ q / 8 = ==→ne (port / 8) (q / 8) e in
          rw (get_or-set_ne map (port / 8) (q / 8) w' 0 other) (ground (arith, other))
    ]

forbid-permits :
    (port q : ℕ) (map : List ℕ)
    → IsMap map
    → port < 65536
    → permits (forbid port map) q ≡ (not (port == q) && permits map q)
unfolding forbid
forbid-permits port q map k lt =
    let w = get_or map (port / 8) 0 in
    let w' = with_bit w (port % 8) in
    elim (Bool-cases (port / 8 == q / 8)) [
      | inl e ↦
          let same : port / 8 ≡ q / 8 = ground (arith, e) in
          let byte : get_or (set map (port / 8) w') (port / 8) 0 ≡ w' =
            get_or-set_self map (port / 8) w' 0 (omega (arith, k.sized)) in
          rw (sym same, byte)
            (ground (
              arith,
              same,
              has_bit_lem w' (q % 8),
              has_bit_lem w (q % 8),
              test_bit-with_bit w (port % 8) (q % 8),
            ))
      | inr e ↦
          let other : port / 8 ≢ q / 8 = ==→ne (port / 8) (q / 8) e in
          rw (get_or-set_ne map (port / 8) (q / 8) w' 0 other) (ground (arith, other))
    ]

-- The loop that allows `n` ports from `port` on.
pub allow_from_lem :
    (n port : ℕ) (map : List ℕ)
    → IsMap map
    → port + n ≤ 65536
    → IsMap (allow_from n port map)
      × ((q : ℕ)
          → permits (allow_from n port map) q ≡ ((leb port q && ltb q (port + n)) || permits map q))
unfolding allow_from
allow_from_lem zero port map k le = (k, λ q. ground arith)
allow_from_lem (suc n) port map k le =
    let (k', step) =
      allow_from_lem n (port + 1) (allow port map) (allow-IsMap port map k) (omega arith) in
    (k', λ q. ground (arith, step q, allow-permits port q map k (omega arith)))

pub forbid_from_lem :
    (n port : ℕ) (map : List ℕ)
    → IsMap map
    → port + n ≤ 65536
    → IsMap (forbid_from n port map)
      × ((q : ℕ)
          → permits (forbid_from n port map) q
            ≡ (not (leb port q && ltb q (port + n)) && permits map q))
unfolding forbid_from
forbid_from_lem zero port map k le = (k, λ q. ground arith)
forbid_from_lem (suc n) port map k le =
    let (k', step) =
      forbid_from_lem n (port + 1) (forbid port map) (forbid-IsMap port map k) (omega arith) in
    (k', λ q. ground (arith, step q, forbid-permits port q map k (omega arith)))

full-bit : (k : ℕ) → k < 8 → has_bit 0xFF k ≡ true
full-bit k lt =
    has_bit_lem 0xFF k ∙ test_bit-complement 8 0 k (omega arith) lt ∙ ap not (test_bit-zero k)

permits-full : (n q : ℕ) → q / 8 < n → permits (replicate n 0xFF) q ≡ false
permits-full n q lt =
    rw (get_or-replicate {A = ℕ} n (q / 8) 0xFF 0 lt) (ap not (full-bit (q % 8) (omega arith)))

-- The map of a new task permits nothing.
pub no_ports-IsMap : IsMap no_ports
unfolding no_ports
no_ports-IsMap = record {
  sized = length-replicate {A = ℕ} iopb_size 0xFF;
  bytes = All-replicate {A = ℕ} (λ b. b < 2 ^ 8) iopb_size 0xFF (omega arith);
}

pub no_ports-permits : (q : ℕ) → q < 65536 → permits no_ports q ≡ false
unfolding no_ports
no_ports-permits q lt = permits-full iopb_size q (omega arith)
