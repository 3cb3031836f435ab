-- ===== src/Netif.antt =====
-- The network interfaces, src/drivers/netif.c with include/netif.h. A driver's functions are functions
-- on the state `W` of the hardware: `send` tells whether its result is 0; `receive` gives the bytes
-- received, or `none` for a negative result; `get_mac` gives the address.
pub mod Table
pub mod Tests
use vros.Base.{
  ℕ, zero, suc, ◌+◌, ◌%◌, ◌^◌, Bool, true, false, Option, none, some, List, [], ◌∷◌, length, get_or,
  set, leb, ltb, take, if◌then◌else◌,
}
use vros.CString.{strcmp, strcpy}

-- struct netif_stats
pub record NetifStats : Type 0 where
  pub packets_sent : ℕ
  pub packets_received : ℕ
  pub bytes_sent : ℕ
  pub bytes_received : ℕ
  pub errors : ℕ

-- struct netif_ops
pub record NetifOps (W : Type 0) : Type 0 where
  pub send : Option (List ℕ → ℕ → W → Bool × W)
  pub receive : Option (ℕ → W → Option (List ℕ) × W)
  pub get_mac : Option (List ℕ)

-- struct netif
pub record Netif (W : Type 0) : Type 0 where
  pub name : List ℕ
  pub mac_addr : List ℕ
  pub ops : Option (NetifOps W)
  pub stats : NetifStats
  pub private_data : ℕ

-- The static variables of netif.c.
pub record Netifs (W : Type 0) : Type 0 where
  pub netifs : List (Netif W)
  pub netif_count : ℕ

abbrev pub max_netif : ℕ
max_netif = 4

abbrev pub no_stats : NetifStats
no_stats = record {
  packets_sent = 0;
  packets_received = 0;
  bytes_sent = 0;
  bytes_received = 0;
  errors = 0;
}

abbrev pub no_netif : {W : Type 0} → Netif W
no_netif = record { name = []; mac_addr = []; ops = none; stats = no_stats; private_data = 0 }

abbrev pub add32 : ℕ → ℕ → ℕ
add32 x y = (x + y) % 2 ^ 32

module _ {W : Type 0} where
  pub reset_netifs : List (Netif W) → List (Netif W)
  reset_netifs [] = []
  reset_netifs (n ∷ ns) =
      record n { name = set n.name 0 0; ops = none; private_data = 0; stats = no_stats }
      ∷ reset_netifs ns

  pub netif_init : Netifs W → Netifs W
  netif_init s = record { netifs = reset_netifs s.netifs; netif_count = 0 }

  -- `false` is the result -1.
  pub netif_register : List ℕ → NetifOps W → ℕ → Netifs W → Bool × Netifs W
  netif_register name ops private_data s =
      let n = get_or s.netifs s.netif_count no_netif in
      if leb max_netif s.netif_count then (false, s) else (
        true,
        record {
          netifs = set s.netifs s.netif_count (record n {
            name = strcpy n.name name;
            ops = some ops;
            private_data = private_data;
            mac_addr = elim ops.get_mac [ none ↦ n.mac_addr | some mac ↦ mac ];
          });
          netif_count = s.netif_count + 1;
        },
      )

  -- The loop of `netif_get` over `n` interfaces, counted from `i` on.
  pub find_netif : List ℕ → ℕ → ℕ → List (Netif W) → Option ℕ
  find_netif name zero i ns = none
  find_netif name (suc n) i [] = none
  find_netif name (suc n) i (x ∷ ns) =
      let rest = find_netif name n (i + 1) ns in if strcmp x.name name then some i else rest

  pub netif_get : List ℕ → Netifs W → Option ℕ
  netif_get name s = find_netif name s.netif_count 0 s.netifs

  -- The interface itself is passed and returned; `false` is -1 or the driver's failure.
  pub netif_send : List ℕ → ℕ → Netif W → W → Bool × Netif W × W
  netif_send bytes len n w = elim n.ops [
    | none ↦ (false, n, w)
    | some ops ↦ elim ops.send [
      | none ↦ (false, n, w)
      | some send ↦
          let (ok, w') = send bytes len w in
          if ok
          then (
            true,
            record n {
              stats = record n.stats {
                packets_sent = add32 n.stats.packets_sent 1;
                bytes_sent = add32 n.stats.bytes_sent len;
              };
            },
            w',
          )
          else (false, record n { stats = record n.stats { errors = add32 n.stats.errors 1 } }, w')
    ]
  ]

  -- The statistics after a receive; a negative result and an empty packet do not count.
  pub count_received : Option (List ℕ) → Netif W → Netif W
  count_received none n = n
  count_received (some []) n = n
  count_received (some (b ∷ bs)) n = record n {
    stats = record n.stats {
      packets_received = add32 n.stats.packets_received 1;
      bytes_received = add32 n.stats.bytes_received (length (b ∷ bs));
    };
  }

  -- `none` is a negative result.
  pub netif_receive : ℕ → Netif W → W → Option (List ℕ) × Netif W × W
  netif_receive max_length n w = elim n.ops [
    | none ↦ (none, n, w)
    | some ops ↦ elim ops.receive [
      | none ↦ (none, n, w)
      | some receive ↦ let (got, w') = receive max_length w in (got, count_received got n, w')
    ]
  ]

  pub netif_get_all : ℕ → Netifs W → List (Netif W)
  netif_get_all max_count s =
      take (if ltb s.netif_count max_count then s.netif_count else max_count) s.netifs
