-- ===== src/Netif/Tests.antt =====
-- Registering an interface "eth0" whose driver always succeeds.
use vros.Base.{
  All-replicate, ℕ, ◌+◌, ◌≤◌, ◌≡◌, refl, ◌≢◌, ◌⊎◌, true, false, none, some, List, [], ◌∷◌, arith,
  length, get_or, replicate,
}
use vros.Netif.{Netif, NetifOps, Netifs, no_netif, netif_register, netif_get, netif_send}
use vros.Netif.Table.{get_netif-register}

abbrev driver : NetifOps ℕ
driver = record {
  send = some (λ bytes len w. (true, w + 1));
  receive = none;
  get_mac = some (2 ∷ 0 ∷ 0 ∷ 0 ∷ 0 ∷ 1 ∷ []);
}

abbrev slot : Netif ℕ
slot = record no_netif { name = replicate 16 0 }

abbrev empty : Netifs ℕ
empty = record { netifs = replicate 4 slot; netif_count = 0 }

abbrev eth0 : List ℕ
eth0 = b'e' ∷ b't' ∷ b'h' ∷ b'0' ∷ []

get_netif-register_example :
    let out = netif_register eth0 driver 0 empty in
    ((4 ≤ 0) × (out.0 ≡ false) × (out.1 ≡ empty))
    ⊎ ((out.0 ≡ true)
        × (netif_get eth0 out.1 ≡ some 0)
        × ((get_or out.1.netifs 0 no_netif).ops ≡ some driver)
        × ((j : ℕ) → 0 ≢ j → get_or out.1.netifs j no_netif ≡ get_or empty.netifs j no_netif))
get_netif-register_example =
    get_netif-register eth0 driver 0 empty (omega arith) refl
      (All-replicate (λ (n : Netif ℕ). length n.name ≡ 16) 4 slot refl) tt

sent : (netif_send eth0 4 (record no_netif { ops = some driver }) 7).2 ≡ 8
unfolding netif_send
sent = refl
