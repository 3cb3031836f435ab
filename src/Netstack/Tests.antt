-- ===== src/Netstack/Tests.antt =====
-- Two hosts, 10.0.2.15 and 10.0.2.2, of src/lib/netstack_driver.c on one wire.
use vros.Base.{
  ℕ, suc, ◌≤◌, ◌≡◌, refl, ◌⊎◌, true, false, none, some, List, [], ◌∷◌, ◌++◌, length, get_or, ◌==◌,
  if◌then◌else◌, arith,
}
use vros.Netstack.{
  send_to, MacAddr, ArpEntry, NetStack, ntohl_at, mac_at, send_frame_to_driver, update_cache,
  find_mac, arp_reply, process_ethernet_frame, mac_bytes, htonl_bytes, fold_carries, netstack_round,
  empty_cache,
}
use vros.Netstack.Arp.{IsFull, find-update_cache}
use vros.Netstack.Checksum.{end_around, fold_carries-end_around}
use vros.Netstack.Frames.{process-ip_frame, arp-exchange}

abbrev our_mac : MacAddr
our_mac = record { m0 = 0x52; m1 = 0x54; m2 = 0; m3 = 0x12; m4 = 0x34; m5 = 0x56 }

abbrev other_mac : MacAddr
other_mac = record { m0 = 0x52; m1 = 0x55; m2 = 10; m3 = 0; m4 = 2; m5 = 2 }

abbrev our_ip : ℕ
our_ip = 0x0A00020F

abbrev other_ip : ℕ
other_ip = 0x0A000202

abbrev unused : ArpEntry
unused = record { ip = 0; mac = other_mac; valid = false }

abbrev other_entry : ArpEntry
other_entry = record { ip = other_ip; mac = other_mac; valid = true }

abbrev us : NetStack
us = record {
  my_ip = our_ip;
  my_mac = our_mac;
  arp_cache = other_entry ∷ unused ∷ [];
  ne2000_port = some 3;
  sent = [];
}

abbrev other : NetStack
other = record {
  my_ip = other_ip;
  my_mac = other_mac;
  arp_cache = unused ∷ [];
  ne2000_port = none;
  sent = [];
}

-- The request of the other host for the address of this one.
abbrev request : List ℕ
request =
    (0xFF ∷ 0xFF ∷ 0xFF ∷ 0xFF ∷ 0xFF ∷ 0xFF ∷ [])
    ++ mac_bytes other_mac
    ++ (8 ∷ 6 ∷ [])
    ++ (0 ∷ 1 ∷ 8 ∷ 0 ∷ 6 ∷ 4 ∷ 0 ∷ 1 ∷ [])
    ++ mac_bytes other_mac
    ++ htonl_bytes other_ip
    ++ (0 ∷ 0 ∷ 0 ∷ 0 ∷ 0 ∷ 0 ∷ [])
    ++ htonl_bytes our_ip

-- An echo request of the other host.
abbrev ping : List ℕ
ping =
    mac_bytes our_mac
    ++ mac_bytes other_mac
    ++ (8 ∷ 0 ∷ [])
    ++ (0x45 ∷ 0 ∷ 0 ∷ 30 ∷ 0 ∷ 0 ∷ 0 ∷ 0 ∷ 64 ∷ 1 ∷ 0 ∷ 0 ∷ [])
    ++ htonl_bytes other_ip
    ++ htonl_bytes our_ip
    ++ (8 ∷ 0 ∷ 0 ∷ 0 ∷ 0 ∷ 7 ∷ 0 ∷ 1 ∷ 104 ∷ 105 ∷ [])

arp-exchange_example :
    let reply = arp_reply us request 14 in
    let a' = process_ethernet_frame none request us in
    let b' = process_ethernet_frame none reply other in
    (a'.sent ≡ (3, reply) ∷ us.sent)
    × (mac_at reply 0 ≡ mac_at request 22)
    × (ntohl_at reply 38 ≡ ntohl_at request 28)
    × (b'.sent ≡ other.sent)
    × (IsFull us.my_ip other.arp_cache ⊎ (find_mac us.my_ip b'.arp_cache ≡ some us.my_mac))
arp-exchange_example =
    arp-exchange none us other request 3 (omega arith) refl (omega arith) refl refl refl

find-update_cache_example :
    (IsFull our_ip other.arp_cache
      × (update_cache our_ip our_mac other.arp_cache ≡ other.arp_cache))
    ⊎ ((q : ℕ)
        → find_mac q (update_cache our_ip our_mac other.arp_cache)
          ≡ (if our_ip == q then some our_mac else find_mac q other.arp_cache))
find-update_cache_example = find-update_cache our_ip our_mac other.arp_cache

process-ip_frame_example :
    ((process_ethernet_frame none ping us ≡ send_frame_to_driver none ping us)
      × (42 ≤ length ping)
      × (get_or ping 23 0 ≡ 1)
      × (get_or ping 34 0 ≡ 8))
    ⊎ (process_ethernet_frame none ping us ≡ us)
process-ip_frame_example = process-ip_frame none ping us refl

fold_carries-end_around_example : fold_carries (suc (suc 1)) 0xFFFFFFFF ≡ end_around 0xFFFFFFFF
fold_carries-end_around_example = fold_carries-end_around 1 0xFFFFFFFF (omega arith) (omega arith)

-- The ping that came in goes out as it is.
echo_returned : (netstack_round none (some (1, ping)) us).sent ≡ (3, ping) ∷ []
unfolding netstack_round process_ethernet_frame send_frame_to_driver send_to
echo_returned = refl

-- After the start no address is known.
nothing_known : find_mac other_ip (empty_cache us.arp_cache) ≡ none
unfolding find_mac empty_cache
nothing_known = refl
