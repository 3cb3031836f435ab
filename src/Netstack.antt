-- ===== src/Netstack.antt =====
-- The network stack in user space, src/lib/netstack_driver.c. The static variables are the record
-- `NetStack`; a frame is the list of its bytes, and its packed structures are read at their places.
-- What the call that finds the port of the network driver answers is the argument `driver`.
pub mod Arp
pub mod Checksum
pub mod Frames
pub mod Tests
use vros.Ipc.{msg_max_size}
use vros.Base.{
  ℕ, zero, suc, ◌+◌, ◌-◌, ◌*◌, ◌/◌, ◌%◌, ◌^◌, Bool, true, false, not, ◌&&◌, ◌||◌, Option, none,
  some, List, [], ◌∷◌, ◌++◌, length, get_or, drop, ltb, leb, ◌==◌, if◌then◌else◌, replicate,
}

-- mac_addr_t
pub record MacAddr : Type 0 where
  pub m0 : ℕ
  pub m1 : ℕ
  pub m2 : ℕ
  pub m3 : ℕ
  pub m4 : ℕ
  pub m5 : ℕ

-- arp_entry_t
pub record ArpEntry : Type 0 where
  pub ip : ℕ
  pub mac : MacAddr
  pub valid : Bool

-- The static variables, and the frames handed to `ipc_send` that fit a message, each with the port of
-- the driver, the last one first.
pub record NetStack : Type 0 where
  pub my_ip : ℕ
  pub my_mac : MacAddr
  pub arp_cache : List ArpEntry
  pub ne2000_port : Option ℕ
  pub sent : List (ℕ × List ℕ)

-- A field of 16 or 32 bits behind ntohs or ntohl.
abbrev pub ntohs_at : List ℕ → ℕ → ℕ
ntohs_at frame at = get_or frame at 0 * 256 + get_or frame (at + 1) 0

abbrev pub ntohl_at : List ℕ → ℕ → ℕ
ntohl_at frame at = ntohs_at frame at * 65536 + ntohs_at frame (at + 2)

abbrev pub mac_at : List ℕ → ℕ → MacAddr
mac_at frame at = record {
  m0 = get_or frame at 0;
  m1 = get_or frame (at + 1) 0;
  m2 = get_or frame (at + 2) 0;
  m3 = get_or frame (at + 3) 0;
  m4 = get_or frame (at + 4) 0;
  m5 = get_or frame (at + 5) 0;
}

-- The bytes of an address and of a field that htonl filled.
abbrev pub mac_bytes : MacAddr → List ℕ
mac_bytes m = m.m0 ∷ m.m1 ∷ m.m2 ∷ m.m3 ∷ m.m4 ∷ m.m5 ∷ []

abbrev pub htons_bytes : ℕ → List ℕ
htons_bytes x = x / 256 % 256 ∷ x % 256 ∷ []

abbrev pub htonl_bytes : ℕ → List ℕ
htonl_bytes x = x / 2 ^ 24 % 256 ∷ x / 65536 % 256 ∷ x / 256 % 256 ∷ x % 256 ∷ []

-- The send of a frame to a port, whose result the code does not look at: `ipc_send` refuses more than
-- `msg_max_size` bytes.
unfoldable pub send_to : ℕ → List ℕ → NetStack → NetStack
send_to port frame s =
    if ltb msg_max_size (length frame) then s else record s { sent = (port, frame) ∷ s.sent }

unfoldable pub send_frame_to_driver : Option ℕ → List ℕ → NetStack → NetStack
send_frame_to_driver driver frame s = elim s.ne2000_port [
  | some port ↦ send_to port frame s
  | none ↦ elim driver [
    | none ↦ s
    | some port ↦ send_to port frame (record s { ne2000_port = some port })
  ]
]

-- The loop that enters a sender into the cache.
unfoldable pub update_cache : ℕ → MacAddr → List ArpEntry → List ArpEntry
update_cache ip mac [] = []
update_cache ip mac (e ∷ es) =
    let rest = update_cache ip mac es in
    if not e.valid || (e.ip == ip)
    then record { ip = ip; mac = mac; valid = true } ∷ es
    else e ∷ rest

-- The loop that looks an address up.
unfoldable pub find_mac : ℕ → List ArpEntry → Option MacAddr
find_mac ip [] = none
find_mac ip (e ∷ es) =
    let rest = find_mac ip es in if e.valid && (e.ip == ip) then some e.mac else rest

-- The 42 bytes of the answer to the request whose ARP packet is at `at`.
abbrev pub arp_reply : NetStack → List ℕ → ℕ → List ℕ
arp_reply s frame at =
    mac_bytes (mac_at frame (at + 8))
    ++ mac_bytes s.my_mac
    ++ (8 ∷ 6 ∷ [])
    ++ htons_bytes 1
    ++ htons_bytes 0x0800
    ++ (6 ∷ 4 ∷ [])
    ++ htons_bytes 2
    ++ mac_bytes s.my_mac
    ++ htonl_bytes s.my_ip
    ++ mac_bytes (mac_at frame (at + 8))
    ++ (get_or frame (at + 14) 0
        ∷ get_or frame (at + 15) 0
        ∷ get_or frame (at + 16) 0
        ∷ get_or frame (at + 17) 0
        ∷ [])

-- The ARP packet is at 14, behind the Ethernet header.
unfoldable pub process_arp : Option ℕ → List ℕ → NetStack → NetStack
process_arp driver frame s =
    let s' = record s {
      arp_cache = update_cache (ntohl_at frame 28) (mac_at frame 22) s.arp_cache;
    } in
    if (ntohs_at frame 20 == 1) && (ntohl_at frame 38 == s'.my_ip)
    then send_frame_to_driver driver (arp_reply s' frame 14) s'
    else s'

-- The sum of the 16-bit words, most significant byte first, an odd byte counted as the upper one.
unfoldable pub sum_words : List ℕ → ℕ
sum_words [] = 0
sum_words (a ∷ []) = a * 256
sum_words (a ∷ b ∷ bytes) = (a * 256 + b) + sum_words bytes

-- The loop that adds the carries, by rounds.
unfoldable pub fold_carries : ℕ → ℕ → ℕ
fold_carries zero sum = sum
fold_carries (suc rounds) sum =
    let rest = fold_carries rounds (sum % 65536 + sum / 65536) in
    if sum / 65536 == 0 then sum else rest

-- The three rounds that a sum of 32 bits needs at most, and the complement in 16 bits.
abbrev pub icmp_checksum : List ℕ → ℕ
icmp_checksum bytes = 65535 - fold_carries 3 (sum_words bytes % 2 ^ 32)

-- The ICMP message of an answer: a header with the checksum, the id and the sequence, then the data.
abbrev pub icmp_reply : ℕ → List ℕ → List ℕ → List ℕ
icmp_reply checksum id_sequence bytes = (0 ∷ 0 ∷ []) ++ htons_bytes checksum ++ id_sequence ++ bytes

abbrev pub id_sequence_at : List ℕ → ℕ → List ℕ
id_sequence_at frame at =
    get_or frame at 0
    ∷ get_or frame (at + 1) 0
    ∷ get_or frame (at + 2) 0
    ∷ get_or frame (at + 3) 0
    ∷ []

-- The frame that answers an echo request with the ICMP message.
abbrev pub echo_frame : NetStack → MacAddr → ℕ → List ℕ → List ℕ
echo_frame s mac src_ip message =
    mac_bytes mac
    ++ mac_bytes s.my_mac
    ++ htons_bytes 0x0800
    ++ (0x45 ∷ 0 ∷ [])
    ++ htons_bytes (20 + length message)
    ++ (0 ∷ 0 ∷ 0 ∷ 0 ∷ 64 ∷ 1 ∷ 0 ∷ 0 ∷ [])
    ++ htonl_bytes s.my_ip
    ++ htonl_bytes src_ip
    ++ message

-- The ICMP message is at 34, its data at 42.
unfoldable pub process_icmp : Option ℕ → List ℕ → ℕ → NetStack → NetStack
process_icmp driver frame src_ip s =
    let id_sequence = id_sequence_at frame 38 in
    let bytes = drop 42 frame in
    let checksum = icmp_checksum (icmp_reply 0 id_sequence bytes) in
    if get_or frame 34 0 == 8
    then elim (find_mac src_ip s.arp_cache) [
      | none ↦ s
      | some mac ↦
          if ltb 1500 (42 + length bytes)
          then s
          else send_frame_to_driver driver
              (echo_frame s mac src_ip (icmp_reply checksum id_sequence bytes)) s
    ]
    else s

-- The IP header is at 14.
unfoldable pub process_ip : Option ℕ → List ℕ → NetStack → NetStack
process_ip driver frame s =
    if not (ntohl_at frame 30 == s.my_ip)
    then s
    else if (get_or frame 23 0 == 1) && leb 8 (length frame - 34)
    then process_icmp driver frame (ntohl_at frame 26) s
    else s

unfoldable pub process_ethernet_frame : Option ℕ → List ℕ → NetStack → NetStack
process_ethernet_frame driver frame s =
    let kind = ntohs_at frame 12 in
    let payload_len = length frame - 14 in
    if ltb (length frame) 14
    then s
    else if kind == 0x0806
    then (if leb 28 payload_len then process_arp driver frame s else s)
    else if (kind == 0x0800) && leb 20 payload_len
    then (if (get_or frame 23 0 == 1) && (leb 28 payload_len && (get_or frame 34 0 == 8))
        then send_frame_to_driver driver frame s
        else process_ip driver frame s)
    else s

-- One round of the main loop: the type and the bytes of the message received, if there is one.
unfoldable pub netstack_round : Option ℕ → Option (ℕ × List ℕ) → NetStack → NetStack
netstack_round driver none s = s
netstack_round driver (some (kind, bytes)) s =
    if kind == 1 then process_ethernet_frame driver bytes s else s

-- The cache at the start of the main loop, whatever was in it.
unfoldable pub empty_cache : List ArpEntry → List ArpEntry
empty_cache [] = []
empty_cache (e ∷ es) = record e { valid = false } ∷ empty_cache es
