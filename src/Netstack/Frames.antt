-- ===== src/Netstack/Frames.antt =====
-- The frames that src/lib/netstack_driver.c answers: ARP requests are, echo requests are not.
use vros.Base.{
  ℕ, ◌+◌, ◌-◌, ◌*◌, ◌/◌, ◌%◌, ◌^◌, ◌≤◌, ◌<◌, ◌≡◌, refl, ap, ◌∙◌, ◌⊎◌, inl, inr, true, false, ◌&&◌,
  Option, some, List, ◌∷◌, length, get_or, ltb, leb, ◌==◌, arith, Bool-cases, ==_refl,
}
use vros.Netstack.{
  send_to, NetStack, ntohs_at, ntohl_at, mac_at, send_frame_to_driver, update_cache, find_mac,
  arp_reply, process_arp, process_icmp, process_ip, process_ethernet_frame,
}
use vros.Netstack.Arp.{IsFull, find-update_cache}

not_echo :
    (driver : Option ℕ) (frame : List ℕ) (src_ip : ℕ) (s : NetStack)
    → (get_or frame 34 0 == 8) ≡ false
    → process_icmp driver frame src_ip s ≡ s
unfolding process_icmp
not_echo driver frame src_ip s e = rw e refl

no_answer :
    (driver : Option ℕ) (frame : List ℕ) (s : NetStack)
    → ((get_or frame 23 0 == 1) && (leb 28 (length frame - 14) && (get_or frame 34 0 == 8))) ≡ false
    → process_ip driver frame s ≡ s
unfolding process_ip
no_answer driver frame s e = elim (Bool-cases (get_or frame 34 0 == 8)) [
  | inr other ↦ ground (arith, not_echo driver frame (ntohl_at frame 26) s other)
  | inl echo ↦
      let closed : ((get_or frame 23 0 == 1) && leb 8 (length frame - 34)) ≡ false =
        ground (arith, e, echo) in
      ground (arith, closed)
]

-- Whatever IP frame the stack gets, it never answers: it either hands that frame as it is to
-- send_frame_to_driver, which happens only to echo requests of 42 bytes or more, or changes
-- nothing.
pub process-ip_frame :
    (driver : Option ℕ) (frame : List ℕ) (s : NetStack)
    → ntohs_at frame 12 ≡ 0x0800
    → ((process_ethernet_frame driver frame s ≡ send_frame_to_driver driver frame s)
        × (42 ≤ length frame)
        × (get_or frame 23 0 ≡ 1)
        × (get_or frame 34 0 ≡ 8))
      ⊎ (process_ethernet_frame driver frame s ≡ s)
unfolding process_ethernet_frame
process-ip_frame driver frame s e = elim (Bool-cases (ltb (length frame) 34)) [
  | inl short ↦ inr (rw (process_ethernet_frame, e) (ground (arith, short)))
  | inr long ↦
      let enough : ltb (length frame) 14 ≡ false = ground (arith, long) in
      let header : leb 20 (length frame - 14) ≡ true = ground (arith, long) in
      elim (Bool-cases
        ((get_or frame 23 0 == 1) && (leb 28 (length frame - 14) && (get_or frame 34 0 == 8)))) [
          | inl t ↦ inl (
            rw (process_ethernet_frame, e, enough, header, t) refl,
            ground (arith, t),
            ground (arith, t),
            ground (arith, t),
          )
          | inr f ↦
              inr (rw (process_ethernet_frame, e, enough, header, f) (no_answer driver frame s f))
        ]
]

-- The four bytes of an address in network order.
ntohl-htonl :
    (ip : ℕ)
    → ip < 2 ^ 32
    → (ip / 2 ^ 24 % 256 * 256 + ip / 65536 % 256) * 65536 + (ip / 256 % 256 * 256 + ip % 256) ≡ ip
ntohl-htonl ip lt = omega arith

-- The answer to a request teaches a stack that gets it.
learns :
    (driver : Option ℕ) (a b : NetStack) (frame : List ℕ)
    → a.my_ip < 2 ^ 32
    → process_ethernet_frame driver (arp_reply a frame 14) b
      ≡ record b { arp_cache = update_cache a.my_ip a.my_mac b.arp_cache }
unfolding process_ethernet_frame process_arp
learns driver a b frame lt = rw (ntohl-htonl a.my_ip lt) refl

-- A stack whose address fits 32 bits and that knows the port of the driver, on a whole ARP frame
-- that asks for its address: it sends one frame, back to the asker's MAC and IP address, and any
-- stack that gets that frame sends nothing and then finds the answering stack's MAC address under
-- its IP address, unless its cache is full of other addresses.
pub arp-exchange :
    (driver : Option ℕ) (a b : NetStack) (frame : List ℕ) (port : ℕ)
    → a.my_ip < 2 ^ 32
    → a.ne2000_port ≡ some port
    → 42 ≤ length frame
    → ntohs_at frame 12 ≡ 0x0806
    → ntohs_at frame 20 ≡ 1
    → ntohl_at frame 38 ≡ a.my_ip
    → let reply = arp_reply a frame 14 in
      let a' = process_ethernet_frame driver frame a in
      let b' = process_ethernet_frame driver reply b in
      (a'.sent ≡ (port, reply) ∷ a.sent)
      × (mac_at reply 0 ≡ mac_at frame 22)
      × (ntohl_at reply 38 ≡ ntohl_at frame 28)
      × (b'.sent ≡ b.sent)
      × (IsFull a.my_ip b.arp_cache ⊎ (find_mac a.my_ip b'.arp_cache ≡ some a.my_mac))
unfolding process_ethernet_frame process_arp send_frame_to_driver send_to
arp-exchange driver a b frame port lt ready enough kind op mine =
    let long : ltb (length frame) 14 ≡ false = ground (arith, enough) in
    let packet : leb 28 (length frame - 14) ≡ true = ground (arith, enough) in
    let hears = learns driver a b frame lt in
    (
      rw (process_ethernet_frame, long, kind, packet, op, mine, ==_refl a.my_ip, ready) refl,
      refl,
      refl,
      ap (λ (s : NetStack). s.sent) hears,
      elim (find-update_cache a.my_ip a.my_mac b.arp_cache) [
        | inl (full, same) ↦ inl full
        | inr views ↦ inr (
            ap (λ (s : NetStack). find_mac a.my_ip s.arp_cache) hears
            ∙ views a.my_ip
            ∙ ground (arith, ==_refl a.my_ip))
      ],
    )
