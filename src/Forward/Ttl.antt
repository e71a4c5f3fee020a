-- ===== src/Forward/Ttl.antt =====
-- The handling of an IP packet in 06-router/ip.c and ip_base.c, case by case.
use computer_net_ucas.Common.{
  ◌+◌, ◌-◌, ◌%◌, ◌<◌, ◌≡◌, refl, ap, ◌∙◌, false, some, List, ◌==◌, if◌then◌else◌, arith,
}
use computer_net_ucas.Word.{u8_mod, htonl}
use computer_net_ucas.Packet.{Iface, IpPacket, ip_checksum, icmp_time_exceeded}
use computer_net_ucas.Forward.{
  RtEntry, icmp_send_packet, iface_send_packet_by_arp, forward_by, longest_prefix_match,
  ip_forward_packet, decrement_ttl, next_hop,
}

-- The packet that is forwarded.
abbrev forwarded : IpPacket → IpPacket
forwarded p = record (decrement_ttl p) { ip_sum = ip_checksum (decrement_ttl p) }

forwards :
    (rtable : List RtEntry) (iface : Iface) (p : IpPacket) (e : RtEntry)
    → ((p.ttl + u8_mod - 1) % u8_mod == 0) ≡ false
    → longest_prefix_match rtable (htonl p.daddr) ≡ some e
    → ip_forward_packet rtable iface p
      ≡ iface_send_packet_by_arp e.iface (next_hop e (htonl p.daddr)) (forwarded p)
unfolding ip_forward_packet forward_by
forwards rtable iface p e alive route =
    ap
      (λ b.
        if b
        then icmp_send_packet iface (decrement_ttl p) icmp_time_exceeded 0
        else forward_by (longest_prefix_match rtable (htonl p.daddr)) iface (decrement_ttl p))
      alive
    ∙ ap (λ r. forward_by r iface (decrement_ttl p)) route

-- A packet that has a route and a time to live over 1 goes to the next hop of that route with the
-- time to live one less and with the IP checksum of its new header.
pub ip_forward_packet_lem :
    (rtable : List RtEntry) (iface : Iface) (p : IpPacket) (e : RtEntry)
    → 1 < p.ttl
    → p.ttl < u8_mod
    → longest_prefix_match rtable (htonl p.daddr) ≡ some e
    → (q : IpPacket) × (ip_forward_packet rtable iface p
        ≡ iface_send_packet_by_arp e.iface (next_hop e (htonl p.daddr)) q)
      × (q.ttl + 1 ≡ p.ttl)
      × (q.ip_sum ≡ ip_checksum q)
      × (q.rest ≡ p.rest)
unfolding ip_checksum
ip_forward_packet_lem rtable iface p e alive byte route =
    (forwarded p, forwards rtable iface p e (ground arith) route, omega arith, refl, refl)

-- A packet that has a route and comes with a time to live of 0 goes to the next hop with 255: the
-- test on the unsigned byte does not see it.
pub ip_forward_packet_zero :
    (rtable : List RtEntry) (iface : Iface) (p : IpPacket) (e : RtEntry)
    → p.ttl ≡ 0
    → longest_prefix_match rtable (htonl p.daddr) ≡ some e
    → (q : IpPacket) × (ip_forward_packet rtable iface p
        ≡ iface_send_packet_by_arp e.iface (next_hop e (htonl p.daddr)) q)
      × (q.ttl ≡ 255)
ip_forward_packet_zero rtable iface p e h route =
    (forwarded p, forwards rtable iface p e (ground arith) route, omega arith)
