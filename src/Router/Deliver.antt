-- ===== src/Router/Deliver.antt =====
-- An IP packet that 06-router forwards, from the frame that brings it to the frame that leaves.
use computer_net_ucas.Common.{
  ℕ, ◌+◌, ◌<◌, ◌≡◌, refl, ap, false, Option, none, some, List, [], ◌∷◌, ◌==◌,
}
use computer_net_ucas.Word.{u8_mod, htons, htonl}
use computer_net_ucas.Packet.{Iface, IpPacket, eth_p_ip, ip_checksum}
use computer_net_ucas.Packet.Frame.{packet_to_ip_hdr, ip_frame, ether_type_of}
use computer_net_ucas.Forward.{RtEntry, longest_prefix_match, handle_ip_packet, next_hop}
use computer_net_ucas.Forward.Ttl.{ip_forward_packet_lem}
use computer_net_ucas.Arp.{
  iface_send_packet, arpcache_lookup, arpcache_append_packet, iface_send_packet_by_arp,
  send_or_pend,
}
use computer_net_ucas.Router.{
  Env, Router, perform, handle_frame, handle_packet, emit_all, with_cache,
}

-- The packet is one hop older, with the checksum of its header, and carries the same.
abbrev pub IsForwarded : IpPacket → IpPacket → Type 0
IsForwarded p q = (q.ttl + 1 ≡ p.ttl) × (q.ip_sum ≡ ip_checksum q) × (q.rest ≡ p.rest)

abbrev pub to : ℕ → IpPacket → IpPacket
to mac q = record q { ether_dhost = mac }

-- A frame with an IP packet for another address, with a time to live over 1.
abbrev pub IsTransit : Iface → List ℕ → Type 0
IsTransit iface bytes =
    let p : IpPacket = packet_to_ip_hdr bytes in
    (htons (ether_type_of bytes) ≡ eth_p_ip)
    × ((htonl p.daddr == iface.ip) ≡ false)
    × (1 < p.ttl)
    × (p.ttl < u8_mod)

-- Where the packet of a frame goes by a route.
abbrev pub hop_of : RtEntry → List ℕ → ℕ
hop_of e bytes = next_hop e (htonl (packet_to_ip_hdr bytes).daddr)

abbrev pub route_of : Router → List ℕ → Option RtEntry
route_of r bytes = longest_prefix_match r.rtable (htonl (packet_to_ip_hdr bytes).daddr)

-- Such a frame hands its packet, made ready, to the ARP cache.
handle_frame-IsForwarded :
    (env : Env) (iface : Iface) (bytes : List ℕ) (r : Router) (e : RtEntry)
    → IsTransit iface bytes
    → route_of r bytes ≡ some e
    → (q : IpPacket) × (handle_frame env iface bytes r
        ≡ iface_send_packet_by_arp env.now e.iface (hop_of e bytes) q r.arpcache)
      × IsForwarded (packet_to_ip_hdr bytes) q
unfolding handle_frame perform handle_ip_packet
handle_frame-IsForwarded env iface bytes r e (ip, abroad, alive, is_byte) route =
    let (q, sends, older, sum, same) =
      ip_forward_packet_lem r.rtable iface (packet_to_ip_hdr bytes) e alive is_byte route in
    (q, rw (ip, abroad, sends) refl, (older, sum, same))

-- A frame with an IP packet for another address, with a time to live over 1 and a route whose next
-- hop the cache knows, leads to one frame: it leaves by the interface of the route, to the MAC
-- address of the next hop and from that of the interface, and its packet is one hop older, with the
-- checksum of its header and the same data. Nothing else of the router changes.
pub handle_packet-arpcache_lookup :
    (env : Env) (iface : Iface) (bytes : List ℕ) (r : Router) (e : RtEntry) (mac : ℕ)
    → IsTransit iface bytes
    → route_of r bytes ≡ some e
    → arpcache_lookup r.arpcache (hop_of e bytes) ≡ some mac
    → (q : IpPacket) × (handle_packet env iface bytes r ≡ (iface_send_packet e.iface q ∷ [], r))
      × (emit_all env 0 (handle_packet env iface bytes r).0 ≡ (e.iface, ip_frame q) ∷ [])
      × IsForwarded (packet_to_ip_hdr bytes) q
      × (q.ether_dhost ≡ mac)
      × (q.ether_shost ≡ e.iface.mac)
unfolding handle_packet emit_all iface_send_packet_by_arp send_or_pend ip_checksum
handle_packet-arpcache_lookup env iface bytes r e mac transit route known =
    let (q, sends, (older, sum, same)) =
      handle_frame-IsForwarded env iface bytes r e transit route in
    let out : IpPacket = record q {
      ether_type = htons eth_p_ip;
      ether_dhost = mac;
      ether_shost = e.iface.mac;
    } in
    let done : handle_packet env iface bytes r ≡ (iface_send_packet e.iface out ∷ [], r) =
      rw (sends, known) refl in
    (out, done, ap (λ d. emit_all env 0 d.0) done, (older, sum, same), refl, refl)

-- Without the address of the next hop, the router asks for it and the packet waits.
pub handle_packet-pends :
    (env : Env) (iface : Iface) (bytes : List ℕ) (r : Router) (e : RtEntry)
    → IsTransit iface bytes
    → route_of r bytes ≡ some e
    → arpcache_lookup r.arpcache (hop_of e bytes) ≡ none
    → (q : IpPacket) × (handle_packet env iface bytes r
        ≡ with_cache r (arpcache_append_packet env.now e.iface (hop_of e bytes) q r.arpcache))
      × IsForwarded (packet_to_ip_hdr bytes) q
unfolding handle_packet iface_send_packet_by_arp send_or_pend ip_checksum
handle_packet-pends env iface bytes r e transit route unknown =
    let (q, sends, (older, sum, same)) =
      handle_frame-IsForwarded env iface bytes r e transit route in
    (record q { ether_type = htons eth_p_ip }, rw (sends, unknown) refl, (older, sum, same))
