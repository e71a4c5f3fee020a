-- ===== src/Forward.antt =====
-- 06-router/rtable.c, ip_base.c and ip.c: the routing table, the longest prefix match and what
-- becomes of an IP packet. Addresses of the table are in host byte order. The functions that decide
-- return the call that they end with.
pub mod Match
pub mod Ttl
mod Tests
use Prim.Native.Nat.{bit_and}
use computer_net_ucas.Common.{
  ℕ, zero, suc, ◌+◌, ◌-◌, ◌%◌, Bool, true, false, not, ◌&&◌, ◌||◌, Option, none, some, List, [],
  ◌∷◌, ◌++◌, ltb, ◌==◌, if◌then◌else◌, get_or, drop,
}
use computer_net_ucas.Word.{u8_mod, htonl}
use computer_net_ucas.Packet.{
  Iface, IpPacket, ip_bytes, ip_checksum, ip_hdr_size, ipproto_icmp, icmp_echoreply,
  icmp_echorequest, icmp_dest_unreach, icmp_time_exceeded,
}

-- `rt_entry_t`.
pub record RtEntry : Type 0 where
  pub dest : ℕ
  pub mask : ℕ
  pub gw : ℕ
  pub iface : Iface

abbrev pub new_rt_entry : ℕ → ℕ → ℕ → Iface → RtEntry
new_rt_entry dest mask gw iface = record { dest = dest; mask = mask; gw = gw; iface = iface }

abbrev pub add_rt_entry : RtEntry → List RtEntry → List RtEntry
add_rt_entry entry rtable = rtable ++ (entry ∷ [])

abbrev pub matches : ℕ → RtEntry → Bool
matches dst e = bit_and e.dest e.mask == bit_and dst e.mask

abbrev pub beats : RtEntry → Option RtEntry → Bool
beats e none = true
beats e (some best) = ltb best.mask e.mask

-- The loop of `longest_prefix_match`, with the entry found so far.
unfoldable pub longest_from : ℕ → Option RtEntry → List RtEntry → Option RtEntry
longest_from dst best [] = best
longest_from dst best (e ∷ es) =
    longest_from dst (if matches dst e && beats e best then some e else best) es

unfoldable pub longest_prefix_match : List RtEntry → ℕ → Option RtEntry
unfolding longest_from
longest_prefix_match rtable dst = longest_from dst none rtable

-- The call that the handling of a packet ends with; the packet is freed by the callee or after it.
pub data Action : Type 0 where
  icmp_send_packet : Iface → IpPacket → ℕ → ℕ → Action
  iface_send_packet_by_arp : Iface → ℕ → IpPacket → Action
  free_packet : Action

abbrev pub decrement_ttl : IpPacket → IpPacket
decrement_ttl p = record p { ttl = (p.ttl + u8_mod - 1) % u8_mod }

abbrev pub next_hop : RtEntry → ℕ → ℕ
next_hop e daddr = if e.gw == 0 then daddr else e.gw

-- `ip_forward_packet` after the test of the time to live, for the route found.
unfoldable pub forward_by : Option RtEntry → Iface → IpPacket → Action
forward_by none iface p = icmp_send_packet iface p icmp_dest_unreach 0
forward_by (some e) iface p =
    iface_send_packet_by_arp e.iface (next_hop e (htonl p.daddr))
      (record p { ip_sum = ip_checksum p })

unfoldable pub ip_forward_packet : List RtEntry → Iface → IpPacket → Action
unfolding forward_by longest_prefix_match
ip_forward_packet rtable iface p =
    let q = decrement_ttl p in
    if q.ttl == 0
    then icmp_send_packet iface q icmp_time_exceeded 0
    else forward_by (longest_prefix_match rtable (htonl p.daddr)) iface q

-- The type of the ICMP message that a packet carries.
abbrev pub icmp_type : IpPacket → ℕ
icmp_type p = get_or (drop (ip_hdr_size p) (ip_bytes p p.ip_sum)) 0 0

unfoldable pub handle_ip_packet : List RtEntry → Iface → IpPacket → Action
unfolding ip_forward_packet
handle_ip_packet rtable iface p =
    if htonl p.daddr == iface.ip
    then if (p.protocol == ipproto_icmp) && (icmp_type p == icmp_echorequest)
      then icmp_send_packet iface p icmp_echoreply 0
      else free_packet
    else ip_forward_packet rtable iface p
