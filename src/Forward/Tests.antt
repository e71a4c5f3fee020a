-- ===== src/Forward/Tests.antt =====
-- A routing table of two entries, and packets that 06-router/ip_base.c forwards by it.
use computer_net_ucas.Common.{ℕ, ◌≡◌, refl, some, List, [], ◌∷◌}
use computer_net_ucas.Packet.{Iface, IpPacket}
use computer_net_ucas.Forward.{RtEntry, longest_prefix_match}
use computer_net_ucas.Forward.Match.{IsLongest, longest_prefix_match_lem}

abbrev eth0 : Iface
eth0 = record { index = 0; mac = 77; ip = 0x0a000101 }

abbrev eth1 : Iface
eth1 = record { index = 1; mac = 78; ip = 0x0a000201 }

abbrev default_route : RtEntry
default_route = record { dest = 0; mask = 0; gw = 0x0a000102; iface = eth0 }

abbrev near_route : RtEntry
near_route = record { dest = 0x0a000200; mask = 0xffffff00; gw = 0; iface = eth1 }

abbrev table : List RtEntry
table = default_route ∷ near_route ∷ []

-- A packet for 10.0.2.2, its addresses in network byte order.
abbrev packet_for : ℕ → IpPacket
packet_for ttl = record {
  ether_dhost = 77;
  ether_shost = 88;
  ether_type = 8;
  ver_ihl = 0x45;
  tos = 0;
  tot_len = 0x1800;
  id = 4;
  frag_off = 0;
  ttl = ttl;
  protocol = 17;
  ip_sum = 0;
  saddr = 0x0301000a;
  daddr = 0x0202000a;
  rest = 1 ∷ 2 ∷ 3 ∷ 4 ∷ [];
}

longest_prefix_match_lem_example :
    IsLongest 0x0a000202 (longest_prefix_match table 0x0a000202) table
longest_prefix_match_lem_example = longest_prefix_match_lem table 0x0a000202

near_found : longest_prefix_match table 0x0a000202 ≡ some near_route
unfolding longest_prefix_match
near_found = refl
