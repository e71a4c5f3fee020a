-- ===== src/Arp/Tests.antt =====
-- The ARP cache of 06-router/arpcache.c with one known neighbour and one waiting packet.
use computer_net_ucas.Common.{ℕ, ◌≡◌, refl, true, false, none, some, List, [], ◌∷◌, first}
use computer_net_ucas.Packet.{Iface, IpPacket}
use computer_net_ucas.Arp.{CacheEntry, ArpReq, ArpCache, holds, arpcache_lookup, arpcache_sweep}

abbrev eth0 : Iface
eth0 = record { index = 0; mac = 77; ip = 100 }

abbrev datagram : IpPacket
datagram = record {
  ether_dhost = 77;
  ether_shost = 88;
  ether_type = 8;
  ver_ihl = 0x45;
  tos = 0;
  tot_len = 0x1800;
  id = 4;
  frag_off = 0;
  ttl = 9;
  protocol = 17;
  ip_sum = 0;
  saddr = 1;
  daddr = 2;
  rest = 1 ∷ 2 ∷ 3 ∷ 4 ∷ [];
}

abbrev known : CacheEntry
known = record { ip4 = 5; mac = 55; added = 1000; valid = true }

abbrev unused : CacheEntry
unused = record { ip4 = 0; mac = 0; added = 0; valid = false }

abbrev asked : ArpReq
asked = record { iface = eth0; ip4 = 7; sent = 1000; retries = 1; cached_packets = datagram ∷ [] }

abbrev cache : ArpCache
cache = record { entries = known ∷ unused ∷ []; req_list = asked ∷ [] }

abbrev quiet : ArpCache
quiet = record { entries = known ∷ unused ∷ []; req_list = [] }

arpcache_sweep-young_kept :
    first (holds 5) (arpcache_sweep 1015 (eth0 ∷ []) cache).1.entries ≡ some known
unfolding arpcache_sweep
arpcache_sweep-young_kept = refl

-- Packets are counted by their identification.
abbrev by_id : ℕ → List ℕ → ℕ
by_id id rest = id

unknown : arpcache_lookup quiet 9 ≡ none
unfolding arpcache_lookup
unknown = refl
