-- ===== src/Rtable/Tests.antt =====
-- The messages of a kernel with a default route and a network, for 06-router/rtable_internal.c.
use computer_net_ucas.Common.{ℕ, ◌≡◌, refl, Option, some, List, [], ◌∷◌, All, length}
use computer_net_ucas.Forward.{RtEntry}
use computer_net_ucas.Device.{Device}
use computer_net_ucas.Rtable.{RtMsg, rta_dst, rta_gateway, rta_oif, rta_other, parse_routing_info}
use computer_net_ucas.Rtable.Load.{IsRoute, parse_routing_info-IsRoute}

abbrev eth0 : Device
eth0 = record {
  name = 101 ∷ 48 ∷ [];
  fd = 3;
  iface = record { index = 1; mac = 77; ip = 0x0a000101 };
  mask = 0xffffff00;
}

abbrev name_by : ℕ → Option (List ℕ)
name_by i = some (101 ∷ 48 ∷ [])

abbrev msgs : List RtMsg
msgs =
    record { rtm_table = 254; rtm_dst_len = 0; attrs = rta_gateway 0x0201000a ∷ rta_oif 1 ∷ [] }
    ∷ record { rtm_table = 255; rtm_dst_len = 32; attrs = rta_dst 1 ∷ [] }
    ∷ record {
      rtm_table = 254;
      rtm_dst_len = 24;
      attrs = rta_dst 0x0001000a ∷ rta_other 6 ∷ rta_oif 1 ∷ [];
    }
    ∷ []

abbrev default_route : RtEntry
default_route = record { dest = 0; mask = 0; gw = 0x0a000102; iface = eth0.iface }

abbrev near_route : RtEntry
near_route = record { dest = 0x0a000100; mask = 0xffffff00; gw = 0; iface = eth0.iface }

abbrev table : List RtEntry
table = default_route ∷ near_route ∷ []

loaded : parse_routing_info name_by [] (eth0 ∷ []) msgs ≡ some (2, table)
unfolding parse_routing_info computer_net_ucas.Word.htonl computer_net_ucas.Word.htons
loaded = refl

parse_routing_info-IsRoute_example : (2 ≡ length table) × All (IsRoute (eth0 ∷ [])) table
parse_routing_info-IsRoute_example =
    parse_routing_info-IsRoute name_by [] (eth0 ∷ []) msgs 2 table loaded
