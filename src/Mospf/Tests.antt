-- ===== src/Mospf/Tests.antt =====
-- The routing daemon of 07-mospf with one interface, one neighbour and its update.
use computer_net_ucas.Common.{
  All, ℕ, ◌<◌, ◌≡◌, ◌≢◌, ◌⊎◌, refl, none, some, List, [], ◌∷◌, ◌++◌, length, map, arith,
}
use computer_net_ucas.Word.{htons, htonl}
use computer_net_ucas.Packet.{Iface, IpPacket, eth_p_ip}
use computer_net_ucas.Forward.{RtEntry}
use computer_net_ucas.Mospf.{
  Nbr, MospfIface, Lsa, DbEntry, Daemon, Message, Send, Lsu, lsu_of, sign, mospf_init_hdr,
  mospf_init_hello, mospf_init_lsu, message_bytes, lsa_bytes, mospf_type_hello, mospf_type_lsu,
}
use computer_net_ucas.Mospf.Neighbours.{
  mospf_init, array_of, lsu_message, send_mospf_lsu, handle_mospf_hello, checking_nbr,
}
use computer_net_ucas.Mospf.Database.{handle_mospf_lsu, handle_mospf_packet}
use computer_net_ucas.Mospf.Routes.{RNode, Graph, all_nbrs, graph_of, update_rtable}
use computer_net_ucas.Mospf.Fresh.{entry_for, handle_mospf_lsu-monotone}
use computer_net_ucas.Mospf.Wire.{host}
use computer_net_ucas.Mospf.Dispatch.{
  ipproto_mospf, sends, handle_ip_packet, handle_ip_packet-lsu_message,
}
use computer_net_ucas.Mospf.Found.{Linked, IsRouted, IsServed}
use computer_net_ucas.Mospf.Table.{update_rtable-total, update_rtable-routes}
use computer_net_ucas.Mospf.Reach.{
  Reach, start, next, packet, IsSound, Reach-IsSound, Reach-send_mospf_lsu,
}

abbrev eth0 : Iface
eth0 = record { index = 0; mac = 77; ip = 10 }

abbrev eth1 : Iface
eth1 = record { index = 1; mac = 78; ip = 300 }

abbrev lone : Daemon
lone = record {
  area_id = 0;
  router_id = 10;
  sequence_num = 0;
  ifaces = record { iface = eth0; mask = 0xffffff00; num_nbr = 0; nbr_list = [] } ∷ [];
  mospf_db = [];
}

abbrev peer : Nbr
peer = record { nbr_id = 20; nbr_ip = 20; nbr_mask = 0xffffff00; alive = 0 }

abbrev linked_ifaces : List MospfIface
linked_ifaces = record { iface = eth0; mask = 0xffffff00; num_nbr = 1; nbr_list = peer ∷ [] } ∷ []

abbrev other : Daemon
other = record {
  area_id = 0;
  router_id = 20;
  sequence_num = 3;
  ifaces = record { iface = eth1; mask = 0xffffff00; num_nbr = 0; nbr_list = [] } ∷ [];
  mospf_db = [];
}

abbrev told : DbEntry
told = record {
  rid = 20;
  seq = 3;
  nadv = 1;
  alive = 0;
  array = record { network = 256; mask = 0xffffff00; rid = 0 } ∷ [];
}

-- The hello of the peer: the counter of the interface goes up with its list.
abbrev hello : Message
hello = sign (mospf_init_hdr mospf_type_hello 24 20 0 (mospf_init_hello 0xffffff00))

abbrev met : Daemon
met = record lone { ifaces = linked_ifaces; sequence_num = 1 }

hello_taken : (out : List Send) × (handle_mospf_packet lone 0 (htonl 20) hello ≡ some (out, met))
unfolding handle_mospf_packet sign computer_net_ucas.Checksum.checksum
    computer_net_ucas.Checksum.fold_carries computer_net_ucas.Checksum.sum_bytes
    computer_net_ucas.Word.htons htonl
hello_taken = (_, refl)

abbrev known : Daemon
known = record met { mospf_db = told ∷ [] }

abbrev news : Message
news = lsu_message other (array_of other.ifaces)

-- The update of the other router in an IP packet to the interface.
abbrev carrier : IpPacket
carrier = record {
  ether_dhost = 77;
  ether_shost = 78;
  ether_type = htons eth_p_ip;
  ver_ihl = 69;
  tos = 0;
  tot_len = htons 56;
  id = 0;
  frag_off = 0;
  ttl = 64;
  protocol = ipproto_mospf;
  ip_sum = 0;
  saddr = htonl 20;
  daddr = htonl 10;
  rest = message_bytes news news.checksum;
}

handle_ip_packet-lsu_message_example :
    (sent : List Send) × (after : Daemon) × (handle_ip_packet met 0 eth0 carrier
      ≡ some (sends sent, after))
    × (entry_for 20 after.mospf_db
        ≡ some (record {
          rid = 20;
          seq = 3;
          nadv = length (array_of other.ifaces);
          alive = 0;
          array = map host (array_of other.ifaces);
        }))
unfolding htonl computer_net_ucas.Word.htons array_of
handle_ip_packet-lsu_message_example =
    handle_ip_packet-lsu_message other met 0 eth0 carrier refl refl refl refl refl (omega arith)
      (omega arith) (omega arith) (omega arith) (λ x e. absurd (cc))

abbrev address : List (Iface × ℕ)
address = (eth0, 0xffffff00) ∷ []

lone_starts : mospf_init address ≡ some lone
unfolding mospf_init
lone_starts = refl

met_reached : Reach address met
met_reached =
    next (start lone_starts) (packet 0 (htonl 20) hello (hello_taken.0, met) hello_taken.1)

Reach-IsSound_example : IsSound met
Reach-IsSound_example = Reach-IsSound address met_reached

Reach-send_mospf_lsu_example : send_mospf_lsu met ≢ none
Reach-send_mospf_lsu_example = Reach-send_mospf_lsu address met_reached

abbrev later_news : Message
later_news = lsu_message (record other { sequence_num = 4 }) (array_of other.ifaces)

abbrev later_told : DbEntry
later_told = record told { seq = 4 }

abbrev later : List Send × Daemon
later = ([], record known { mospf_db = later_told ∷ [] })

later_taken : handle_mospf_lsu known later_news ≡ some later
unfolding handle_mospf_lsu array_of sign htonl computer_net_ucas.Word.htons
    computer_net_ucas.Mospf.Neighbours.broadcast_lsu
later_taken = refl

handle_mospf_lsu-monotone_example :
    (y : DbEntry) × (entry_for 20 later.1.mospf_db ≡ some y) × ((y ≡ told) ⊎ (told.seq < y.seq))
handle_mospf_lsu-monotone_example =
    handle_mospf_lsu-monotone known later_news later 20 told later_taken refl

abbrev news_lsu : Lsu
news_lsu = record {
  seq = 0x300;
  ttl = 255;
  nadv = 0x1000000;
  rest = lsa_bytes (array_of other.ifaces);
}

abbrev junk : RNode
junk = record { rid = 7; gw = 7; mask = 7; network = 7; nadv = 7; iface = eth1 }

abbrev direct : RtEntry
direct = record { dest = 0; mask = 0xffffff00; gw = 0; iface = eth0 }

abbrev gone : RtEntry
gone = record { dest = 512; mask = 0xffffff00; gw = 20; iface = eth0 }

update_rtable-total_example :
    update_rtable junk linked_ifaces (told ∷ []) (direct ∷ gone ∷ []) ≢ none
update_rtable-total_example =
    update_rtable-total junk linked_ifaces (told ∷ []) (direct ∷ gone ∷ [])
      ((omega arith, tt), omega arith) (tt, tt)

abbrev seen : Graph
seen = record {
  nodes =
      record junk { rid = 20; nadv = 1 }
      ∷ record junk { rid = 256; mask = 0xffffff00; network = 256; nadv = 0 }
      ∷ [];
  rows = (1 ∷ []) ∷ [];
}

abbrev after : List RtEntry
after = direct ∷ record { dest = 256; mask = 0xffffff00; gw = 20; iface = eth0 } ∷ []

seen_built : graph_of junk (told ∷ []) ≡ some seen
unfolding graph_of
seen_built = refl

after_run : update_rtable junk linked_ifaces (told ∷ []) (direct ∷ gone ∷ []) ≡ some after
unfolding update_rtable
after_run = refl

update_rtable-routes_example :
    (new : List RtEntry) × (after ≡ direct ∷ [] ++ new)
    × All (IsRouted junk (all_nbrs linked_ifaces) seen.nodes seen.rows) new
    × ((k : ℕ)
        → Linked junk (all_nbrs linked_ifaces) seen.nodes seen.rows k
        → IsServed junk (all_nbrs linked_ifaces) seen.nodes seen.rows new k)
update_rtable-routes_example =
    update_rtable-routes junk linked_ifaces (told ∷ []) (direct ∷ gone ∷ [])
      ((omega arith, tt), omega arith) (tt, tt) seen after seen_built after_run
