-- ===== src/Router/Tests.antt =====
-- A router of 06-router with two interfaces, a frame that it forwards and the router of the next hop.
use mathlib.Core.List.{Memᴰ}
use computer_net_ucas.Common.{
  ℕ, ◌+◌, ◌≡◌, refl, true, Option, none, some, List, [], ◌∷◌, ◌++◌, arith,
}
use computer_net_ucas.Packet.{Iface, IpPacket}
use computer_net_ucas.Packet.Frame.{packet_to_ip_hdr, ip_frame}
use computer_net_ucas.Forward.{RtEntry}
use computer_net_ucas.Arp.{ArpCache, Call, iface_send_packet, arpcache_lookup, arpcache_init}
use computer_net_ucas.Arp.Pending.{leaving, waiting}
use computer_net_ucas.Device.{
  Kernel, IfAddr, Poll, poll_ready, incoming, init_all_ifaces, Ustack, ustack_run,
}
use computer_net_ucas.Rtable.{parse_routing_info}
use computer_net_ucas.Router.Main.{main, swept_packet, sweeps, start, events_of, main-run}
use computer_net_ucas.Device.Loop.{frames_of}
use computer_net_ucas.Router.{Env, Router, Event, frame, sweep, handle_packet, emit_all, run}
use computer_net_ucas.Router.Flow.{run-brought_by}
use computer_net_ucas.Router.Deliver.{IsForwarded, IsTransit, handle_packet-arpcache_lookup}
use computer_net_ucas.Router.Exchange.{handle_packet-delivers}

abbrev eth0 : Iface
eth0 = record { index = 0; mac = 77; ip = 0x0a000101 }

abbrev eth1 : Iface
eth1 = record { index = 1; mac = 78; ip = 0x0a000201 }

-- The interface of the router of the next hop.
abbrev far : Iface
far = record { index = 0; mac = 99; ip = 0x0a000202 }

abbrev route : RtEntry
route = record { dest = 0x0a000300; mask = 0xffffff00; gw = 0x0a000202; iface = eth1 }

abbrev env : Env
env = record { now = 1000; rand = λ i. 5; junk = [] }

-- A packet from 10.0.1.3 for 10.0.3.3, its addresses in network byte order.
abbrev datagram : IpPacket
datagram = record {
  ether_dhost = 77;
  ether_shost = 88;
  ether_type = 8;
  ver_ihl = 0x45;
  tos = 0;
  tot_len = 0x1800;
  id = 4;
  frag_off = 0;
  ttl = 9;
  protocol = 17;
  ip_sum = 0;
  saddr = 0x0301000a;
  daddr = 0x0303000a;
  rest = 1 ∷ 2 ∷ 3 ∷ 4 ∷ [];
}

abbrev bytes : List ℕ
unfolding ip_frame
bytes = ip_frame datagram

abbrev knowing : ArpCache
knowing = record {
  entries = record { ip4 = 0x0a000202; mac = 99; added = 990; valid = true } ∷ [];
  req_list = [];
}

abbrev router_with : ArpCache → Router
router_with c = record { ifaces = eth0 ∷ eth1 ∷ []; rtable = route ∷ []; arpcache = c }

transit : IsTransit eth0 bytes
unfolding packet_to_ip_hdr ip_frame computer_net_ucas.Word.htons computer_net_ucas.Word.htonl
transit = (refl, refl, omega arith, omega arith)

handle_packet-arpcache_lookup_example :
    (q : IpPacket) × (handle_packet env eth0 bytes (router_with knowing)
      ≡ (iface_send_packet eth1 q ∷ [], router_with knowing))
    × (emit_all env 0 (handle_packet env eth0 bytes (router_with knowing)).0
        ≡ (eth1, ip_frame q) ∷ [])
    × IsForwarded (packet_to_ip_hdr bytes) q
    × (q.ether_dhost ≡ 99)
    × (q.ether_shost ≡ 78)
unfolding computer_net_ucas.Forward.longest_prefix_match computer_net_ucas.Word.htonl
    computer_net_ucas.Word.htons packet_to_ip_hdr bytes arpcache_lookup
handle_packet-arpcache_lookup_example =
    handle_packet-arpcache_lookup env eth0 bytes (router_with knowing) route 99 transit refl refl

-- A packet of another flow waits already, and nothing is known.
abbrev empty : ArpCache
unfolding arpcache_init
empty = arpcache_init

abbrev other_router : Router
other_router = record { ifaces = far ∷ []; rtable = []; arpcache = empty }

abbrev later : Env
later = record { now = 1001; rand = λ i. 6; junk = [] }

handle_packet-delivers_example :
    (request reply : List ℕ) × (i : Iface) × (q : IpPacket) × (let asked : List Call × Router =
        handle_packet env eth0 bytes (router_with empty) in
      let done : List Call × Router = handle_packet later eth1 reply asked.1 in
      (emit_all env 0 asked.0 ≡ (eth1, request) ∷ [])
      × (emit_all env 0 (handle_packet env far request other_router).0 ≡ (far, reply) ∷ [])
      × Memᴰ (iface_send_packet i q) done.0
      × (i.index ≡ 1)
      × (q.ether_dhost ≡ 99)
      × IsForwarded (packet_to_ip_hdr bytes) q
      × (arpcache_lookup done.1.arpcache 0x0a000202 ≡ some 99))
unfolding computer_net_ucas.Forward.longest_prefix_match computer_net_ucas.Word.htonl
    computer_net_ucas.Word.htons packet_to_ip_hdr bytes arpcache_lookup empty
handle_packet-delivers_example =
    handle_packet-delivers env env later eth0 far bytes (router_with empty) other_router route
      (omega arith, omega arith) (omega arith, omega arith) refl transit refl refl (omega arith)

-- Packets are counted by their identification.
abbrev by_id : ℕ → List ℕ → ℕ
by_id id rest = id

abbrev events : List Event
events = frame env eth0 bytes ∷ sweep 1001 ∷ []

run-brought_by_example :
    leaving by_id (run events (router_with empty)).0
      + waiting by_id (run events (router_with empty)).1.arpcache.req_list
    ≡ 4
unfolding computer_net_ucas.Word.htons bytes computer_net_ucas.Forward.handle_ip_packet
    computer_net_ucas.Word.htonl packet_to_ip_hdr empty
run-brought_by_example = run-brought_by by_id events (router_with empty)

-- The start of a stack with the interface a-eth.
abbrev addrs : List IfAddr
addrs = record { family = some 17; ifa_name = 97 ∷ 45 ∷ 101 ∷ 116 ∷ 104 ∷ [] } ∷ []

abbrev kernel : List ℕ → Kernel
kernel name = record {
  socket = some 3;
  get_index = some 0;
  binds = true;
  get_hwaddr = some 77;
  index = 0;
  mac = 77;
  get_addr = λ fd. some 0x0101000a;
  get_netmask = λ fd. some 0x00ffffff;
}

abbrev started : Ustack
started = record {
  iface_list =
      record { name = 97 ∷ 45 ∷ 101 ∷ 116 ∷ 104 ∷ []; fd = 3; iface = eth0; mask = 0xffffff00 }
      ∷ [];
  fds = 3 ∷ [];
}

abbrev no_name : ℕ → Option (List ℕ)
no_name i = none

-- The sweeping thread has two rounds before the frame and one after it.
abbrev polls : List (Poll (Env × List ℕ))
polls = poll_ready (incoming (env, 998 ∷ 999 ∷ []) bytes ∷ []) ∷ []

opened : init_all_ifaces kernel addrs ≡ some started
unfolding init_all_ifaces computer_net_ucas.Word.htonl computer_net_ucas.Word.htons
opened = refl

abbrev looped : List Call × Router
looped = ustack_run swept_packet started.iface_list started.fds polls (start started (0, []))

abbrev result : List Call × Router
result = (looped.0 ++ (run (sweeps (1001 ∷ [])) looped.1).0, (run (sweeps (1001 ∷ [])) looped.1).1)

main-result : main true kernel addrs no_name [] [] polls (1001 ∷ []) ≡ some result
unfolding main init_all_ifaces parse_routing_info computer_net_ucas.Word.htonl
    computer_net_ucas.Word.htons
main-result = refl

main-run_example :
    (loaded : ℕ × List RtEntry) × (parse_routing_info no_name [] started.iface_list []
      ≡ some loaded)
    × (result
        ≡ run
            (events_of (frames_of started.iface_list polls) ++ sweeps (1001 ∷ []))
            (start started loaded))
main-run_example =
    main-run true kernel addrs no_name [] [] polls (1001 ∷ []) result started main-result opened
      (tt, tt)
