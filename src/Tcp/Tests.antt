-- ===== src/Tcp/Tests.antt =====
-- A connection of 10-tcp_stack and segments for it.
use computer_net_ucas.Common.{ℕ, ◌≡◌, refl, ap, true, false, some, [], ◌∷◌, ◌++◌, All, arith}
use computer_net_ucas.Word.{htons}
use computer_net_ucas.Packet.{Iface, IpPacket, ip_init_hdr}
use computer_net_ucas.Tcp.{
  tcp_established, tcp_listen, tcp_syn_sent, TcpSock, TcpCb, Segment, Stack, linked, segment,
  wake_accept, wake_connect, tcp_syn, change, tcp_set_state, tcp_send_control_packet,
  alloc_tcp_sock,
}
use computer_net_ucas.Tcp.Table.{
  tcp_hash, tcp_hash_function, tcp_bind_hash, tcp_sock_lookup, tcp_sock_lookup_established,
  hash_established, hash_by,
}
use computer_net_ucas.Tcp.Process.{is_tcp_seq_valid, tcp_process, tcp_set_timewait_timer}
use computer_net_ucas.Tcp.Socket.{tcp_scan_timer_list, connect_from, tcp_sock_connect}
use computer_net_ucas.Tcp.Window.{is_tcp_seq_valid_lem}
use computer_net_ucas.Tcp.Machine.{tcp_process_outside, tcp_set_timewait_timer-tcp_scan_timer_list}
use computer_net_ucas.Tcp.Wire.{control_packet, handle_ip_packet}
use computer_net_ucas.Tcp.Wire.Control.{cb_of, IsIpInit, control_packet-handle_ip_packet}
use computer_net_ucas.Tcp.Handshake.Opens.{tcp_sock_connect-tcp_process}
use computer_net_ucas.Tcp.Arrows.{Arrow}
use computer_net_ucas.Tcp.Arrows.Branches.{tcp_process-Arrow}

-- Ten bytes before the numbers start again at 0.
abbrev connection : TcpSock
connection = record alloc_tcp_sock {
  state = tcp_established;
  ref_cnt = 2;
  hash_list = linked;
  rcv_nxt = 4294967286;
  rcv_wnd = 1000;
}

abbrev cb_at : ℕ → ℕ → TcpCb
cb_at seq seq_end = record {
  saddr = 1;
  daddr = 2;
  sport = 3;
  dport = 4;
  seq = seq;
  seq_end = seq_end;
  ack = 0;
  rwnd = 0;
  flags = 0x10;
  payload = [];
  pl_len = 0;
}

abbrev stack : Stack
stack = record {
  socks = λ t. connection;
  next = 1;
  established_table = λ i. [];
  listen_table = λ i. [];
  bind_table = λ i. [];
  timer_list = [];
  log = [];
  fault = false;
}

is_tcp_seq_valid_lem_example : is_tcp_seq_valid connection (cb_at 90 190) ≡ true
is_tcp_seq_valid_lem_example =
    is_tcp_seq_valid_lem connection (cb_at 90 190) 100 100 (omega arith) (omega arith) (omega arith)
      refl refl

outside : is_tcp_seq_valid connection (cb_at 4294967186 4294967236) ≡ false
unfolding is_tcp_seq_valid
outside = refl

tcp_process_outside_example : tcp_process (some 0) (cb_at 4294967186 4294967236) 7 stack ≡ stack
tcp_process_outside_example =
    tcp_process_outside 0 (cb_at 4294967186 4294967236) 7 stack tt refl outside

tcp_set_timewait_timer-tcp_scan_timer_list_example :
    (tcp_scan_timer_list 99 (tcp_set_timewait_timer 0 stack) ≡ tcp_set_timewait_timer 0 stack)
    × All
        (λ u. ((tcp_set_timewait_timer 0 stack).socks u).enable ≡ 0)
        (tcp_set_timewait_timer 0 stack).timer_list
tcp_set_timewait_timer-tcp_scan_timer_list_example =
    tcp_set_timewait_timer-tcp_scan_timer_list 99 0 stack tt refl

-- A host that connects to port 80 of another, and the other with a listener there.
abbrev fresh : TcpSock
fresh = record alloc_tcp_sock { snd_nxt = 4294967295 }

abbrev client : Stack
client = record stack { socks = λ t. fresh }

abbrev dialling : Stack
unfolding connect_from tcp_bind_hash tcp_send_control_packet tcp_hash tcp_hash_function
    tcp_sock_lookup_established hash_established hash_by
dialling =
    let named =
      change 0
        (λ (k : TcpSock). record k {
          sk_sip = 0x0a000101;
          sk_sport = 12345;
          sk_dip = 0x0a000201;
          sk_dport = 80;
        })
        client in
    let sent = tcp_send_control_packet 0 tcp_syn (tcp_bind_hash 0 named) in
    tcp_hash 0 (change 0 (tcp_set_state tcp_syn_sent) sent)

abbrev listener : TcpSock
listener = record alloc_tcp_sock {
  sk_sport = 80;
  state = tcp_listen;
  backlog = 3;
  ref_cnt = 2;
  hash_list = linked;
  bind_hash_list = linked;
}

abbrev server : Stack
server = record stack { socks = λ t. listener }

dialled_ok : tcp_sock_connect 0 0x0a000101 0x0102000a 0x5000 client ≡ some dialling
unfolding tcp_sock_connect computer_net_ucas.Word.htonl htons
dialled_ok = refl

tcp_sock_connect-tcp_process_example :
    (syn syn_ack ack : Segment) × (let b1 : Stack = tcp_process (some 0) (cb_of syn) 700 server in
      let a1 : Stack = tcp_process (some 0) (cb_of syn_ack) 700 dialling in
      let b2 : Stack = tcp_process (some 1) (cb_of ack) 700 b1 in
      (dialling.log ≡ client.log ++ (segment syn ∷ []))
      × (b1.log ≡ server.log ++ (segment syn_ack ∷ []))
      × (a1.log ≡ dialling.log ++ (segment ack ∷ wake_connect 0 ∷ []))
      × (b2.log ≡ b1.log ++ (wake_accept 0 ∷ []))
      × ((a1.socks 0).state ≡ tcp_established)
      × ((b2.socks 1).state ≡ tcp_established)
      × ((b2.socks 0).accept_queue ≡ 1 ∷ [])
      × ((b2.socks 1).rcv_nxt ≡ (a1.socks 0).snd_nxt)
      × ((a1.socks 0).rcv_nxt ≡ (b2.socks 1).snd_nxt))
tcp_sock_connect-tcp_process_example =
    tcp_sock_connect-tcp_process 0 0x0a000101 0x0102000a 0x5000 0 700 client dialling server
      dialled_ok (omega arith) refl refl refl

tcp_process-Arrow_example :
    Arrow 0x10 tcp_established ((tcp_process (some 0) (cb_at 90 190) 7 stack).socks 0).state
tcp_process-Arrow_example = tcp_process-Arrow 0 (cb_at 90 190) 7 stack refl

-- The `ip_init_hdr` of the router.
abbrev init : ℕ → ℕ → ℕ → ℕ → IpPacket → IpPacket
init = ip_init_hdr 9

init-IsIpInit : IsIpInit init
unfolding ip_init_hdr
init-IsIpInit saddr daddr len proto p short = (refl, ap htons (omega arith), refl, refl, refl)

abbrev reset : Segment
reset = record {
  saddr = 0x0a000201;
  daddr = 0x0a000101;
  sport = 80;
  dport = 12345;
  seq = 0;
  ack = 7;
  flags = 0x14;
  rwnd = 0;
}

abbrev host : Iface
host = record { index = 0; mac = 77; ip = 0x0a000101 }

abbrev nothing : IpPacket
nothing = record {
  ether_dhost = 0;
  ether_shost = 0;
  ether_type = 8;
  ver_ihl = 0;
  tos = 0;
  tot_len = 0;
  id = 0;
  frag_off = 0;
  ttl = 0;
  protocol = 0;
  ip_sum = 0;
  saddr = 0;
  daddr = 0;
  rest = [];
}

control_packet-handle_ip_packet_example :
    handle_ip_packet 7 host (control_packet init nothing reset) stack
    ≡ (false, tcp_process (tcp_sock_lookup stack (cb_of reset)) (cb_of reset) 7 stack)
control_packet-handle_ip_packet_example =
    control_packet-handle_ip_packet init nothing reset 7 host stack init-IsIpInit
      (omega arith, omega arith, omega arith, omega arith, omega arith, omega arith, omega arith)
      refl
