-- ===== src/Tcp/Socket.antt =====
-- The calls of the application in 10-tcp_stack/tcp_sock.c, and the timer of tcp_timer.c. A call that
-- sleeps is what it does before it sleeps, and for accept what it does once it goes on.
use computer_net_ucas.Common.{
  ℕ, ◌+◌, ◌-◌, ◌*◌, ◌%◌, ◌^◌, Bool, ◌&&◌, Option, none, some, List, [], ◌∷◌, ltb, ◌==◌,
  if◌then◌else◌,
}
use computer_net_ucas.Word.{htons, htonl, u32_mod}
use computer_net_ucas.Tcp.{
  TcpState, tcp_closed, tcp_listen, tcp_syn_sent, tcp_established, tcp_close_wait, tcp_last_ack,
  tcp_fin_wait_1, TcpSock, Stack, tcp_fin, tcp_syn, tcp_ack, change, tcp_set_state,
  tcp_send_control_packet,
}
use computer_net_ucas.Tcp.Table.{
  tcp_unhash, tcp_bind_unhash, tcp_hash, tcp_bind_hash, tcp_get_port, tcp_sock_set_sport, without,
}

-- `port` is in network byte order.
unfoldable pub tcp_sock_bind : ℕ → ℕ → Stack → Option Stack
unfolding tcp_sock_set_sport
tcp_sock_bind t port s = tcp_sock_set_sport t (htons port) s

unfoldable pub tcp_sock_listen : ℕ → ℕ → Stack → Stack
unfolding tcp_hash
tcp_sock_listen t backlog s =
    tcp_hash t
      (change t (λ (k : TcpSock). tcp_set_state tcp_listen (record k { backlog = backlog })) s)

-- `tcp_sock_connect` up to its sleep, with the port that `tcp_get_port` gave; none is -1. `saddr` is
-- the address of the interface of the route, `ip` and `port` are in network byte order.
unfoldable pub connect_from : ℕ → ℕ → ℕ → ℕ → ℕ → Stack → Option Stack
unfolding tcp_bind_hash tcp_send_control_packet tcp_hash
connect_from sport t saddr ip port s =
    if sport == 0
    then none
    else (let named =
          change t
            (λ (k : TcpSock). record k {
              sk_sip = saddr;
              sk_sport = sport;
              sk_dip = htonl ip;
              sk_dport = htons port;
            })
            s in
        let sent = tcp_send_control_packet t tcp_syn (tcp_bind_hash t named) in
        some (tcp_hash t (change t (tcp_set_state tcp_syn_sent) sent)))

unfoldable pub tcp_sock_connect : ℕ → ℕ → ℕ → ℕ → Stack → Option Stack
unfolding connect_from tcp_get_port
tcp_sock_connect t saddr ip port s = connect_from (tcp_get_port s) t saddr ip port s

-- `tcp_sock_accept`, with `tcp_sock_accept_dequeue`, for the accept queue that it finds; none is to
-- sleep.
unfoldable pub accept_from : List ℕ → ℕ → Stack → Option (ℕ × Stack)
unfolding tcp_hash
accept_from [] t s = none
accept_from (c ∷ cs) t s =
    let popped =
      change t
        (λ (k : TcpSock). record k { accept_queue = cs; accept_backlog = k.accept_backlog - 1 })
        s in
    some (c, tcp_hash c (change c (tcp_set_state tcp_established) popped))

unfoldable pub tcp_sock_accept : ℕ → Stack → Option (ℕ × Stack)
unfolding accept_from
tcp_sock_accept t s = accept_from (s.socks t).accept_queue t s

unfoldable pub close_in : TcpState → ℕ → Stack → Stack
unfolding tcp_unhash tcp_send_control_packet
close_in tcp_listen t s = change t (tcp_set_state tcp_closed) (tcp_unhash t s)
close_in tcp_established t s =
    change t (tcp_set_state tcp_fin_wait_1) (tcp_send_control_packet t (tcp_fin + tcp_ack) s)
close_in tcp_close_wait t s =
    change t (tcp_set_state tcp_last_ack) (tcp_send_control_packet t (tcp_fin + tcp_ack) s)
close_in _ t s = s

unfoldable pub tcp_sock_close : ℕ → Stack → Stack
unfolding close_in
tcp_sock_close t s = close_in (s.socks t).state t s

-- The test of `tcp_scan_timer_list`, in microseconds: `timeout * TCP_MSL` is an `int`, and the
-- difference a `time_t`; both sides are moved so that nothing is negative.
abbrev pub is_over : ℕ → TcpSock → Bool
is_over now k =
    let product = k.timeout * 1000000 % u32_mod in
    (k.enable == 1)
    && (if ltb product (2 ^ 31)
        then ltb (2000000 + product) (now * 1000000)
        else ltb 2000000 (now * 1000000 + u32_mod - product))

unfoldable pub scan_from : ℕ → List ℕ → Stack → Stack
unfolding tcp_bind_unhash
scan_from now [] s = s
scan_from now (t ∷ ts) s =
    if is_over now (s.socks t)
    then scan_from now ts (
        tcp_bind_unhash t
          (change t (tcp_set_state tcp_closed) (record s { timer_list = without t s.timer_list })))
    else scan_from now ts s

unfoldable pub tcp_scan_timer_list : ℕ → Stack → Stack
unfolding scan_from
tcp_scan_timer_list now s = scan_from now s.timer_list s
