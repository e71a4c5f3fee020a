-- ===== src/Tcp/Process.antt =====
-- 10-tcp_stack/tcp_in.c: what a packet does to the socket that it is for. The initial sequence number
-- of a new socket, which `rand` gives, is an argument.
use computer_net_ucas.Common.{
  ℕ, ◌+◌, Bool, true, not, ◌&&◌, Option, none, some, [], ◌∷◌, ◌++◌, ltb, ◌==◌, if◌then◌else◌,
}
use computer_net_ucas.Word.{add32}
use computer_net_ucas.Tcp.{
  TcpState, tcp_closed, tcp_listen, tcp_syn_recv, tcp_syn_sent, tcp_established, tcp_close_wait,
  tcp_last_ack, tcp_fin_wait_1, tcp_fin_wait_2, tcp_closing, tcp_time_wait, alone, TcpSock, TcpCb,
  Stack, tcp_fin, tcp_syn, tcp_rst, tcp_ack, wake_accept, wake_connect, put, change, say,
  tcp_set_state, less_than_32b, less_or_equal_32b, has_flag, tcp_send_control_packet,
  tcp_send_reset, alloc_tcp_sock, free_tcp_sock,
}
use computer_net_ucas.Tcp.Table.{tcp_unhash, tcp_bind_unhash, tcp_hash, without}

unfoldable pub is_tcp_seq_valid : TcpSock → TcpCb → Bool
is_tcp_seq_valid k cb =
    less_than_32b cb.seq (add32 k.rcv_nxt (if ltb 1 k.rcv_wnd then k.rcv_wnd else 1))
    && less_or_equal_32b k.rcv_nxt cb.seq_end

abbrev pub received : TcpCb → TcpSock → TcpSock
received cb k = record k { rcv_nxt = cb.seq_end }

abbrev pub acked : TcpCb → TcpSock → TcpSock
acked cb k = record k { rcv_nxt = cb.seq_end; snd_una = cb.ack }

-- `tcp_set_timewait_timer` of tcp_timer.c.
unfoldable pub tcp_set_timewait_timer : ℕ → Stack → Stack
tcp_set_timewait_timer t s =
    change t (λ (k : TcpSock). record k { timeout = 2000000; ref_cnt = k.ref_cnt + 1 })
      (record s { timer_list = s.timer_list ++ (t ∷ []) })

-- The new socket for a SYN, as it is when it is hashed.
abbrev pub child_of : ℕ → TcpCb → ℕ → TcpSock
child_of t cb iss = record alloc_tcp_sock {
  parent = some t;
  sk_sip = cb.daddr;
  sk_sport = cb.dport;
  sk_dip = cb.saddr;
  sk_dport = cb.sport;
  iss = iss;
  snd_nxt = iss;
  rcv_nxt = cb.seq_end;
  state = tcp_syn_recv;
}

unfoldable pub spawn : ℕ → TcpCb → ℕ → Stack → Stack
unfolding tcp_hash tcp_send_control_packet
spawn t cb iss s =
    let c = s.next in
    let made = record s { socks = put s.socks c (child_of t cb iss); next = c + 1 } in
    let counted = change t (λ (k : TcpSock). record k { ref_cnt = k.ref_cnt + 1 }) made in
    let hashed = tcp_hash c counted in
    let bound = change c (λ (k : TcpSock). record k { bind_hash_list = alone }) hashed in
    let queued =
      change t (λ (k : TcpSock). record k { listen_queue = k.listen_queue ++ (c ∷ []) }) bound in
    tcp_send_control_packet c (tcp_syn + tcp_ack) queued

-- `tcp_sock_accept_queue_full` and `tcp_sock_accept_enqueue` of tcp_sock.c.
abbrev pub tcp_sock_accept_queue_full : TcpSock → Bool
tcp_sock_accept_queue_full k = not (ltb k.accept_backlog k.backlog)

abbrev pub unqueue : ℕ → TcpSock → TcpSock
unqueue t k = record k {
  listen_queue = without t k.listen_queue;
  accept_queue = without t k.accept_queue;
}

abbrev pub tcp_sock_accept_enqueue : ℕ → TcpSock → TcpSock
tcp_sock_accept_enqueue t k =
    let out = unqueue t k in
    record out {
      accept_queue = out.accept_queue ++ (t ∷ []);
      accept_backlog = out.accept_backlog + 1;
    }

-- The last packet of the handshake, on the socket that the listener made.
unfoldable pub complete : Option ℕ → ℕ → Stack → Stack
unfolding tcp_send_control_packet tcp_unhash tcp_bind_unhash
complete none t s = record (change t (tcp_set_state tcp_established) s) { fault = true }
complete (some p) t s =
    if tcp_sock_accept_queue_full (s.socks p)
    then (let reset = tcp_send_control_packet t tcp_rst (change t (tcp_set_state tcp_closed) s) in
        change t free_tcp_sock (change p (unqueue t) (tcp_bind_unhash t (tcp_unhash t reset))))
    else say (wake_accept p)
        (change p (tcp_sock_accept_enqueue t) (change t (tcp_set_state tcp_established) s))

-- A branch whose packet must have a sequence number in the window.
abbrev pub if_valid : ℕ → TcpCb → (Stack → Stack) → Stack → Stack
if_valid t cb f s = if is_tcp_seq_valid (s.socks t) cb then f s else s

abbrev pub to_time_wait : ℕ → TcpCb → Stack → Stack
to_time_wait t cb s =
    tcp_set_timewait_timer t (change t (λ k. tcp_set_state tcp_time_wait (acked cb k)) s)

-- The branch for the state of the socket.
unfoldable pub process_in : TcpState → ℕ → TcpCb → ℕ → Stack → Stack
unfolding spawn complete tcp_send_control_packet tcp_set_timewait_timer tcp_unhash tcp_bind_unhash
    is_tcp_seq_valid
process_in tcp_listen t cb iss s = if cb.flags == tcp_syn then spawn t cb iss s else s
process_in tcp_syn_recv t cb iss s =
    if cb.flags == tcp_ack
    then if_valid t cb (λ v. complete (v.socks t).parent t (change t (acked cb) v)) s
    else s
process_in tcp_syn_sent t cb iss s =
    if cb.flags == tcp_syn + tcp_ack
    then say (wake_connect t) (
        tcp_send_control_packet t tcp_ack
          (change t (λ k. tcp_set_state tcp_established (acked cb k)) s))
    else if cb.flags == tcp_syn
    then tcp_send_control_packet t (tcp_syn + tcp_ack)
        (change t (λ k. tcp_set_state tcp_syn_recv (received cb k)) s)
    else s
process_in tcp_fin_wait_1 t cb iss s =
    if cb.flags == tcp_ack
    then if_valid t cb (change t (λ k. tcp_set_state tcp_fin_wait_2 (acked cb k))) s
    else if cb.flags == tcp_fin
    then if_valid t cb
        (λ v.
          tcp_send_control_packet t tcp_ack
            (change t (λ k. tcp_set_state tcp_closing (received cb k)) v))
        s
    else if cb.flags == tcp_fin + tcp_ack
    then if_valid t cb (λ v. tcp_send_control_packet t tcp_ack (to_time_wait t cb v)) s
    else s
process_in tcp_established t cb iss s =
    if_valid t cb
      (λ v.
        let a = change t (received cb) v in
        let b = if has_flag cb.flags tcp_ack then change t (acked cb) a else a in
        if has_flag cb.flags tcp_fin
        then tcp_send_control_packet t tcp_ack
            (change t (λ k. tcp_set_state tcp_close_wait (received cb k)) b)
        else b)
      s
process_in tcp_closing t cb iss s =
    if cb.flags == tcp_ack then if_valid t cb (to_time_wait t cb) s else s
process_in tcp_last_ack t cb iss s =
    if cb.flags == tcp_ack
    then if_valid t cb
        (λ v.
          tcp_bind_unhash t
            (tcp_unhash t (change t (λ k. tcp_set_state tcp_closed (acked cb k)) v)))
        s
    else s
process_in tcp_closed t cb iss s = tcp_bind_unhash t (tcp_unhash t s)
process_in tcp_time_wait t cb iss s = s
process_in tcp_close_wait t cb iss s = s
process_in tcp_fin_wait_2 t cb iss s = s

unfoldable pub tcp_process : Option ℕ → TcpCb → ℕ → Stack → Stack
unfolding process_in tcp_send_reset tcp_unhash tcp_bind_unhash
tcp_process none cb iss s = tcp_send_reset cb s
tcp_process (some t) cb iss s =
    if has_flag cb.flags tcp_rst
    then tcp_bind_unhash t (tcp_unhash t (change t (tcp_set_state tcp_closed) s))
    else process_in (s.socks t).state t cb iss s
