-- ===== src/Tcp/Handshake/Opens.antt =====
-- The three segments that open a connection between two stacks of 10-tcp_stack.
use computer_net_ucas.Common.{
  ℕ, ◌+◌, ◌<◌, ◌≡◌, refl, sym, ap, ◌∙◌, true, false, some, [], ◌∷◌, ◌++◌, ◌==◌, eq→==, arith,
}
use computer_net_ucas.Word.{u32_mod, add32}
use computer_net_ucas.Tcp.{
  tcp_listen, tcp_established, TcpSock, TcpCb, Segment, Stack, segment, wake_accept, wake_connect,
  tcp_syn, tcp_ack, tcp_rst, has_flag,
}
use computer_net_ucas.Tcp.Table.{without, tcp_get_port}
use computer_net_ucas.Tcp.Process.{
  is_tcp_seq_valid, child_of, spawn, process_in, tcp_process, tcp_sock_accept_queue_full,
}
use computer_net_ucas.Tcp.Socket.{tcp_sock_connect}
use computer_net_ucas.Tcp.Window.{is_tcp_seq_valid_lem}
use computer_net_ucas.Tcp.Wire.Control.{cb_of}
use computer_net_ucas.Tcp.Core.{core, segment_of}
use computer_net_ucas.Tcp.Handshake.{
  dialled, waiting_syn, connect_lem, spawn_lem, in_state, answered, answer_lem, complete_lem,
}

add32-add32 : (n : ℕ) → add32 (add32 n 1) 0 ≡ add32 n 1
add32-add32 n = omega arith

listens :
    (l iss : ℕ) (cb : TcpCb) (s : Stack)
    → (s.socks l).state ≡ tcp_listen
    → cb.flags ≡ tcp_syn
    → tcp_process (some l) cb iss s ≡ spawn l cb iss s
unfolding process_in
listens l iss cb s state flags =
    in_state tcp_listen l cb iss s (ap (λ f. has_flag f tcp_rst) flags) state
    ∙ rw (eq→== cb.flags tcp_syn flags) refl

-- A connect that does not fail sends one segment. When a listener of another stack, with room in its
-- accept queue, processes it, that stack makes a child and sends one segment back. When the connecting
-- socket processes this one, it is established, wakes the sleeper and sends a third. When the child
-- processes the third, it is established too, stands last in the accept queue of the listener and wakes
-- the sleeper there; and each of the two expects the sequence number that the other sends next.
pub tcp_sock_connect-tcp_process :
    (t saddr ip port l iss : ℕ) (before a b : Stack)
    → tcp_sock_connect t saddr ip port before ≡ some a
    → (before.socks t).snd_nxt < u32_mod
    → (b.socks l).state ≡ tcp_listen
    → (l == b.next) ≡ false
    → tcp_sock_accept_queue_full (b.socks l) ≡ false
    → (syn syn_ack ack : Segment) × (let b1 : Stack = tcp_process (some l) (cb_of syn) iss b in
        let a1 : Stack = tcp_process (some t) (cb_of syn_ack) iss a in
        let b2 : Stack = tcp_process (some b.next) (cb_of ack) iss b1 in
        (a.log ≡ before.log ++ (segment syn ∷ []))
        × (b1.log ≡ b.log ++ (segment syn_ack ∷ []))
        × (a1.log ≡ a.log ++ (segment ack ∷ wake_connect t ∷ []))
        × (b2.log ≡ b1.log ++ (wake_accept l ∷ []))
        × ((a1.socks t).state ≡ tcp_established)
        × ((b2.socks b.next).state ≡ tcp_established)
        × ((b2.socks l).accept_queue ≡ without b.next (b.socks l).accept_queue ++ (b.next ∷ []))
        × ((b2.socks b.next).rcv_nxt ≡ (a1.socks t).snd_nxt)
        × ((a1.socks t).rcv_nxt ≡ (b2.socks b.next).snd_nxt))
unfolding tcp_sock_connect
tcp_sock_connect-tcp_process t saddr ip port l iss before a b connects word listen other room =
    let k : TcpSock = dialled saddr (tcp_get_port before) ip port (before.socks t) in
    let syn : Segment = segment_of tcp_syn k in
    let (client, sent) = connect_lem (tcp_get_port before) t saddr ip port before a connects in
    let child : TcpSock = child_of l (cb_of syn) iss in
    let kc : TcpSock = record child { snd_nxt = add32 iss 1 } in
    let syn_ack : Segment = segment_of (tcp_syn + tcp_ack) child in
    let spawned = listens l iss (cb_of syn) b listen refl in
    let (server, listener, replied) = spawn_lem l (cb_of syn) iss b other in
    let e : TcpSock = answered (cb_of syn_ack) (waiting_syn k) in
    let ack : Segment = segment_of tcp_ack e in
    let (opened, acks) = answer_lem t iss (cb_of syn_ack) (waiting_syn k) a client refl refl in
    let b1 : Stack = tcp_process (some l) (cb_of syn) iss b in
    let valid : is_tcp_seq_valid kc (cb_of ack) ≡ true =
      is_tcp_seq_valid_lem kc (cb_of ack) 0 0 (omega arith) (omega arith) (omega arith)
        (omega arith) (omega arith) in
    let (done, queue, backlog, woken) =
      complete_lem l b.next iss (cb_of ack) kc (b.socks l) b1
        (ap (λ s. core (s.socks b.next)) spawned ∙ server)
        (ap (λ s. core (s.socks l)) spawned ∙ listener) other refl refl refl valid room in
    (
      syn,
      syn_ack,
      ack,
      (
        sent,
        ap (λ s. s.log) spawned ∙ replied,
        acks,
        woken,
        ap (λ x. x.state) opened,
        ap (λ x. x.state) done,
        queue,
        ap (λ x. x.rcv_nxt) done
            ∙ add32-add32 (before.socks t).snd_nxt
            ∙ sym (ap (λ x. x.snd_nxt) opened),
        ap (λ x. x.rcv_nxt) opened ∙ sym (ap (λ x. x.snd_nxt) done),
      ),
    )
