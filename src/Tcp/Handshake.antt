-- ===== src/Tcp/Handshake.antt =====
-- The steps in which two stacks of 10-tcp_stack open a connection: tcp_sock_connect on one of them
-- and tcp_process of tcp_in.c on both.
pub mod Opens
use computer_net_ucas.Common.{
  ℕ, ◌+◌, ◌%◌, ◌^◌, ◌<◌, ◌≡◌, inl, inr, refl, sym, ap, ◌∙◌, Bool, true, false, not, Option, none,
  some, List, [], ◌∷◌, ◌++◌, ltb, ◌==◌, if◌then◌else◌, eq→==, ==→eq, some-eq, arith, Bool-cases,
}
use mathlib.Core.Path.{subst}
use mathlib.Core.List.{append_assoc}
use computer_net_ucas.Word.{u32_mod, add32, htons, htonl}
use computer_net_ucas.Tcp.{
  TcpState, tcp_closed, tcp_listen, tcp_syn_recv, tcp_syn_sent, tcp_established, tcp_close_wait,
  tcp_last_ack, tcp_fin_wait_1, tcp_fin_wait_2, tcp_closing, tcp_time_wait, zeroed, alone, linked,
  TcpSock, TcpCb, Segment, Stack, segment, wake_accept, wake_connect, tcp_syn, tcp_rst, tcp_ack,
  put, change, has_flag, tcp_send_control_packet, tcp_set_state, say,
}
use computer_net_ucas.Tcp.Table.{
  is_some, tcp_hash_function, link_hash, tcp_hash, hash_by, hash_established, hash_listen,
  tcp_sock_lookup_established, without, tcp_get_port, tcp_bind_hash, tcp_unhash, tcp_bind_unhash,
}
use computer_net_ucas.Tcp.Process.{
  is_tcp_seq_valid, acked, tcp_sock_accept_enqueue, child_of, spawn, complete, process_in,
  tcp_process, tcp_sock_accept_queue_full,
}
use computer_net_ucas.Tcp.Socket.{connect_from, tcp_sock_connect}
use computer_net_ucas.Tcp.Wire.Control.{cb_of}
use computer_net_ucas.Tcp.Core.{
  core, put-same, put-other, ==-sym, change-core, Agrees, link_hash-Agrees, hash_listen-Agrees,
  hash_established-Agrees, tcp_hash-Agrees, Agrees-trans, segment_of, counted, send-log, send-core,
  send-other,
}

abbrev pub dialled : ℕ → ℕ → ℕ → ℕ → TcpSock → TcpSock
dialled saddr sport ip port k = record k {
  sk_sip = saddr;
  sk_sport = sport;
  sk_dip = htonl ip;
  sk_dport = htons port;
}

abbrev pub waiting_syn : TcpSock → TcpSock
waiting_syn k = record k { state = tcp_syn_sent; snd_nxt = add32 k.snd_nxt 1 }

-- A connect that does not fail sends a SYN and waits for its answer.
pub connect_lem :
    (sport t saddr ip port : ℕ) (s a : Stack)
    → connect_from sport t saddr ip port s ≡ some a
    → (let k : TcpSock = dialled saddr sport ip port (s.socks t) in
        (core (a.socks t) ≡ core (waiting_syn k))
        × (a.log ≡ s.log ++ (segment (segment_of tcp_syn k) ∷ [])))
unfolding connect_from tcp_bind_hash
connect_lem sport t saddr ip port s a h = elim (Bool-cases (sport == 0)) [
  | inl none_left ↦ absurd (cc (rw none_left at h))
  | inr free ↦
      let k : TcpSock = dialled saddr sport ip port (s.socks t) in
      let named : Stack = change t (dialled saddr sport ip port) s in
      let bound : Stack = tcp_bind_hash t named in
      let sent : Stack = tcp_send_control_packet t tcp_syn bound in
      let syn : Stack = change t (tcp_set_state tcp_syn_sent) sent in
      let bound-core : core (bound.socks t) ≡ core k =
        change-core t t
          (λ (x : TcpSock). record x { bind_hash_list = linked; ref_cnt = x.ref_cnt + 1 }) named
          refl
        ∙ ap core (put-same s.socks t k) in
      let syn-core : core (syn.socks t) ≡ core (waiting_syn k) =
        ap core (put-same sent.socks t (tcp_set_state tcp_syn_sent (sent.socks t)))
        ∙ ap (tcp_set_state tcp_syn_sent) (send-core t tcp_syn k bound bound-core) in
      let end : tcp_hash t syn ≡ a = some-eq (tcp_hash t syn) a (rw free at h) in
      let hashed = tcp_hash-Agrees t t syn in
      (
        ap (λ x. core (x.socks t)) (sym end) ∙ hashed.0 ∙ syn-core,
        ap (λ x. x.log) (sym end) ∙ hashed.1 ∙ send-log t tcp_syn k bound bound-core,
      )
]

-- The child of a listener before it answers, and the listener.
pub spawn_lem :
    (l : ℕ) (cb : TcpCb) (iss : ℕ) (s : Stack)
    → (l == s.next) ≡ false
    → (let b : Stack = spawn l cb iss s in
        let k : TcpSock = child_of l cb iss in
        (core (b.socks s.next) ≡ core (record k { snd_nxt = add32 iss 1 }))
        × (core (b.socks l) ≡ core (s.socks l))
        × (b.log ≡ s.log ++ (segment (segment_of (tcp_syn + tcp_ack) k) ∷ [])))
unfolding spawn
spawn_lem l cb iss s other =
    let c = s.next in
    let made : Stack = record s { socks = put s.socks c (child_of l cb iss); next = c + 1 } in
    let ref : TcpSock → TcpSock = λ (k : TcpSock). record k { ref_cnt = k.ref_cnt + 1 } in
    let bind : TcpSock → TcpSock = λ (k : TcpSock). record k { bind_hash_list = alone } in
    let queue : TcpSock → TcpSock =
      λ (k : TcpSock). record k { listen_queue = k.listen_queue ++ (c ∷ []) } in
    let one : Stack = change l ref made in
    let two : Stack = tcp_hash c one in
    let three : Stack = change c bind two in
    let four : Stack = change l queue three in
    let same : (j : ℕ) → Agrees j four made = λ j.
      Agrees-trans j four two made
        (change-core l j queue three refl ∙ change-core c j bind two refl, refl, refl)
        (Agrees-trans j two one made (tcp_hash-Agrees c j one)
          (change-core l j ref made refl, refl, refl)) in
    let child : core (four.socks c) ≡ core (child_of l cb iss) =
      (same c).0 ∙ ap core (put-same s.socks c (child_of l cb iss)) in
    (
      send-core c (tcp_syn + tcp_ack) (child_of l cb iss) four child,
      ap core (send-other c l (tcp_syn + tcp_ack) four other) ∙ (same l).0 ∙ rw other refl,
      send-log c (tcp_syn + tcp_ack) (child_of l cb iss) four child
          ∙ ap (λ t. t ++ (segment (segment_of (tcp_syn + tcp_ack) (child_of l cb iss)) ∷ []))
              (same c).1,
    )

abbrev pub answered : TcpCb → TcpSock → TcpSock
answered cb k = record k { state = tcp_established; rcv_nxt = cb.seq_end; snd_una = cb.ack }

-- A packet without RST goes to the branch for the state.
pub in_state :
    (st : TcpState) (t : ℕ) (cb : TcpCb) (iss : ℕ) (s : Stack)
    → has_flag cb.flags tcp_rst ≡ false
    → (s.socks t).state ≡ st
    → tcp_process (some t) cb iss s ≡ process_in st t cb iss s
unfolding tcp_process
in_state st t cb iss s plain state =
    ap
      (λ b.
        if b
        then tcp_bind_unhash t (tcp_unhash t (change t (tcp_set_state tcp_closed) s))
        else process_in (s.socks t).state t cb iss s)
      plain
    ∙ ap (λ x. process_in x t cb iss s) state

pub syn_sent_branch :
    (t iss : ℕ) (cb : TcpCb) (s : Stack)
    → (cb.flags == tcp_syn + tcp_ack) ≡ true
    → process_in tcp_syn_sent t cb iss s
      ≡ say (wake_connect t) (tcp_send_control_packet t tcp_ack (change t (answered cb) s))
unfolding process_in
syn_sent_branch t iss cb s h = rw h refl

pub syn_recv_branch :
    (t iss : ℕ) (cb : TcpCb) (s : Stack)
    → (cb.flags == tcp_ack) ≡ true
    → is_tcp_seq_valid (s.socks t) cb ≡ true
    → process_in tcp_syn_recv t cb iss s ≡ complete (s.socks t).parent t (change t (acked cb) s)
unfolding process_in
syn_recv_branch t iss cb s h valid = rw (h, valid) refl

-- What the answer to its SYN does to a socket.
pub answer_lem :
    (t iss : ℕ) (cb : TcpCb) (k : TcpSock) (s : Stack)
    → core (s.socks t) ≡ core k
    → k.state ≡ tcp_syn_sent
    → cb.flags ≡ tcp_syn + tcp_ack
    → (let a : Stack = tcp_process (some t) cb iss s in
        (core (a.socks t) ≡ core (answered cb k))
        × (a.log ≡ s.log ++ (segment (segment_of tcp_ack (answered cb k)) ∷ wake_connect t ∷ [])))
answer_lem t iss cb k s same state flags =
    let changed : Stack = change t (answered cb) s in
    let changed-core : core (changed.socks t) ≡ core (answered cb k) =
      ap core (put-same s.socks t (answered cb (s.socks t))) ∙ ap (answered cb) same in
    let sent : Stack = tcp_send_control_packet t tcp_ack changed in
    let done : tcp_process (some t) cb iss s ≡ say (wake_connect t) sent =
      in_state tcp_syn_sent t cb iss s (ap (λ f. has_flag f tcp_rst) flags)
        (ap (λ x. x.state) same ∙ state)
      ∙ syn_sent_branch t iss cb s (ap (λ f. f == tcp_syn + tcp_ack) flags) in
    (
      ap (λ x. core (x.socks t)) done ∙ send-core t tcp_ack (answered cb k) changed changed-core,
      ap (λ x. x.log) done
          ∙ ap (λ x. x ++ (wake_connect t ∷ []))
              (send-log t tcp_ack (answered cb k) changed changed-core)
          ∙ append_assoc s.log (segment (segment_of tcp_ack (answered cb k)) ∷ [])
              (wake_connect t ∷ []),
    )

pub complete_branch :
    (p t : ℕ) (s : Stack)
    → tcp_sock_accept_queue_full (s.socks p) ≡ false
    → complete (some p) t s
      ≡ say
          (wake_accept p)
          (change p (tcp_sock_accept_enqueue t) (change t (tcp_set_state tcp_established) s))
unfolding complete
complete_branch p t s h = rw h refl

-- What the last packet of the handshake does to the child and to its listener.
pub complete_lem :
    (p c iss : ℕ) (cb : TcpCb) (k l : TcpSock) (s : Stack)
    → core (s.socks c) ≡ core k
    → core (s.socks p) ≡ core l
    → (p == c) ≡ false
    → k.state ≡ tcp_syn_recv
    → k.parent ≡ some p
    → cb.flags ≡ tcp_ack
    → is_tcp_seq_valid k cb ≡ true
    → tcp_sock_accept_queue_full l ≡ false
    → (let b : Stack = tcp_process (some c) cb iss s in
        (core (b.socks c) ≡ core (answered cb k))
        × ((b.socks p).accept_queue ≡ without c l.accept_queue ++ (c ∷ []))
        × ((b.socks p).accept_backlog ≡ l.accept_backlog + 1)
        × (b.log ≡ s.log ++ (wake_accept p ∷ [])))
unfolding is_tcp_seq_valid
complete_lem p c iss cb k l s same listener other state parent flags valid room =
    let acks : Stack = change c (acked cb) s in
    let done : tcp_process (some c) cb iss s ≡ complete (s.socks c).parent c acks =
      in_state tcp_syn_recv c cb iss s (ap (λ f. has_flag f tcp_rst) flags)
        (ap (λ x. x.state) same ∙ state)
      ∙ syn_recv_branch c iss cb s (ap (λ f. f == tcp_ack) flags)
          (ap (λ x. is_tcp_seq_valid x cb) same ∙ valid) in
    let opened : Stack = change c (tcp_set_state tcp_established) acks in
    let away : acks.socks p ≡ s.socks p = put-other s.socks c p _ other in
    let end : tcp_process (some c) cb iss s
        ≡ say (wake_accept p) (change p (tcp_sock_accept_enqueue c) opened) =
      done
      ∙ ap (λ x. complete x c acks) (ap (λ x. x.parent) same ∙ parent)
      ∙ complete_branch p c acks
          (ap tcp_sock_accept_queue_full away ∙ ap tcp_sock_accept_queue_full listener ∙ room) in
    let last : opened.socks p ≡ s.socks p = put-other acks.socks c p _ other ∙ away in
    let child : core (opened.socks c) ≡ core (answered cb k) =
      ap core (put-same acks.socks c (tcp_set_state tcp_established (acks.socks c)))
      ∙ ap (λ x. core (tcp_set_state tcp_established x)) (put-same s.socks c (acked cb (s.socks c)))
      ∙ ap (answered cb) same in
    let queued : (change p (tcp_sock_accept_enqueue c) opened).socks p
        ≡ tcp_sock_accept_enqueue c (s.socks p) =
      put-same opened.socks p (tcp_sock_accept_enqueue c (opened.socks p))
      ∙ ap (tcp_sock_accept_enqueue c) last in
    (
      ap (λ x. core (x.socks c)) end
          ∙ ap core (
              put-other opened.socks p c (tcp_sock_accept_enqueue c (opened.socks p))
                (==-sym p c other))
          ∙ child,
      ap (λ x. (x.socks p).accept_queue) end
          ∙ ap (λ x. x.accept_queue) queued
          ∙ ap (λ x. without c x.accept_queue ++ (c ∷ [])) listener,
      ap (λ x. (x.socks p).accept_backlog) end
          ∙ ap (λ x. x.accept_backlog) queued
          ∙ ap (λ x. x.accept_backlog + 1) listener,
      ap (λ x. x.log) end,
    )
