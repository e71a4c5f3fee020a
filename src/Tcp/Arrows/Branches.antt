-- ===== src/Tcp/Arrows/Branches.antt =====
-- The branches of tcp_process of 10-tcp_stack/tcp_in.c, each by the move that it makes.
use computer_net_ucas.Common.{
  ℕ, ◌+◌, ◌≡◌, inl, inr, refl, ap, ◌∙◌, Bool, true, false, Option, none, some, ◌==◌, if◌then◌else◌,
  ==→eq, Bool-cases,
}
use computer_net_ucas.Tcp.{
  TcpState, tcp_closed, tcp_listen, tcp_syn_recv, tcp_syn_sent, tcp_established, tcp_close_wait,
  tcp_last_ack, tcp_fin_wait_1, tcp_fin_wait_2, tcp_closing, tcp_time_wait, TcpSock, TcpCb, Stack,
  tcp_fin, tcp_syn, tcp_rst, tcp_ack, wake_accept, wake_connect, change, say, tcp_set_state,
  has_flag, tcp_send_control_packet, free_tcp_sock,
}
use computer_net_ucas.Tcp.Table.{tcp_unhash, tcp_bind_unhash}
use computer_net_ucas.Tcp.Process.{
  is_tcp_seq_valid, received, acked, tcp_set_timewait_timer, spawn, tcp_sock_accept_queue_full,
  tcp_sock_accept_enqueue, unqueue, complete, if_valid, to_time_wait, process_in, tcp_process,
}
use computer_net_ucas.Tcp.Handshake.{spawn_lem}
use computer_net_ucas.Tcp.Arrows.{
  Arrow, state_of, Keeps, change-Keeps, unhashed-Keeps, send-Keeps, ends_in, guarded, Arrow-to,
  stays, resets, accepts, refuses, connects, crosses, peer_closes, half_closes, both_close, closes,
  waits, ends,
}

complete-Arrow :
    (flags t : ℕ) (parent : Option ℕ) (s : Stack)
    → flags ≡ tcp_ack
    → Arrow flags tcp_syn_recv (state_of (complete parent t s) t)
unfolding complete
complete-Arrow flags t none s f =
    Arrow-to flags t (complete none t s) tcp_syn_recv tcp_established
      (ends_in t (tcp_set_state tcp_established) (complete none t s) s tcp_established (λ j. refl)
        refl)
      (accepts f)
complete-Arrow flags t (some p) s f = elim (Bool-cases (tcp_sock_accept_queue_full (s.socks p))) [
  | inl full ↦ rw full (
      Arrow-to flags t after tcp_syn_recv tcp_closed
        (ends_in t (tcp_set_state tcp_closed) after s tcp_closed after-Keeps refl) (refuses f))
  | inr room ↦ rw room (
      Arrow-to flags t queued tcp_syn_recv tcp_established
        (ends_in t (tcp_set_state tcp_established) queued s tcp_established queued-Keeps refl)
        (accepts f))
]
  where
    closed : Stack
    closed = change t (tcp_set_state tcp_closed) s

    reset : Stack
    reset = tcp_send_control_packet t tcp_rst closed

    away : Stack
    away = tcp_bind_unhash t (tcp_unhash t reset)

    dropped : Stack
    dropped = change p (unqueue t) away

    after : Stack
    after = change t free_tcp_sock dropped

    after-Keeps : Keeps after closed
    after-Keeps = λ j.
        change-Keeps t free_tcp_sock dropped refl j
        ∙ change-Keeps p (unqueue t) away refl j
        ∙ unhashed-Keeps t reset j
        ∙ send-Keeps t tcp_rst closed j

    open_child : Stack
    open_child = change t (tcp_set_state tcp_established) s

    queued : Stack
    queued = say (wake_accept p) (change p (tcp_sock_accept_enqueue t) open_child)

    queued-Keeps : Keeps queued open_child
    queued-Keeps = change-Keeps p (tcp_sock_accept_enqueue t) open_child refl

-- A change of the state, and a control packet behind it.
moved_then_sent :
    (t flags : ℕ) (f : TcpSock → TcpSock) (s : Stack) (st : TcpState)
    → (f (s.socks t)).state ≡ st
    → state_of (tcp_send_control_packet t flags (change t f s)) t ≡ st
moved_then_sent t flags f s st h =
    ends_in t f (tcp_send_control_packet t flags (change t f s)) s st
      (send-Keeps t flags (change t f s)) h

time_wait-state :
    (t : ℕ) (cb : TcpCb) (s : Stack) → state_of (to_time_wait t cb s) t ≡ tcp_time_wait
unfolding tcp_set_timewait_timer
time_wait-state t cb s =
    ends_in t (λ k. tcp_set_state tcp_time_wait (acked cb k)) (to_time_wait t cb s) s tcp_time_wait
      (change-Keeps t (λ (k : TcpSock). record k { timeout = 2000000; ref_cnt = k.ref_cnt + 1 })
        (change t (λ k. tcp_set_state tcp_time_wait (acked cb k)) s) refl)
      refl

fin_wait_1-Arrow :
    (t : ℕ) (cb : TcpCb) (iss : ℕ) (s : Stack)
    → state_of s t ≡ tcp_fin_wait_1
    → Arrow cb.flags tcp_fin_wait_1 (state_of (process_in tcp_fin_wait_1 t cb iss s) t)
unfolding process_in
fin_wait_1-Arrow t cb iss s h = elim (Bool-cases (cb.flags == tcp_ack)) [
  | inl ack ↦ rw ack (
      guarded cb.flags (is_tcp_seq_valid (s.socks t) cb) t half s tcp_fin_wait_1 h (λ _.
        Arrow-to cb.flags t half tcp_fin_wait_1 tcp_fin_wait_2
          (ends_in t (λ k. tcp_set_state tcp_fin_wait_2 (acked cb k)) half s tcp_fin_wait_2
            (λ j. refl) refl)
          (half_closes (==→eq cb.flags tcp_ack ack))))
  | inr no_ack ↦ elim (Bool-cases (cb.flags == tcp_fin)) [
    | inl fin ↦
        rw (no_ack, fin)
          (guarded cb.flags (is_tcp_seq_valid (s.socks t) cb) t both s tcp_fin_wait_1 h (λ _.
            Arrow-to cb.flags t both tcp_fin_wait_1 tcp_closing
              (moved_then_sent t tcp_ack (λ k. tcp_set_state tcp_closing (received cb k)) s
                tcp_closing refl)
              (both_close (==→eq cb.flags tcp_fin fin))))
    | inr no_fin ↦
        rw (no_ack, no_fin)
          (guarded cb.flags (cb.flags == tcp_fin + tcp_ack) t
            (if_valid t cb (λ v. tcp_send_control_packet t tcp_ack (to_time_wait t cb v)) s) s
            tcp_fin_wait_1 h
            (λ finack.
              guarded cb.flags (is_tcp_seq_valid (s.socks t) cb) t over s tcp_fin_wait_1 h (λ _.
                Arrow-to cb.flags t over tcp_fin_wait_1 tcp_time_wait
                  (send-Keeps t tcp_ack (to_time_wait t cb s) t ∙ time_wait-state t cb s)
                  (closes (==→eq cb.flags (tcp_fin + tcp_ack) finack)))))
  ]
]
  where
    half : Stack
    half = change t (λ k. tcp_set_state tcp_fin_wait_2 (acked cb k)) s

    both : Stack
    both =
        tcp_send_control_packet t tcp_ack
          (change t (λ k. tcp_set_state tcp_closing (received cb k)) s)

    over : Stack
    over = tcp_send_control_packet t tcp_ack (to_time_wait t cb s)

syn_sent-Arrow :
    (t : ℕ) (cb : TcpCb) (iss : ℕ) (s : Stack)
    → state_of s t ≡ tcp_syn_sent
    → Arrow cb.flags tcp_syn_sent (state_of (process_in tcp_syn_sent t cb iss s) t)
unfolding process_in
syn_sent-Arrow t cb iss s h = elim (Bool-cases (cb.flags == tcp_syn + tcp_ack)) [
  | inl both ↦ rw both (
      Arrow-to cb.flags t open_side tcp_syn_sent tcp_established
        (moved_then_sent t tcp_ack (λ k. tcp_set_state tcp_established (acked cb k)) s
          tcp_established refl)
        (connects (==→eq cb.flags (tcp_syn + tcp_ack) both)))
  | inr other ↦ rw other (
      guarded cb.flags (cb.flags == tcp_syn) t
        (tcp_send_control_packet t (tcp_syn + tcp_ack)
          (change t (λ k. tcp_set_state tcp_syn_recv (received cb k)) s))
        s tcp_syn_sent h
        (λ syn.
          Arrow-to cb.flags t
            (tcp_send_control_packet t (tcp_syn + tcp_ack)
              (change t (λ k. tcp_set_state tcp_syn_recv (received cb k)) s))
            tcp_syn_sent tcp_syn_recv
            (moved_then_sent t (tcp_syn + tcp_ack) (λ k. tcp_set_state tcp_syn_recv (received cb k))
              s tcp_syn_recv refl)
            (crosses (==→eq cb.flags tcp_syn syn))))
]
  where
    open_side : Stack
    open_side = say (wake_connect t) (
        tcp_send_control_packet t tcp_ack
          (change t (λ k. tcp_set_state tcp_established (acked cb k)) s))

established-Arrow :
    (t : ℕ) (cb : TcpCb) (iss : ℕ) (s : Stack)
    → state_of s t ≡ tcp_established
    → Arrow cb.flags tcp_established (state_of (process_in tcp_established t cb iss s) t)
unfolding process_in
established-Arrow t cb iss s h =
    guarded cb.flags (is_tcp_seq_valid (s.socks t) cb) t
      (if has_flag cb.flags tcp_fin
        then tcp_send_control_packet t tcp_ack
            (change t (λ k. tcp_set_state tcp_close_wait (received cb k)) noted)
        else noted)
      s tcp_established h
      (λ _.
        guarded cb.flags (has_flag cb.flags tcp_fin) t
          (tcp_send_control_packet t tcp_ack
            (change t (λ k. tcp_set_state tcp_close_wait (received cb k)) noted))
          noted tcp_established (noted-state (has_flag cb.flags tcp_ack))
          (λ fin.
            Arrow-to cb.flags t
              (tcp_send_control_packet t tcp_ack
                (change t (λ k. tcp_set_state tcp_close_wait (received cb k)) noted))
              tcp_established tcp_close_wait
              (moved_then_sent t tcp_ack (λ k. tcp_set_state tcp_close_wait (received cb k)) noted
                tcp_close_wait refl)
              (peer_closes fin)))
  where
    taken : Stack
    taken = change t (received cb) s

    noted : Stack
    noted = if has_flag cb.flags tcp_ack then change t (acked cb) taken else taken

    noted-state :
        (b : Bool) → state_of (if b then change t (acked cb) taken else taken) t ≡ tcp_established
    noted-state true =
        change-Keeps t (acked cb) taken refl t ∙ change-Keeps t (received cb) s refl t ∙ h
    noted-state false = change-Keeps t (received cb) s refl t ∙ h

-- What the branch for its state makes of the state of a socket.
process_in-Arrow :
    (st : TcpState) (t : ℕ) (cb : TcpCb) (iss : ℕ) (s : Stack)
    → (t == s.next) ≡ false
    → state_of s t ≡ st
    → Arrow cb.flags st (state_of (process_in st t cb iss s) t)
unfolding process_in
process_in-Arrow tcp_listen t cb iss s other h =
    guarded cb.flags (cb.flags == tcp_syn) t (spawn t cb iss s) s tcp_listen h (λ _.
      Arrow-to cb.flags t (spawn t cb iss s) tcp_listen tcp_listen
        (ap (λ (k : TcpSock). k.state) (spawn_lem t cb iss s other).1 ∙ h) (stays tcp_listen))
process_in-Arrow tcp_syn_recv t cb iss s other h =
    guarded cb.flags (cb.flags == tcp_ack) t
      (if_valid t cb (λ v. complete (v.socks t).parent t (change t (acked cb) v)) s) s tcp_syn_recv
      h
      (λ ack.
        guarded cb.flags (is_tcp_seq_valid (s.socks t) cb) t
          (complete (s.socks t).parent t (change t (acked cb) s)) s tcp_syn_recv h
          (λ _.
            complete-Arrow cb.flags t (s.socks t).parent (change t (acked cb) s)
              (==→eq cb.flags tcp_ack ack)))
process_in-Arrow tcp_syn_sent t cb iss s other h = syn_sent-Arrow t cb iss s h
process_in-Arrow tcp_fin_wait_1 t cb iss s other h = fin_wait_1-Arrow t cb iss s h
process_in-Arrow tcp_established t cb iss s other h = established-Arrow t cb iss s h
process_in-Arrow tcp_closing t cb iss s other h =
    guarded cb.flags (cb.flags == tcp_ack) t (if_valid t cb (to_time_wait t cb) s) s tcp_closing h
      (λ ack.
        guarded cb.flags (is_tcp_seq_valid (s.socks t) cb) t (to_time_wait t cb s) s tcp_closing h
          (λ _.
            Arrow-to cb.flags t (to_time_wait t cb s) tcp_closing tcp_time_wait
              (time_wait-state t cb s) (waits (==→eq cb.flags tcp_ack ack))))
process_in-Arrow tcp_last_ack t cb iss s other h =
    let last : Stack = change t (λ k. tcp_set_state tcp_closed (acked cb k)) s in
    let gone : Stack = tcp_bind_unhash t (tcp_unhash t last) in
    guarded cb.flags (cb.flags == tcp_ack) t
      (if_valid t cb
        (λ v.
          tcp_bind_unhash t
            (tcp_unhash t (change t (λ k. tcp_set_state tcp_closed (acked cb k)) v)))
        s)
      s tcp_last_ack h
      (λ ack. guarded cb.flags (is_tcp_seq_valid (s.socks t) cb) t gone s tcp_last_ack h (λ _.
        Arrow-to cb.flags t gone tcp_last_ack tcp_closed
          (ends_in t (λ k. tcp_set_state tcp_closed (acked cb k)) gone s tcp_closed
            (unhashed-Keeps t last) refl)
          (ends (==→eq cb.flags tcp_ack ack))))
process_in-Arrow tcp_closed t cb iss s other h =
    Arrow-to cb.flags t (tcp_bind_unhash t (tcp_unhash t s)) tcp_closed tcp_closed
      (unhashed-Keeps t s t ∙ h) (stays tcp_closed)
process_in-Arrow tcp_time_wait t cb iss s other h =
    Arrow-to cb.flags t s tcp_time_wait tcp_time_wait h (stays tcp_time_wait)
process_in-Arrow tcp_close_wait t cb iss s other h =
    Arrow-to cb.flags t s tcp_close_wait tcp_close_wait h (stays tcp_close_wait)
process_in-Arrow tcp_fin_wait_2 t cb iss s other h =
    Arrow-to cb.flags t s tcp_fin_wait_2 tcp_fin_wait_2 h (stays tcp_fin_wait_2)

-- The state of a socket after a packet has been processed is the one before, or follows it by a move
-- that the flags of the packet allow: RST closes from everywhere; ACK ends SYN_RECV, FIN_WAIT_1, CLOSING
-- and LAST_ACK; SYN with ACK ends SYN_SENT, and SYN alone takes it to SYN_RECV; FIN ends ESTABLISHED
-- and FIN_WAIT_1. The socket is not the one that the next SYN will make.
pub tcp_process-Arrow :
    (t : ℕ) (cb : TcpCb) (iss : ℕ) (s : Stack)
    → (t == s.next) ≡ false
    → Arrow cb.flags (s.socks t).state ((tcp_process (some t) cb iss s).socks t).state
unfolding tcp_process
tcp_process-Arrow t cb iss s other = elim (Bool-cases (has_flag cb.flags tcp_rst)) [
  | inl reset ↦
      let closed : Stack = change t (tcp_set_state tcp_closed) s in
      rw reset (
        Arrow-to cb.flags t (tcp_bind_unhash t (tcp_unhash t closed)) (state_of s t) tcp_closed
          (ends_in t (tcp_set_state tcp_closed) (tcp_bind_unhash t (tcp_unhash t closed)) s
            tcp_closed (unhashed-Keeps t closed) refl)
          (resets (state_of s t) reset))
  | inr plain ↦ rw plain (process_in-Arrow (state_of s t) t cb iss s other refl)
]
