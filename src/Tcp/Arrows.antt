-- ===== src/Tcp/Arrows.antt =====
-- The moves of the state machine of 10-tcp_stack/tcp_in.c, and what of a socket's state the functions
-- that it calls leave as it is.
pub mod Branches
use computer_net_ucas.Common.{
  ℕ, ◌+◌, ◌≡◌, inl, inr, refl, sym, ap, ◌∙◌, Bool, true, false, Option, none, some, List, [], ◌∷◌,
  ◌++◌, ◌==◌, if◌then◌else◌, ==→eq, eq→==, Bool-cases,
}
use mathlib.Core.Path.{subst}
use computer_net_ucas.Word.{add32}
use computer_net_ucas.Tcp.{
  TcpState, tcp_closed, tcp_listen, tcp_syn_recv, tcp_syn_sent, tcp_established, tcp_close_wait,
  tcp_last_ack, tcp_fin_wait_1, tcp_fin_wait_2, tcp_closing, tcp_time_wait, Node, zeroed, alone,
  linked, stale, TcpSock, TcpCb, Stack, tcp_fin, tcp_syn, tcp_rst, tcp_ack, wake_accept,
  wake_connect, put, change, say, tcp_set_state, has_flag, tcp_send_control_packet, free_tcp_sock,
}
use computer_net_ucas.Tcp.Table.{
  tcp_unhash, unhash_node, tcp_bind_unhash, bind_unhash_node, without, tcp_hash,
}
use computer_net_ucas.Tcp.Process.{
  is_tcp_seq_valid, received, acked, tcp_set_timewait_timer, child_of, spawn,
  tcp_sock_accept_queue_full, tcp_sock_accept_enqueue, unqueue, complete, if_valid, to_time_wait,
  process_in, tcp_process,
}
use computer_net_ucas.Tcp.Core.{core, put-same, put-other}
use computer_net_ucas.Tcp.Handshake.{spawn_lem}

-- The state of a socket, and two stacks with the same states.
abbrev pub state_of : Stack → ℕ → TcpState
state_of s j = (s.socks j).state

abbrev pub Keeps : Stack → Stack → Type 0
Keeps u s = (j : ℕ) → state_of u j ≡ state_of s j

pub Keeps-trans : (u v w : Stack) → Keeps u v → Keeps v w → Keeps u w
Keeps-trans u v w a b = λ j. a j ∙ b j

pub change-Keeps :
    (t : ℕ) (f : TcpSock → TcpSock) (s : Stack)
    → (f (s.socks t)).state ≡ (s.socks t).state
    → Keeps (change t f s) s
change-Keeps t f s h = λ j. elim (Bool-cases (j == t)) [
  | inl same ↦
      ap (λ (x : TcpSock). x.state) (at_same j same) ∙ h ∙ ap (state_of s) (sym (==→eq j t same))
  | inr other ↦ ap (λ (x : TcpSock). x.state) (put-other s.socks t j (f (s.socks t)) other)
]
  where
    at_same : (j : ℕ) → (j == t) ≡ true → (change t f s).socks j ≡ f (s.socks t)
    at_same j e = rw e refl

pub unhash_node-Keeps : (n : Node) (t : ℕ) (s : Stack) → Keeps (unhash_node n t s) s
unfolding unhash_node
unhash_node-Keeps zeroed t s = λ j. refl
unhash_node-Keeps alone t s = λ j. refl
unhash_node-Keeps stale t s = change-Keeps t free_tcp_sock s refl
unhash_node-Keeps linked t s =
    change-Keeps t (λ (k : TcpSock). free_tcp_sock (record k { hash_list = stale })) s refl

pub bind_unhash_node-Keeps : (n : Node) (t : ℕ) (s : Stack) → Keeps (bind_unhash_node n t s) s
unfolding bind_unhash_node
bind_unhash_node-Keeps zeroed t s = λ j. refl
bind_unhash_node-Keeps alone t s = λ j. refl
bind_unhash_node-Keeps stale t s = change-Keeps t free_tcp_sock s refl
bind_unhash_node-Keeps linked t s =
    change-Keeps t (λ (k : TcpSock). free_tcp_sock (record k { bind_hash_list = stale })) s refl

-- Taking a socket out of the tables.
pub unhashed-Keeps : (t : ℕ) (s : Stack) → Keeps (tcp_bind_unhash t (tcp_unhash t s)) s
unfolding tcp_bind_unhash tcp_unhash
unhashed-Keeps t s =
    Keeps-trans (tcp_bind_unhash t (tcp_unhash t s)) (tcp_unhash t s) s
      (bind_unhash_node-Keeps _ t (tcp_unhash t s)) (unhash_node-Keeps _ t s)

pub send-Keeps : (t flags : ℕ) (s : Stack) → Keeps (tcp_send_control_packet t flags s) s
unfolding tcp_send_control_packet
send-Keeps t flags s =
    change-Keeps t
      (λ (x : TcpSock). record x {
        snd_nxt = if has_flag flags (tcp_syn + tcp_fin) then add32 x.snd_nxt 1 else x.snd_nxt;
      })
      s refl

-- The moves that a segment with the given flags may cause.
pub data Arrow (flags : ℕ) : TcpState → TcpState → Type 0 where
  stays : (st : TcpState) → Arrow flags st st
  resets : (st : TcpState) → has_flag flags tcp_rst ≡ true → Arrow flags st tcp_closed
  accepts : flags ≡ tcp_ack → Arrow flags tcp_syn_recv tcp_established
  refuses : flags ≡ tcp_ack → Arrow flags tcp_syn_recv tcp_closed
  connects : flags ≡ tcp_syn + tcp_ack → Arrow flags tcp_syn_sent tcp_established
  crosses : flags ≡ tcp_syn → Arrow flags tcp_syn_sent tcp_syn_recv
  peer_closes : has_flag flags tcp_fin ≡ true → Arrow flags tcp_established tcp_close_wait
  half_closes : flags ≡ tcp_ack → Arrow flags tcp_fin_wait_1 tcp_fin_wait_2
  both_close : flags ≡ tcp_fin → Arrow flags tcp_fin_wait_1 tcp_closing
  closes : flags ≡ tcp_fin + tcp_ack → Arrow flags tcp_fin_wait_1 tcp_time_wait
  waits : flags ≡ tcp_ack → Arrow flags tcp_closing tcp_time_wait
  ends : flags ≡ tcp_ack → Arrow flags tcp_last_ack tcp_closed

-- The socket after a change that is the last to set its state.
pub ends_in :
    (t : ℕ) (f : TcpSock → TcpSock) (u s : Stack) (st : TcpState)
    → Keeps u (change t f s)
    → (f (s.socks t)).state ≡ st
    → state_of u t ≡ st
ends_in t f u s st kept h =
    kept t ∙ ap (λ (x : TcpSock). x.state) (put-same s.socks t (f (s.socks t))) ∙ h

-- A guard that does nothing when it fails.
pub guarded :
    (flags : ℕ) (b : Bool) (t : ℕ) (u s : Stack) (st : TcpState)
    → state_of s t ≡ st
    → (b ≡ true → Arrow flags st (state_of u t))
    → Arrow flags st (state_of (if b then u else s) t)
guarded flags true t u s st h arrow = arrow refl
guarded flags false t u s st h arrow = subst (Arrow flags st) (sym h) (stays st)

pub Arrow-to :
    (flags t : ℕ) (u : Stack) (st end : TcpState)
    → state_of u t ≡ end
    → Arrow flags st end
    → Arrow flags st (state_of u t)
Arrow-to flags t u st end h arrow = subst (Arrow flags st) (sym h) arrow
