-- ===== src/Tcp/Core.antt =====
-- What the operations of 10-tcp_stack leave alone in a socket: hashing and queueing do not touch the
-- fields that tcp_process of tcp_in.c decides by, and a control packet counts only itself.
use computer_net_ucas.Common.{
  ℕ, ◌+◌, ◌≡◌, inl, inr, refl, sym, ap, ◌∙◌, false, [], ◌∷◌, ◌++◌, ◌==◌, if◌then◌else◌, eq→==,
  ==→eq, arith, Bool-cases,
}
use computer_net_ucas.Word.{add32}
use computer_net_ucas.Tcp.{
  TcpState, tcp_closed, tcp_listen, tcp_syn_recv, tcp_syn_sent, tcp_established, tcp_close_wait,
  tcp_last_ack, tcp_fin_wait_1, tcp_fin_wait_2, tcp_closing, tcp_time_wait, zeroed, linked, TcpSock,
  Segment, Stack, segment, tcp_syn, put, change, has_flag, tcp_send_control_packet,
}
use computer_net_ucas.Tcp.Table.{
  is_some, tcp_hash_function, link_hash, tcp_hash, hash_by, hash_established, hash_listen,
  tcp_sock_lookup_established,
}

-- A socket without what the tables and the queues keep in it.
abbrev pub core : TcpSock → TcpSock
core k = record k { ref_cnt = 0; hash_list = zeroed; bind_hash_list = zeroed; listen_queue = [] }

pub put-same {ℓ} : {A : Type ℓ} (f : ℕ → A) (i : ℕ) (v : A) → put f i v i ≡ v
put-same f i v = rw (eq→== i i refl) refl

pub put-other {ℓ} :
    {A : Type ℓ} (f : ℕ → A) (i j : ℕ) (v : A) → (j == i) ≡ false → put f i v j ≡ f j
put-other f i j v other = rw other refl

pub ==-sym : (i j : ℕ) → (i == j) ≡ false → (j == i) ≡ false
==-sym i j h = ground arith

-- What a change that leaves the core alone does to every core.
pub change-core :
    (t j : ℕ) (f : TcpSock → TcpSock) (s : Stack)
    → core (f (s.socks t)) ≡ core (s.socks t)
    → core ((change t f s).socks j) ≡ core (s.socks j)
change-core t j f s h = elim (Bool-cases (j == t)) [
  | inl same ↦ rw same (h ∙ ap (λ i. core (s.socks i)) (sym (==→eq j t same)))
  | inr other ↦ rw other refl
]

-- The cores, the log and the next address are those of another stack.
abbrev pub Agrees : ℕ → Stack → Stack → Type 0
Agrees j u s = (core (u.socks j) ≡ core (s.socks j)) × (u.log ≡ s.log) × (u.next ≡ s.next)

pub link_hash-Agrees : (t j : ℕ) (s : Stack) → Agrees j (link_hash t s) s
link_hash-Agrees t j s = (
  change-core t j (λ (k : TcpSock). record k { hash_list = linked; ref_cnt = k.ref_cnt + 1 }) s
      refl,
  refl,
  refl,
)

pub hash_listen-Agrees : (t j : ℕ) (s : Stack) → Agrees j (hash_listen t s) s
unfolding hash_listen
hash_listen-Agrees t j s = link_hash-Agrees t j (record s {
  listen_table =
      let i = tcp_hash_function 0 0 (s.socks t).sk_sport 0 in
      put s.listen_table i (t ∷ s.listen_table i);
})

pub hash_established-Agrees : (t j : ℕ) (s : Stack) → Agrees j (hash_established t s) s
unfolding hash_established
hash_established-Agrees t j s =
    let k = s.socks t in
    let i = tcp_hash_function k.sk_sip k.sk_dip k.sk_sport k.sk_dport in
    elim (Bool-cases
      (is_some (tcp_sock_lookup_established s k.sk_sip k.sk_dip k.sk_sport k.sk_dport))) [
        | inl found ↦ rw found (refl, refl, refl)
        | inr new ↦ rw new (
            link_hash-Agrees t j (record s {
              established_table = put s.established_table i (t ∷ s.established_table i);
            }))
      ]

-- Hashing a socket changes no core.
pub tcp_hash-Agrees : (t j : ℕ) (s : Stack) → Agrees j (tcp_hash t s) s
unfolding tcp_hash
tcp_hash-Agrees t j s = split (s.socks t).state
  where
    split : (st : TcpState) → Agrees j (hash_by st t s) s
    split tcp_closed = (refl, refl, refl)
    split tcp_listen = hash_listen-Agrees t j s
    split tcp_syn_recv = hash_established-Agrees t j s
    split tcp_syn_sent = hash_established-Agrees t j s
    split tcp_established = hash_established-Agrees t j s
    split tcp_close_wait = hash_established-Agrees t j s
    split tcp_last_ack = hash_established-Agrees t j s
    split tcp_fin_wait_1 = hash_established-Agrees t j s
    split tcp_fin_wait_2 = hash_established-Agrees t j s
    split tcp_closing = hash_established-Agrees t j s
    split tcp_time_wait = hash_established-Agrees t j s

pub Agrees-trans : (j : ℕ) (u v w : Stack) → Agrees j u v → Agrees j v w → Agrees j u w
Agrees-trans j u v w (a, b, c) (d, e, f) = (a ∙ d, b ∙ e, c ∙ f)

-- The segment that `tcp_send_control_packet` makes for a socket.
abbrev pub segment_of : ℕ → TcpSock → Segment
segment_of flags k = record {
  saddr = k.sk_sip;
  daddr = k.sk_dip;
  sport = k.sk_sport;
  dport = k.sk_dport;
  seq = k.snd_nxt;
  ack = k.rcv_nxt;
  flags = flags;
  rwnd = k.rcv_wnd;
}

abbrev pub counted : ℕ → TcpSock → TcpSock
counted flags k = record k {
  snd_nxt = if has_flag flags (tcp_syn + 1) then add32 k.snd_nxt 1 else k.snd_nxt;
}

pub send-log :
    (t flags : ℕ) (k : TcpSock) (s : Stack)
    → core (s.socks t) ≡ core k
    → (tcp_send_control_packet t flags s).log ≡ s.log ++ (segment (segment_of flags k) ∷ [])
unfolding tcp_send_control_packet
send-log t flags k s h = ap (λ (x : TcpSock). s.log ++ (segment (segment_of flags x) ∷ [])) h

pub send-core :
    (t flags : ℕ) (k : TcpSock) (s : Stack)
    → core (s.socks t) ≡ core k
    → core ((tcp_send_control_packet t flags s).socks t) ≡ core (counted flags k)
unfolding tcp_send_control_packet
send-core t flags k s h =
    ap core (put-same s.socks t (counted flags (s.socks t))) ∙ ap (counted flags) h

pub send-other :
    (t j flags : ℕ) (s : Stack)
    → (j == t) ≡ false
    → (tcp_send_control_packet t flags s).socks j ≡ s.socks j
unfolding tcp_send_control_packet
send-other t j flags s other = rw other refl
