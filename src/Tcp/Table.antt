-- ===== src/Tcp/Table.antt =====
-- The hash tables and the ports of 10-tcp_stack/tcp_sock.c, with include/tcp_hash.h.
use Prim.Native.Nat.{bit_xor}
use computer_net_ucas.Common.{
  ℕ, zero, suc, ◌+◌, ◌-◌, ◌/◌, ◌%◌, ◌^◌, Bool, true, false, not, ◌&&◌, Option, none, some, List,
  ◌∷◌, ◌==◌, if◌then◌else◌, keep, first,
}
use computer_net_ucas.Tcp.{
  TcpState, tcp_closed, tcp_listen, Node, zeroed, alone, linked, stale, TcpSock, TcpCb, Stack, put,
  change, free_tcp_sock,
}

abbrev pub port_min : ℕ
port_min = 12345

abbrev pub port_max : ℕ
port_max = 23456

-- `hash8` of the bytes of a 32-bit and of a 16-bit word.
abbrev pub hash8_word : ℕ → ℕ
hash8_word w =
    bit_xor (w % 256) (bit_xor (w / 256 % 256) (bit_xor (w / 2 ^ 16 % 256) (w / 2 ^ 24 % 256)))

abbrev pub hash8_half : ℕ → ℕ
hash8_half w = bit_xor (w % 256) (w / 256 % 256)

unfoldable pub tcp_hash_function : ℕ → ℕ → ℕ → ℕ → ℕ
tcp_hash_function saddr daddr sport dport =
    bit_xor (bit_xor (bit_xor (hash8_word saddr) (hash8_word daddr)) (hash8_half sport))
      (hash8_half dport)
    % 256

abbrev pub is_same : ℕ → ℕ → ℕ → ℕ → TcpSock → Bool
is_same saddr daddr sport dport t =
    (saddr == t.sk_sip) && (daddr == t.sk_dip) && (sport == t.sk_sport) && (dport == t.sk_dport)

unfoldable pub tcp_sock_lookup_established : Stack → ℕ → ℕ → ℕ → ℕ → Option ℕ
unfolding tcp_hash_function
tcp_sock_lookup_established s saddr daddr sport dport =
    first (λ t. is_same saddr daddr sport dport (s.socks t))
      (s.established_table (tcp_hash_function saddr daddr sport dport))

unfoldable pub tcp_sock_lookup_listen : Stack → ℕ → Option ℕ
unfolding tcp_hash_function
tcp_sock_lookup_listen s sport =
    first (λ t. sport == (s.socks t).sk_sport) (s.listen_table (tcp_hash_function 0 0 sport 0))

abbrev pub or_else : Option ℕ → Option ℕ → Option ℕ
or_else none b = b
or_else (some a) b = some a

unfoldable pub tcp_sock_lookup : Stack → TcpCb → Option ℕ
unfolding tcp_sock_lookup_established tcp_sock_lookup_listen
tcp_sock_lookup s cb =
    or_else (tcp_sock_lookup_established s cb.daddr cb.saddr cb.dport cb.sport)
      (tcp_sock_lookup_listen s cb.dport)

unfoldable pub tcp_bind_hash : ℕ → Stack → Stack
unfolding tcp_hash_function
tcp_bind_hash t s =
    let i = tcp_hash_function 0 0 (s.socks t).sk_sport 0 in
    let hashed = record s { bind_table = put s.bind_table i (t ∷ s.bind_table i) } in
    change t (λ (k : TcpSock). record k { bind_hash_list = linked; ref_cnt = k.ref_cnt + 1 }) hashed

abbrev pub without : ℕ → List ℕ → List ℕ
without t ts = keep (λ u. not (u == t)) ts

-- `tcp_bind_unhash` and `tcp_unhash`, by the state of the list node. Neither writes the node it
-- takes out; a second deletion of it is not modelled further than the reference that it gives up.
unfoldable pub bind_unhash_node : Node → ℕ → Stack → Stack
bind_unhash_node zeroed t s = record s { fault = true }
bind_unhash_node alone t s = s
bind_unhash_node stale t s = change t free_tcp_sock s
bind_unhash_node linked t s =
    change t (λ (k : TcpSock). free_tcp_sock (record k { bind_hash_list = stale }))
      (record s { bind_table = λ i. without t (s.bind_table i) })

unfoldable pub tcp_bind_unhash : ℕ → Stack → Stack
unfolding bind_unhash_node
tcp_bind_unhash t s = bind_unhash_node (s.socks t).bind_hash_list t s

unfoldable pub unhash_node : Node → ℕ → Stack → Stack
unhash_node zeroed t s = record s { fault = true }
unhash_node alone t s = s
unhash_node stale t s = change t free_tcp_sock s
unhash_node linked t s =
    change t (λ (k : TcpSock). free_tcp_sock (record k { hash_list = stale }))
      (record s {
        established_table = λ i. without t (s.established_table i);
        listen_table = λ i. without t (s.listen_table i);
      })

unfoldable pub tcp_unhash : ℕ → Stack → Stack
unfolding unhash_node
tcp_unhash t s = unhash_node (s.socks t).hash_list t s

abbrev pub is_some : Option ℕ → Bool
is_some none = false
is_some (some t) = true

unfoldable pub tcp_port_in_use : Stack → ℕ → Bool
unfolding tcp_hash_function
tcp_port_in_use s sport =
    is_some
      (first (λ t. (s.socks t).sk_sport == sport) (s.bind_table (tcp_hash_function 0 0 sport 0)))

-- The loop of `tcp_get_port` with `n` ports to go.
unfoldable pub get_port_from : Stack → ℕ → ℕ → ℕ
unfolding tcp_port_in_use
get_port_from s zero port = 0
get_port_from s (suc n) port =
    let rest = get_port_from s n (port + 1) in if tcp_port_in_use s port then rest else port

unfoldable pub tcp_get_port : Stack → ℕ
unfolding get_port_from
tcp_get_port s = get_port_from s (port_max - port_min) port_min

-- `tcp_sock_set_sport`: the stack with the port taken, or none for -1.
unfoldable pub tcp_sock_set_sport : ℕ → ℕ → Stack → Option Stack
unfolding tcp_port_in_use tcp_get_port tcp_bind_hash
tcp_sock_set_sport t port s =
    let free = if port == 0 then tcp_get_port s else if tcp_port_in_use s port then 0 else port in
    if free == 0
    then none
    else some (tcp_bind_hash t (change t (λ (k : TcpSock). record k { sk_sport = free }) s))

abbrev pub link_hash : ℕ → Stack → Stack
link_hash t s =
    change t (λ (k : TcpSock). record k { hash_list = linked; ref_cnt = k.ref_cnt + 1 }) s

-- `tcp_hash`, by the state of the socket; a failure leaves the stack as it was.
unfoldable pub hash_established : ℕ → Stack → Stack
unfolding tcp_hash_function tcp_sock_lookup_established
hash_established t s =
    let k = s.socks t in
    let i = tcp_hash_function k.sk_sip k.sk_dip k.sk_sport k.sk_dport in
    if is_some (tcp_sock_lookup_established s k.sk_sip k.sk_dip k.sk_sport k.sk_dport)
    then s
    else link_hash t
        (record s { established_table = put s.established_table i (t ∷ s.established_table i) })

unfoldable pub hash_listen : ℕ → Stack → Stack
unfolding tcp_hash_function
hash_listen t s =
    let i = tcp_hash_function 0 0 (s.socks t).sk_sport 0 in
    link_hash t (record s { listen_table = put s.listen_table i (t ∷ s.listen_table i) })

unfoldable pub hash_by : TcpState → ℕ → Stack → Stack
unfolding hash_established hash_listen
hash_by tcp_closed t s = s
hash_by tcp_listen t s = hash_listen t s
hash_by _ t s = hash_established t s

unfoldable pub tcp_hash : ℕ → Stack → Stack
unfolding hash_by
tcp_hash t s = hash_by (s.socks t).state t s
