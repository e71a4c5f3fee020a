-- ===== src/Tcp.antt =====
-- 10-tcp_stack: the TCP stack with tcp_sock.c, tcp_out.c, tcp_in.c and tcp_timer.c. Sockets live in a
-- store and are known by their address in it; the three hash tables are functions from the bucket to
-- the list of sockets in it. What is sent and who is woken is appended to a log. The code runs
-- without optimisation and tcp_process holds no lock; one call of it is one step here.
pub mod Table
pub mod Process
pub mod Socket
pub mod Window
pub mod Machine
pub mod Wire
pub mod Arrows
pub mod Core
pub mod Handshake
mod Tests
use Prim.Native.Nat.{bit_and}
use computer_net_ucas.Common.{
  ℕ, zero, suc, ◌+◌, ◌-◌, ◌%◌, ◌^◌, Bool, true, false, Option, none, some, List, [], ◌∷◌, ◌++◌, ltb,
  ◌==◌, if◌then◌else◌, not, ◌||◌,
}
use computer_net_ucas.Word.{u32_mod, add32, sub32}

-- `enum tcp_state`, in the order of the source.
pub data TcpState : Type 0 where
  tcp_closed tcp_listen tcp_syn_recv tcp_syn_sent tcp_established tcp_close_wait tcp_last_ack
        tcp_fin_wait_1 tcp_fin_wait_2 tcp_closing tcp_time_wait :
      TcpState

-- A list node in a socket: all zero after `memset`, its own neighbour after `init_list_head`, in a
-- list, or taken out of one with its pointers left as they were.
pub data Node : Type 0 where
  zeroed alone linked stale : Node

abbrev pub tcp_fin : ℕ
tcp_fin = 0x01

abbrev pub tcp_syn : ℕ
tcp_syn = 0x02

abbrev pub tcp_rst : ℕ
tcp_rst = 0x04

abbrev pub tcp_ack : ℕ
tcp_ack = 0x10

-- `struct tcp_sock`, without the fields that no code of this version uses.
-- The node `list` is not kept: it stands in the queue of the parent that names the socket.
pub record TcpSock : Type 0 where
  pub sk_sip : ℕ
  pub sk_sport : ℕ
  pub sk_dip : ℕ
  pub sk_dport : ℕ
  pub parent : Option ℕ
  pub ref_cnt : ℕ
  pub hash_list : Node
  pub bind_hash_list : Node
  pub listen_queue : List ℕ
  pub accept_queue : List ℕ
  pub accept_backlog : ℕ
  pub backlog : ℕ
  pub state : TcpState
  pub iss : ℕ
  pub snd_una : ℕ
  pub snd_nxt : ℕ
  pub rcv_nxt : ℕ
  pub rcv_wnd : ℕ
  pub timeout : ℕ
  pub enable : ℕ
  pub freed : Bool

-- `struct tcp_cb`, without the pointers to the headers; `pl_len` is the pattern of an int.
pub record TcpCb : Type 0 where
  pub saddr : ℕ
  pub daddr : ℕ
  pub sport : ℕ
  pub dport : ℕ
  pub seq : ℕ
  pub seq_end : ℕ
  pub ack : ℕ
  pub rwnd : ℕ
  pub flags : ℕ
  pub payload : List ℕ
  pub pl_len : ℕ

-- The header of a packet without data.
pub record Segment : Type 0 where
  pub saddr : ℕ
  pub daddr : ℕ
  pub sport : ℕ
  pub dport : ℕ
  pub seq : ℕ
  pub ack : ℕ
  pub flags : ℕ
  pub rwnd : ℕ

pub data Out : Type 0 where
  segment : Segment → Out
  wake_accept wake_connect : ℕ → Out

-- `struct tcp_hash_table`, the timer list, the store of sockets and the next free address in it.
-- `fault` is set where the code follows a null pointer.
pub record Stack : Type 0 where
  pub socks : ℕ → TcpSock
  pub next : ℕ
  pub established_table : ℕ → List ℕ
  pub listen_table : ℕ → List ℕ
  pub bind_table : ℕ → List ℕ
  pub timer_list : List ℕ
  pub log : List Out
  pub fault : Bool

abbrev pub put {ℓ} : {A : Type ℓ} → (ℕ → A) → ℕ → A → ℕ → A
put f i v j = if j == i then v else f j

-- A change of one socket.
abbrev pub change : ℕ → (TcpSock → TcpSock) → Stack → Stack
change t f s = record s { socks = put s.socks t (f (s.socks t)) }

abbrev pub say : Out → Stack → Stack
say o s = record s { log = s.log ++ (o ∷ []) }

abbrev pub tcp_set_state : TcpState → TcpSock → TcpSock
tcp_set_state state t = record t { state = state }

-- `less_than_32b` and its kin: the difference of two `int32_t`, as the machine wraps it.
abbrev pub less_than_32b : ℕ → ℕ → Bool
less_than_32b a b = not (ltb (sub32 a b) (2 ^ 31))

abbrev pub less_or_equal_32b : ℕ → ℕ → Bool
less_or_equal_32b a b = (sub32 a b == 0) || less_than_32b a b

abbrev pub has_flag : ℕ → ℕ → Bool
has_flag flags flag = not (bit_and flags flag == 0)

-- `tcp_send_control_packet`.
unfoldable pub tcp_send_control_packet : ℕ → ℕ → Stack → Stack
tcp_send_control_packet t flags s =
    let k = s.socks t in
    let sent : Segment = record {
      saddr = k.sk_sip;
      daddr = k.sk_dip;
      sport = k.sk_sport;
      dport = k.sk_dport;
      seq = k.snd_nxt;
      ack = k.rcv_nxt;
      flags = flags;
      rwnd = k.rcv_wnd;
    } in
    let counted =
      change t
        (λ (x : TcpSock). record x {
          snd_nxt = if has_flag flags (tcp_syn + tcp_fin) then add32 x.snd_nxt 1 else x.snd_nxt;
        })
        s in
    say (segment sent) counted

-- `tcp_send_reset`.
unfoldable pub tcp_send_reset : TcpCb → Stack → Stack
tcp_send_reset cb s =
    say
      (segment (record {
        saddr = cb.daddr;
        daddr = cb.saddr;
        sport = cb.dport;
        dport = cb.sport;
        seq = 0;
        ack = cb.seq_end;
        flags = tcp_rst + tcp_ack;
        rwnd = 0;
      }))
      s

-- `alloc_tcp_sock`: a new socket and its address.
abbrev pub alloc_tcp_sock : TcpSock
alloc_tcp_sock = record {
  sk_sip = 0;
  sk_sport = 0;
  sk_dip = 0;
  sk_dport = 0;
  parent = none;
  ref_cnt = 0;
  hash_list = zeroed;
  bind_hash_list = zeroed;
  listen_queue = [];
  accept_queue = [];
  accept_backlog = 0;
  backlog = 0;
  state = tcp_closed;
  iss = 0;
  snd_una = 0;
  snd_nxt = 0;
  rcv_nxt = 0;
  rcv_wnd = 65535;
  timeout = 0;
  enable = 0;
  freed = false;
}

-- `free_tcp_sock`; `ref_cnt` is the pattern of an int.
abbrev pub free_tcp_sock : TcpSock → TcpSock
free_tcp_sock t =
    let n = sub32 t.ref_cnt 1 in
    record t { ref_cnt = n; freed = t.freed || (n == 0) || not (ltb n (2 ^ 31)) }
