-- ===== src/Transfer.antt =====
-- 12-tcp_stack: the transfer of a file over a connection, `tcp_sock_read`, `tcp_sock_write` and
-- `handle_rcv_data` of tcp_sock.c with `tcp_send_packet` of tcp_out.c. A packet is its sequence
-- number, its acknowledgement number and its data. The functions `tcp_sndbuf_push` and
-- `delete_send_buf` are only called in the source, not defined: they are arguments; the lock `rb_lock`
-- of the ring buffer is not defined either and left out. A call is one step; `none` is a crash: the
-- abort of the assertion in `write_ring_buffer`, or a null pointer that is followed.
pub mod Pieces
pub mod Deliver
pub mod Segments
pub mod Drain
pub mod Whole
mod Tests
use computer_net_ucas.Common.{
  ℕ, zero, suc, ◌+◌, ◌-◌, Bool, true, false, Option, none, some, List, [], ◌∷◌, ◌++◌, ltb, ◌==◌,
  if◌then◌else◌, length, take, drop,
}
use computer_net_ucas.Word.{add32, sub32}
use computer_net_ucas.Ring.{Ring, write_ring_buffer, read_ring_buffer, ring_buffer_empty}
use computer_net_ucas.Tcp.{less_than_32b}

-- A packet with data: the fields of `tcp_cb` that are read here. The packets in the two buffers have
-- the same fields; `struct recv_buffer`, in which one of them keeps its packets, is not in the
-- repository.
pub record DataPacket : Type 0 where
  pub seq : ℕ
  pub ack : ℕ
  pub payload : List ℕ

-- The part of `struct tcp_sock` for data; `sleep` is that of `wait_recv`. `ofo_ready` tells whether
-- `init_list_head` has been called on `rcv_ofo_buf`; without it the head is all zero, as
-- `alloc_tcp_sock` leaves it, and a walk or an insertion follows a null pointer.
pub record Peer : Type 0 where
  pub snd_una : ℕ
  pub snd_nxt : ℕ
  pub snd_wnd : ℕ
  pub rcv_nxt : ℕ
  pub sleep : Bool
  pub rcv_buf : Ring
  pub rcv_ofo_buf : List DataPacket
  pub ofo_ready : Bool
  pub send_buf : List DataPacket

-- A control packet with its sequence and acknowledgement number, or a call of `wake_up`.
pub data Reply : Type 0 where
  tcp_ack : ℕ → ℕ → Reply
  wake_recv : Reply

-- Data that goes to the ring buffer, and `rcv_nxt` after it.
unfoldable pub deliver : List ℕ → Peer → Option Peer
unfolding write_ring_buffer
deliver bytes r = elim (write_ring_buffer r.rcv_buf bytes) [
  | none ↦ none
  | some b ↦ some (record r { rcv_buf = b; rcv_nxt = add32 r.rcv_nxt (length bytes) })
]

-- The walk of the inner loop: the first packet at a sequence number, and the list without it.
unfoldable pub take_next : ℕ → List DataPacket → Option (DataPacket × List DataPacket)
take_next seq [] = none
take_next seq (p ∷ ps) =
    let rest = take_next seq ps in
    if p.seq == seq
    then some (p, ps)
    else elim rest [ none ↦ none | some (q, qs) ↦ some (q, p ∷ qs) ]

-- The outer loop. Each round takes a packet out of the list, so its length is fuel enough.
unfoldable pub drain : ℕ → Peer → Option Peer
unfolding deliver take_next
drain zero r = some r
drain (suc fuel) r = elim (take_next r.rcv_nxt r.rcv_ofo_buf) [
  | none ↦ some r
  | some (p, ps) ↦ elim (deliver p.payload r) [
    | none ↦ none
    | some r' ↦ drain fuel (record r' { rcv_ofo_buf = ps })
  ]
]

abbrev pub replies : Peer → List Reply
replies r = tcp_ack r.snd_nxt r.rcv_nxt ∷ (if r.sleep then wake_recv ∷ [] else [])

-- The loop at the head of the list of kept packets.
abbrev pub drained : Peer → Option Peer
drained r = if r.ofo_ready then drain (length r.rcv_ofo_buf) r else none

-- What `handle_rcv_data` does before its last two lines.
unfoldable pub receive : DataPacket → Peer → Option (List Reply × Peer)
unfolding deliver drain
receive p r =
    if p.seq == r.rcv_nxt
    then elim (deliver p.payload r) [
      | none ↦ none
      | some r' ↦ elim (drained r') [ none ↦ none | some t ↦ some (replies t, t) ]
    ]
    else if less_than_32b r.rcv_nxt p.seq
    then if r.ofo_ready
      then some ([], record r { rcv_ofo_buf = r.rcv_ofo_buf ++ (p ∷ []) })
      else none
    else some (tcp_ack r.snd_nxt r.rcv_nxt ∷ [], r)

abbrev pub acknowledged : (List DataPacket → ℕ → List DataPacket) → ℕ → Peer → Peer
acknowledged delete_send_buf ack r = record r {
  snd_una = sub32 ack 1;
  send_buf = delete_send_buf r.send_buf ack;
}

unfoldable pub handle_rcv_data :
    (List DataPacket → ℕ → List DataPacket) → DataPacket → Peer → Option (List Reply × Peer)
unfolding receive
handle_rcv_data delete_send_buf p r = elim (receive p r) [
  | none ↦ none
  | some (out, t) ↦ some (out, acknowledged delete_send_buf p.ack t)
]

-- `tcp_sock_read`: the bytes read; none is to sleep. The `wake_up` at its end is left out.
unfoldable pub tcp_sock_read : ℕ → Peer → Option (List ℕ × Peer)
unfolding ring_buffer_empty read_ring_buffer
tcp_sock_read len r =
    if ring_buffer_empty r.rcv_buf
    then none
    else (let (n, bytes, b) = read_ring_buffer r.rcv_buf len in
        some (bytes, record r { rcv_buf = b }))

-- `tcp_send_packet`: the packet, and the socket after it.
unfoldable pub tcp_send_packet :
    (List DataPacket → DataPacket → List DataPacket) → List ℕ → Peer → DataPacket × Peer
tcp_send_packet tcp_sndbuf_push bytes r =
    let p : DataPacket = record { seq = r.snd_nxt; ack = r.rcv_nxt; payload = bytes } in
    (
      p,
      record r {
        snd_nxt = add32 r.snd_nxt (length bytes);
        snd_wnd = sub32 r.snd_wnd (length bytes);
        send_buf = tcp_sndbuf_push r.send_buf p;
      },
    )

-- `data_len`: 1514 less the three headers.
abbrev pub data_len : ℕ
data_len = 1460

-- The loop of `tcp_sock_write` and the packet after it, for at most `fuel` rounds; `seq` is `snd_nxt`
-- before the first, and `len` what is left of the buffer.
unfoldable pub write_from :
    (List DataPacket → DataPacket → List DataPacket)
    → ℕ
    → List ℕ
    → ℕ
    → ℕ
    → Peer
    → List DataPacket × Peer
unfolding tcp_send_packet
write_from push zero buf seq len r =
    let (p, r') = tcp_send_packet push (take len (drop (sub32 r.snd_nxt seq) buf)) r in (p ∷ [], r')
write_from push (suc fuel) buf seq len r =
    let size = if ltb data_len len then data_len else len in
    let (p, r') = tcp_send_packet push (take size (drop (sub32 r.snd_nxt seq) buf)) r in
    let (ps, t) = write_from push fuel buf seq (len - data_len) r' in
    if ltb data_len len then (p ∷ ps, t) else (p ∷ [], r')

-- `len` is an `int`: the buffer is shorter than 2 ^ 31 bytes.
unfoldable pub tcp_sock_write :
    (List DataPacket → DataPacket → List DataPacket) → List ℕ → Peer → List DataPacket × Peer
unfolding write_from
tcp_sock_write push buf r = write_from push (length buf) buf r.snd_nxt (length buf) r
