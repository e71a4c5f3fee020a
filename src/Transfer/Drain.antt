-- ===== src/Transfer/Drain.antt =====
-- The loop over the packets kept by `handle_rcv_data` of 12-tcp_stack/tcp_sock.c.
use computer_net_ucas.Common.{ℕ, ◌≡◌, none, some, List, arith}
use computer_net_ucas.Transfer.{Peer, deliver, take_next}

-- The packets kept are none at the sequence number that is expected.
abbrev pub IsDrained : Peer → Type 0
IsDrained r = take_next r.rcv_nxt r.rcv_ofo_buf ≡ none

deliver-kept : (bs : List ℕ) (r r' : Peer) → deliver bs r ≡ some r' → r'.rcv_ofo_buf ≡ r.rcv_ofo_buf
unfolding deliver
deliver-kept bs r r' e = ground arith
