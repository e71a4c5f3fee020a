-- ===== src/Transfer/Tests.antt =====
-- The transfer of 12-tcp_stack: four bytes that arrive in two packets, the second first, with sequence
-- numbers that wrap round.
use computer_net_ucas.Common.{ℕ, ◌+◌, ◌%◌, ◌≡◌, true, List, [], ◌∷◌, ◌++◌, replicate, arith}
use computer_net_ucas.Word.{u32_mod}
use computer_net_ucas.Ring.{Ring, alloc_ring_buffer}
use computer_net_ucas.Transfer.{DataPacket, Peer, Reply, tcp_sock_write}
use computer_net_ucas.Transfer.Deliver.{Event, arrive, read}
use computer_net_ucas.Transfer.Segments.{Follow, joined, tcp_sock_write-joined}

abbrev stream : List ℕ
stream = 5 ∷ 6 ∷ 7 ∷ 8 ∷ []

abbrev base : ℕ
base = 4294967294

abbrev ring : Ring
ring = record { size = 10; head = 0; tail = 0; buf = replicate 10 0 }

abbrev receiver : Peer
receiver = record {
  snd_una = 0;
  snd_nxt = 70;
  snd_wnd = 0;
  rcv_nxt = base;
  sleep = true;
  rcv_buf = ring;
  rcv_ofo_buf = [];
  ofo_ready = true;
  send_buf = [];
}

abbrev front_packet : DataPacket
front_packet = record { seq = base; ack = 70; payload = 5 ∷ 6 ∷ [] }

abbrev back_packet : DataPacket
back_packet = record { seq = 0; ack = 70; payload = 7 ∷ 8 ∷ [] }

abbrev keep_all : List DataPacket → ℕ → List DataPacket
keep_all ps n = ps

abbrev events : List Event
events = arrive back_packet ∷ read 9 ∷ arrive front_packet ∷ read 3 ∷ []

abbrev after : List ℕ × Peer
after = (
  5 ∷ 6 ∷ 7 ∷ [],
  record receiver {
    snd_una = 69;
    rcv_nxt = 2;
    rcv_buf = record { size = 10; head = 3; tail = 4; buf = 5 ∷ 6 ∷ 7 ∷ 8 ∷ replicate 6 0 };
  },
)

abbrev waiting : Peer
waiting = record receiver { rcv_ofo_buf = back_packet ∷ [] }

abbrev taken : List Reply × Peer
taken = (
  Reply.tcp_ack 70 2 ∷ Reply.wake_recv ∷ [],
  record receiver {
    snd_una = 69;
    rcv_nxt = 2;
    rcv_buf = record { size = 10; head = 0; tail = 4; buf = 5 ∷ 6 ∷ 7 ∷ 8 ∷ replicate 6 0 };
  },
)

abbrev sender : Peer
sender = record receiver { snd_nxt = base; rcv_nxt = 70 }

abbrev push_back : List DataPacket → DataPacket → List DataPacket
push_back ps p = ps ++ (p ∷ [])

tcp_sock_write-joined_example :
    Follow stream base 0 (tcp_sock_write push_back stream sender).0
    × (joined (tcp_sock_write push_back stream sender).0 ≡ stream)
    × ((tcp_sock_write push_back stream sender).1.snd_nxt ≡ (base + 4) % u32_mod)
tcp_sock_write-joined_example =
    tcp_sock_write-joined push_back stream sender (omega arith) (omega arith) (omega arith)
