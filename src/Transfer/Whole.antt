-- ===== src/Transfer/Whole.antt =====
-- A buffer from `tcp_sock_write` of one side of a connection of 12-tcp_stack to the ring buffer of the
-- other.
use computer_net_ucas.Common.{true, List, []}
use computer_net_ucas.Ring.{Ring}
use computer_net_ucas.Transfer.{Peer}

-- A receiver that has kept no packet, in a list that has been initialised.
abbrev pub in_order : Peer → Peer
in_order r = record r { rcv_ofo_buf = []; ofo_ready = true }
